-- ===== src/System/Penalty.antt =====
-- When a producer that was kicked may register again.
use telos_arbitration_fix.Prelude.{
  ℕ, ◌+◌, ◌*◌, ◌/◌, ◌^◌, ◌<◌, ◌≡◌, refl, ap, ◌∙◌, inl, inr, Bool, true, false, not, ◌&&◌, some,
  String, ◌==◌, ltb, arith, Option-cases,
}
use Prim.Native.String.{len}
use telos_arbitration_fix.Eosio.{Result, ok, err, find, find-modify, Name}
use telos_arbitration_fix.System.{ProducerInfo, State, Chain}
use telos_arbitration_fix.System.Producers.{
  kick, bps_voting, register_again, regproducer, votebpout, penalty_expiration, hour_us,
}

-- A slot has half a second.
pub record IsClock (c : Chain) : Type 0 where
  pub advance :
      (slot us : ℕ)
      → slot + us / 500000 < 2 ^ 32
      → c.to_slot (c.to_time_point slot + us) ≡ slot + us / 500000

abbrev pub is_ok {ℓ} : {A : Type ℓ} → Result A → Bool
is_ok (ok _) = true
is_ok (err _) = false

-- The row of a producer that was voted out.
votebpout-find :
    (c : Chain) (bp : Name) (hours : ℕ) (s s' : State)
    → votebpout c bp hours s ≡ ok s'
    → (p : ProducerInfo) × (find bp s'.producers ≡ some p)
      × (p.last_time_kicked ≡ c.to_slot c.host.now_us)
      × (p.kick_penalty_hours ≡ hours)
unfolding votebpout kick
votebpout-find c bp hours s s' done = elim (Option-cases (find bp s.producers)) [
  | inl e ↦ absurd (ground arith)
  | inr (p, e) ↦ (
    kick c bps_voting hours p,
    ground (arith, e, find-modify bp bp (kick c bps_voting hours) s.producers),
    refl,
    refl,
  )
]

regproducer-is_ok :
    (c : Chain) (producer : Name) (key location : ℕ) (url : String) (s : State) (p : ProducerInfo)
    → find producer s.producers ≡ some p
    → is_ok (regproducer c producer key url location s) ≡ (
        ltb (len url) 512
        && not (key == 0)
        && c.host.has_auth producer
        && ltb (penalty_expiration c p) (c.to_slot c.host.now_us))
unfolding regproducer register_again
regproducer-is_ok c producer key location url s p e = ground arith

penalty_expiration_lem :
    (d : Chain) (p : ProducerInfo) (slot hours : ℕ)
    → IsClock d
    → p.last_time_kicked ≡ slot
    → p.kick_penalty_hours ≡ hours
    → slot + hours * 7200 < 2 ^ 32
    → penalty_expiration d p ≡ slot + hours * 7200
penalty_expiration_lem d p slot hours clock at penalty range =
    let whole : hours * 3600000000 / 500000 ≡ hours * 7200 = omega arith in
    ap (λ x. d.to_slot (d.to_time_point x + p.kick_penalty_hours * hour_us)) at
    ∙ ap (λ x. d.to_slot (d.to_time_point slot + x * hour_us)) penalty
    ∙ clock.advance slot (hours * hour_us) (omega (arith, whole))
    ∙ ap (λ x. slot + x) whole

-- After a producer was voted out for a number of hours, at a slot from which these hours do not
-- exceed 32 bits, a registration on a chain with a documented clock succeeds exactly if its url is
-- shorter than 512, its key is not the default key, the producer authorises it, and the slot is
-- greater than that of the vote by more than 7200 for each hour.
pub votebpout-regproducer :
    (c d : Chain) (bp : Name) (hours key location : ℕ) (url : String) (s s' : State)
    → IsClock d
    → votebpout c bp hours s ≡ ok s'
    → c.to_slot c.host.now_us + hours * 7200 < 2 ^ 32
    → is_ok (regproducer d bp key url location s') ≡ (
        ltb (len url) 512
        && not (key == 0)
        && d.host.has_auth bp
        && ltb (c.to_slot c.host.now_us + hours * 7200) (d.to_slot d.host.now_us))
votebpout-regproducer c d bp hours key location url s s' clock done range =
    let (p, there, at, penalty) = votebpout-find c bp hours s s' done in
    let expires =
      penalty_expiration_lem d p (c.to_slot c.host.now_us) hours clock at penalty range in
    rw (regproducer-is_ok d bp key location url s' p there, expires) refl
