-- ===== src/System/Custody.antt =====
-- The tokens of eosio.stake over contracts/eosio.system/src/delegate_bandwidth.cpp, and the limits
-- that contracts/eosio.system/src/eosio.system.cpp manages.
use telos_arbitration_fix.Prelude.{
  ℕ, ◌-◌, ◌/◌, ◌%◌, ◌≡◌, refl, inl, inr, true, false, none, some, ◌==◌, arith, Option-cases,
  Bool-cases,
}
use telos_arbitration_fix.Eosio.{ok, find, modify, find-modify, Name}
use telos_arbitration_fix.System.{VoterInfo, State, Chain}
use telos_arbitration_fix.System.Limits.{
  Accounts, net_managed, cpu_managed, has_field, set_field, is_managed,
}
use telos_arbitration_fix.System.Managed.{set_flag, setacctnet, setacctcpu}

lower : (f : ℕ) → f / 4 % 2 ≡ 1 → (f - 4) / 4 % 2 ≡ 0
lower f h = omega arith

cleared : (flags : ℕ) → has_field (set_field flags 4 false) 4 ≡ false
unfolding has_field set_field
cleared flags = elim (Bool-cases (flags / 4 % 2 == 1)) [
  | inl h ↦ rw (set_field, h) (rw (lower flags (ground (arith, h))) refl)
  | inr h ↦ rw (set_field, h) h
]

setacctnet-stays :
    (c : Chain) (account : Name) (a n : Accounts)
    → setacctnet c account none a ≡ ok n
    → is_managed net_managed account n.system ≡ true
unfolding setacctnet
setacctnet-stays c account a n e = elim (Bool-cases (is_managed net_managed account a.system)) [
  | inr h ↦ absurd (ground (arith, h))
  | inl h ↦ let kept : n.system ≡ a.system = ground (arith, h) in rw (kept) h
]

unmanaged :
    (account : Name) (s : State) (v : VoterInfo)
    → find account s.voters ≡ some v
    → is_managed cpu_managed account (record s {
      voters = modify account (λ v. record v { flags1 = set_field v.flags1 4 false }) s.voters;
    })
      ≡ false
unfolding is_managed
unmanaged account s v h =
    let f = λ (v : VoterInfo). record v { flags1 = set_field v.flags1 4 false } in
    let row : find account (modify account f s.voters) ≡ some (f v) =
      ground (arith, h, find-modify account account f s.voters) in
    rw (is_managed, row) (cleared v.flags1)

setacctcpu-clears :
    (c : Chain) (account : Name) (a p : Accounts)
    → setacctcpu c account none a ≡ ok p
    → is_managed cpu_managed account p.system ≡ false
unfolding setacctcpu set_flag is_managed
setacctcpu-clears c account a p e = elim (Option-cases (find account a.system.voters)) [
  | inl h ↦ absurd (ground (arith, h))
  | inr (v, h) ↦
      let s = a.system in
      let f = λ (v : VoterInfo). record v { flags1 = set_field v.flags1 4 false } in
      let out : p.system ≡ record s { voters = modify account f s.voters } = ground (arith, h) in
      rw out (unmanaged account s v h)
]

-- Without a value `setacctnet` leaves the NET of the account managed, while `setacctcpu` without a
-- value makes its CPU unmanaged, each where it succeeds.
pub setacctnet-setacctcpu :
    (c : Chain) (account : Name) (a n p : Accounts)
    → setacctnet c account none a ≡ ok n
    → setacctcpu c account none a ≡ ok p
    → (is_managed net_managed account n.system ≡ true)
      × (is_managed cpu_managed account p.system ≡ false)
setacctnet-setacctcpu c account a n p e f =
    (setacctnet-stays c account a n e, setacctcpu-clears c account a p f)
