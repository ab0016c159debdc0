-- ===== src/System/Voting.antt =====
-- The votes of contracts/eosio.system/src/voting.cpp: the weight of a vote, what a vote changes, and
-- the proxies. A row that the code reads through an iterator is looked up where it is read.
use telos_arbitration_fix.Prelude.{
  ℕ, zero, suc, Bool, true, false, not, ◌&&◌, ◌||◌, none, some, List, [], ◌∷◌, ◌==◌, ltb, leb,
  if◌then◌else◌, length,
}
use telos_arbitration_fix.Prelude.Int.{ℤ, pos, ◌+ℤ◌, ◌-ℤ◌, ltb_ℤ, eqb_ℤ}
use telos_arbitration_fix.Eosio.{
  Result, ok, err, check, or_fail, ◌>>=◌, ◌>>◌, Table, find, modify, put, Name,
}
use telos_arbitration_fix.System.{ProducerInfo, VoterInfo, State, Chain}
use telos_arbitration_fix.System.Floats.{less, at_most}

-- MAX_VOTE_PRODUCERS
abbrev pub max_vote_producers : ℕ
max_vote_producers = 30

-- The literals 1, 2 and 30 are converted.
unfoldable pub inverse_vote_weight : Chain → ℤ → ℕ → ℕ
inverse_vote_weight c staked amount_voted_producers =
    let percent_voted =
      c.double_div (c.double_of (pos amount_voted_producers))
        (c.double_of (pos max_vote_producers)) in
    let sine = c.double_sin (c.double_sub (c.double_mul c.pi percent_voted) c.half_pi) in
    let vote_weight =
      c.double_div (c.double_add sine (c.double_of (pos 1))) (c.double_of (pos 2)) in
    if amount_voted_producers == 0 then 0 else c.double_mul vote_weight (c.double_of staked)

-- `totalStaked`: the sum of an int64_t and a double becomes an int64_t again.
unfoldable pub total_staked : Chain → VoterInfo → ℤ
total_staked c v =
    if v.is_proxy
    then c.int64_of (c.double_add (c.double_of v.staked) v.proxied_vote_weight)
    else v.staked

-- The producers are unique and sorted.
unfoldable pub ascending : List Name → Bool
ascending [] = true
ascending (p ∷ []) = true
ascending (p ∷ q ∷ ps) = let rest = ascending (q ∷ ps) in ltb p q && rest

unfoldable pub validate : Name → Name → List Name → Result Bool
unfolding ascending
validate voter_name proxy producers =
    if proxy == 0
    then (do
      check (leb (length producers) 30) "attempt to vote for too many producers"
      check (ascending producers) "producer votes must be unique and sorted"
      ok true)
    else (do
      check (length producers == 0) "cannot vote for producers and proxy at same time"
      check (not (voter_name == proxy)) "cannot proxy to self"
      ok true)

abbrev pub add_activated : ℤ → State → State
add_activated delta s =
    let g = s.gstate in
    record s { gstate = record g { total_activated_stake = g.total_activated_stake +ℤ delta } }

-- The change of a producer's votes and of their total.
abbrev pub add_weight : Chain → ℕ → State → State
add_weight c delta s =
    let g = s.gstate in
    record s {
      gstate = record g {
        total_producer_vote_weight = c.double_add g.total_producer_vote_weight delta;
      };
    }

-- The loop of `propagate_weight_change` over the producers of a proxy.
unfoldable pub add_delta : Chain → ℕ → List Name → State → Result State
add_delta c delta [] s = ok s
add_delta c delta (p ∷ ps) s = do
  _ ← or_fail (find p s.producers) "producer not found"
  add_delta c delta ps (
      add_weight c delta (record s {
        producers =
            modify p (λ a. record a { total_votes = c.double_add a.total_votes delta }) s.producers;
      }))

abbrev pub set_vote : ℕ → ℤ → VoterInfo → VoterInfo
set_vote weight stake v = record v { last_vote_weight = weight; last_stake = stake }

-- It calls itself for the proxy of a proxy; the fuel is the depth of calls that the chain allows.
unfoldable pub propagate_weight_change : Chain → ℕ → Name → State → Result State
unfolding total_staked inverse_vote_weight add_delta
propagate_weight_change c zero name s = err "call depth exceeded"
propagate_weight_change c (suc depth) name s = do
  voter ← or_fail (find name s.voters) "unable to find key"
  check (voter.proxy == 0 || not voter.is_proxy)
      "account registered as a proxy is not allowed to use a proxy"
  let total_stake = total_staked c voter
  let new_weight = inverse_vote_weight c total_stake (length voter.producers)
  let delta = c.double_sub new_weight voter.last_vote_weight
  let deeper = record s {
    voters =
        modify voter.proxy
          (λ p. record p {
            proxied_vote_weight =
                c.double_add p.proxied_vote_weight (c.double_of (total_stake -ℤ voter.last_stake));
          })
          s.voters;
  }
  let moved = propagate_weight_change c depth voter.proxy deeper
  s₁ ←
      if voter.proxy == 0
      then add_delta c delta voter.producers s
      else (if eqb_ℤ voter.last_stake total_stake
          then ok s
          else (do _ ← or_fail (find voter.proxy s.voters) "proxy not found"; moved))
  ok (record s₁ { voters = modify name (set_vote new_weight total_stake) s₁.voters })

-- `producer_deltas`, a map that is sorted by the names, whose rows start at 0 and false.
abbrev pub Deltas : Type 0
Deltas = Table (ℕ × Bool)

abbrev pub delta_of : Name → Deltas → ℕ
delta_of p d = elim (find p d) [ none ↦ 0 | some (x, _) ↦ x ]

unfoldable pub subtract_old : Chain → ℕ → List Name → Deltas → Deltas
subtract_old c weight [] d = d
subtract_old c weight (p ∷ ps) d =
    subtract_old c weight ps (put p (c.double_sub (delta_of p d) weight, false) d)

unfoldable pub add_new : Chain → ℕ → List Name → Deltas → Deltas
add_new c weight [] d = d
add_new c weight (p ∷ ps) d =
    add_new c weight ps (put p (c.double_add (delta_of p d) weight, true) d)

-- The block on a voter from the second vote on.
unfoldable pub leave_old : Chain → ℕ → Name → Name → ℤ → State → Result (Deltas × State)
unfolding propagate_weight_change subtract_old
leave_old c depth voter_name proxy stake s = do
  voter ← or_fail (find voter_name s.voters) "unable to find key"
  let lowered = record s {
    voters =
        modify voter.proxy
          (λ vp. record vp {
            proxied_vote_weight =
                c.double_sub vp.proxied_vote_weight (c.double_of voter.last_stake);
          })
          s.voters;
  }
  let moved =
      propagate_weight_change c depth voter.proxy
        (add_activated (stake -ℤ voter.last_stake) lowered)
  if not (ltb_ℤ (pos 0) voter.last_stake)
      then ok ([], s)
      else (if voter.proxy == 0
          then ok (subtract_old c voter.last_vote_weight voter.producers [], s)
          else (do
            _ ← or_fail (find voter.proxy s.voters) "old proxy not found"
            if proxy == voter.proxy then ok ([], lowered) else (do s₁ ← moved; ok ([], s₁))))

-- The block on the new proxy or the new producers.
unfoldable pub enter_new :
    Chain → ℕ → Name → Name → List Name → Bool → ℤ → ℕ → Deltas × State → Result (Deltas × State)
unfolding propagate_weight_change add_new
enter_new c depth voter_name proxy producers voting stake weight (deltas, s) = do
  voter ← or_fail (find voter_name s.voters) "unable to find key"
  let raised = record s {
    voters =
        modify proxy
          (λ vp. record vp {
            proxied_vote_weight = c.double_add vp.proxied_vote_weight (c.double_of voter.staked);
          })
          s.voters;
  }
  let moved =
      propagate_weight_change c depth proxy (add_activated (stake -ℤ voter.last_stake) raised)
  if proxy == 0
      then ok (if at_most 0 weight then add_new c weight producers deltas else deltas, s)
      else (do
        new_proxy ← or_fail (find proxy s.voters) "invalid proxy specified"
        check (not voting || new_proxy.is_proxy) "proxy not found"
        if less 0 new_proxy.last_vote_weight
            then (do s₁ ← moved; ok (deltas, s₁))
            else ok (deltas, raised))

-- Floating point arithmetics can give small negative numbers.
abbrev pub add_votes : Chain → ℕ → ProducerInfo → ProducerInfo
add_votes c delta p =
    let total = c.double_add p.total_votes delta in
    record p { total_votes = if less total 0 then 0 else total }

-- The loop over the deltas.
unfoldable pub apply_deltas : Chain → Bool → Deltas → State → Result State
apply_deltas c voting [] s = ok s
apply_deltas c voting ((name, (delta, is_new)) ∷ ds) s = elim (find name s.producers) [
  | none ↦ do check (not is_new) "producer is not registered"; apply_deltas c voting ds s
  | some p ↦ do
    check (not (voting && not p.is_active && is_new)) "producer is not currently registered"
    apply_deltas c voting ds
        (add_weight c delta (record s { producers = modify name (add_votes c delta) s.producers }))
]

abbrev pub record_vote : ℕ → ℤ → List Name → Name → VoterInfo → VoterInfo
record_vote weight stake producers proxy v = record v {
  last_vote_weight = weight;
  last_stake = stake;
  producers = producers;
  proxy = proxy;
}

-- The stake that a vote counts: none, where the voter takes all votes back.
unfoldable pub counted_stake : Chain → Name → List Name → Bool → VoterInfo → ℤ
unfolding total_staked
counted_stake c proxy producers voting v =
    if voting && proxy == 0 && length producers == 0 then pos 0 else total_staked c v

unfoldable pub update_votes : Chain → ℕ → Name → Name → List Name → Bool → State → Result State
unfolding validate counted_stake inverse_vote_weight leave_old enter_new apply_deltas
update_votes c depth voter_name proxy producers voting s = do
  _ ← validate voter_name proxy producers
  voter ← or_fail (find voter_name s.voters) "user must stake before they can vote"
  check (proxy == 0 || not voter.is_proxy)
      "account registered as a proxy is not allowed to use a proxy"
  let stake = counted_stake c proxy producers voting voter
  let weight = inverse_vote_weight c stake (length producers)
  let s₁ = if proxy == 0 && voter.proxy == 0 then add_activated (stake -ℤ voter.last_stake) s else s
  left ← leave_old c depth voter_name proxy stake s₁
  (deltas, s₂) ← enter_new c depth voter_name proxy producers voting stake weight left
  s₃ ← apply_deltas c voting deltas s₂
  ok (record s₃ { voters = modify voter_name (record_vote weight stake producers proxy) s₃.voters })
