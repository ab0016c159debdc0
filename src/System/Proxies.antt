-- ===== src/System/Proxies.antt =====
-- `regproxy` and `recalculate_votes` of contracts/eosio.system/src/voting.cpp.
use telos_arbitration_fix.Prelude.{
  ℕ, Bool, true, false, not, ◌&&◌, ◌||◌, none, some, List, [], ◌∷◌, ◌==◌, if◌then◌else◌,
}
use telos_arbitration_fix.Prelude.Int.{pos}
use telos_arbitration_fix.Eosio.{
  Result, ok, check, or_fail, ◌>>=◌, ◌>>◌, Table, find, insert, modify, put, keys, Name,
}
use telos_arbitration_fix.System.{ProducerInfo, VoterInfo, State, Chain}
use telos_arbitration_fix.System.Floats.{at_most}
use telos_arbitration_fix.System.Voting.{update_votes, set_vote}

-- A voter as `emplace` makes it.
abbrev pub new_voter : Name → VoterInfo
new_voter owner = record {
  owner = owner;
  proxy = 0;
  producers = [];
  staked = pos 0;
  last_stake = pos 0;
  last_vote_weight = 0;
  proxied_vote_weight = 0;
  is_proxy = false;
  flags1 = 0;
}

-- The comparison with the old value is passed over, since a value that is true has failed before.
unfoldable pub regproxy : Chain → ℕ → Name → Bool → State → Result State
regproxy c depth proxy isproxy s = do
  check (not isproxy) "proxy voting is disabled"
  elim (find proxy s.voters) [
    | none ↦ ok (record s {
      voters = insert proxy (record (new_voter proxy) { is_proxy = isproxy }) s.voters;
    })
    | some v ↦ do
      check v.is_proxy "action has no effect"
      update_votes c depth proxy v.proxy v.producers true
          (record s { voters = modify proxy (λ p. record p { is_proxy = isproxy }) s.voters })
  ]

-- `processed_proxies`, whose rows start at false.
abbrev processed : Name → Table Bool → Bool
processed n t = elim (find n t) [ none ↦ false | some b ↦ b ]

abbrev forget_vote : VoterInfo → VoterInfo
forget_vote v = record (set_vote 0 (pos 0) v) { proxied_vote_weight = 0 }

-- One round of the loop over the voters.
unfoldable pub recount : Chain → ℕ → Name → Table Bool × State → Result (Table Bool × State)
recount c depth name (done, s) = do
  voter ← or_fail (find name s.voters) "unable to find key"
  (done₁, s₁) ←
      if not (voter.proxy == 0) && not (processed voter.proxy done)
      then (do
        _ ← or_fail (find voter.proxy s.voters) "cannot pass end iterator to modify"
        ok (
          put voter.proxy true done,
          record s { voters = modify voter.proxy forget_vote s.voters },
        ))
      else ok (done, s)
  let again = not voter.is_proxy || not (processed voter.owner done₁)
  let done₂ = if again then put voter.owner true done₁ else done₁
  let s₂ = if again then record s₁ { voters = modify name forget_vote s₁.voters } else s₁
  s₃ ← update_votes c depth voter.owner voter.proxy voter.producers true s₂
  ok (done₂, s₃)

unfoldable pub recount_all :
    Chain → ℕ → List Name → Table Bool × State → Result (Table Bool × State)
unfolding recount
recount_all c depth [] s = ok s
recount_all c depth (n ∷ ns) s = do s₁ ← recount c depth n s; recount_all c depth ns s₁

abbrev no_votes : Table ProducerInfo → Table ProducerInfo
no_votes [] = []
no_votes ((k, p) ∷ t) = (k, record p { total_votes = 0 }) ∷ no_votes t

-- The double -0.1
abbrev threshold : ℕ
threshold = 13815242216921733530

unfoldable pub recalculate_votes : Chain → ℕ → State → Result State
unfolding recount_all
recalculate_votes c depth s =
    if at_most s.gstate.total_producer_vote_weight threshold
    then (do
      let g = s.gstate
      (_, s₁) ← recount_all c depth (keys s.voters) (
        [],
        record s {
          gstate = record g { total_producer_vote_weight = 0; total_activated_stake = pos 0 };
          producers = no_votes s.producers;
        },
      )
      ok s₁)
    else ok s
