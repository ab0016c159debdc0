-- ===== src/Arbitration/Endelection/Ties.antt =====
-- Who wins an election: the sort by votes and the treatment of ties.
use mathlib.Core.List.{Perm}
use mathlib.Core.List.Perm
use telos_arbitration_fix.Prelude.{
  ℕ, suc, zero, ◌+◌, ◌≤◌, ◌<◌, ◌≡◌, refl, ap, ◌∙◌, some, List, [], ◌∷◌, if◌then◌else◌, length,
  get_elem?, take, All, arith,
}
use telos_arbitration_fix.Prelude.Int.{ℤ, ltb_ℤ, ◌≤ℤ◌}
use telos_arbitration_fix.Trail.Voting.{Candidate}
use telos_arbitration_fix.Arbitration.Endelection.{
  votes_of, insert_candidate, sort_candidates, count_tied, resolve_ties,
}

abbrev pub AtMost : ℤ → List Candidate → Type 0
AtMost v = All (λ c. votes_of c ≤ℤ v)

abbrev pub AtLeast : ℤ → List Candidate → Type 0
AtLeast v = All (λ c. v ≤ℤ votes_of c)

-- No candidate has more votes than an earlier one.
abbrev pub Descending : List Candidate → Type 0
Descending [] = Unit
Descending (c ∷ cs) = AtMost (votes_of c) cs × Descending cs

-- The candidates with more votes than a number.
pub above : ℤ → List Candidate → List Candidate
above v [] = []
above v (c ∷ cs) = if ltb_ℤ v (votes_of c) then c ∷ above v cs else above v cs

AtMost-mono : (v w : ℤ) (cs : List Candidate) → v ≤ℤ w → AtMost v cs → AtMost w cs
AtMost-mono v w [] h a = tt
AtMost-mono v w (c ∷ cs) h a = (omega arith, AtMost-mono v w cs h a.1)

AtMost-insert :
    (v : ℤ) (c : Candidate) (cs : List Candidate)
    → votes_of c ≤ℤ v
    → AtMost v cs
    → AtMost v (insert_candidate c cs)
unfolding insert_candidate
AtMost-insert v c [] h a = (h, tt)
AtMost-insert v c (d ∷ cs) h a = ground (arith, AtMost-insert v c cs)

Descending-insert :
    (c : Candidate) (cs : List Candidate) → Descending cs → Descending (insert_candidate c cs)
unfolding insert_candidate
Descending-insert c [] s = (tt, tt)
Descending-insert c (d ∷ cs) s = ground (
  arith,
  Descending-insert c cs,
  AtMost-insert (votes_of d) c cs,
  AtMost-mono (votes_of d) (votes_of c) cs,
)

pub sort_candidates-Descending : (cs : List Candidate) → Descending (sort_candidates cs)
unfolding sort_candidates
sort_candidates-Descending [] = tt
sort_candidates-Descending (c ∷ cs) =
    Descending-insert c (sort_candidates cs) (sort_candidates-Descending cs)

insert_candidate-perm :
    (c : Candidate) (cs : List Candidate) → Perm (insert_candidate c cs) (c ∷ cs)
unfolding insert_candidate
insert_candidate-perm c [] = Perm.refl _
insert_candidate-perm c (d ∷ cs) =
    let further = Perm.trans (Perm.cons d (insert_candidate-perm c cs)) (Perm.swap c d cs) in
    ground (arith, further, Perm.refl (c ∷ d ∷ cs))

pub sort_candidates-perm : (cs : List Candidate) → Perm (sort_candidates cs) cs
unfolding sort_candidates
sort_candidates-perm [] = Perm.refl []
sort_candidates-perm (c ∷ cs) =
    Perm.trans (insert_candidate-perm c (sort_candidates cs))
      (Perm.cons c (sort_candidates-perm cs))

above-AtMost : (v : ℤ) (cs : List Candidate) → AtMost v cs → above v cs ≡ []
unfolding above
above-AtMost v [] h = refl
above-AtMost v (c ∷ cs) h = ground (arith, above-AtMost v cs)

-- Where all are at least `v`, the tied ones and those above make up the list.
tied_and_above :
    (v : ℤ) (cs : List Candidate)
    → AtLeast v cs
    → length cs < 256
    → count_tied v cs + length (above v cs) ≡ length cs
unfolding above count_tied
tied_and_above v [] h b = omega arith
tied_and_above v (c ∷ cs) h b = ground (arith, tied_and_above v cs)

-- In a descending list those above stand at its head.
take-above :
    (v : ℤ) (cs : List Candidate) → Descending cs → take (length (above v cs)) cs ≡ above v cs
unfolding above
take-above v [] s = refl
take-above v (c ∷ cs) s =
    ground (arith, take-above v cs, above-AtMost v cs, AtMost-mono (votes_of c) v cs)

take-AtMost : (n : ℕ) (v : ℤ) (cs : List Candidate) → AtMost v cs → AtMost v (take n cs)
take-AtMost zero v cs h = tt
take-AtMost (suc n) v [] h = tt
take-AtMost (suc n) v (c ∷ cs) h = (h.0, take-AtMost n v cs h.1)

take-Descending : (n : ℕ) (cs : List Candidate) → Descending cs → Descending (take n cs)
take-Descending zero cs h = tt
take-Descending (suc n) [] h = tt
take-Descending (suc n) (c ∷ cs) h = (take-AtMost n (votes_of c) cs h.0, take-Descending n cs h.1)

get_elem?-AtMost :
    (n : ℕ) (v : ℤ) (cs : List Candidate) (out : Candidate)
    → AtMost v cs
    → get_elem? cs n ≡ some out
    → votes_of out ≤ℤ v
get_elem?-AtMost n v [] out h e = cc
get_elem?-AtMost zero v (c ∷ cs) out h e = ground arith
get_elem?-AtMost (suc n) v (c ∷ cs) out h e = get_elem?-AtMost n v cs out h.1 e

take-AtLeast :
    (n : ℕ) (cs : List Candidate) (out : Candidate)
    → Descending cs
    → get_elem? cs n ≡ some out
    → AtLeast (votes_of out) (take n cs)
take-AtLeast n [] out h e = cc
take-AtLeast zero (c ∷ cs) out h e = tt
take-AtLeast (suc n) (c ∷ cs) out h e =
    (get_elem?-AtMost n (votes_of c) cs out h.0 e, take-AtLeast n cs out h.1 e)

-- Those above the first one out all stand before it.
above-take :
    (n : ℕ) (cs : List Candidate) (out : Candidate)
    → Descending cs
    → get_elem? cs n ≡ some out
    → above (votes_of out) (take n cs) ≡ above (votes_of out) cs
unfolding above
above-take n [] out h e = cc
above-take zero (c ∷ cs) out h e = ground (arith, above-AtMost (votes_of out) cs)
above-take (suc n) (c ∷ cs) out h e = rw (above-take n cs out h.1 e)

length-take-le : (n : ℕ) (cs : List Candidate) → length (take n cs) ≤ n
length-take-le zero cs = omega arith
length-take-le (suc n) [] = omega arith
length-take-le (suc n) (c ∷ cs) = omega (arith, length-take-le n cs)

-- On a board that is sorted by votes in any order among equals, and has more candidates than
-- available seats, of which there are at most 255, the winners are exactly the candidates with more
-- votes than the first one out.
pub resolve_ties-eq-above :
    (seats : ℕ) (board : List Candidate) (out : Candidate)
    → seats < 256
    → Descending board
    → get_elem? board seats ≡ some out
    → resolve_ties seats board ≡ above (votes_of out) board
unfolding resolve_ties
resolve_ties-eq-above seats board out b s e =
    rw (e, resolve_ties)
      (rw (← above-take seats board out s e) (
        ap (λ n. take n head)
          (omega (arith, tied_and_above v head low (omega (arith, length-take-le seats board))))
        ∙ take-above v head (take-Descending seats board s)))
  where
    v : ℤ
    v = votes_of out

    head : List Candidate
    head = take seats board

    low : AtLeast v head
    low = take-AtLeast seats board out s e
