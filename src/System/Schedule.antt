-- ===== src/System/Schedule.antt =====
-- The schedules that contracts/eosio.system/src/system_rotation.cpp makes: their size, whom they
-- hold, and the indices of the rotation.
use telos_arbitration_fix.Prelude.{
  ℕ, zero, suc, ◌≤◌, ◌<◌, ◌≡◌, refl, ◌∙◌, inl, inr, true, false, Option, none, some, List, [], ◌∷◌,
  ◌==◌, leb, if◌then◌else◌, length, get_elem?, take, contains, Distinct, arith, Bool-cases,
}
use telos_arbitration_fix.Eosio.{Name}
use telos_arbitration_fix.System.{ProducerKey}
use telos_arbitration_fix.System.Rotation.{substitute, schedule}

abbrev pub names : List ProducerKey → List Name
names [] = []
names (k ∷ ks) = k.producer_name ∷ names ks

-- The smaller of two.
abbrev pub least : ℕ → ℕ → ℕ
least a b = if leb a b then a else b

length-take : (n : ℕ) (ks : List ProducerKey) → length (take n ks) ≡ least n (length ks)
length-take zero ks = ground arith
length-take (suc n) [] = ground arith
length-take (suc n) (k ∷ ks) = ground (arith, length-take n ks)

length-substitute :
    (bp sbp : ProducerKey) (ks : List ProducerKey) → length (substitute bp sbp ks) ≡ length ks
unfolding substitute
length-substitute bp sbp [] = refl
length-substitute bp sbp (k ∷ ks) = ground (arith, length-substitute bp sbp ks)

pub length-schedule :
    (bp sbp : Option ProducerKey) (ks : List ProducerKey)
    → length (schedule bp sbp ks) ≡ least 21 (length ks)
unfolding schedule
length-schedule none sbp ks = length-take 21 ks
length-schedule (some b) none ks = length-take 21 ks
length-schedule (some b) (some c) ks = length-substitute b c (take 21 ks) ∙ length-take 21 ks

contains-take :
    (n : ℕ) (a : Name) (ks : List ProducerKey)
    → contains a (names ks) ≡ false
    → contains a (names (take n ks)) ≡ false
contains-take zero a ks h = refl
contains-take (suc n) a [] h = refl
contains-take (suc n) a (k ∷ ks) h = ground (arith, contains-take n a ks)

pub Distinct-take :
    (n : ℕ) (ks : List ProducerKey) → Distinct (names ks) → Distinct (names (take n ks))
Distinct-take zero ks h = tt
Distinct-take (suc n) [] h = tt
Distinct-take (suc n) (k ∷ ks) h = (contains-take n k.producer_name ks h.0, Distinct-take n ks h.1)

contains-substitute :
    (bp sbp : ProducerKey) (a : Name) (ks : List ProducerKey)
    → contains a (names ks) ≡ false
    → (sbp.producer_name == a) ≡ false
    → contains a (names (substitute bp sbp ks)) ≡ false
unfolding substitute
contains-substitute bp sbp a [] h n = refl
contains-substitute bp sbp a (k ∷ ks) h n = ground (arith, contains-substitute bp sbp a ks)

-- Where nobody goes out, all stay.
pub substitute_absent :
    (bp sbp : ProducerKey) (ks : List ProducerKey)
    → contains bp.producer_name (names ks) ≡ false
    → substitute bp sbp ks ≡ ks
unfolding substitute
substitute_absent bp sbp [] h = refl
substitute_absent bp sbp (k ∷ ks) h = ground (arith, substitute_absent bp sbp ks)

Distinct-substitute :
    (bp sbp : ProducerKey) (ks : List ProducerKey)
    → contains sbp.producer_name (names ks) ≡ false
    → Distinct (names ks)
    → Distinct (names (substitute bp sbp ks))
unfolding substitute
Distinct-substitute bp sbp [] h d = tt
Distinct-substitute bp sbp (k ∷ ks) h d = elim (Bool-cases (k.producer_name == bp.producer_name)) [
  | inl e ↦ ground (arith, e, substitute_absent bp sbp ks)
  | inr e ↦
      ground
        (arith, e, Distinct-substitute bp sbp ks, contains-substitute bp sbp k.producer_name ks)
]

-- An element of a later index is not among the first.
pub contains-get_elem? :
    (i : ℕ) (ks : List ProducerKey) (k : ProducerKey)
    → get_elem? ks i ≡ some k
    → contains k.producer_name (names ks) ≡ true
contains-get_elem? i [] k h = ground arith
contains-get_elem? zero (a ∷ ks) k h = ground arith
contains-get_elem? (suc i) (a ∷ ks) k h = ground (arith, contains-get_elem? i ks k h)

pub later-take :
    (n i : ℕ) (ks : List ProducerKey) (k : ProducerKey)
    → Distinct (names ks)
    → get_elem? ks i ≡ some k
    → n ≤ i
    → contains k.producer_name (names (take n ks)) ≡ false
later-take zero i ks k d h l = refl
later-take (suc n) i [] k d h l = refl
later-take (suc n) zero (a ∷ ks) k d h l = absurd (omega arith)
later-take (suc n) (suc i) (a ∷ ks) k d h l =
    ground (arith, later-take n i ks k d.1 h (omega arith), contains-get_elem? i ks k h)

pub get_elem?-length :
    (i : ℕ) (ks : List ProducerKey) → i < length ks → (k : ProducerKey) × (get_elem? ks i ≡ some k)
get_elem?-length i [] l = absurd (omega arith)
get_elem?-length zero (k ∷ ks) l = (k, refl)
get_elem?-length (suc i) (k ∷ ks) l = get_elem?-length i ks (omega arith)

pub Distinct-schedule :
    (bp sbp : Option ProducerKey) (ks : List ProducerKey)
    → ((b k : ProducerKey)
        → bp ≡ some b
        → sbp ≡ some k
        → contains k.producer_name (names (take 21 ks)) ≡ false)
    → Distinct (names ks)
    → Distinct (names (schedule bp sbp ks))
unfolding schedule
Distinct-schedule none sbp ks h d = Distinct-take 21 ks d
Distinct-schedule (some b) none ks h d = Distinct-take 21 ks d
Distinct-schedule (some b) (some k) ks h d =
    Distinct-substitute b k (take 21 ks) (h b k refl refl) (Distinct-take 21 ks d)
