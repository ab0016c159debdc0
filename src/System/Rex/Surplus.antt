-- ===== src/System/Rex/Surplus.antt =====
-- The tokens of the account eosio.rex against what contracts/eosio.system/src/rex.cpp owes: the
-- pool, the funds, the balances of the loans, and the proceeds of the orders that are filled.
use telos_arbitration_fix.Prelude.{
  ℕ, ◌≡◌, ap, inl, inr, Option, none, some, true, List, [], ◌∷◌, ◌++◌, ◌==◌, arith, if◌then◌else◌,
  Bool-cases, Option-cases,
}
use telos_arbitration_fix.Prelude.Int.{
  ℤ, pos, pos_part, neg_part, ◌+ℤ◌, ◌-ℤ◌, ◌≤ℤ◌, leb_ℤ, int_laws,
}
use telos_arbitration_fix.Eosio.{ok, Table, find, insert, modify, remove, Name}
use telos_arbitration_fix.Eosio.Names
use telos_arbitration_fix.Eosio.Sums.{sum_of, sum_of-insert, sum_of-modify}
use telos_arbitration_fix.System.Limits.{Payment}
use telos_arbitration_fix.System.Rex.{RexPool, RexLoan, RexOrder, RexState}
use telos_arbitration_fix.System.Rex.Funds.{transfer_from_fund, add_fund, transfer_to_fund}

-- No row has less than nothing.
module _ {ℓ} {V : Type ℓ} where
  unfoldable pub NonNegative : (V → ℤ) → Table V → Type 0
  NonNegative f [] = Unit
  NonNegative f ((_, v) ∷ t) = (pos 0 ≤ℤ f v) × NonNegative f t

  pub NonNegative-find :
      (f : V → ℤ) (k : ℕ) (t : Table V) (v : V) → NonNegative f t → find k t ≡ some v → pos 0 ≤ℤ f v
  unfolding NonNegative
  NonNegative-find f k [] v h e = absurd (ground arith)
  NonNegative-find f k ((j, w) ∷ t) v h e = ground (arith, NonNegative-find f k t v h.1)

  pub NonNegative-insert :
      (f : V → ℤ) (k : ℕ) (v : V) (t : Table V)
      → NonNegative f t
      → pos 0 ≤ℤ f v
      → NonNegative f (insert k v t)
  unfolding NonNegative
  NonNegative-insert f k v [] h e = (e, tt)
  NonNegative-insert f k v ((j, w) ∷ t) h e = ground (arith, NonNegative-insert f k v t h.1 e)

  pub NonNegative-remove :
      (f : V → ℤ) (k : ℕ) (t : Table V) → NonNegative f t → NonNegative f (remove k t)
  unfolding NonNegative
  NonNegative-remove f k [] h = tt
  NonNegative-remove f k ((j, w) ∷ t) h = ground (arith, NonNegative-remove f k t h.1)

  pub NonNegative-modify :
      (f : V → ℤ) (g : V → V) (k : ℕ) (t : Table V) (v : V)
      → NonNegative f t
      → find k t ≡ some v
      → pos 0 ≤ℤ f (g v)
      → NonNegative f (modify k g t)
  unfolding NonNegative
  NonNegative-modify f g k [] v h e p = tt
  NonNegative-modify f g k ((j, w) ∷ t) v h e p = elim (Bool-cases (j == k)) [
    | inl here ↦ let same : w ≡ v = ground (arith, here) in rw here (rw same p, h.1)
    | inr other ↦ rw other (h.0, NonNegative-modify f g k t v h.1 (ground (arith, other)) p)
  ]

-- What an order owes its owner.
abbrev pub due : RexOrder → ℤ
due o = if o.is_open then pos 0 else o.proceeds

abbrev pub lendable : Option RexPool → ℤ
lendable o = elim o [ none ↦ pos 0 | some p ↦ p.total_lendable ]

unfoldable pub loans_owed : RexState → ℤ
loans_owed s =
    sum_of (λ l. l.balance) s.cpu_loans +ℤ sum_of (λ (l : RexLoan). l.balance) s.net_loans

unfoldable pub owed : RexState → ℤ
unfolding loans_owed
owed s = lendable s.rexpool +ℤ sum_of (λ a. a) s.rexfunds +ℤ loans_owed s +ℤ sum_of due s.rexorders

-- What the transfers brought to the account, less what they took.
unfoldable pub received : Name → List Payment → ℤ
received account [] = pos 0
received account (p ∷ ps) =
    (if p.to == account then p.amount else pos 0)
    -ℤ (if p.from == account then p.amount else pos 0)
    +ℤ received account ps

-- What eosio.rex has received beyond what it owes.
unfoldable pub surplus : RexState → ℤ
unfolding received owed
surplus s = received Names.eosio_rex s.accounts.sent -ℤ owed s

abbrev pub IsBalanced : Option RexPool → Type 0
IsBalanced none = Unit
IsBalanced (some p) = p.total_unlent +ℤ p.total_lent ≡ p.total_lendable

pub record IsSound (s : RexState) : Type 0 where
  pub balanced : IsBalanced s.rexpool
  pub cpu_covered : NonNegative (λ (l : RexLoan). l.balance) s.cpu_loans
  pub net_covered : NonNegative (λ (l : RexLoan). l.balance) s.net_loans
  pub orders_due : NonNegative due s.rexorders
  pub funds_covered : NonNegative (λ a. a) s.rexfunds

-- The operation brings this much to the surplus, and keeps the state sound.
abbrev pub Brings : ℤ → RexState → RexState → Type 0
Brings x s s' = (surplus s' ≡ surplus s +ℤ x) × IsSound s'

pub received-append :
    (account : Name) (ps : List Payment) (p : Payment)
    → received account (ps ++ p ∷ []) ≡ received account ps +ℤ received account (p ∷ [])
unfolding received
received-append account [] p = omega int_laws
received-append account (q ∷ ps) p =
    rw (received-append account ps p) (nest _ (received account ps) _)
  where
    nest : (a b c : ℤ) → a +ℤ (b +ℤ c) ≡ a +ℤ b +ℤ c
    nest a b c = omega int_laws

funds_change :
    (r l f f' n o x : ℤ) → f' +ℤ x ≡ f → r -ℤ (l +ℤ f' +ℤ n +ℤ o) ≡ r -ℤ (l +ℤ f +ℤ n +ℤ o) +ℤ x
funds_change r l f f' n o x h = omega (int_laws, ap pos_part h, ap neg_part h)

add_fund-NonNegative :
    (owner : Name) (x : ℤ) (t : Table ℤ)
    → NonNegative (λ a. a) t
    → pos 0 ≤ℤ x
    → NonNegative (λ a. a) (add_fund owner x t)
add_fund-NonNegative owner x t h l = elim (Option-cases (find owner t)) [
  | inl e ↦ rw (add_fund, e) (NonNegative-insert (λ a. a) owner x t h l)
  | inr (b, e) ↦
      rw (add_fund, e)
        (NonNegative-modify (λ a. a) (λ b. b +ℤ x) owner t b h e
          (sum b x (NonNegative-find (λ a. a) owner t b h e) l))
]
  where
    sum : (b x : ℤ) → pos 0 ≤ℤ b → pos 0 ≤ℤ x → pos 0 ≤ℤ b +ℤ x
    sum b x h l = omega (arith, int_laws)

add_fund-sum :
    (owner : Name) (x : ℤ) (t : Table ℤ)
    → sum_of (λ a. a) (add_fund owner x t) ≡ sum_of (λ a. a) t +ℤ x
add_fund-sum owner x t = elim (Option-cases (find owner t)) [
  | inl e ↦ rw (add_fund, e) (sum_of-insert (λ a. a) owner x t)
  | inr (b, e) ↦
      rw (add_fund, e)
        (cancel (sum_of (λ a. a) (modify owner (λ b. b +ℤ x) t)) b (sum_of (λ a. a) t) x
          (sum_of-modify (λ a. a) (λ b. b +ℤ x) owner t b e))
]
  where
    cancel : (m b s x : ℤ) → m +ℤ b ≡ s +ℤ (b +ℤ x) → m ≡ s +ℤ x
    cancel m b s x h = omega (int_laws, ap pos_part h, ap neg_part h)

pub transfer_from_fund-Brings :
    (owner : Name) (x : ℤ) (s s' : RexState)
    → IsSound s
    → transfer_from_fund owner x s ≡ ok s'
    → Brings x s s'
unfolding transfer_from_fund surplus owed
transfer_from_fund-Brings owner x s s' sound e = elim (Option-cases (find owner s.rexfunds)) [
  | inl h ↦ absurd (ground (arith, h))
  | inr (b, h) ↦
      let t = modify owner (λ b. b -ℤ x) s.rexfunds in
      let out : s' ≡ record s { rexfunds = t } = ground (arith, h) in
      let less : sum_of (λ a. a) t +ℤ x ≡ sum_of (λ a. a) s.rexfunds =
        lower (sum_of (λ a. a) t) b (sum_of (λ a. a) s.rexfunds) x
          (sum_of-modify (λ a. a) (λ b. b -ℤ x) owner s.rexfunds b h) in
      rw out (
        funds_change _ (lendable s.rexpool) _ _ (loans_owed s) _ x less,
        record {
          balanced = sound.balanced;
          cpu_covered = sound.cpu_covered;
          net_covered = sound.net_covered;
          orders_due = sound.orders_due;
          funds_covered =
              NonNegative-modify (λ a. a) (λ b. b -ℤ x) owner s.rexfunds b sound.funds_covered h
                (rest b x (ground (arith, h)));
        },
      )
]
  where
    lower : (m b s x : ℤ) → m +ℤ b ≡ s +ℤ (b -ℤ x) → m +ℤ x ≡ s
    lower m b s x h = omega (int_laws, ap pos_part h, ap neg_part h)

    rest : (b x : ℤ) → leb_ℤ x b ≡ true → pos 0 ≤ℤ b -ℤ x
    rest b x h = let below : x ≤ℤ b = ground (arith, h) in omega (arith, int_laws)

opposite : (a b x : ℤ) → a ≡ b +ℤ x → a +ℤ (pos 0 -ℤ x) ≡ b
opposite a b x h = omega (int_laws, ap pos_part h, ap neg_part h)

pub transfer_to_fund-Brings :
    (owner : Name) (x : ℤ) (s s' : RexState)
    → IsSound s
    → transfer_to_fund owner x s ≡ ok s'
    → Brings (pos 0 -ℤ x) s s'
unfolding transfer_to_fund surplus owed
transfer_to_fund-Brings owner x s s' sound e =
    let t = add_fund owner x s.rexfunds in
    let out : s' ≡ record s { rexfunds = t } = ground arith in
    rw out (
      funds_change _ (lendable s.rexpool) _ _ (loans_owed s) _ (pos 0 -ℤ x)
          (opposite _ _ x (add_fund-sum owner x s.rexfunds)),
      record {
        balanced = sound.balanced;
        cpu_covered = sound.cpu_covered;
        net_covered = sound.net_covered;
        orders_due = sound.orders_due;
        funds_covered = add_fund-NonNegative owner x s.rexfunds sound.funds_covered (ground arith);
      },
    )
