-- ===== src/System/Rex/Renewed.antt =====
-- The surplus of eosio.rex over the loans that contracts/eosio.system/src/rex.cpp renews or closes,
-- and over the proceeds of names.
use telos_arbitration_fix.Prelude.{◌≡◌, refl, ap, Bool, some, arith}
use telos_arbitration_fix.Prelude.Int.{ℤ, pos, pos_part, neg_part, ◌+ℤ◌, ◌-ℤ◌, int_laws}
use telos_arbitration_fix.Eosio.{ok, Table, Name}
use telos_arbitration_fix.Eosio.Sums.{sum_of}
use telos_arbitration_fix.System.{Chain}
use telos_arbitration_fix.System.Rex.{RexPool, RexLoan, RexState}
use telos_arbitration_fix.System.Rex.Pool.{
  set_pool, add_loan_to_rex_pool, remove_loan_from_rex_pool,
}
use telos_arbitration_fix.System.Rex.Funds.{transfer_to_fund, fund_positive}
use telos_arbitration_fix.System.Rex.Loans.{Resource, cpu, net, loans, set_loans, change_limit}
use telos_arbitration_fix.System.Rex.Surplus.{
  NonNegative, lendable, loans_owed, owed, surplus, IsBalanced, IsSound, Brings,
}

abbrev pub balance_of : RexLoan → ℤ
balance_of l = l.balance

pub IsSound-covered : (r : Resource) (s : RexState) → IsSound s → NonNegative balance_of (loans r s)
IsSound-covered cpu s h = h.cpu_covered
IsSound-covered net s h = h.net_covered

-- Loans that owe more by x.
pub set_loans-Brings :
    (r : Resource) (t : Table RexLoan) (x : ℤ) (s : RexState)
    → IsSound s
    → NonNegative balance_of t
    → sum_of balance_of t ≡ sum_of balance_of (loans r s) +ℤ x
    → Brings (pos 0 -ℤ x) s (set_loans r t s)
unfolding surplus owed loans_owed
set_loans-Brings cpu t x s sound covered h = (
  more _ _ (sum_of balance_of s.net_loans) _ _ _ x h,
  record {
    balanced = sound.balanced;
    cpu_covered = covered;
    net_covered = sound.net_covered;
    funds_covered = sound.funds_covered;
    orders_due = sound.orders_due;
  },
)
  where
    more :
        (r l n o c d x : ℤ)
        → d ≡ c +ℤ x
        → r -ℤ (l +ℤ (d +ℤ n) +ℤ o) ≡ r -ℤ (l +ℤ (c +ℤ n) +ℤ o) +ℤ (pos 0 -ℤ x)
    more r l n o c d x h = omega (int_laws, ap pos_part h, ap neg_part h)
set_loans-Brings net t x s sound covered h = (
  more _ _ (sum_of balance_of s.cpu_loans) _ _ _ x h,
  record {
    balanced = sound.balanced;
    cpu_covered = sound.cpu_covered;
    net_covered = covered;
    funds_covered = sound.funds_covered;
    orders_due = sound.orders_due;
  },
)
  where
    more :
        (r l n o c d x : ℤ)
        → d ≡ c +ℤ x
        → r -ℤ (l +ℤ (n +ℤ d) +ℤ o) ≡ r -ℤ (l +ℤ (n +ℤ c) +ℤ o) +ℤ (pos 0 -ℤ x)
    more r l n o c d x h = omega (int_laws, ap pos_part h, ap neg_part h)

-- A pool of more tokens by x.
pub set_pool-Brings :
    (q : RexPool) (x : ℤ) (s : RexState)
    → IsSound s
    → IsBalanced (some q)
    → q.total_lendable ≡ lendable s.rexpool +ℤ x
    → Brings (pos 0 -ℤ x) s (set_pool q s)
unfolding surplus owed
set_pool-Brings q x s sound balanced h = (
  more _ _ _ (sum_of (λ a. a) s.rexfunds) (loans_owed s) _ x h,
  record {
    balanced = balanced;
    cpu_covered = sound.cpu_covered;
    net_covered = sound.net_covered;
    funds_covered = sound.funds_covered;
    orders_due = sound.orders_due;
  },
)
  where
    more :
        (r p q f n o x : ℤ)
        → q ≡ p +ℤ x
        → r -ℤ (q +ℤ f +ℤ n +ℤ o) ≡ r -ℤ (p +ℤ f +ℤ n +ℤ o) +ℤ (pos 0 -ℤ x)
    more r p q f n o x h = omega (int_laws, ap pos_part h, ap neg_part h)

pub loans-set_pool :
    (r : Resource) (q : RexPool) (s : RexState) → loans r (set_pool q s) ≡ loans r s
loans-set_pool cpu q s = refl
loans-set_pool net q s = refl

pub loans-fund_positive :
    (r : Resource) (owner : Name) (x : ℤ) (s s' : RexState)
    → fund_positive owner x s ≡ ok s'
    → loans r s' ≡ loans r s
unfolding transfer_to_fund
loans-fund_positive cpu owner x s s' e = ground arith
loans-fund_positive net owner x s s' e = ground arith

pub loans-change_limit :
    (r q : Resource) (receiver : Name) (x : ℤ) (s s' : RexState)
    → change_limit q receiver x s ≡ ok s'
    → loans r s' ≡ loans r s
loans-change_limit cpu cpu receiver x s s' e = ground arith
loans-change_limit net cpu receiver x s s' e = ground arith
loans-change_limit cpu net receiver x s s' e = ground arith
loans-change_limit net net receiver x s s' e = ground arith

-- The pool without the loan has as many tokens.
pub remove_loan-lendable :
    (c : Chain) (l : RexLoan) (p : RexPool)
    → IsBalanced (some p)
    → (remove_loan_from_rex_pool c l p).total_lendable ≡ p.total_lendable +ℤ pos 0
unfolding remove_loan_from_rex_pool
remove_loan-lendable c l p h = same p.total_unlent p.total_lent l.total_staked p.total_lendable h
  where
    same : (u n t s : ℤ) → u +ℤ n ≡ s → u +ℤ t +ℤ (n -ℤ t) ≡ s +ℤ pos 0
    same u n t s h = omega (int_laws, ap pos_part h, ap neg_part h)

pub add_loan-lendable :
    (x r : ℤ) (fresh : Bool) (p : RexPool)
    → IsBalanced (some p)
    → (add_loan_to_rex_pool x r fresh p).total_lendable ≡ p.total_lendable +ℤ x
unfolding add_loan_to_rex_pool
add_loan-lendable x r fresh p h = more p.total_unlent p.total_lent r x p.total_lendable h
  where
    more : (u n t x s : ℤ) → u +ℤ n ≡ s → u -ℤ t +ℤ x +ℤ (n +ℤ t) ≡ s +ℤ x
    more u n t x s h = omega (int_laws, ap pos_part h, ap neg_part h)

pub remove_loan-IsBalanced :
    (c : Chain) (l : RexLoan) (p : RexPool) → IsBalanced (some (remove_loan_from_rex_pool c l p))
unfolding remove_loan_from_rex_pool
remove_loan-IsBalanced c l p = refl

pub add_loan-IsBalanced :
    (x r : ℤ) (fresh : Bool) (p : RexPool) → IsBalanced (some (add_loan_to_rex_pool x r fresh p))
unfolding add_loan_to_rex_pool
add_loan-IsBalanced x r fresh p = refl
