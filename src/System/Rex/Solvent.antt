-- ===== src/System/Rex/Solvent.antt =====
-- The tokens of eosio.rex over any action of contracts/eosio.system/src/rex.cpp on deposits, REX and
-- loans, and over a run of them.
use telos_arbitration_fix.Prelude.{ℕ, ◌≡◌, refl, ap, false, ◌==◌, arith}
use telos_arbitration_fix.Prelude.Int.{ℤ, pos, pos_part, neg_part, ◌+ℤ◌, int_laws}
use telos_arbitration_fix.Eosio.{Result, ok, Name, Asset, IsDocumented}
use telos_arbitration_fix.Eosio.Names
use telos_arbitration_fix.System.{Chain}
use telos_arbitration_fix.System.Rex.{RexState}
use telos_arbitration_fix.System.Rex.Loans.{Resource, runrex}
use telos_arbitration_fix.System.Rex.Actions.{
  deposit, withdraw, buyrex, sellrex, cnclrexorder, rent, fund_loan, def_loan,
}
use telos_arbitration_fix.System.Rex.Holders.{rexexec}
use telos_arbitration_fix.System.Rex.Surplus.{surplus, IsSound, Brings}
use telos_arbitration_fix.System.Rex.Executed.{runrex-Brings}
use telos_arbitration_fix.System.Rex.Traded.{
  IsSpent, deposit-Brings, withdraw-Brings, buyrex-Brings,
}
use telos_arbitration_fix.System.Rex.Sold.{sellrex-Brings, cnclrexorder-Brings}
use telos_arbitration_fix.System.Rex.Rented.{rent-Brings, fund_loan-Brings, def_loan-Brings}

-- The actions that move tokens or REX.
pub data Action : Type 0 where
  deposits : Name → Asset → Action
  withdraws : Name → Asset → Action
  buys : Name → Asset → Action
  sells : Name → Asset → Action
  cancels : Name → Action
  rents : Resource → Name → Name → Asset → Asset → Action
  funds : Resource → Name → ℕ → Asset → Action
  defunds : Resource → Name → ℕ → Asset → Action
  executes : Name → ℕ → Action

unfoldable pub act : Chain → Action → RexState → Result RexState
unfolding deposit withdraw buyrex sellrex cnclrexorder rent fund_loan def_loan rexexec
act c (deposits owner amount) s = deposit c owner amount s
act c (withdraws owner amount) s = withdraw c owner amount s
act c (buys from amount) s = buyrex c from amount s
act c (sells from rex) s = sellrex c from rex s
act c (cancels owner) s = cnclrexorder c owner s
act c (rents r from receiver payment fund) s = rent c r from receiver payment fund s
act c (funds r from loan_num payment) s = fund_loan c r from loan_num payment s
act c (defunds r from loan_num amount) s = def_loan c r from loan_num amount s
act c (executes user max) s = rexexec c user max s

-- The account eosio.rex itself neither deposits nor withdraws, and a pool that is bought from has
-- no tokens once it has no REX.
unfoldable pub IsOrdinary : Action → RexState → Type 0
IsOrdinary (deposits owner _) s = (owner == Names.eosio_rex) ≡ false
IsOrdinary (withdraws owner _) s = (owner == Names.eosio_rex) ≡ false
IsOrdinary (buys _ _) s = IsSpent s.rexpool
IsOrdinary _ s = Unit

rexexec-Brings :
    (c : Chain) (user : Name) (max : ℕ) (s s' : RexState)
    → IsSound s
    → rexexec c user max s ≡ ok s'
    → Brings (pos 0) s s'
unfolding rexexec
rexexec-Brings c user max s s' sound e =
    let done : runrex c max s ≡ ok s' = ground arith in runrex-Brings c max s s' sound done

pub act-Brings :
    (c : Chain) (a : Action) (s s' : RexState)
    → IsDocumented c.host
    → IsSound s
    → IsOrdinary a s
    → act c a s ≡ ok s'
    → Brings (pos 0) s s'
unfolding act IsOrdinary
act-Brings c (deposits owner x) s s' doc sound o e = deposit-Brings c owner x s s' sound o e
act-Brings c (withdraws owner x) s s' doc sound o e = withdraw-Brings c owner x s s' sound o e
act-Brings c (buys from x) s s' doc sound o e = buyrex-Brings c from x s s' sound o e
act-Brings c (sells from rex) s s' doc sound o e = sellrex-Brings c from rex s s' sound e
act-Brings c (cancels owner) s s' doc sound o e = cnclrexorder-Brings c owner s s' sound e
act-Brings c (rents r from to x y) s s' doc sound o e = rent-Brings c r from to x y s s' doc sound e
act-Brings c (funds r from k x) s s' doc sound o e = fund_loan-Brings c r from k x s s' sound e
act-Brings c (defunds r from k x) s s' doc sound o e = def_loan-Brings c r from k x s s' sound e
act-Brings c (executes user max) s s' doc sound o e = rexexec-Brings c user max s s' sound e

-- A run of actions from one state to another, each of which succeeds.
pub data Run (c : Chain) : RexState → RexState → Type 0 where
  stay : (s : RexState) → Run c s s
  next : (a : Action) (s t u : RexState) → IsOrdinary a s → act c a s ≡ ok t → Run c t u → Run c s u

-- Over any run of ordinary actions that succeed, on a documented host and from a sound state, what
-- eosio.rex received beyond what it owes for the pool, the funds, the loans and the filled orders
-- stays the same, and the state stays sound: what the pool has lent and not lent is what it can lend,
-- and no fund, no balance of a loan and no proceeds of a filled order are below zero.
pub Run-surplus :
    (c : Chain) (s s' : RexState)
    → IsDocumented c.host
    → IsSound s
    → Run c s s'
    → (surplus s' ≡ surplus s) × IsSound s'
Run-surplus c s _ doc sound (stay _) = (refl, sound)
Run-surplus c s s' doc sound (next a _ t _ ordinary done rest) =
    let first = act-Brings c a s t doc sound ordinary done in
    let others = Run-surplus c t s' doc first.1 rest in (level _ _ _ first.0 others.0, others.1)
  where
    level : (a b c : ℤ) → b ≡ a +ℤ pos 0 → c ≡ b → c ≡ a
    level a b c h k = omega (int_laws, ap pos_part h, ap neg_part h, ap pos_part k, ap neg_part k)
