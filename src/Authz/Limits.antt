-- ===== src/Authz/Limits.antt =====
-- About the calls that the limits of grants count.
use cosmwasgo.Base.{ℕ, zero, suc, ◌+◌, ◌-◌, ◌≤◌, Bool, true, false, List, arith, if◌then◌else◌}
use cosmwasgo.Base.Outcome.{Outcome, ok, err, panic}
use cosmwasgo.Keeper.Host.{Coin}
use cosmwasgo.Keeper.Entry.{is_zero}
use cosmwasgo.Authz.{
  calls_left, combined_calls, combined_left, new_combined, Limit, undefined_limit, max_calls,
  max_funds, combined, LimitResult, not_applicable, applicable, used_up, updated, Tools, is_empty,
  accept_limit,
}

-- the calls that a limit leaves, and the limits that count calls
abbrev pub calls_of : Limit → ℕ
calls_of undefined_limit = 0
calls_of (max_calls n) = n
calls_of (max_funds amounts) = 0
calls_of (combined n amounts) = n

abbrev pub IsCounted : Limit → Type 0
IsCounted undefined_limit = ⊥
IsCounted (max_calls n) = Unit
IsCounted (max_funds amounts) = ⊥
IsCounted (combined n amounts) = Unit

-- what a limit that counts calls pays for a result
abbrev pub Paid : Limit → LimitResult → Type 0
Paid l not_applicable = Unit
Paid l applicable = ⊥
Paid l used_up = 1 ≤ calls_of l
Paid l (updated l') = IsCounted l' × (calls_of l' + 1 ≤ calls_of l)

abbrev pub IfPaid : Limit → Outcome LimitResult → Type 0
IfPaid l (ok r) = Paid l r
IfPaid l (err e) = Unit
IfPaid l (panic p) = Unit

either_paid :
    (l : Limit) (b : Bool) (r r' : Outcome LimitResult)
    → IfPaid l r
    → IfPaid l r'
    → IfPaid l (if b then r else r')
either_paid l true r r' k k' = k
either_paid l false r r' k k' = k'

module _ (x : Tools) where
  coins_paid :
      (n : ℕ) (amounts : List Coin) (r : Outcome (List Coin))
      → IfPaid (combined (suc (suc n)) amounts) (new_combined x (suc n) r)
  coins_paid n amounts (ok rest) = (tt, omega arith)
  coins_paid n amounts (err e) = tt
  coins_paid n amounts (panic p) = tt

  combined_paid :
      (n : ℕ) (amounts : List Coin) (r : Outcome (List Coin))
      → IfPaid (combined (suc (suc n)) amounts) (combined_left x (suc n) r)
  combined_paid n amounts (ok rest) =
      either_paid (combined (suc (suc n)) amounts) (is_zero rest) (ok used_up)
        (new_combined x (suc n) (x.new_coins rest)) (omega arith)
        (coins_paid n amounts (x.new_coins rest))
  combined_paid n amounts (err e) = tt
  combined_paid n amounts (panic p) = tt

  pub limit_paid : (l : Limit) (funds : List Coin) → IsCounted l → IfPaid l (accept_limit x l funds)
  unfolding accept_limit
  limit_paid undefined_limit funds k = absurd k
  limit_paid (max_funds amounts) funds k = absurd k
  limit_paid (max_calls zero) funds k =
      either_paid (max_calls zero) (is_empty funds) (calls_left x zero (updated (max_calls 0)))
        (ok not_applicable) tt tt
  limit_paid (max_calls (suc zero)) funds k =
      either_paid (max_calls (suc zero)) (is_empty funds) (ok used_up) (ok not_applicable)
        (omega arith) tt
  limit_paid (max_calls (suc (suc n))) funds k =
      either_paid (max_calls (suc (suc n))) (is_empty funds)
        (ok (updated (max_calls (suc (suc n) - 1)))) (ok not_applicable) (tt, omega arith) tt
  limit_paid (combined zero amounts) funds k =
      either_paid (combined zero amounts) (x.is_all_lte funds amounts)
        (combined_calls x zero amounts funds) (ok not_applicable) tt tt
  limit_paid (combined (suc zero) amounts) funds k =
      either_paid (combined (suc zero) amounts) (x.is_all_lte funds amounts) (ok used_up)
        (ok not_applicable) (omega arith) tt
  limit_paid (combined (suc (suc n)) amounts) funds k =
      either_paid (combined (suc (suc n)) amounts) (x.is_all_lte funds amounts)
        (combined_left x (suc n) (x.sub amounts funds)) (ok not_applicable)
        (combined_paid n amounts (x.sub amounts funds)) tt
