-- ===== src/Authz.antt =====
-- Authorizations to execute and migrate contracts, x/wasm/types/authz.go with json_matching.go: what a
-- grant's limit and filter accept, and AcceptGrantedMessage. Bech32, coins and JSON are parameters. A
-- limit or filter that is missing is undefined, as GetLimit and GetFilter have it.
mod Grants
pub mod Limits
pub mod Calls
pub mod Allowed
mod Tests
unfoldable pub use Grants.*
use text.Mathlib.Text.{◌==◌ as str_eq}
use cosmwasgo.Base.{
  ℕ, zero, suc, ◌-◌, Bool, true, false, not, List, [], ◌∷◌, ◌++◌, Option, none, some, String,
  length, bytes_eq, contains, any, ◌==◌, ◌&&◌, if◌then◌else◌,
}
use cosmwasgo.Base.Outcome.{
  Error, registered, wrap, wrap_cause, Outcome, ok, err, panic, Exec, pure, fail, lift, ◌>>=◌, ◌>>◌,
}
use cosmwasgo.Vm.{Bytes}
use cosmwasgo.Access.{Bech32, err_empty, err_invalid, err_duplicate}
use cosmwasgo.Sdk.{GasMeter, Ctx, consume_gas}
use cosmwasgo.Keeper.State.{err_unauthorized}
use cosmwasgo.Keeper.Host.{Coin}
use cosmwasgo.Keeper.Entry.{is_zero}
use cosmwasgo.Keeper.Events.{trim_space}
use cosmwasgo.Messages.{Message}
use cosmwasgo.Messages.Validate.{Checks, validate, first_failure, within, refuse_if, payload}

module _ (x : Tools) where
  -- MaxCallsLimit.Accept, MaxFundsLimit.Accept, CombinedLimit.Accept
  abbrev pub calls_left : ℕ → LimitResult → Outcome LimitResult
  calls_left zero r = err (wrap err_unauthorized "no calls left")
  calls_left (suc zero) r = ok used_up
  calls_left (suc (suc n)) r = ok r

  abbrev pub funds_left : Outcome (List Coin) → Outcome LimitResult
  funds_left (ok amounts) = ok (if is_zero amounts then used_up else updated (max_funds amounts))
  funds_left (err e) = err e
  funds_left (panic p) = panic p

  -- NewCombinedLimit
  abbrev pub new_combined : ℕ → Outcome (List Coin) → Outcome LimitResult
  new_combined n (ok amounts) = ok (updated (combined n amounts))
  new_combined n (err e) = err e
  new_combined n (panic p) = panic p

  abbrev pub combined_left : ℕ → Outcome (List Coin) → Outcome LimitResult
  combined_left n (ok amounts) =
      if is_zero amounts then ok used_up else new_combined n (x.new_coins amounts)
  combined_left n (err e) = err e
  combined_left n (panic p) = panic p

  abbrev pub combined_calls : ℕ → List Coin → List Coin → Outcome LimitResult
  combined_calls zero amounts funds = err (wrap err_unauthorized "no calls left")
  combined_calls (suc zero) amounts funds = ok used_up
  combined_calls (suc (suc n)) amounts funds = combined_left (suc n) (x.sub amounts funds)

  unfoldable pub accept_limit : Limit → List Coin → Outcome LimitResult
  accept_limit undefined_limit funds = err (wrap err_not_found "undefined filter")
  accept_limit (max_calls n) funds =
      if is_empty funds then calls_left n (updated (max_calls (n - 1))) else ok not_applicable
  accept_limit (max_funds amounts) funds =
      if is_empty funds
      then ok applicable
      else if x.is_all_lte funds amounts
      then funds_left (x.sub amounts funds)
      else ok not_applicable
  accept_limit (combined n amounts) funds =
      if x.is_all_lte funds amounts then combined_calls n amounts funds else ok not_applicable

  -- the end of isJSONObjectWithTopLevelKey
  abbrev pub is_only_key : List String → Option (List String) → Bool
  is_only_key allowed (some (key ∷ [])) = any (λ a. str_eq a key) allowed
  is_only_key allowed document = false

  -- isJSONObjectWithTopLevelKey, whose errors AcceptedMessageKeysFilter.Accept wraps
  abbrev pub has_only_key : List String → Outcome (Option (List String)) → Outcome Bool
  has_only_key allowed (ok document) = ok (is_only_key allowed document)
  has_only_key allowed (err e) = err (wrap_cause err_unauthorized e)
  has_only_key allowed (panic p) = panic p

  -- the sanity check of the new grants
  abbrev pub sane : List ContractGrant → Outcome (Unit {0}) → Outcome Response
  sane gs (ok t) = ok (replaced gs)
  sane gs (err e) = err (wrap_cause err_invalid e)
  sane gs (panic p) = panic p

  -- the new state of the grants, from those before and after the one that applied
  abbrev pub deleted_grant : List ContractGrant → Outcome Response
  deleted_grant [] = ok deleted
  deleted_grant (g ∷ gs) = sane (g ∷ gs) (validate_grants x (g ∷ gs))

  abbrev pub applied :
      List ContractGrant → ContractGrant → List ContractGrant → LimitResult → Outcome Response
  applied before g rest not_applicable = ok refused
  applied before g rest applicable = ok accepted
  applied before g rest used_up = deleted_grant (before ++ rest)
  applied before g rest (updated l) =
      let gs = before ++ (record g { limit = l } ∷ rest) in sane gs (validate_grants x gs)

  abbrev pub within_filter : Outcome Bool → Outcome Bool
  within_filter (ok b) = ok b
  within_filter (err e) = err (wrap e "filter")
  within_filter (panic p) = panic p

  abbrev pub within_limit : Outcome LimitResult → Outcome LimitResult
  within_limit (ok r) = ok r
  within_limit (err e) = err (wrap e "limit")
  within_limit (panic p) = panic p

  module _ (G : GasMeter) {S : Type 0} where
    unfoldable pub accept_filter : Filter → Bytes → Exec (Ctx G S) Bool
    accept_filter undefined_filter msg = fail (wrap err_not_found "undefined filter")
    accept_filter allow_all msg = if x.checks.is_json msg then pure true else fail err_invalid
    accept_filter (accepted_keys keys) msg =
        consume_gas G (length msg)
        >> (if x.checks.is_json msg
            then lift (has_only_key keys (x.object_keys msg))
            else fail (wrap_cause err_unauthorized err_invalid))
    accept_filter (accepted_messages ms) msg = pure (contains ms msg)

    -- filter and update, after the limit
    abbrev pub by_filter :
        Exec (Ctx G S) Bool → Exec (Ctx G S) Response → Outcome Response → Exec (Ctx G S) Response
    by_filter filter next r = (λ c. (within_filter (filter c).0, (filter c).1)) >>= λ is_allowed.
        if is_allowed then lift r else next

    abbrev pub by_limit :
        LimitResult → Exec (Ctx G S) Response → Exec (Ctx G S) Response → Exec (Ctx G S) Response
    by_limit not_applicable next update = next
    by_limit r next update = update

    -- a grant for the contract of the message, or the next ones
    abbrev pub try_grant :
        List ContractGrant
        → ContractGrant
        → List ContractGrant
        → Granted
        → Exec (Ctx G S) Response
        → Exec (Ctx G S) Response
    unfolding accept_limit accept_filter validate_grants
    try_grant before g rest m next = lift (within_limit (accept_limit g.limit m.get_funds)) >>= λ r.
        by_limit r next
          (by_filter (accept_filter g.filter m.get_msg) next (applied before g rest r))

    -- the loop of AcceptGrantedMessage
    unfoldable pub accept_from :
        List ContractGrant → List ContractGrant → Granted → Exec (Ctx G S) Response
    unfolding accept_limit accept_filter validate_grants
    accept_from before [] m = pure refused
    accept_from before (g ∷ rest) m =
        let next = accept_from (before ++ (g ∷ [])) rest m in
        if bytes_eq g.contract m.get_contract then try_grant before g rest m next else next

    -- A nil message and an empty one are one case: ValidateBasic refuses the empty one, with an error
    -- of its own.
    abbrev pub accept_granted :
        List ContractGrant → Message → Option Granted → Exec (Ctx G S) Response
    accept_granted grants msg none = fail (wrap err_invalid_type "type mismatch")
    accept_granted grants msg (some m) =
        if is_empty m.get_msg
        then fail (wrap err_invalid_type "empty message")
        else lift (validate x.checks msg) >> accept_from [] grants m

    -- AcceptGrantedMessage, of ContractExecutionAuthorization and ContractMigrationAuthorization
    pub accept_granted_message : Kind → List ContractGrant → Message → Exec (Ctx G S) Response
    unfolding accept_from
    accept_granted_message kind grants msg = accept_granted grants msg (granted kind msg)
