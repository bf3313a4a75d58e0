-- ===== src/Authz/Grants.antt =====
-- The grants of x/wasm/types/authz.go, with their limits and filters, and their ValidateBasic.
use text.Mathlib.Text.{◌==◌ as str_eq}
use cosmwasgo.Base.{
  ℕ, Bool, true, false, not, List, [], ◌∷◌, Option, none, some, String, contains, any, ◌==◌,
  if◌then◌else◌,
}
use cosmwasgo.Base.Outcome.{Error, registered, wrap, Outcome, ok, err}
use cosmwasgo.Vm.{Bytes}
use cosmwasgo.Access.{err_empty, err_invalid, err_duplicate}
use cosmwasgo.Keeper.Host.{Coin}
use cosmwasgo.Keeper.Entry.{is_zero}
use cosmwasgo.Keeper.Events.{trim_space}
use cosmwasgo.Messages.{Message}
use cosmwasgo.Messages.Validate.{Checks, first_failure, within, refuse_if}

-- ContractAuthzLimitX
pub data Limit : Type 0 where
  undefined_limit : Limit
  max_calls : ℕ → Limit
  max_funds : List Coin → Limit
  combined : ℕ → List Coin → Limit

-- ContractAuthzFilterX
pub data Filter : Type 0 where
  undefined_filter allow_all : Filter
  accepted_keys : List String → Filter
  accepted_messages : List Bytes → Filter

pub record ContractGrant : Type 0 where
  pub contract : Bytes
  pub limit : Limit
  pub filter : Filter

-- ContractAuthzLimitAcceptResult
pub data LimitResult : Type 0 where
  not_applicable applicable used_up : LimitResult
  updated : Limit → LimitResult

-- authztypes.AcceptResponse
pub data Response : Type 0 where
  refused accepted deleted : Response
  replaced : List ContractGrant → Response

-- the authorization, which tells for which messages its grants are
pub data Kind : Type 0 where
  executions migrations : Kind

-- AuthzableWasmMsg
pub record Granted : Type 0 where
  pub get_contract : Bytes
  pub get_msg : Bytes
  pub get_funds : List Coin

-- Coins.IsAllLTE, Coins.Sub, NewCoins, and the keys of a JSON object that json.Unmarshal reads (`none`
-- for another value)
pub record Tools : Type 0 where
  pub checks : Checks
  pub is_all_lte : List Coin → List Coin → Bool
  pub sub : List Coin → List Coin → Outcome (List Coin)
  pub new_coins : List Coin → Outcome (List Coin)
  pub object_keys : Bytes → Outcome (Option (List String))

abbrev pub is_empty {ℓ} : {A : Type ℓ} → List A → Bool
is_empty [] = true
is_empty (x ∷ xs) = false

abbrev pub err_invalid_type : Error
err_invalid_type = registered "sdk" 29

abbrev pub err_not_found : Error
err_not_found = registered "sdk" 38

-- the message as the authorization's type of messages
abbrev pub granted : Kind → Message → Option Granted
granted executions (Message.execute_contract m) =
    some (record { get_contract = m.contract; get_msg = m.msg; get_funds = m.funds })
granted migrations (Message.migrate_contract m) =
    some (record { get_contract = m.contract; get_msg = m.msg; get_funds = [] })
granted k m = none

-- a key occurs twice, or is empty, or has spaces around it
abbrev pub check_key : List String → String → Outcome (Unit {0})
check_key seen key =
    if str_eq key ""
    then err (wrap err_empty "key")
    else if not (str_eq key (trim_space key))
    then err (wrap err_invalid "key contains whitespaces")
    else refuse_if (any (str_eq key) seen) (wrap err_duplicate "key")

module _ (x : Tools) where
  -- AcceptedMessageKeysFilter.ValidateBasic
  abbrev pub check_keys : List String → List String → Outcome (Unit {0})
  check_keys seen [] = ok tt
  check_keys seen (key ∷ keys) =
      first_failure (check_key seen key ∷ check_keys (key ∷ seen) keys ∷ [])

  -- AcceptedMessagesFilter.ValidateBasic
  abbrev pub check_messages : List Bytes → List Bytes → Outcome (Unit {0})
  check_messages seen [] = ok tt
  check_messages seen (m ∷ ms) = first_failure (
      refuse_if (is_empty m) (wrap err_empty "message")
      ∷ refuse_if (not (x.checks.is_json m)) err_invalid
      ∷ refuse_if (contains seen m) (wrap err_duplicate "message")
      ∷ check_messages (m ∷ seen) ms
      ∷ [])

  unfoldable pub validate_filter : Filter → Outcome (Unit {0})
  validate_filter undefined_filter = err (wrap err_invalid_type "undefined filter")
  validate_filter allow_all = ok tt
  validate_filter (accepted_keys keys) =
      first_failure (refuse_if (is_empty keys) (wrap err_empty "keys") ∷ check_keys [] keys ∷ [])
  validate_filter (accepted_messages ms) =
      first_failure
        (refuse_if (is_empty ms) (wrap err_empty "messages") ∷ check_messages [] ms ∷ [])

  unfoldable pub validate_limit : Limit → Outcome (Unit {0})
  validate_limit undefined_limit = err (wrap err_invalid_type "undefined limit")
  validate_limit (max_calls n) = refuse_if (n == 0) (wrap err_empty "remaining calls")
  validate_limit (max_funds amounts) =
      first_failure
        (x.checks.coins amounts ∷ refuse_if (is_zero amounts) (wrap err_empty "amounts") ∷ [])
  validate_limit (combined n amounts) = first_failure (
      refuse_if (n == 0) (wrap err_empty "remaining calls")
      ∷ refuse_if (is_zero amounts) (wrap err_empty "amounts")
      ∷ within "amounts" (x.checks.coins amounts)
      ∷ [])

  -- ContractGrant.ValidateBasic
  unfoldable pub validate_grant : ContractGrant → Outcome (Unit {0})
  unfolding validate_limit validate_filter
  validate_grant g = first_failure (
      within "contract" (x.checks.sdk.parse g.contract)
      ∷ within "limit" (validate_limit g.limit)
      ∷ within "filter" (validate_filter g.filter)
      ∷ [])

  abbrev pub validate_each : List ContractGrant → Outcome (Unit {0})
  validate_each [] = ok tt
  validate_each (g ∷ gs) =
      first_failure (within "position" (validate_grant g) ∷ validate_each gs ∷ [])

  -- validateGrants
  unfoldable pub validate_grants : List ContractGrant → Outcome (Unit {0})
  unfolding validate_grant
  validate_grants gs =
      first_failure (refuse_if (is_empty gs) (wrap err_empty "grants") ∷ validate_each gs ∷ [])
