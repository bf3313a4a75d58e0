-- ===== src/Messages/Validate/Rules.antt =====
-- The checks that ValidateBasic is made of: x/wasm/types/validation.go, Params.ValidateBasic
-- (x/wasm/types/params.go) and the helpers of x/wasm/types/tx.go. Bech32, coins, JSON, URLs, docker
-- references and the table of printable characters are parameters.
use Prim.Native.Char.{Char, code}
use text.Mathlib.Text.{◌==◌ as str_eq}
use cosmwasgo.Base.{
  ℕ, ◌+◌, ◌*◌, Bool, true, false, not, ◌&&◌, ◌||◌, List, [], ◌∷◌, Option, none, some, String,
  length, bytes_eq, any, ltb, ◌==◌, if◌then◌else◌,
}
use cosmwasgo.Base.Outcome.{Error, registered, wrap, wrap_cause, external, Outcome, ok, err, panic}
use cosmwasgo.Vm.{Bytes}
use cosmwasgo.Access.{
  Bech32, AccessConfig, err_empty, err_invalid, err_invalid_request, to_upper,
  validate_access_config, validate_access_type,
}
use cosmwasgo.Keeper.State.{Params}
use cosmwasgo.Keeper.Host.{Coin}
use cosmwasgo.Keeper.Events.{trim_space}

-- sdk.Coins.Validate, json.Valid, unicode.IsPrint, url.ParseRequestURI, reference.ParseDockerRef
pub record Checks : Type 0 where
  pub sdk : Bech32
  pub coins : List Coin → Outcome (Unit {0})
  pub is_json : Bytes → Bool
  pub is_print : ℕ → Bool
  pub request_uri : Bytes → Outcome (Unit {0})
  pub docker_ref : Bytes → Outcome (Unit {0})

abbrev pub err_limit : Error
err_limit = registered "wasm" 13

-- checks in the order in which the code makes them: the first that fails ends the list
abbrev pub first_failure : List (Outcome (Unit {0})) → Outcome (Unit {0})
first_failure [] = ok tt
first_failure (ok t ∷ checks) = first_failure checks
first_failure (err e ∷ checks) = err e
first_failure (panic p ∷ checks) = panic p

-- `errorsmod.Wrap(err, text)` on the error of a check, whose value is not used
abbrev pub within : {A : Type 0} → String → Outcome A → Outcome (Unit {0})
within text (ok a) = ok tt
within text (err e) = err (wrap e text)
within text (panic p) = panic p

-- `errorsmod.Wrapf(ErrInvalidRequest, ..., err.Error())`
abbrev pub in_request : Outcome (Unit {0}) → Outcome (Unit {0})
in_request (ok t) = ok tt
in_request (err e) = err (wrap_cause err_invalid_request e)
in_request (panic p) = panic p

-- an address is checked, and not used
abbrev pub checked : {A : Type 0} → Outcome A → Outcome (Unit {0})
checked (ok a) = ok tt
checked (err e) = err e
checked (panic p) = panic p

-- `if c { return err }`
abbrev pub refuse_if : Bool → Error → Outcome (Unit {0})
refuse_if true e = err e
refuse_if false e = ok tt

-- validateWasmCode
unfoldable pub validate_wasm_code : Bytes → ℕ → Outcome (Unit {0})
validate_wasm_code s max_size =
    if length s == 0
    then err (wrap err_empty "is required")
    else refuse_if (ltb max_size (length s)) (wrap err_limit "cannot be longer than the limit")

-- the bytes that UTF-8 needs for a character, and for a text (`len(label)`)
abbrev pub utf8_width : Char → ℕ
utf8_width c =
    if ltb (code c) 0x80
    then 1
    else if ltb (code c) 0x800
    then 2
    else if ltb (code c) 0x1_0000
    then 3
    else 4

unfoldable pub byte_length : String → ℕ
byte_length String.[] = 0
byte_length (String.◌∷◌ c s) = utf8_width c + byte_length s

-- strings.Map that drops what is not printable
unfoldable pub printable : (ℕ → Bool) → String → String
printable is_print String.[] = ""
printable is_print (String.◌∷◌ c s) =
    let rest = printable is_print s in if is_print (code c) then String.◌∷◌ c rest else rest

abbrev pub max_label_size : ℕ
max_label_size = 128

-- ValidateLabel
unfoldable pub validate_label : (ℕ → Bool) → String → Outcome (Unit {0})
validate_label is_print label = first_failure (
    refuse_if (str_eq label "") (wrap err_empty "is required")
    ∷ refuse_if (ltb max_label_size (byte_length label))
        (wrap err_limit "cannot be longer than 128 characters")
    ∷ refuse_if (not (str_eq label (trim_space label)))
        (wrap err_invalid "label must not start/end with whitespaces")
    ∷ refuse_if (not (str_eq label (printable is_print label)))
        (wrap err_invalid "label must have printable characters only")
    ∷ [])

abbrev pub max_salt_size : ℕ
max_salt_size = 64

-- ValidateSalt
unfoldable pub validate_salt : Bytes → Outcome (Unit {0})
validate_salt salt =
    if length salt == 0
    then err (wrap err_empty "is required")
    else refuse_if (ltb max_salt_size (length salt))
        (wrap err_limit "cannot be longer than 64 characters")

-- hasDuplicates, over the values seen so far
abbrev pub duplicates_from : List ℕ → List ℕ → Bool
duplicates_from index [] = false
duplicates_from index (v ∷ s) = any (λ x. v == x) index || duplicates_from (v ∷ index) s

unfoldable pub has_duplicates : List ℕ → Bool
has_duplicates s = duplicates_from [] s

abbrev pub max_code_id_count : ℕ
max_code_id_count = 50

-- validateCodeIDs
unfoldable pub validate_code_ids : List ℕ → Outcome (Unit {0})
unfolding has_duplicates
validate_code_ids code_ids =
    if length code_ids == 0
    then err (wrap err_invalid_request "empty code ids")
    else if ltb max_code_id_count (length code_ids)
    then err (wrap err_invalid_request "total number of code ids is too large")
    else refuse_if (has_duplicates code_ids) (wrap err_invalid_request "duplicate code ids")

-- strings.EqualFold on ASCII texts, such as bech32 addresses
abbrev pub equal_fold : Bytes → Bytes → Bool
equal_fold a b = bytes_eq (to_upper a) (to_upper b)

-- an optional text, as `len(x) != 0` and a check
abbrev pub unless_empty : Bytes → Outcome (Unit {0}) → Outcome (Unit {0})
unless_empty [] r = ok tt
unless_empty (b ∷ bs) r = r

abbrev pub bytes_or_nil : Option Bytes → Bytes
bytes_or_nil none = []
bytes_or_nil (some b) = b

abbrev pub is_nil {ℓ} : {A : Type ℓ} → Option A → Bool
is_nil none = true
is_nil (some a) = false

module _ (x : Checks) where
  abbrev pub address : String → Bytes → Outcome (Unit {0})
  address text a = within text (x.sdk.parse a)

  -- RawContractMessage.ValidateBasic
  abbrev pub payload : Bytes → Outcome (Unit {0})
  payload b = within "payload msg" (refuse_if (not (x.is_json b)) err_invalid)

  abbrev pub permission : Option AccessConfig → Outcome (Unit {0})
  permission none = ok tt
  permission (some c) = within "instantiate permission" (validate_access_config x.sdk c)

  abbrev pub wasm_code : Bytes → Outcome (Unit {0})
  wasm_code b = in_request (validate_wasm_code b (800 * 1024))

  abbrev pub label : String → Outcome (Unit {0})
  label s = within "label" (validate_label x.is_print s)

  -- ValidateVerificationInfo
  unfoldable pub validate_verification_info : Bytes → Bytes → Option Bytes → Outcome (Unit {0})
  validate_verification_info source builder code_hash =
      if length source == 0 && (length builder == 0 && length (bytes_or_nil code_hash) == 0)
      then ok tt
      else first_failure (
          refuse_if (bytes_eq source []) (external 21)
          ∷ within "source" (x.request_uri source)
          ∷ refuse_if (bytes_eq builder []) (external 22)
          ∷ within "builder" (x.docker_ref builder)
          ∷ refuse_if (is_nil code_hash) (external 23)
          ∷ [])

  -- Params.ValidateBasic
  unfoldable pub validate_params : Params → Outcome (Unit {0})
  validate_params p = first_failure (
      within "instantiate default permission"
        (validate_access_type p.instantiate_default_permission)
      ∷ within "upload access" (validate_access_config x.sdk p.code_upload_access)
      ∷ [])
