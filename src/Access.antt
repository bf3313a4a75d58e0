-- ===== src/Access.antt =====
-- Access configurations: AccessType and AccessConfig of x/wasm/types/params.go and types.go, with
-- validateBech32Addresses of validation.go. An sdk.AccAddress is its bytes, its bech32 text is
-- the bytes of the text; parsing and printing of bech32 belong to the Cosmos SDK.
pub mod Subset
pub mod Validation
mod Tests
use cosmwasgo.Base.{
  ℕ, ◌+◌, ◌-◌, Bool, true, false, not, ◌&&◌, ◌||◌, List, [], ◌∷◌, map, Option, none, some, length,
  any, bytes_eq, contains, ltb, leb, ◌==◌, if◌then◌else◌,
}
use cosmwasgo.Base.Outcome.{Error, registered, wrap, Outcome, ok, err, panic, other}
use cosmwasgo.Vm.{Bytes}

-- sdk.AccAddressFromBech32 and AccAddress.String
pub record Bech32 : Type 0 where
  pub parse : Bytes → Outcome Bytes
  pub render : Bytes → Bytes

-- `unknown` stands for the numbers that are no value of the enumeration
pub data AccessType : Type 0 where
  unspecified nobody everybody any_of_addresses unknown : AccessType

pub record AccessConfig : Type 0 where
  pub permission : AccessType
  pub addresses : List Bytes

abbrev pub allow_everybody : AccessConfig
allow_everybody = record { permission = everybody; addresses = [] }

abbrev pub allow_nobody : AccessConfig
allow_nobody = record { permission = nobody; addresses = [] }

abbrev pub err_empty : Error
err_empty = registered "wasm" 12

abbrev pub err_invalid : Error
err_invalid = registered "wasm" 14

abbrev pub err_duplicate : Error
err_duplicate = registered "wasm" 15

abbrev pub err_invalid_request : Error
err_invalid_request = registered "sdk" 18

-- strings.ToUpper on ASCII text
abbrev pub upper : ℕ → ℕ
upper c = if leb b'a' c && leb c b'z' then c - 32 else c

abbrev pub to_upper : Bytes → Bytes
to_upper = map upper

abbrev pub max_address_count : ℕ
max_address_count = 50

module _ (sdk : Bech32) where
  -- the loop of validateBech32Addresses, over the upper-case texts seen so far
  abbrev pub validate_from : List Bytes → List Bytes → Outcome (Unit {0})
  validate_from index [] = ok tt
  validate_from index (addr ∷ addrs) =
      let rest = validate_from (to_upper addr ∷ index) addrs in
      elim (sdk.parse addr) [
        | ok a ↦
            if contains index (to_upper addr)
            then err (wrap err_duplicate "duplicate addresses")
            else rest
        | err e ↦ err (wrap e "address")
        | panic p ↦ panic p
      ]

  -- validateBech32Addresses
  unfoldable pub validate_bech32_addresses : List Bytes → Outcome (Unit {0})
  validate_bech32_addresses addresses =
      if length addresses == 0
      then err (wrap err_empty "addresses")
      else if ltb max_address_count (length addresses)
      then err (wrap err_invalid_request "total number of addresses is too large")
      else validate_from [] addresses

  -- AccessType.With
  unfoldable pub access_with : AccessType → List Bytes → Outcome AccessConfig
  unfolding validate_bech32_addresses
  access_with nobody addrs = ok allow_nobody
  access_with everybody addrs = ok allow_everybody
  access_with any_of_addresses addrs = elim (validate_bech32_addresses (map sdk.render addrs)) [
    | ok t ↦ ok (record { permission = any_of_addresses; addresses = map sdk.render addrs })
    | err e ↦ panic (other "addresses")
    | panic p ↦ panic p
  ]
  access_with unspecified addrs = panic (other "unsupported access type")
  access_with unknown addrs = panic (other "unsupported access type")

  -- AccessConfig.ValidateBasic
  pub validate_access_config : AccessConfig → Outcome (Unit {0})
  validate_access_config a = elim a.permission [
    | unspecified ↦ err (wrap err_empty "type")
    | nobody ↦ ok tt
    | everybody ↦ ok tt
    | any_of_addresses ↦ elim (validate_bech32_addresses a.addresses) [
      | ok t ↦ ok tt
      | err e ↦ err (wrap e "addresses")
      | panic p ↦ panic p
    ]
    | unknown ↦ err (wrap err_invalid "unknown type")
  ]

  -- AccessConfig.Allowed
  unfoldable pub allowed : AccessConfig → Bytes → Outcome Bool
  allowed a actor = elim a.permission [
    | nobody ↦ ok false
    | everybody ↦ ok true
    | any_of_addresses ↦ ok (contains a.addresses (sdk.render actor))
    | unspecified ↦ panic (other "unknown type")
    | unknown ↦ panic (other "unknown type")
  ]

-- validateAccessType
pub validate_access_type : AccessType → Outcome (Unit {0})
validate_access_type unspecified = err (wrap err_empty "type")
validate_access_type nobody = ok tt
validate_access_type any_of_addresses = ok tt
validate_access_type everybody = ok tt
validate_access_type unknown = err (wrap err_invalid "unknown type")

-- `a == b` on the enumeration, for the values that the source compares with
abbrev pub is_nobody : AccessType → Bool
is_nobody nobody = true
is_nobody _ = false

abbrev pub is_any_of_addresses : AccessType → Bool
is_any_of_addresses any_of_addresses = true
is_any_of_addresses _ = false

abbrev pub is_unspecified : AccessType → Bool
is_unspecified unspecified = true
is_unspecified _ = false

-- AccessType.IsSubset
unfoldable pub type_is_subset : AccessType → AccessType → Bool
type_is_subset a everybody = not (is_unspecified a)
type_is_subset a nobody = is_nobody a
type_is_subset a any_of_addresses = is_nobody a || is_any_of_addresses a
type_is_subset a unspecified = false
type_is_subset a unknown = false

-- the loops of isSubset: how many elements of `sub` are in `super`
abbrev pub matches : List Bytes → List Bytes → ℕ
matches super [] = 0
matches super (o ∷ sub) = (if contains super o then 1 else 0) + matches super sub

-- isSubset
unfoldable pub is_subset_list : List Bytes → List Bytes → Bool
is_subset_list super [] = true
is_subset_list super (o ∷ sub) = matches super (o ∷ sub) == length (o ∷ sub)

-- AccessConfig.IsSubset
unfoldable pub is_subset : AccessConfig → AccessConfig → Bool
unfolding type_is_subset is_subset_list
is_subset a super = elim super.permission [
  | any_of_addresses ↦
      is_nobody a.permission
      || (is_any_of_addresses a.permission && is_subset_list super.addresses a.addresses)
  | unspecified ↦ false
  | nobody ↦ type_is_subset a.permission nobody
  | everybody ↦ type_is_subset a.permission everybody
  | unknown ↦ type_is_subset a.permission unknown
]
