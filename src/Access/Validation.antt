-- ===== src/Access/Validation.antt =====
-- About validateBech32Addresses (x/wasm/types/validation.go).
use cosmwasgo.Base.{◌≤◌, ◌<◌, ◌≡◌, ◌↔◌, refl, false, List, [], ◌∷◌, arith, length, contains, All}
use cosmwasgo.Base.Outcome.{ok}
use cosmwasgo.Vm.{Bytes}
use cosmwasgo.Access.{Bech32, to_upper, validate_from, validate_bech32_addresses}

-- every text parses as an address
abbrev pub AllParse : Bech32 → List Bytes → Type 0
AllParse sdk = All (λ t. (a : Bytes) × (sdk.parse t ≡ ok a))

-- no text is in `seen` and no two are equal, up to the case of letters
abbrev pub Distinct : List Bytes → List Bytes → Type 0
Distinct seen [] = Unit {0}
Distinct seen (t ∷ ts) = (contains seen (to_upper t) ≡ false) × Distinct (to_upper t ∷ seen) ts

validate_from_sound :
    (sdk : Bech32) (seen ts : List Bytes)
    → validate_from sdk seen ts ≡ ok tt
    → AllParse sdk ts × Distinct seen ts
validate_from_sound sdk seen [] h = (tt, tt)
validate_from_sound sdk seen (t ∷ ts) h =
    ground (arith, validate_from_sound sdk (to_upper t ∷ seen) ts)

validate_from_complete :
    (sdk : Bech32) (seen ts : List Bytes)
    → AllParse sdk ts
    → Distinct seen ts
    → validate_from sdk seen ts ≡ ok tt
validate_from_complete sdk seen [] p d = refl
validate_from_complete sdk seen (t ∷ ts) p d =
    ground (arith, p.0.1, d.0, validate_from_complete sdk (to_upper t ∷ seen) ts p.1 d.1)

-- A list of addresses is accepted exactly when it has 1 to 50 entries, each parses as bech32, and
-- no two are the same up to the case of letters.
pub validate_bech32_addresses_iff :
    (sdk : Bech32) (ts : List Bytes)
    → (validate_bech32_addresses sdk ts ≡ ok tt)
      ↔ ((0 < length ts) × (length ts ≤ 50) × AllParse sdk ts × Distinct [] ts)
unfolding validate_bech32_addresses
validate_bech32_addresses_iff sdk ts = (
  λ h. ground (arith, validate_from_sound sdk [] ts),
  λ h. ground (arith, validate_from_complete sdk [] ts h.2 h.3),
)
