-- ===== src/Keeper/Keys/Tests.antt =====
-- Keys on inputs.
use cosmwasgo.Base.{◌≡◌, ◌≤◌, refl, true, [], ◌∷◌, arith, length, ltb, if◌then◌else◌}
use cosmwasgo.Base.Outcome.{Outcome, ok, panic, other}
use cosmwasgo.Vm.{Bytes}
use cosmwasgo.Keeper.State.{Position}
use cosmwasgo.Keeper.Keys.{less_than}
use cosmwasgo.Keeper.Keys.Read.{by_creator, Fits}
use cosmwasgo.Keeper.Keys.Separate.{key_of_inj}

abbrev early : Position
early = record { block_height = 255; tx_index = 9 }

abbrev late : Position
late = record { block_height = 256; tx_index = 0 }

early_first : less_than early late ≡ true
unfolding less_than
early_first = refl

-- MustLengthPrefix
abbrev plain_prefix : Bytes → Outcome Bytes
plain_prefix bz =
    if ltb 255 (length bz) then panic (other "address length") else ok (length bz ∷ bz)

plain_prefix-prefixed :
    (bz : Bytes) → 1 ≤ length bz → length bz ≤ 255 → plain_prefix bz ≡ ok (length bz ∷ bz)
plain_prefix-prefixed bz h k = ground arith

key_of_inj_example : by_creator (7 ∷ []) early (8 ∷ []) ≡ by_creator (7 ∷ []) early (8 ∷ [])
unfolding Fits
key_of_inj_example =
    key_of_inj plain_prefix plain_prefix-prefixed (by_creator (7 ∷ []) early (8 ∷ []))
      (by_creator (7 ∷ []) early (8 ∷ [])) (omega arith, omega arith, omega arith, omega arith)
      (omega arith, omega arith, omega arith, omega arith) refl
