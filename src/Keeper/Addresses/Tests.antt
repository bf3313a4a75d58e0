-- ===== src/Keeper/Addresses/Tests.antt =====
-- The keys of addresses on inputs.
use cosmwasgo.Base.{◌≡◌, refl, [], ◌∷◌, arith}
use cosmwasgo.Keeper.Addresses.Keys.{Parts, predictable_key_inj}

abbrev some_parts : Parts
some_parts = record { checksum = 9 ∷ 9 ∷ []; creator = 10 ∷ []; salt = 1 ∷ []; init_msg = 5 ∷ [] }

predictable_key_inj_example :
    (some_parts.checksum ≡ some_parts.checksum)
    × (some_parts.creator ≡ some_parts.creator)
    × (some_parts.salt ≡ some_parts.salt)
    × (some_parts.init_msg ≡ some_parts.init_msg)
predictable_key_inj_example =
    predictable_key_inj some_parts some_parts
      (record { checksum = omega arith; creator = omega arith; salt = omega arith })
      (record { checksum = omega arith; creator = omega arith; salt = omega arith }) refl
