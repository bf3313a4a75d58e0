-- ===== src/Keeper/Addresses.antt =====
-- The addresses of contracts, x/wasm/keeper/addresses.go. The hash of the SDK is the parameter
-- `module_address` of the host, so that the model shows the keys that are hashed.
mod Tests
pub mod Keys
use cosmwasgo.Base.{
  ℕ, ◌+◌, Bool, true, false, not, ◌&&◌, List, [], ◌∷◌, ◌++◌, Option, none, some, length, ltb, ◌==◌,
  if◌then◌else◌,
}
use cosmwasgo.Base.Outcome.{Panic, Outcome, ok, err, panic, other, Exec, lift}
use cosmwasgo.Base.Words.{be64, take}
use cosmwasgo.Vm.{Bytes, word64}
use cosmwasgo.Sdk.{GasMeter, Ctx}
use cosmwasgo.Keeper.State.{Store, auto_increment}
use cosmwasgo.Keeper.Host.{Host, World, State}

-- the key of BuildContractAddressClassic
unfoldable pub classic_key : ℕ → ℕ → Bytes
classic_key code_id instance_id = be64 code_id ++ be64 instance_id

-- UInt64LengthPrefix
unfoldable pub uint64_length_prefix : Bytes → Bytes
uint64_length_prefix bz = be64 (length bz) ++ bz

-- the key of BuildContractAddressPredictable
unfoldable pub predictable_key : Bytes → Bytes → Bytes → Bytes → Bytes
predictable_key checksum creator salt init_msg =
    uint64_length_prefix checksum
    ++ (uint64_length_prefix creator
        ++ (uint64_length_prefix salt ++ uint64_length_prefix init_msg))

-- ValidateSalt succeeds
abbrev pub is_salt : Bytes → Bool
is_salt salt = not (length salt == 0) && not (ltb 64 (length salt))

-- AddressGenerator on a code id and a checksum
abbrev pub Generator : GasMeter → Type 0 → Type 0
Generator G E = ℕ → Bytes → Exec (State G E) Bytes

module _ (G : GasMeter) {E : Type 0} (h : Host G E) where
  -- BuildContractAddressClassic
  unfoldable pub build_contract_address_classic : ℕ → ℕ → Bytes
  build_contract_address_classic code_id instance_id =
      take 32 (h.module_address (classic_key code_id instance_id))

  -- ClassicAddressGenerator, with mustAutoIncrementID on the sequence of instances
  unfoldable pub classic_address_generator : Generator G E
  classic_address_generator code_id checksum c =
      let (id, next) = auto_increment c.store.wasm.last_contract_id in
      (
        ok (build_contract_address_classic code_id id),
        record c {
          store = record c.store { wasm = record c.store.wasm { last_contract_id = some next } };
        },
      )

  -- BuildContractAddressPredictable
  unfoldable pub build_contract_address_predictable : Bytes → Bytes → Bytes → Bytes → Outcome Bytes
  build_contract_address_predictable checksum creator salt init_msg =
      if not (length checksum == 32)
      then panic (other "invalid checksum")
      else if not (h.is_valid_address creator)
      then panic (other "creator")
      else if not (is_salt salt)
      then panic (other "salt")
      else if not (length init_msg == 0) && not (h.is_json init_msg)
      then panic (other "initMsg")
      else ok (take 32 (h.module_address (predictable_key checksum creator salt init_msg)))

  -- PredictableAddressGenerator
  unfoldable pub predictable_address_generator : Bytes → Bytes → Bytes → Bool → Generator G E
  predictable_address_generator creator salt msg fix_msg code_id checksum =
      lift (build_contract_address_predictable checksum creator salt (if fix_msg then msg else []))
