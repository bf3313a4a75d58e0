-- ===== src/Keeper/Keys.antt =====
-- The keys of the store, x/wasm/types/keys.go, with the order and the bytes of AbsoluteTxPosition
-- (x/wasm/types/types.go). Byte arrays that the code copies together are joined lists.
pub mod Order
pub mod Read
pub mod Separate
mod Tests
use cosmwasgo.Base.{
  ℕ, Bool, ◌&&◌, ◌||◌, List, [], ◌∷◌, ◌++◌, ltb, ◌==◌, map, String, length, ◌%◌, ◌^◌,
}
use cosmwasgo.Base.Outcome.{Outcome, ok, err, panic}
use cosmwasgo.Base.Words.{be32, be64}
use cosmwasgo.Vm.{Bytes}
use cosmwasgo.Keeper.State.{Position}

-- AbsoluteTxPosition.LessThan on positions that are not nil
unfoldable pub less_than : Position → Position → Bool
less_than a b =
    ltb a.block_height b.block_height
    || (a.block_height == b.block_height && ltb a.tx_index b.tx_index)

-- AbsoluteTxPosition.Bytes
unfoldable pub position_bytes : Position → Bytes
position_bytes a = be64 a.block_height ++ be64 a.tx_index

-- GetCodeKey
unfoldable pub get_code_key : ℕ → Bytes
get_code_key code_id = 0x01 ∷ be64 code_id

-- GetContractAddressKey
unfoldable pub get_contract_address_key : Bytes → Bytes
get_contract_address_key addr = 0x02 ∷ addr

-- GetContractStorePrefix
unfoldable pub get_contract_store_prefix : Bytes → Bytes
get_contract_store_prefix addr = 0x03 ∷ addr

-- KeySequenceCodeID, KeySequenceInstanceID
abbrev pub key_sequence_code_id : Bytes
key_sequence_code_id =
    0x04 ∷ b'l' ∷ b'a' ∷ b's' ∷ b't' ∷ b'C' ∷ b'o' ∷ b'd' ∷ b'e' ∷ b'I' ∷ b'd' ∷ []

abbrev pub key_sequence_instance_id : Bytes
key_sequence_instance_id =
    0x04 ∷ b'l' ∷ b'a' ∷ b's' ∷ b't' ∷ b'C' ∷ b'o' ∷ b'n' ∷ b't' ∷ b'r' ∷ b'a' ∷ b'c' ∷ b't' ∷ b'I'
    ∷ b'd' ∷ []

-- GetContractCodeHistoryElementPrefix, GetContractCodeHistoryElementKey
unfoldable pub get_contract_code_history_element_prefix : Bytes → Bytes
get_contract_code_history_element_prefix addr = 0x05 ∷ addr

unfoldable pub get_contract_code_history_element_key : Bytes → ℕ → Bytes
unfolding get_contract_code_history_element_prefix
get_contract_code_history_element_key addr pos =
    get_contract_code_history_element_prefix addr ++ be64 pos

-- GetContractByCodeIDSecondaryIndexPrefix, GetContractByCreatedSecondaryIndexKey
unfoldable pub get_contract_by_code_id_secondary_index_prefix : ℕ → Bytes
get_contract_by_code_id_secondary_index_prefix code_id = 0x06 ∷ be64 code_id

unfoldable pub get_contract_by_created_secondary_index_key : ℕ → Position → Bytes → Bytes
unfolding get_contract_by_code_id_secondary_index_prefix position_bytes
get_contract_by_created_secondary_index_key code_id updated addr =
    get_contract_by_code_id_secondary_index_prefix code_id ++ (position_bytes updated ++ addr)

-- GetAsyncAckStorePrefix, on the bytes of the port
unfoldable pub get_async_ack_store_prefix : Bytes → Bytes
get_async_ack_store_prefix port = 0x11 ∷ port

-- GetAsyncPacketKey, on the bytes of the channel
unfoldable pub get_async_packet_key : Bytes → ℕ → Bytes
get_async_packet_key channel sequence = be32 (length channel % 2 ^ 32) ++ (channel ++ be64 sequence)

module _ (must_length_prefix : Bytes → Outcome Bytes) where
  -- GetContractsByCreatorPrefix, over address.MustLengthPrefix of the SDK
  unfoldable pub get_contracts_by_creator_prefix : Bytes → Outcome Bytes
  get_contracts_by_creator_prefix creator = elim (must_length_prefix creator) [
    | ok bz ↦ ok (0x09 ∷ bz)
    | err e ↦ err e
    | panic p ↦ panic p
  ]

  -- GetContractByCreatorSecondaryIndexKey on the bytes of a position, as it is called
  unfoldable pub get_contract_by_creator_secondary_index_key :
      Bytes → Position → Bytes → Outcome Bytes
  unfolding get_contracts_by_creator_prefix position_bytes
  get_contract_by_creator_secondary_index_key creator position addr =
      elim (get_contracts_by_creator_prefix creator) [
        | ok prefix ↦ ok (prefix ++ (position_bytes position ++ addr))
        | err e ↦ err e
        | panic p ↦ panic p
      ]

-- TXCounterPrefix, ParamsKey: the keys of one value each
abbrev pub tx_counter_prefix : Bytes
tx_counter_prefix = 0x08 ∷ []

abbrev pub params_key : Bytes
params_key = 0x10 ∷ []

-- GetPinnedCodeIndexPrefix
unfoldable pub get_pinned_code_index_prefix : ℕ → Bytes
get_pinned_code_index_prefix code_id = 0x07 ∷ be64 code_id
