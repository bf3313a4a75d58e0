-- ===== src/Keeper/Keys/Separate.antt =====
-- About the keys of the store's entries (x/wasm/types/keys.go), as bytes.
use cosmwasgo.Base.{◌≤◌, ◌≡◌, refl, sym, ap, ◌∙◌, ◌∷◌, ◌++◌, length}
use cosmwasgo.Base.Outcome.{Outcome, ok}
use cosmwasgo.Base.Words.{from_be-be64}
use cosmwasgo.Vm.{Bytes}
use cosmwasgo.Keeper.State.{Position}
use cosmwasgo.Keeper.Keys.{
  position_bytes, get_code_key, get_contract_address_key, get_contract_store_prefix,
  key_sequence_code_id, key_sequence_instance_id, get_contract_code_history_element_key,
  get_contract_code_history_element_prefix, get_contract_by_created_secondary_index_key,
  get_contract_by_code_id_secondary_index_prefix, get_pinned_code_index_prefix,
  get_contracts_by_creator_prefix, get_contract_by_creator_secondary_index_key, params_key,
  tx_counter_prefix, get_async_ack_store_prefix, get_async_packet_key,
}
use cosmwasgo.Keeper.Keys.Read.{
  Entry, code, pinned, contract, storage, next_code, next_contract, params, tx_counter, history,
  by_code, by_creator, async_ack, Fits, read_made, read_key, read_history-eq, read_by_code-eq,
  read_by_creator-eq, read_async_ack-eq, take_at, drop_at,
}

-- address.MustLengthPrefix writes the length before an address of 1 to 255 bytes, as documented.
module _ (must_length_prefix : Bytes → Outcome Bytes)
    (prefixed : (bz : Bytes)
      → 1 ≤ length bz
      → length bz ≤ 255
      → must_length_prefix bz ≡ ok (length bz ∷ bz)) where
  pub key_of : Entry → Outcome Bytes
  key_of (code id) = ok (get_code_key id)
  key_of (pinned id) = ok (get_pinned_code_index_prefix id)
  key_of (contract addr) = ok (get_contract_address_key addr)
  key_of (storage addr key) = ok (get_contract_store_prefix addr ++ key)
  key_of next_code = ok key_sequence_code_id
  key_of next_contract = ok key_sequence_instance_id
  key_of params = ok params_key
  key_of tx_counter = ok tx_counter_prefix
  key_of (history addr pos) = ok (get_contract_code_history_element_key addr pos)
  key_of (by_code id p addr) = ok (get_contract_by_created_secondary_index_key id p addr)
  key_of (by_creator creator p addr) =
      get_contract_by_creator_secondary_index_key must_length_prefix creator p addr
  key_of (async_ack port channel sequence) =
      ok (get_async_ack_store_prefix port ++ get_async_packet_key channel sequence)

  creator_key :
      (creator : Bytes) (p : Position) (addr : Bytes)
      → must_length_prefix creator ≡ ok (length creator ∷ creator)
      → get_contract_by_creator_secondary_index_key must_length_prefix creator p addr
        ≡ ok (0x09 ∷ length creator ∷ (creator ++ (position_bytes p ++ addr)))
  unfolding get_contract_by_creator_secondary_index_key get_contracts_by_creator_prefix
  creator_key creator p addr e =
      ap
        (λ (r : Outcome Bytes).
          get_contract_by_creator_secondary_index_key (λ bz. r) creator p addr)
        e

  read_made-key_of : (x : Entry) → Fits x → read_made (key_of x) ≡ x
  unfolding read_made read_key key_of Fits get_code_key get_pinned_code_index_prefix
      get_contract_address_key get_contract_store_prefix get_contract_code_history_element_key
      get_contract_code_history_element_prefix get_contract_by_created_secondary_index_key
      get_contract_by_code_id_secondary_index_prefix get_contract_by_creator_secondary_index_key
      get_async_ack_store_prefix
  read_made-key_of (code id) h = ap code (from_be-be64 id h)
  read_made-key_of (pinned id) h = ap pinned (from_be-be64 id h)
  read_made-key_of (contract addr) h = refl
  read_made-key_of (storage addr key) h = rw (take_at 32 addr key h, drop_at 32 addr key h) refl
  read_made-key_of next_code h = refl
  read_made-key_of next_contract h = refl
  read_made-key_of params h = refl
  read_made-key_of tx_counter h = refl
  read_made-key_of (history addr pos) h = read_history-eq addr pos h
  read_made-key_of (by_code id p addr) h = read_by_code-eq id p addr h
  read_made-key_of (async_ack port channel sequence) (a, h, k) =
      read_async_ack-eq port channel sequence a h k
  read_made-key_of (by_creator creator p addr) (some_byte, short, k, l) =
      ap read_made (creator_key creator p addr (prefixed creator some_byte short))
      ∙ read_by_creator-eq creator p addr k l

  -- Entries of the store with the same key are the same entry, be they of one kind or of two: codes
  -- and pins by id, contracts by address, the storage of contracts by address and key, the two
  -- sequences, the parameters, the counter of transactions, histories by address and position, and
  -- the indexes by code and by creator, and packets that are acknowledged later by port, channel and
  -- sequence. Numbers fit into uint64, contracts with storage have addresses of 32 bytes, creators
  -- addresses of 1 to 255 bytes, before which the SDK writes their length, ports have no byte 0, and
  -- channels less than 2 ^ 24 bytes.
  pub key_of_inj : (x y : Entry) → Fits x → Fits y → key_of x ≡ key_of y → x ≡ y
  key_of_inj x y h k e = sym (read_made-key_of x h) ∙ ap read_made e ∙ read_made-key_of y k
