-- ===== src/Keeper/State.antt =====
-- The state of the wasm keeper (x/wasm/keeper/keeper.go) and its reads and writes, with the records
-- of x/wasm/types/types.go. Each prefix of the KV store (x/wasm/types/keys.go) is a field that maps
-- what follows the prefix to the stored value; protobuf encoding and failures of the database are
-- left out. An address is its bytes, its text is kept as text.
use cosmwasgo.Base.{
  ℕ, ◌+◌, Bool, true, false, ◌&&◌, List, [], ◌∷◌, ◌++◌, Option, none, some, String, bytes_eq, ◌==◌,
  if◌then◌else◌,
}
use cosmwasgo.Base.Outcome.{Error, registered, wrap, flavoured, Outcome, ok, err, panic, other}
use cosmwasgo.Vm.{Bytes, word64}
use cosmwasgo.Access.{Bech32, AccessType, AccessConfig}

-- types.AbsoluteTxPosition
pub record Position : Type 0 where
  pub block_height : ℕ
  pub tx_index : ℕ

abbrev pub position_eq : Position → Position → Bool
position_eq a b = a.block_height == b.block_height && a.tx_index == b.tx_index

-- types.CodeInfo
pub record CodeInfo : Type 0 where
  pub code_hash : Bytes
  pub creator : Bytes
  pub instantiate_config : AccessConfig

-- types.ContractInfo; `extension` is the encoded extension point, admin and port may be ""
pub record ContractInfo : Type 0 where
  pub code_id : ℕ
  pub creator : Bytes
  pub admin : Bytes
  pub label : String
  pub created : Position
  pub ibc_port : Bytes
  pub extension : Option Bytes

pub data Operation : Type 0 where
  init migrate genesis : Operation

-- types.ContractCodeHistoryEntry
pub record HistoryEntry : Type 0 where
  pub operation : Operation
  pub code_id : ℕ
  pub updated : Position
  pub msg : Bytes

-- types.Params
pub record Params : Type 0 where
  pub code_upload_access : AccessConfig
  pub instantiate_default_permission : AccessType

-- The store. The history of a contract is in the order of its keys, each with its position. The
-- secondary indexes are sets: contracts by code and position, and by creator and position.
pub record Store : Type 0 where
  pub params : Params
  pub last_code_id : Option ℕ
  pub last_contract_id : Option ℕ
  pub codes : ℕ → Option CodeInfo
  pub pinned : ℕ → Bool
  pub contracts : Bytes → Option ContractInfo
  pub history : Bytes → List (ℕ × HistoryEntry)
  pub by_code : ℕ → Position → Bytes → Bool
  pub by_creator : Bytes → Position → Bytes → Bool
  pub contract_store : Bytes → Bytes → Option Bytes

-- one more value in a map by number, and by bytes
abbrev pub at_id {ℓ} : {A : Type ℓ} → (ℕ → A) → ℕ → A → ℕ → A
at_id f k v j = if j == k then v else f j

abbrev pub at_bytes {ℓ} : {A : Type ℓ} → (Bytes → A) → Bytes → A → Bytes → A
at_bytes f k v j = if bytes_eq j k then v else f j

abbrev pub err_not_found : Error
err_not_found = registered "wasm" 8

abbrev pub err_unauthorized : Error
err_unauthorized = registered "sdk" 4

abbrev pub err_invalid_request : Error
err_invalid_request = registered "sdk" 18

-- ErrNoSuchCodeFn(id).Wrapf(...), ErrNoSuchContractFn(addr).Wrapf(...)
abbrev pub err_no_such_code : Error
err_no_such_code = wrap (flavoured (registered "wasm" 28)) "code id"

abbrev pub err_no_such_contract : Error
err_no_such_contract = wrap (flavoured (registered "wasm" 22)) "address"

-- mustStoreCodeInfo, mustStoreContractInfo
abbrev pub store_code_info : ℕ → CodeInfo → Store → Store
store_code_info id info s = record s { codes = at_id s.codes id (some info) }

abbrev pub store_contract_info : Bytes → ContractInfo → Store → Store
store_contract_info addr info s = record s { contracts = at_bytes s.contracts addr (some info) }

-- mustAutoIncrementID on the value under a sequence key: the id, and the next value
abbrev pub auto_increment : Option ℕ → ℕ × ℕ
auto_increment none = (1, 2)
auto_increment (some id) = (id, word64 (id + 1))

-- PeekAutoIncrementID
abbrev pub peek_id : Option ℕ → ℕ
peek_id none = 1
peek_id (some id) = id

-- the position of the last element, 0 if there is none (appendToContractHistory)
abbrev pub last_position : List (ℕ × HistoryEntry) → ℕ
last_position [] = 0
last_position ((p, e) ∷ []) = p
last_position (x ∷ y ∷ xs) = last_position (y ∷ xs)

-- appendToContractHistory with one entry
unfoldable pub append_to_contract_history : Bytes → HistoryEntry → Store → Store
append_to_contract_history addr e s = record s {
  history =
      at_bytes s.history addr
        (s.history addr ++ (word64 (last_position (s.history addr) + 1), e) ∷ []);
}

-- mustGetLastContractHistoryEntry
abbrev pub last_entry : List (ℕ × HistoryEntry) → Option HistoryEntry
last_entry [] = none
last_entry ((p, e) ∷ []) = some e
last_entry (x ∷ y ∷ xs) = last_entry (y ∷ xs)

unfoldable pub must_get_last_contract_history_entry : Bytes → Store → Outcome HistoryEntry
must_get_last_contract_history_entry addr s = elim (last_entry (s.history addr)) [
  | some e ↦ ok e
  | none ↦ panic (other "no history")
]

-- GetContractHistory
abbrev pub entries : List (ℕ × HistoryEntry) → List HistoryEntry
entries [] = []
entries ((p, e) ∷ xs) = e ∷ entries xs

-- the key of the index by code, and writes to it
abbrev pub set_by_code : ℕ → Position → Bytes → Bool → Store → Store
set_by_code id pos addr b s = record s {
  by_code =
      λ i p a. if i == id && (position_eq p pos && bytes_eq a addr) then b else s.by_code i p a;
}

-- addToContractCodeSecondaryIndex, removeFromContractCodeSecondaryIndex
unfoldable pub add_to_contract_code_index : Bytes → HistoryEntry → Store → Store
add_to_contract_code_index addr e = set_by_code e.code_id e.updated addr true

unfoldable pub remove_from_contract_code_index : Bytes → HistoryEntry → Store → Store
remove_from_contract_code_index addr e = set_by_code e.code_id e.updated addr false

-- addToContractCreatorSecondaryIndex
unfoldable pub add_to_contract_creator_index : Bytes → Position → Bytes → Store → Store
add_to_contract_creator_index creator pos addr s = record s {
  by_creator = λ c p a.
      if bytes_eq c creator && (position_eq p pos && bytes_eq a addr)
      then true
      else s.by_creator c p a;
}

-- contractInstance: the contract and its code
unfoldable pub contract_instance : Bytes → Store → Outcome (ContractInfo × CodeInfo)
contract_instance addr s = elim (s.contracts addr) [
  | none ↦ err err_no_such_contract
  | some info ↦ elim (s.codes info.code_id) [
    | none ↦ err err_no_such_code
    | some code ↦ ok (info, code)
  ]
]

module _ (sdk : Bech32) where
  -- AdminAddr
  unfoldable pub admin_addr : ContractInfo → Outcome (Option Bytes)
  admin_addr info = if bytes_eq info.admin [] then ok none else elim (sdk.parse info.admin) [
    | ok a ↦ ok (some a)
    | err e ↦ panic (other "admin")
    | panic p ↦ panic p
  ]

  -- AccAddress.String, which is "" for a nil address
  abbrev pub render_address : Option Bytes → Bytes
  render_address none = []
  render_address (some a) = sdk.render a

  -- NewContractInfo
  abbrev pub new_contract_info : ℕ → Bytes → Option Bytes → String → Position → ContractInfo
  new_contract_info id creator admin label created = record {
    code_id = id;
    creator = sdk.render creator;
    admin = render_address admin;
    label = label;
    created = created;
    ibc_port = [];
    extension = none;
  }

-- InitialHistory
abbrev pub initial_history : ContractInfo → Bytes → HistoryEntry
initial_history c init_msg = record {
  operation = init;
  code_id = c.code_id;
  updated = c.created;
  msg = init_msg;
}
