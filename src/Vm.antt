-- ===== src/Vm.antt =====
-- The data that wasmd and a contract exchange: wasmvm/types/msg.go, submessages.go and
-- fraction.go. Byte slices are lists of numbers below 256, text is native text.
use cosmwasgo.Base.{ℕ, ◌*◌, ◌/◌, ◌%◌, ◌^◌, Bool, true, false, List, Option, String}

abbrev pub Bytes : Type 0
Bytes = List ℕ

-- uint64 arithmetic wraps
abbrev pub word64 : ℕ → ℕ
word64 n = n % 2 ^ 64

abbrev pub max_uint64 : ℕ
max_uint64 = 0xffff_ffff_ffff_ffff

pub record EventAttribute : Type 0 where
  pub key : String
  pub value : String

pub record Event : Type 0 where
  pub type : String
  pub attributes : List EventAttribute

-- wasmvmtypes.Coin: the amount is a text
pub record WasmCoin : Type 0 where
  pub denom : String
  pub amount : Bytes

pub record ExecuteMsg : Type 0 where
  pub contract_addr : Bytes
  pub msg : Bytes
  pub funds : List WasmCoin

pub record InstantiateMsg : Type 0 where
  pub code_id : ℕ
  pub msg : Bytes
  pub funds : List WasmCoin
  pub label : String
  pub admin : Bytes

pub record MigrateMsg : Type 0 where
  pub contract_addr : Bytes
  pub new_code_id : ℕ
  pub msg : Bytes

-- Exactly one field of the Go struct is set, or none is; `instantiate2` has the salt beside.
pub data WasmMsg : Type 0 where
  execute : ExecuteMsg → WasmMsg
  instantiate : InstantiateMsg → WasmMsg
  instantiate2 : InstantiateMsg → Bytes → WasmMsg
  migrate : MigrateMsg → WasmMsg
  update_admin : Bytes → Bytes → WasmMsg
  clear_admin : Bytes → WasmMsg
  unset : WasmMsg

pub data BankMsg : Type 0 where
  send : Bytes → List WasmCoin → BankMsg
  burn : List WasmCoin → BankMsg
  unset : BankMsg

-- voteOption
pub data VoteOption : Type 0 where
  unset_vote_option yes no abstain no_with_veto : VoteOption

pub record WeightedVoteOption : Type 0 where
  pub option : VoteOption
  pub weight : Bytes

pub data GovMsg : Type 0 where
  vote : ℕ → VoteOption → GovMsg
  vote_weighted : ℕ → List WeightedVoteOption → GovMsg
  unset : GovMsg

pub data StakingMsg : Type 0 where
  delegate undelegate : Bytes → WasmCoin → StakingMsg
  redelegate : Bytes → Bytes → WasmCoin → StakingMsg
  unset : StakingMsg

pub data DistributionMsg : Type 0 where
  set_withdraw_address withdraw_delegator_reward : Bytes → DistributionMsg
  fund_community_pool : List WasmCoin → DistributionMsg
  unset : DistributionMsg

-- Exactly one field of the Go struct is set, or none is; the bytes stand for what is passed on.
pub data CosmosMsg : Type 0 where
  bank : BankMsg → CosmosMsg
  wasm : WasmMsg → CosmosMsg
  distribution : DistributionMsg → CosmosMsg
  staking : StakingMsg → CosmosMsg
  gov : GovMsg → CosmosMsg
  custom ibc any : Bytes → CosmosMsg
  unset : CosmosMsg

-- `msg.Wasm == nil` fails
abbrev pub is_wasm : CosmosMsg → Bool
is_wasm (CosmosMsg.wasm b) = true
is_wasm _ = false

-- `invalid` stands for the numbers that are no value of the enumeration, and for the unset one
pub data ReplyOn : Type 0 where
  reply_always reply_success reply_error reply_never invalid : ReplyOn

pub record SubMsg : Type 0 where
  pub id : ℕ
  pub msg : CosmosMsg
  pub payload : Bytes
  pub gas_limit : Option ℕ
  pub reply_on : ReplyOn

pub record MsgResponse : Type 0 where
  pub type_url : String
  pub value : Bytes

pub record SubMsgResponse : Type 0 where
  pub events : List Event
  pub data_bytes : Bytes
  pub msg_responses : List MsgResponse

-- A result has a response or an error text, and Go leaves the text empty beside a response.
pub record SubMsgResult : Type 0 where
  pub response : Option SubMsgResponse
  pub error : String

pub record Reply : Type 0 where
  pub id : ℕ
  pub result : SubMsgResult
  pub payload : Bytes

-- what a contract returns on success; `none` data is a nil slice
pub record Response : Type 0 where
  pub messages : List SubMsg
  pub data_bytes : Option Bytes
  pub attributes : List EventAttribute
  pub events : List Event

pub record UFraction : Type 0 where
  pub numerator : ℕ
  pub denominator : ℕ

-- UFraction.Mul
unfoldable pub mul : UFraction → ℕ → UFraction
mul f m = record f { numerator = word64 (f.numerator * m) }

-- UFraction.Floor on a denominator that is not zero
unfoldable pub floor : UFraction → ℕ
floor f = f.numerator / f.denominator
