-- ===== src/Lib.antt =====
-- CosmWasm's wasm module for chains of the Cosmos SDK, in Go: contracts in WebAssembly are uploaded,
-- instantiated, called and migrated by the keeper (x/wasm/keeper), which runs them on a VM (wasmvm)
-- and sends on the messages that they return.
--
-- Base has shared names: tests on native numbers, lists, `Base.Outcome` with the ends of a Go call
-- (a value, an error, a panic) and a monad of such calls over a state that survives them, and
-- `Base.Words` with big-endian numbers. Vm is the data of wasmvm/types. Gas is
-- x/wasm/types/gas_register.go. Access has AccessType and AccessConfig (x/wasm/types/params.go,
-- types.go) and validateBech32Addresses (validation.go). Policy is x/wasm/keeper/authz_policy.go.
-- Sdk has what is taken from the Cosmos SDK, as interfaces: the gas meter with its documented laws,
-- error information, and the changing part of a context. Dispatch is
-- x/wasm/keeper/msg_dispatcher.go and the response handler of x/wasm/keeper/keeper.go.
--
-- Keeper is x/wasm/keeper/keeper.go. `Keeper.State` is the store, one field per key prefix
-- (x/wasm/types/keys.go), with its reads and writes; `Keeper.Host` the other keepers, the VM, the
-- address hash and the response handler as a record of functions that every operation takes.
-- `Keeper.Settings` has setContractAdmin, setContractLabel, setContractInfoExtension,
-- setAccessConfig, pinCode and unpinCode; `Keeper.Metering` the gas of a call, discounts and
-- recursion limits; `Keeper.Events` events.go; `Keeper.Addresses` addresses.go; `Keeper.Code` create
-- and importCode; `Keeper.Entry` execute, Sudo, reply and what all calls of a contract share;
-- `Keeper.Instantiate` and `Keeper.Migrate` the life cycle, `Keeper.Keys` the bytes of the store's keys.
-- `Keeper.Runs` has the rules to reason on calls step by step, `Keeper.Index` the invariant of the
-- store and the relation of reached stores. A call of the VM is handed the storage of its contract and leaves a changed one; the instances that
-- persist are written before the response is handled, as in the code.
--
-- Messages is the messages of the Msg service (x/wasm/types/tx.pb.go) with their ValidateBasic
-- (x/wasm/types/tx.go, validation.go, params.go). `Keeper.Server` is x/wasm/keeper/msg_server.go, one
-- function per handler of the service, `Keeper.Handlers` x/wasm/keeper/handler_plugin.go, with the
-- encoders of bank, wasm, distribution, staking and gov messages in `Keeper.Handlers.Encoders`
-- (handler_plugin_encoders.go).
-- `Keeper.Closed` ties the keeper to them as NewKeeper does (x/wasm/keeper/keeper_cgo.go): a response
-- is dispatched to the message server through the handlers, and replies go to the contract.
-- `Keeper.Closed.Invariant` has what the operations of the keeper must keep for the running keeper to
-- keep it.
-- `Keeper.Relation` says what a relation between two runs of a call must be closed under to follow
-- the code, and `Keeper.Agree` is the relation of runs on a meter with a bounded rest of gas.
-- Authz is the grants of contract authorizations and AcceptGrantedMessage (x/wasm/types/authz.go,
-- json_matching.go), and Ante the ante handlers of x/wasm/keeper/ante.go.
--
-- Recursion is over lists and texts, but for the running keeper, where contracts call contracts: there
-- a number bounds how deep responses are handled within one another, and below it a handler is asked
-- that is given. A message costs at least one unit of gas for each reply and one level of the call
-- depth for each message, so (gas left) * (max call depth + 1) + max call depth levels are enough.
-- uint64 and uint32 arithmetic wraps explicitly (% 2 ^ 64, % 2 ^ 32). A time, a height or an id is
-- a natural number.
--
-- Not modelled: the gas of the SDK's KV store. Every read and write of the store charges the meter of
-- the context there, and can panic with out of gas, also between two writes of one operation; here
-- reading and writing the keeper's store is free and does not fail. What is said of the meter is of
-- the gas that the module itself charges, and a panic of the KV store ends the transaction, whose
-- writes the SDK drops, or the sandbox of a sub-message, whose writes are dropped too.
-- Not modelled either: protobuf encoding and database failures, telemetry and logs, queries, genesis,
-- StoreCodeAuthorization, IBC, command line, simulation and the cgo bindings of wasmvm. The encoders
-- of IBC, Any and custom messages, raw IBC packets, the router of the SDK and its signers are parameters,
-- as are inflating gzip data, bech32, JSON and the address hash.
pub mod Base
pub mod Vm
pub mod Gas
pub mod Access
pub mod Policy
pub mod Sdk
pub mod Dispatch
pub mod Keeper
pub mod Messages
pub mod Authz
pub mod Ante
