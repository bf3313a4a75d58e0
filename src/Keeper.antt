-- ===== src/Keeper.antt =====
-- The wasm keeper, x/wasm/keeper/keeper.go. `State` has the store and `Keys` the bytes of its keys,
-- `Host` what the keeper is given (VM, bank, accounts, response handler). `Settings` has the
-- operations on contracts and codes that run no contract, `Metering` the gas of a call, `Events` and
-- `Addresses` the files of these names, `Code` uploads, `Entry` the calls of a contract,
-- `Instantiate` and `Migrate` its life cycle. `Runs` has rules to reason on calls, `Index` the
-- invariant of the store. `Server` is the message server, `Handlers` the handlers of the messages of
-- contracts, and `Closed` the keeper with these handlers in the place of the response handler;
-- `Relation` and `Agree` relate runs over two response handlers. `Concrete` is a host to run them on.
pub mod State
pub mod Concrete
mod Tests
pub mod Host
pub mod Settings
pub mod Metering
pub mod Events
pub mod Entry
pub mod Addresses
pub mod Code
pub mod Instantiate
pub mod Migrate
pub mod Runs
pub mod Index
pub mod Keys
pub mod Relation
pub mod Server
pub mod Handlers
pub mod Agree
pub mod Closed
