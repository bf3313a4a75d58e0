-- ===== src/Keeper/Index/Reach.antt =====
-- The stores that the keeper can reach by its operations, in any order and with any arguments.
use cosmwasgo.Base.{ℕ, ◌≡◌, sym, ap, ◌∙◌, Bool, false, List, [], Option, none}
use cosmwasgo.Vm.{Bytes, Reply, SubMsg}
use cosmwasgo.Access.{AccessConfig}
use cosmwasgo.Policy.{Policy}
use cosmwasgo.Sdk.{GasMeter}
use cosmwasgo.Keeper.State.{Position, Store, last_entry}
use cosmwasgo.Keeper.Host.{Coin, Values, State, Host}
use cosmwasgo.Keeper.Settings.Changes.{Change, apply}
use cosmwasgo.Keeper.Addresses.{classic_address_generator, predictable_address_generator}
use cosmwasgo.Keeper.Code.{create}
use cosmwasgo.Keeper.Entry.{execute, sudo, reply}
use cosmwasgo.Keeper.Entry.Isolation.{Keeps, entry_points_keep}
use cosmwasgo.Keeper.Instantiate.{Order, instantiate}
use cosmwasgo.Keeper.Migrate.{Order as Migration, migrate}
use cosmwasgo.Keeper.Index.{code_of, code_of_entry, is_entry, IsConsistent}
use cosmwasgo.Keeper.Index.Life.{only-IsConsistent, instantiate-IsConsistent}
use cosmwasgo.Keeper.Index.Move.{migrate-IsConsistent}
use cosmwasgo.Keeper.Index.Calls.{
  change-IsConsistent, classic-Keeps, predictable-Keeps, create-IsConsistent,
}

-- the operations with their arguments; `instantiate2` is instantiate with a predictable address
pub data Call : Type 0 where
  change_settings : Change → Call
  upload : Option Bytes → Bytes → Option AccessConfig → Policy → Call
  start : Values → Order → Call
  start2 : Values → Order → Bytes → Bool → Call
  execute_contract : Values → Bytes → Bytes → Bytes → List Coin → Call
  sudo_contract : Values → Bytes → Bytes → Call
  reply_contract : Values → Bytes → Reply → Call
  migrate_contract : Values → Migration → Call

abbrev pub no_reply : Reply
no_reply = record { id = 0; result = record { response = none; error = "" }; payload = [] }

-- a store without codes and contracts
pub record IsEmpty (s : Store) : Type 0 where
  pub contracts : (a : Bytes) → s.contracts a ≡ none
  pub history : (a : Bytes) → s.history a ≡ []
  pub by_code : (i : ℕ) (p : Position) (a : Bytes) → s.by_code i p a ≡ false

module _ (G : GasMeter) {E : Type 0} (h : Host G E) where
  -- the state after an operation, however it ended
  unfoldable pub perform : Call → State G E → State G E
  perform (change_settings x) c = (apply G h x c).1
  perform (upload creator code config p) c = (create G h creator code config p c).1
  perform (start v o) c = (instantiate G h v o (classic_address_generator G h) c).1
  perform (start2 v o salt fix_msg) c =
      (instantiate G h v o (predictable_address_generator G h o.creator salt o.init_msg fix_msg)
        c).1
  perform (execute_contract v addr caller msg coins) c = (execute G h v addr caller msg coins c).1
  perform (sudo_contract v addr msg) c = (sudo G h v addr msg c).1
  perform (reply_contract v addr r) c = (reply G h v addr r c).1
  perform (migrate_contract v o) c = (migrate G h v o c).1

  -- A store is reached from an empty one by operations that start in any context over a reached store:
  -- what a context has besides the store, and where a transaction goes back to, is open.
  pub data Reached : Store → Type 0 where
    at_genesis : (s : Store) → IsEmpty s → Reached s
    by_call : (x : Call) (c : State G E) → Reached c.store.wasm → Reached (perform x c).store.wasm

  module _
      (handled : (w : Values) (addr port : Bytes) (msgs : List SubMsg) (answer : Option Bytes)
        → Keeps G IsConsistent (h.handle_response w addr port msgs answer)) where
    perform-IsConsistent :
        (x : Call) (c : State G E)
        → IsConsistent c.store.wasm
        → IsConsistent (perform x c).store.wasm
    unfolding perform
    perform-IsConsistent (change_settings x) c k = change-IsConsistent G h x c k
    perform-IsConsistent (upload creator code config p) c k =
        create-IsConsistent G h creator code config p c k
    perform-IsConsistent (start v o) c k =
        instantiate-IsConsistent G h v o handled (classic_address_generator G h) c
          (classic-Keeps G h) k
    perform-IsConsistent (start2 v o salt fix_msg) c k =
        instantiate-IsConsistent G h v o handled
          (predictable_address_generator G h o.creator salt o.init_msg fix_msg) c
          (predictable-Keeps G h o.creator salt o.init_msg fix_msg) k
    perform-IsConsistent (execute_contract v addr caller msg coins) c k =
        (entry_points_keep G IsConsistent h addr (only-IsConsistent addr) (λ u. handled u addr) v
          caller msg coins no_reply c k).0
    perform-IsConsistent (sudo_contract v addr msg) c k =
        (entry_points_keep G IsConsistent h addr (only-IsConsistent addr) (λ u. handled u addr) v []
          msg [] no_reply c k).1
    perform-IsConsistent (reply_contract v addr r) c k =
        (entry_points_keep G IsConsistent h addr (only-IsConsistent addr) (λ u. handled u addr) v []
          [] [] r c k).2
    perform-IsConsistent (migrate_contract v o) c k = migrate-IsConsistent G h v o handled c k

    -- In every store that the keeper reaches, record, history and index of every contract are
    -- consistent, where the handler of responses keeps them consistent.
    pub Reached-IsConsistent : (s : Store) → Reached s → IsConsistent s
    Reached-IsConsistent s (at_genesis _ e) = record {
      agree = λ a.
          ap (λ x. code_of_entry (last_entry x)) (e.history a) ∙ sym (ap code_of (e.contracts a));
      indexed =
          λ i p a. e.by_code i p a ∙ sym (ap (λ x. is_entry (last_entry x) i p) (e.history a));
    }
    Reached-IsConsistent _ (by_call x c r) =
        perform-IsConsistent x c (Reached-IsConsistent c.store.wasm r)
