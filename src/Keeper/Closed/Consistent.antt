-- ===== src/Keeper/Closed/Consistent.antt =====
-- The invariant of the store, record, history and index of every contract, under messages that the
-- running keeper serves.
use cosmwasgo.Base.{ℕ}
use cosmwasgo.Sdk.{GasMeter}
use cosmwasgo.Keeper.Host.{Values, State}
use cosmwasgo.Keeper.Index.{IsConsistent, persist_instance-IsConsistent}
use cosmwasgo.Keeper.Index.Life.{only-IsConsistent}
use cosmwasgo.Keeper.Index.Move.{migrate-IsConsistent}
use cosmwasgo.Keeper.Index.Calls.{change-IsConsistent, create-IsConsistent}
use cosmwasgo.Keeper.Handlers.Related.{PluginsRelated}
use cosmwasgo.Keeper.Closed.{Setup, run_message, out_of_fuel}
use cosmwasgo.Keeper.Closed.Invariant.{Kept, IsInvariant, run_message_kept}
use cosmwasgo.Messages.{Message}

module _ (G : GasMeter) {E : Type 0} where
  IsConsistent-IsInvariant : IsInvariant G E IsConsistent
  IsConsistent-IsInvariant = record {
    stable = only-IsConsistent;
    next_contract = λ n s k. record { agree = k.agree; indexed = k.indexed };
    params = λ p s k. record { agree = k.agree; indexed = k.indexed };
    persisted = λ s creator addr info entry k free same.
        persist_instance-IsConsistent s addr info entry k same creator free;
    settings = λ h x. record { keeps = change-IsConsistent G h x };
    upload =
        λ h creator code config p. record { keeps = create-IsConsistent G h creator code config p };
    move = λ h v o handled. record { keeps = migrate-IsConsistent G h v o handled };
  }

  -- A message that the running keeper serves keeps record, history and index of every contract
  -- consistent, however it ends, with the calls of contracts, the sub-messages and the replies that
  -- it sets off, at any bound on how deep they nest: where the code of other packages writes to
  -- the keeper's store only by messages of the module.
  pub run_message-IsConsistent :
      (k : Setup G E)
      → PluginsRelated G (Kept G IsConsistent) k.plugins
      → (n : ℕ) (v : Values) (m : Message) (c : State G E) → IsConsistent c.store.wasm
      → IsConsistent (run_message G k (out_of_fuel G) n v m c).1.store.wasm
  run_message-IsConsistent k plugins n v m c q =
      (run_message_kept G IsConsistent IsConsistent-IsInvariant k plugins n v m).keeps c q
