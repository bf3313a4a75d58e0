-- ===== src/Keeper/Index/Life.antt =====
-- The invariant under instantiate.
use cosmwasgo.Base.{ℕ, sym, subst, List, Option}
use cosmwasgo.Vm.{Bytes, SubMsg}
use cosmwasgo.Sdk.{GasMeter}
use cosmwasgo.Keeper.State.{Store}
use cosmwasgo.Keeper.Host.{Values, State, Host}
use cosmwasgo.Keeper.Addresses.{Generator}
use cosmwasgo.Keeper.Entry.Isolation.{OnlyStorage, Keeps}
use cosmwasgo.Keeper.Instantiate.{Order, instantiate}
use cosmwasgo.Keeper.Instantiate.Steps.{instantiate_keeps}
use cosmwasgo.Keeper.Index.{IsConsistent, persist_instance-IsConsistent}

pub only-IsConsistent :
    (addr : Bytes) (a b : Store) → OnlyStorage addr a b → IsConsistent a → IsConsistent b
only-IsConsistent addr a b o k =
    subst IsConsistent (sym o.rest) (record { agree = k.agree; indexed = k.indexed })

module _ (G : GasMeter) {E : Type 0} (h : Host G E) (v : Values) (o : Order)
    (handled : (w : Values) (addr port : Bytes) (msgs : List SubMsg) (answer : Option Bytes)
      → Keeps G IsConsistent (h.handle_response w addr port msgs answer)) where
  -- Instantiate keeps record, history and index of every contract consistent, however it ends,
  -- where the address generator and the handler of responses keep them consistent.
  pub instantiate-IsConsistent :
      (generate : Generator G E) (c : State G E)
      → ((id : ℕ) (checksum : Bytes) → Keeps G IsConsistent (generate id checksum))
      → IsConsistent c.store.wasm
      → IsConsistent (instantiate G h v o generate c).1.store.wasm
  instantiate-IsConsistent generate c generated k =
      instantiate_keeps G h v o IsConsistent only-IsConsistent
        (λ s creator addr info entry k free same.
          persist_instance-IsConsistent s addr info entry k same creator free)
        handled generate c generated k
