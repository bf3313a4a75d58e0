-- ===== src/Keeper/Index/Calls.antt =====
-- The invariant under the entry points, the changes of settings, uploads and the generators of
-- addresses.
use cosmwasgo.Base.{ℕ, ◌≡◌, refl, sym, subst, ap, ◌∙◌, Bool, Option, none, some, arith, inl, inr}
use cosmwasgo.Base.Outcome.{Outcome-cases}
use cosmwasgo.Vm.{Bytes}
use cosmwasgo.Access.{AccessConfig}
use cosmwasgo.Policy.{Policy}
use cosmwasgo.Sdk.{GasMeter}
use cosmwasgo.Keeper.State.{Store, Position, ContractInfo, last_entry}
use cosmwasgo.Keeper.Host.{State, Host}
use cosmwasgo.Keeper.Settings.Changes.{Change, apply, change_frame, identity_of}
use cosmwasgo.Keeper.Addresses.{classic_address_generator, predictable_address_generator}
use cosmwasgo.Keeper.Code.{create}
use cosmwasgo.Keeper.Code.Upload.{create_registers, create_refused}
use cosmwasgo.Keeper.Entry.Isolation.{Keeps, same-Keeps}
use cosmwasgo.Keeper.Index.{code_of, code_of_entry, is_entry, IsConsistent}

-- the code of a contract is part of its identity
abbrev code_in : Option (ℕ × Bytes × Position × Bytes) → Option ℕ
code_in none = none
code_in (some x) = some x.0

code_in-identity_of : (x : Option ContractInfo) → code_of x ≡ code_in (identity_of x)
code_in-identity_of none = refl
code_in-identity_of (some info) = refl

same-IsConsistent : (a b : Store) → b ≡ a → IsConsistent a → IsConsistent b
same-IsConsistent a b e k = subst IsConsistent (sym e) k

module _ (G : GasMeter) {E : Type 0} (h : Host G E) where
  -- a change of settings keeps the code of every contract
  change-code_of :
      (x : Change) (c : State G E) (a : Bytes)
      → code_of ((apply G h x c).1.store.wasm.contracts a) ≡ code_of (c.store.wasm.contracts a)
  change-code_of x c a =
      code_in-identity_of ((apply G h x c).1.store.wasm.contracts a)
      ∙ ap code_in ((change_frame G h x c).1 a)
      ∙ sym (code_in-identity_of (c.store.wasm.contracts a))

  pub change-IsConsistent :
      (x : Change) (c : State G E)
      → IsConsistent c.store.wasm
      → IsConsistent (apply G h x c).1.store.wasm
  change-IsConsistent x c k =
      let same = (change_frame G h x c).0 in
      record {
        agree = λ a.
            ap (λ f. code_of_entry (last_entry (f a))) same.history
            ∙ k.agree a
            ∙ sym (change-code_of x c a);
        indexed = λ i p a.
            ap (λ f. f i p a) same.by_code
            ∙ k.indexed i p a
            ∙ ap (λ f. is_entry (last_entry (f a)) i p) (sym same.history);
      }

  pub classic-Keeps :
      (id : ℕ) (checksum : Bytes) → Keeps G IsConsistent (classic_address_generator G h id checksum)
  unfolding classic_address_generator
  classic-Keeps id checksum = record {
    keeps = λ c k. record { agree = k.agree; indexed = k.indexed };
  }

  pub predictable-Keeps :
      (creator salt msg : Bytes) (fix_msg : Bool) (id : ℕ) (checksum : Bytes)
      → Keeps G IsConsistent
          (predictable_address_generator G h creator salt msg fix_msg id checksum)
  unfolding predictable_address_generator
  predictable-Keeps creator salt msg fix_msg id checksum = same-Keeps G IsConsistent (λ c. refl)

  pub create-IsConsistent :
      (creator : Option Bytes) (wasm_code : Bytes) (config : Option AccessConfig) (p : Policy)
      (c : State G E)
      → IsConsistent c.store.wasm
      → IsConsistent (create G h creator wasm_code config p c).1.store.wasm
  unfolding create
  create-IsConsistent none wasm_code config p c k = k
  create-IsConsistent (some creator) wasm_code config p c k =
      let after = (create G h (some creator) wasm_code config p c).1.store.wasm in
      elim (Outcome-cases (create G h (some creator) wasm_code config p c).0) [
        | inl ((id, checksum), e) ↦
            same-IsConsistent _ after
              (create_registers G h creator config p wasm_code c id checksum e).effect
              (record { agree = k.agree; indexed = k.indexed })
        | inr other ↦
            same-IsConsistent c.store.wasm after
              (create_refused G h creator config p wasm_code c (ground arith)) k
      ]
