-- ===== src/Keeper/Closed/Births.antt =====
-- About the creator of a contract and the position of its birth, under messages that the running
-- keeper serves.
use cosmwasgo.Base.{
  ℕ, ◌≡◌, refl, sym, ap, ◌∙◌, Option, none, some, arith, bytes_eq, bytes_eq_iff, Bool-cases, inl,
  inr,
}
use cosmwasgo.Base.Outcome.{Outcome-cases}
use cosmwasgo.Vm.{Bytes, Response}
use cosmwasgo.Access.{AccessConfig}
use cosmwasgo.Policy.{Policy}
use cosmwasgo.Sdk.{GasMeter}
use cosmwasgo.Keeper.State.{
  Position, Store, ContractInfo, HistoryEntry, append_to_contract_history,
  add_to_contract_code_index, remove_from_contract_code_index, add_to_contract_creator_index,
  must_get_last_contract_history_entry,
}
use cosmwasgo.Keeper.Host.{Values, State, Host}
use cosmwasgo.Keeper.Settings.Changes.{Change, apply, change_frame, identity_of}
use cosmwasgo.Keeper.Code.{create}
use cosmwasgo.Keeper.Code.Upload.{create_registers, create_refused}
use cosmwasgo.Keeper.Entry.Isolation.{OnlyStorage, Keeps, same-Keeps, emit-Keeps}
use cosmwasgo.Keeper.Runs.{Runs, bind_runs, keeps_runs, then_runs, update_runs, runs_all}
use cosmwasgo.Keeper.Instantiate.{persist_instance}
use cosmwasgo.Keeper.Migrate.{
  Order, migration_entry, persist_migration, migrate_event, finish, migrate,
}
use cosmwasgo.Keeper.Index.Move.{handle_migrated-Keeps, prepare_runs}
use cosmwasgo.Keeper.Handlers.Related.{PluginsRelated}
use cosmwasgo.Keeper.Closed.{Setup, run_message, out_of_fuel}
use cosmwasgo.Keeper.Closed.Invariant.{Kept, Handles, IsInvariant, run_message_kept}
use cosmwasgo.Messages.{Message}

-- the creator of a contract and the position of its birth
abbrev pub birth_of : Option ContractInfo → Option (Bytes × Position)
birth_of none = none
birth_of (some info) = some (info.creator, info.created)

-- There is a contract at the address, of this creator and this position.
abbrev pub Born : Bytes → Bytes → Position → Store → Type 0
Born a creator created s = birth_of (s.contracts a) ≡ some (creator, created)

-- the birth is part of the identity
abbrev birth_in : Option (ℕ × Bytes × Position × Bytes) → Option (Bytes × Position)
birth_in none = none
birth_in (some (id, creator, created, port)) = some (creator, created)

birth_in-identity_of : (x : Option ContractInfo) → birth_of x ≡ birth_in (identity_of x)
birth_in-identity_of none = refl
birth_in-identity_of (some info) = refl

module _ (a creator : Bytes) (created : Position) where
  same-Born :
      (s t : Store)
      → birth_of (t.contracts a) ≡ birth_of (s.contracts a)
      → Born a creator created s
      → Born a creator created t
  same-Born s t e k = e ∙ k

  only-Born :
      (addr : Bytes) (s t : Store)
      → OnlyStorage addr s t
      → Born a creator created s
      → Born a creator created t
  only-Born addr s t only = same-Born s t (ap (λ (x : Store). birth_of (x.contracts a)) only.rest)

  -- a new contract is at another address
  persisted-Born :
      (s : Store) (by addr : Bytes) (info : ContractInfo) (entry : HistoryEntry)
      → Born a creator created s
      → s.contracts addr ≡ none
      → Born a creator created (persist_instance by addr info entry s)
  unfolding persist_instance append_to_contract_history add_to_contract_code_index
      add_to_contract_creator_index
  persisted-Born s by addr info entry k free = elim (Bool-cases (bytes_eq a addr)) [
    | inl e ↦
        ground (arith, sym k ∙ ap birth_of (ap s.contracts ((bytes_eq_iff a addr).0 e) ∙ free))
    | inr e ↦ rw e k
  ]

  -- the store, and the record of the contract that is moved
  Moved : Bytes → ContractInfo → Store → Type 0
  Moved addr info s =
      Born a creator created s × (birth_of (some info) ≡ birth_of (s.contracts addr))

  Moved-Born :
      (s : Store) (addr : Bytes) (info : ContractInfo) (id : ℕ) (last entry : HistoryEntry)
      → Moved addr info s
      → Born a creator created (persist_migration addr (record info { code_id = id }) last entry s)
  unfolding Moved persist_migration append_to_contract_history add_to_contract_code_index
      remove_from_contract_code_index
  Moved-Born s addr info id last entry (k, same) = elim (Bool-cases (bytes_eq a addr)) [
    | inl e ↦ rw e (same ∙ ap (λ x. birth_of (s.contracts x)) (sym ((bytes_eq_iff a addr).0 e)) ∙ k)
    | inr e ↦ rw e k
  ]

  module _ (G : GasMeter) {E : Type 0} where
    settings-Born : (h : Host G E) (x : Change) → Keeps G (Born a creator created) (apply G h x)
    settings-Born h x = record {
      keeps = λ c. same-Born c.store.wasm (apply G h x c).1.store.wasm (
          birth_in-identity_of ((apply G h x c).1.store.wasm.contracts a)
          ∙ ap birth_in ((change_frame G h x c).1 a)
          ∙ sym (birth_in-identity_of (c.store.wasm.contracts a)));
    }

    create_contracts :
        (h : Host G E) (by : Option Bytes) (code : Bytes) (config : Option AccessConfig)
        (p : Policy) (c : State G E)
        → (create G h by code config p c).1.store.wasm.contracts ≡ c.store.wasm.contracts
    unfolding create
    create_contracts h none code config p c = refl
    create_contracts h (some by) code config p c =
        elim (Outcome-cases (create G h (some by) code config p c).0) [
          | inl ((id, checksum), e) ↦
              ap (λ (s : Store). s.contracts)
                (create_registers G h by config p code c id checksum e).effect
          | inr other ↦
              ap (λ (s : Store). s.contracts) (create_refused G h by config p code c (ground arith))
        ]

    module _ (h : Host G E) (v : Values) (o : Order)
        (handled : Handles G (Born a creator created) h.handle_response) where
      finish_runs :
          (x : ContractInfo × Option Response)
          → Runs G
              (Born a creator created)
              (Moved o.addr x.0)
              (finish G h v o x)
              (λ d. Born a creator created)
      unfolding finish Moved must_get_last_contract_history_entry
      finish_runs (info, r) =
          let P = Born a creator created in
          let same = λ (s : Store) (k : P s). k in
          then_runs G P (λ s k. k.0) (same-Keeps G (Moved o.addr info) (λ c. refl))
            (λ last.
              bind_runs G P
                (update_runs G P
                  (persist_migration o.addr (record info { code_id = o.new_code_id }) last
                    (migration_entry v o))
                  (λ s. Moved-Born s o.addr info o.new_code_id last (migration_entry v o)))
                (λ u1. then_runs G P same (emit-Keeps G P (migrate_event G h o)) (λ u2.
                  keeps_runs G P same
                    (handle_migrated-Keeps G h v o P (only-Born o.addr) handled info.ibc_port r))))

      migrate-Born : Keeps G (Born a creator created) (migrate G h v o)
      unfolding migrate Moved
      migrate-Born = record {
        keeps = λ c k.
            runs_all G (Born a creator created)
              (bind_runs G (Born a creator created)
                (prepare_runs G h v o (Born a creator created) (Moved o.addr)
                  (λ info s t only (k, same). (
                    only-Born o.addr s t only k,
                    same ∙ sym (ap (λ (x : Store). birth_of (x.contracts o.addr)) only.rest),
                  ))
                  (λ info s k. k.0) (λ info s k e. (k, ap birth_of (sym e))) (λ info port s k. k))
                finish_runs)
              c k;
      }

    Born-IsInvariant : IsInvariant G E (Born a creator created)
    Born-IsInvariant = record {
      stable = only-Born;
      next_contract = λ n s k. k;
      params = λ p s k. k;
      persisted = λ s by addr info entry k free same. persisted-Born s by addr info entry k free;
      settings = settings-Born;
      upload = λ h by code config p. record {
        keeps = λ c. same-Born c.store.wasm (create G h by code config p c).1.store.wasm (
            ap (λ (f : Bytes → Option ContractInfo). birth_of (f a))
              (create_contracts h by code config p c));
      };
      move = migrate-Born;
    }

    -- A contract that exists keeps its address, its creator and the position of its birth: no message
    -- that the running keeper serves puts another contract in its place or changes them, however it
    -- ends, with the calls of contracts, the migrations, the sub-messages and the replies that it
    -- sets off, at any bound on how deep they nest: where the code of other packages writes to the
    -- keeper's store only by messages of the module.
    pub run_message-Born :
        (k : Setup G E)
        → PluginsRelated G (Kept G (Born a creator created)) k.plugins
        → (n : ℕ) (v : Values) (m : Message) (c : State G E) → Born a creator created c.store.wasm
        → Born a creator created (run_message G k (out_of_fuel G) n v m c).1.store.wasm
    run_message-Born k plugins n v m c q =
        (run_message_kept G (Born a creator created) Born-IsInvariant k plugins n v m).keeps c q
