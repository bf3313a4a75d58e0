-- ===== src/Keeper/Instantiate/Steps.antt =====
-- Instantiate step by step, for a property of the store that does not look at the storage of contracts
-- and that storing a new contract at a vacant address keeps.
use cosmwasgo.Base.{
  ℕ, ◌≡◌, refl, sym, ap, ◌∙◌, Bool, true, false, not, List, Option, none, some, arith, length,
  is_some,
}
use cosmwasgo.Base.Outcome.{registered, wrap}
use cosmwasgo.Vm.{Bytes, SubMsg, Response}
use cosmwasgo.Policy.{can_instantiate_contract}
use cosmwasgo.Sdk.{GasMeter}
use cosmwasgo.Keeper.State.{
  Store, CodeInfo, ContractInfo, HistoryEntry, initial_history, err_no_such_code, err_unauthorized,
}
use cosmwasgo.Keeper.Host.{Values, EntryPoint, State, Host}
use cosmwasgo.Keeper.Addresses.{Generator}
use cosmwasgo.Keeper.Entry.{wrap_error, handle_contract_response}
use cosmwasgo.Keeper.Entry.Isolation.{
  OnlyStorage, Keeps, same-Keeps, lift-Keeps, charge_setup-Keeps, transfer-Keeps,
  run_contract-Keeps, emit-Keeps, wrapped_response-Keeps,
}
use cosmwasgo.Keeper.Runs.{
  Runs, bind_runs, weaken, read_runs, fail_if_runs, return_runs, update_runs, runs_all, then_runs,
  read-Keeps, or_fail-Keeps, fail_if-Keeps,
}
use cosmwasgo.Keeper.Instantiate.{
  Order, err_instantiate_failed, claim_account, launch, settle, contract_info, instantiate_event,
  sub_values, persist_instance, instantiate, claim, analyze, port_for,
}

-- the property, and there is no contract at the address
record Vacant (P : Store → Type 0) (addr : Bytes) (s : Store) : Type 0 where
  kept : P s
  free : s.contracts addr ≡ none

only-Vacant :
    (P : Store → Type 0) (addr : Bytes) (a b : Store)
    → ((a b : Store) → OnlyStorage addr a b → P a → P b)
    → OnlyStorage addr a b
    → Vacant P addr a
    → Vacant P addr b
only-Vacant P addr a b stable o v = record {
  kept = stable a b o v.kept;
  free = ap (λ s. s.contracts addr) o.rest ∙ v.free;
}

not_some : {A : Type 0} (o : Option A) → is_some o ≡ false → o ≡ none
not_some none e = refl
not_some (some a) e = ground arith

-- what holds of the store after launch has succeeded
Launched : (Store → Type 0) → Bytes × CodeInfo × Response → Store → Type 0
Launched P (addr, code, r) = Vacant P addr

module _ (G : GasMeter) {E : Type 0} (h : Host G E) where
  claim_account-Keeps : (P : Store → Type 0) (addr : Bytes) → Keeps G P (claim_account G h addr)
  claim_account-Keeps P addr = same-Keeps G P (λ c. ground arith)

  pub analyze-Keeps : (P : Store → Type 0) (checksum : Bytes) → Keeps G P (analyze G h checksum)
  analyze-Keeps P checksum = same-Keeps G P (λ c. refl)

  port_for-Keeps :
      (P : Store → Type 0) (addr : Bytes) (has_ibc : Bool) → Keeps G P (port_for G h addr has_ibc)
  port_for-Keeps P addr true = same-Keeps G P (λ c. refl)
  port_for-Keeps P addr false = same-Keeps G P (λ c. refl)

  module _ (v : Values) (o : Order) (P : Store → Type 0)
      (stable : (addr : Bytes) (a b : Store) → OnlyStorage addr a b → P a → P b)
      (persisted : (s : Store) (creator addr : Bytes) (info : ContractInfo) (entry : HistoryEntry)
        → P s
        → s.contracts addr ≡ none
        → entry.code_id ≡ info.code_id
        → P (persist_instance creator addr info entry s)) where
    -- from the test of the address on
    claim_runs :
        (addr : Bytes) (code : CodeInfo) → Runs G P P (claim G h v o code addr) (Launched P)
    unfolding claim Launched
    claim_runs addr code =
        let kept = λ (s : Store) (k : Vacant P addr s). k.kept in
        bind_runs G P (read_runs G P (λ s. s.contracts addr)) (λ existing.
          bind_runs G P
            (fail_if_runs G P (is_some existing)
              (wrap (registered "wasm" 15) "contract address already exists") (λ s k. k.0))
            (λ u1.
              weaken G P (λ s ((k, e), n). record { kept = k; free = sym e ∙ not_some existing n })
                (then_runs G P kept (claim_account-Keeps (Vacant P addr) addr) (λ u2.
                  then_runs G P kept (transfer-Keeps G (Vacant P addr) h o.creator addr o.deposit)
                    (λ u3.
                      then_runs G P kept
                        (run_contract-Keeps G (Vacant P addr) h addr
                          (λ a b. only-Vacant P addr a b (stable addr)) err_instantiate_failed v
                          code.code_hash
                          (EntryPoint.instantiate
                            (record { sender = h.sdk.render o.creator; funds = o.deposit })
                            o.init_msg))
                        (λ r. return_runs G P (addr, code, r) (Launched P) (λ s k. k)))))))

    launch_runs :
        (generate : Generator G E)
        → ((id : ℕ) (checksum : Bytes) → Keeps G P (generate id checksum))
        → Runs G P P (launch G h v o generate) (Launched P)
    unfolding launch Launched
    launch_runs generate generated =
        let same = λ (s : Store) (k : P s). k in
        then_runs G P same (read-Keeps G P (λ s. s.codes o.code_id)) (λ found.
          then_runs G P same (or_fail-Keeps G P found err_no_such_code) (λ code.
            then_runs G P same
              (charge_setup-Keeps G P h o.code_id code.code_hash (length o.init_msg))
              (λ u1.
                then_runs G P same
                  (lift-Keeps G P
                    (can_instantiate_contract h.sdk o.policy code.instantiate_config o.creator))
                  (λ is_allowed.
                    then_runs G P same
                      (fail_if-Keeps G P (not is_allowed)
                        (wrap err_unauthorized "can not instantiate"))
                      (λ u2.
                        then_runs G P same (generated o.code_id code.code_hash)
                          (λ addr. claim_runs addr code))))))

    module _
        (handled : (w : Values) (addr port : Bytes) (msgs : List SubMsg) (answer : Option Bytes)
          → Keeps G P (h.handle_response w addr port msgs answer)) where
      pub response-Keeps :
          (w : Values) (addr port : Bytes) (r : Response)
          → Keeps G P (λ c. wrap_error "dispatch" (handle_contract_response G h w addr port r c))
      response-Keeps w addr port r =
          wrapped_response-Keeps G P h addr (stable addr) (λ u. handled u addr) w port r

      settle_runs :
          (x : Bytes × CodeInfo × Response) → Runs G P (Launched P x) (settle G h v o x) (λ d. P)
      unfolding settle Launched
      settle_runs (addr, code, r) =
          let same = λ (s : Store) (k : P s). k in
          let kept = λ (s : Store) (k : Vacant P addr s). k.kept in
          then_runs G P kept (analyze-Keeps (Vacant P addr) code.code_hash) (λ report.
            then_runs G P kept (port_for-Keeps (Vacant P addr) addr report.has_ibc_entry_points)
              (λ port.
                let info = contract_info G h v o port in
                bind_runs G P
                  (update_runs G P
                    (persist_instance o.creator addr info (initial_history info o.init_msg))
                    (λ s k.
                      persisted s o.creator addr info (initial_history info o.init_msg) k.kept
                        k.free refl))
                  (λ u1. then_runs G P same (emit-Keeps G P (instantiate_event G h o addr)) (λ u2.
                    then_runs G P same (response-Keeps (sub_values v o) addr port r)
                      (λ d. return_runs G P (addr, d) (λ x. P) same)))))

      -- instantiate keeps it, where the address generator and the handler of responses do
      pub instantiate_keeps :
          (generate : Generator G E) (c : State G E)
          → ((id : ℕ) (checksum : Bytes) → Keeps G P (generate id checksum))
          → P c.store.wasm
          → P (instantiate G h v o generate c).1.store.wasm
      unfolding instantiate
      instantiate_keeps generate c generated k =
          runs_all G P (bind_runs G P (launch_runs generate generated) settle_runs) c k
