-- ===== src/Keeper/Entry/Isolation.antt =====
-- About the effect of a call of a contract on the store of the keeper.
use cosmwasgo.Base.{
  ℕ, ◌≡◌, refl, sym, subst, ap, ◌∙◌, true, false, List, Option, String, arith, bytes_eq, length,
}
use cosmwasgo.Base.Outcome.{Error, Outcome, ok, err, panic, Exec, lift, continue, ◌>>=◌}
use cosmwasgo.Vm.{Bytes, Event, Reply, SubMsg, Response}
use cosmwasgo.Sdk.{GasMeter, consume_gas, emit}
use cosmwasgo.Gas.{event_costs, reply_costs}
use cosmwasgo.Keeper.Events.{new_wasm_module_event, new_custom_events}
use cosmwasgo.Keeper.State.{Store}
use cosmwasgo.Keeper.Host.{Coin, Values, Env, new_env, EntryPoint, State, Host}
use cosmwasgo.Keeper.Metering.{check_discount_eligibility, consume_runtime_gas}
use cosmwasgo.Keeper.Entry.{
  handle_contract_response, charge_setup, call_vm, run_contract, transfer, contract_event, load,
  execute, sudo, reply, resolve, wrap_error, err_execute_failed, events_unless_empty,
}

-- `b` differs from `a` in the storage of one contract only.
pub record OnlyStorage (addr : Bytes) (a b : Store) : Type 0 where
  pub rest : b ≡ record a { contract_store = b.contract_store }
  pub others : (x : Bytes) → bytes_eq x addr ≡ false → b.contract_store x ≡ a.contract_store x

pub OnlyStorage-same : (addr : Bytes) (a b : Store) → b ≡ a → OnlyStorage addr a b
OnlyStorage-same addr a b e = record {
  rest = e ∙ ap (λ s. record a { contract_store = s.contract_store }) (sym e);
  others = λ x k. ap (λ s. s.contract_store x) e;
}

module _ (G : GasMeter) {E : Type 0} (P : Store → Type 0) where
  -- a call keeps a property of the store of the keeper, however it ends
  pub record Keeps {A : Type 0} (m : Exec (State G E) A) : Type 0 where
    pub keeps : (c : State G E) → P c.store.wasm → P (m c).1.store.wasm

  continue_keeps :
      {A B : Type 0} (r : Outcome A) (c : State G E) (f : A → Exec (State G E) B)
      → ((a : A) → Keeps (f a))
      → P c.store.wasm
      → P (continue r f c).1.store.wasm
  continue_keeps (ok a) c f k h = (k a).keeps c h
  continue_keeps (err e) c f k h = h
  continue_keeps (panic p) c f k h = h

  pub bind-Keeps :
      {A B : Type 0} {m : Exec (State G E) A} {f : A → Exec (State G E) B}
      → Keeps m
      → ((a : A) → Keeps (f a))
      → Keeps (m >>= f)
  bind-Keeps {m} {f} k l = record {
    keeps = λ c h. continue_keeps (m c).0 (m c).1 f l (k.keeps c h);
  }

  -- a call that does not write to the store of the keeper
  pub same-Keeps :
      {A : Type 0} {m : Exec (State G E) A}
      → ((c : State G E) → (m c).1.store.wasm ≡ c.store.wasm)
      → Keeps m
  same-Keeps e = record { keeps = λ c h. subst P (sym (e c)) h }

  pub wrap_keeps :
      {A : Type 0} (text : String) (x : Outcome A × State G E)
      → P x.1.store.wasm
      → P (wrap_error text x).1.store.wasm
  wrap_keeps text (ok a, c) p = p
  wrap_keeps text (err e, c) p = p
  wrap_keeps text (panic q, c) p = p

  pub lift-Keeps : {A : Type 0} (r : Outcome A) → Keeps (lift r)
  lift-Keeps r = same-Keeps (λ c. refl)

  pub consume-Keeps : (n : ℕ) → Keeps (consume_gas G n)
  consume-Keeps n = same-Keeps (λ c. refl)

  pub emit-Keeps : (events : List Event) → Keeps (emit G events)
  emit-Keeps events = same-Keeps (λ c. refl)

  module _ (h : Host G E) where
    pub charge_setup-Keeps :
        (code_id : ℕ) (checksum : Bytes) (n : ℕ) → Keeps (charge_setup G h code_id checksum n)
    unfolding charge_setup check_discount_eligibility
    charge_setup-Keeps code_id checksum n = same-Keeps (λ c. ground arith)

    pub transfer-Keeps : (from to : Bytes) (coins : List Coin) → Keeps (transfer G h from to coins)
    transfer-Keeps from to coins = same-Keeps (λ c. ground arith)

    pub event-Keeps : (type : String) (addr : Bytes) → Keeps (contract_event G h type addr)
    event-Keeps type addr = same-Keeps (λ c. refl)

    load-Keeps : (addr : Bytes) → Keeps (load G h addr)
    load-Keeps addr = same-Keeps (λ c. refl)

    -- the property does not look at the storage of the contract
    module _ (addr : Bytes) (stable : (a b : Store) → OnlyStorage addr a b → P a → P b) where
      call_vm-Keeps :
          (v : Values) (checksum : Bytes) (env : Env) (entry : EntryPoint) (gas : ℕ)
          → Keeps (call_vm G h v addr checksum env entry gas)
      unfolding call_vm
      call_vm-Keeps v checksum env entry gas = record {
        keeps = λ c.
            stable c.store.wasm (call_vm G h v addr checksum env entry gas c).1.store.wasm
              (record { rest = refl; others = λ x e. ground arith });
      }

      pub run_contract-Keeps :
          (failed : Error) (v : Values) (checksum : Bytes) (entry : EntryPoint)
          → Keeps (run_contract G h failed v addr checksum entry)
      unfolding run_contract consume_runtime_gas
      run_contract-Keeps failed v checksum entry =
          bind-Keeps (lift-Keeps (new_env h.sdk v addr)) (λ env.
            bind-Keeps (same-Keeps (λ c. refl)) (λ gas.
              bind-Keeps (call_vm-Keeps v checksum env entry gas) (λ done.
                bind-Keeps (same-Keeps (λ c. ground arith))
                  (λ u. lift-Keeps (resolve failed done.0)))))

      -- the response handler keeps the property too
      module _
          (handled : (v : Values) (port : Bytes) (msgs : List SubMsg) (answer : Option Bytes)
            → Keeps (h.handle_response v addr port msgs answer)) where
        pub handle_contract_response-Keeps :
            (v : Values) (port : Bytes) (r : Response)
            → Keeps (handle_contract_response G h v addr port r)
        unfolding handle_contract_response
        handle_contract_response-Keeps v port r =
            let text = h.text (h.sdk.render addr) in
            let module_events =
              events_unless_empty r.attributes (new_wasm_module_event r.attributes text) in
            let custom_events = events_unless_empty r.events (new_custom_events r.events text) in
            bind-Keeps (lift-Keeps (event_costs h.gas_register r.attributes r.events)) (λ cost.
              bind-Keeps (consume-Keeps cost) (λ u1. bind-Keeps (lift-Keeps module_events) (λ e1.
                bind-Keeps (emit-Keeps e1) (λ u2. bind-Keeps (lift-Keeps custom_events) (λ e2.
                  bind-Keeps (emit-Keeps e2) (λ u3. handled v port r.messages r.data_bytes))))))

        pub wrapped_response-Keeps :
            (v : Values) (port : Bytes) (r : Response)
            → Keeps (λ c. wrap_error "dispatch" (handle_contract_response G h v addr port r c))
        wrapped_response-Keeps v port r = record {
          keeps = λ c p.
              wrap_keeps "dispatch" (handle_contract_response G h v addr port r c)
                ((handle_contract_response-Keeps v port r).keeps c p);
        }

        -- A property of the keeper's store that does not look at the storage of the contract, and that
        -- the handler of its responses keeps, is kept by the entry points execute, sudo and reply,
        -- however they end.
        pub entry_points_keep :
            (v : Values) (caller msg : Bytes) (coins : List Coin) (rep : Reply) (c : State G E)
            → P c.store.wasm
            → P (execute G h v addr caller msg coins c).1.store.wasm
              × P (sudo G h v addr msg c).1.store.wasm
              × P (reply G h v addr rep c).1.store.wasm
        unfolding execute sudo reply
        entry_points_keep v caller msg coins rep c p = (
          (bind-Keeps (load-Keeps addr) (λ loaded.
                bind-Keeps (charge_setup-Keeps loaded.0.code_id loaded.1.code_hash (length msg))
                  (λ u. bind-Keeps (transfer-Keeps caller addr coins) (λ w.
                    bind-Keeps
                      (run_contract-Keeps err_execute_failed v loaded.1.code_hash (
                        EntryPoint.execute (record { sender = h.sdk.render caller; funds = coins })
                          msg))
                      (λ r.
                        bind-Keeps (event-Keeps "execute" addr)
                          (λ z. handle_contract_response-Keeps v loaded.0.ibc_port r)))))).keeps
              c p,
          (bind-Keeps (load-Keeps addr) (λ loaded.
                bind-Keeps (charge_setup-Keeps loaded.0.code_id loaded.1.code_hash (length msg))
                  (λ u.
                    bind-Keeps
                      (run_contract-Keeps err_execute_failed v loaded.1.code_hash
                        (EntryPoint.sudo msg))
                      (λ r.
                        bind-Keeps (event-Keeps "sudo" addr)
                          (λ z. wrapped_response-Keeps v loaded.0.ibc_port r))))).keeps
              c p,
          (bind-Keeps (load-Keeps addr) (λ loaded.
                bind-Keeps (lift-Keeps (reply_costs h.gas_register true rep)) (λ cost.
                  bind-Keeps (consume-Keeps cost) (λ u.
                    bind-Keeps
                      (run_contract-Keeps err_execute_failed v loaded.1.code_hash
                        (EntryPoint.reply rep))
                      (λ r.
                        bind-Keeps (event-Keeps "reply" addr)
                          (λ z. wrapped_response-Keeps v loaded.0.ibc_port r)))))).keeps
              c p,
        )
