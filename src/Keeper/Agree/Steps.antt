-- ===== src/Keeper/Agree/Steps.antt =====
-- The steps that the calls of the keeper share, over two keepers that differ in how they handle
-- responses.
use cosmwasgo.Base.{
  ℕ, ◌≡◌, refl, Bool, true, false, List, Option, none, some, String, arith, if◌then◌else◌,
}
use cosmwasgo.Base.Outcome.{Error, Panic, out_of_gas, Outcome, ok, err, panic, Exec, fail_if, pure}
use cosmwasgo.Vm.{Bytes, SubMsg, Response}
use cosmwasgo.Gas.{from_wasm_vm_gas, setup_contract_cost, event_costs}
use cosmwasgo.Sdk.{GasMeter, GasMeterLaws, consume_gas}
use cosmwasgo.Keeper.Events.{new_wasm_module_event, new_custom_events}
use cosmwasgo.Keeper.Host.{Coin, Values, Env, new_env, EntryPoint, Account, State, Host, external}
use cosmwasgo.Keeper.Settings.{or_fail}
use cosmwasgo.Keeper.Metering.{check_discount_eligibility, consume_runtime_gas}
use cosmwasgo.Keeper.Entry.{
  handle_contract_response, charge_setup, call_vm, run_contract, transfer, contract_event, load,
  resolve, wrap_error, events_unless_empty, is_zero, panic_or,
}
use cosmwasgo.Keeper.Relation.{Handler, with_handler}
use cosmwasgo.Keeper.Agree.{
  Left, Ends, Agrees, bind_agrees, raise_agrees, quiet_agrees, lift_agrees, emit_agrees,
  read_agrees, external_agrees, consume_agrees,
}

-- The other keepers and the VM go by the meter: unless they panic they leave no more gas than they
-- found.
pub record Metered (G : GasMeter) {E : Type 0} (h : Host G E) : Type 0 where
  pub transfer_coins :
      (k : ℕ) (from to : Bytes) (coins : List Coin) (x : E) (m : G.Meter)
      → Left G k m
      → Ends G k
          (h.transfer_coins from to coins x m).result
          (h.transfer_coins from to coins x m).meter
  pub cleanup_account :
      (k : ℕ) (addr : Bytes) (acc : Account) (x : E) (m : G.Meter)
      → Left G k m
      → Ends G k (h.cleanup_account addr acc x m).result (h.cleanup_account addr acc x m).meter
  pub ensure_ibc_port :
      (k : ℕ) (addr : Bytes) (x : E) (m : G.Meter)
      → Left G k m
      → Ends G k (h.ensure_ibc_port addr x m).result (h.ensure_ibc_port addr x m).meter
  pub call :
      (k : ℕ) (v : Values) (checksum : Bytes) (env : Env) (entry : EntryPoint) (gas : ℕ)
      (c : State G E) (storage : Bytes → Option Bytes)
      → Left G k c.meter
      → (h.call v checksum env entry gas c storage).panicked ≡ none
      → Left G k (h.call v checksum env entry gas c storage).meter

panic-Ends :
    (G : GasMeter) {E A : Type 0} (h : Host G E) (k : ℕ) (p : Option Panic) (a : A) (m : G.Meter)
    → (p ≡ none → Left G k m)
    → Ends G k (panic_or G h p a) m
panic-Ends G h k none a m x = x refl
panic-Ends G h k (some p) a m x = tt

out_of_gas-Ends :
    (G : GasMeter) (k : ℕ) (b : Bool) (m : G.Meter)
    → Left G k m
    → Ends G k {A = Unit {0}} (if b then panic out_of_gas else ok tt) m
out_of_gas-Ends G k true m x = tt
out_of_gas-Ends G k false m x = x

module _ (G : GasMeter) {E : Type 0} where
  pub fail_if_agrees :
      (k : ℕ) (b : Bool) (e : Error) → Agrees G {E = E} k k (fail_if b e) (fail_if b e)
  fail_if_agrees k true e = lift_agrees G k (err e)
  fail_if_agrees k false e = lift_agrees G k (ok tt)

  pub or_fail_agrees :
      {A : Type 0} (k : ℕ) (x : Option A) (e : Error)
      → Agrees G {E = E} k k (or_fail x e) (or_fail x e)
  or_fail_agrees k none e = lift_agrees G k (err e)
  or_fail_agrees k (some a) e = lift_agrees G k (ok a)

  wrap-Ends :
      {A : Type 0} (k : ℕ) (text : String) (r : Outcome A) (c : State G E)
      → Ends G k r c.meter
      → Ends G k (wrap_error text (r, c)).0 (wrap_error text (r, c)).1.meter
  wrap-Ends k text (ok a) c x = x
  wrap-Ends k text (err e) c x = x
  wrap-Ends k text (panic p) c x = tt

  pub wrap_agrees :
      {A : Type 0} {k l : ℕ} (text : String) {m m' : Exec (State G E) A}
      → Agrees G k l m m'
      → Agrees G k l (λ c. wrap_error text (m c)) (λ c. wrap_error text (m' c))
  wrap_agrees {l} text {m} {m'} x = record {
    same = λ c q i. wrap_error text (x.same c q i);
    ends = λ c q. wrap-Ends l text (m c).0 (m c).1 (x.ends c q);
  }

module _ (G : GasMeter) (laws : GasMeterLaws G) {E : Type 0} (base : Host G E)
    (metered : Metered G base) (f f' : Handler G E) (k : ℕ) where
  abbrev h : Host G E
  h = with_handler G base f

  abbrev h' : Host G E
  h' = with_handler G base f'

  pub spend_agrees : (n : ℕ) → Agrees G {E = E} k k (consume_gas G n) (consume_gas G n)
  spend_agrees n = raise_agrees G k (omega arith) (consume_agrees G laws k n)

  discount_agrees :
      (checksum : Bytes) (b : Bool)
      → Agrees G {E = E} k k
          (check_discount_eligibility G checksum b)
          (check_discount_eligibility G checksum b)
  unfolding check_discount_eligibility
  discount_agrees checksum b = quiet_agrees G k (λ c. ground arith)

  pub charge_setup_agrees :
      (code_id : ℕ) (checksum : Bytes) (n : ℕ)
      → Agrees G k k (charge_setup G h code_id checksum n) (charge_setup G h' code_id checksum n)
  unfolding charge_setup
  charge_setup_agrees code_id checksum n =
      bind_agrees G (read_agrees G k (λ s. s.pinned code_id)) (λ is_pinned.
        bind_agrees G (discount_agrees checksum is_pinned)
          (λ discounted. spend_agrees (setup_contract_cost base.gas_register discounted n)))

  transfer_if_agrees :
      (from to : Bytes) (coins : List Coin) (b : Bool)
      → let m = if b then pure tt else external G (base.transfer_coins from to coins) in
        Agrees G k k m m
  transfer_if_agrees from to coins true = lift_agrees G k (ok tt)
  transfer_if_agrees from to coins false =
      external_agrees G k (base.transfer_coins from to coins)
        (λ x m q. metered.transfer_coins k from to coins x m q)

  pub transfer_agrees :
      (from to : Bytes) (coins : List Coin)
      → Agrees G k k (transfer G h from to coins) (transfer G h' from to coins)
  transfer_agrees from to coins = transfer_if_agrees from to coins (is_zero coins)

  call_vm_agrees :
      (v : Values) (addr checksum : Bytes) (env : Env) (entry : EntryPoint) (gas : ℕ)
      → Agrees G k k
          (call_vm G h v addr checksum env entry gas)
          (call_vm G h' v addr checksum env entry gas)
  unfolding call_vm
  call_vm_agrees v addr checksum env entry gas = record {
    same = λ c q. refl;
    ends = λ c q.
        let storage = c.store.wasm.contract_store addr in
        let r = base.call v checksum env entry gas c storage in
        panic-Ends G base k r.panicked (r.answer, r.gas_used) r.meter
          (λ e. metered.call k v checksum env entry gas c storage q e);
  }

  out_of_gas_agrees :
      Agrees G {E = E} k k {A = Unit {0}}
        (λ x. (if G.is_out_of_gas x.meter then panic out_of_gas else ok tt, x))
        (λ x. (if G.is_out_of_gas x.meter then panic out_of_gas else ok tt, x))
  out_of_gas_agrees = record {
    same = λ c q. refl;
    ends = λ c q. out_of_gas-Ends G k (G.is_out_of_gas c.meter) c.meter q;
  }

  pub runtime_gas_agrees :
      (gas : ℕ)
      → Agrees G {E = E} k k
          (consume_runtime_gas G base.gas_register gas)
          (consume_runtime_gas G base.gas_register gas)
  unfolding consume_runtime_gas
  runtime_gas_agrees gas =
      bind_agrees G (spend_agrees (from_wasm_vm_gas base.gas_register gas)) (λ u. out_of_gas_agrees)

  pub run_contract_agrees :
      (failed : Error) (v : Values) (addr checksum : Bytes) (entry : EntryPoint)
      → Agrees G k k
          (run_contract G h failed v addr checksum entry)
          (run_contract G h' failed v addr checksum entry)
  unfolding run_contract
  run_contract_agrees failed v addr checksum entry =
      bind_agrees G (lift_agrees G k (new_env base.sdk v addr)) (λ env.
        bind_agrees G (quiet_agrees G k (λ c. refl)) (λ gas.
          bind_agrees G (call_vm_agrees v addr checksum env entry gas) (λ done.
            bind_agrees G (runtime_gas_agrees done.1)
              (λ u. lift_agrees G k (resolve failed done.0)))))

  pub event_agrees :
      (type : String) (addr : Bytes)
      → Agrees G k k (contract_event G h type addr) (contract_event G h' type addr)
  event_agrees type addr = quiet_agrees G k (λ c. refl)

  pub load_agrees : (addr : Bytes) → Agrees G k k (load G h addr) (load G h' addr)
  load_agrees addr = quiet_agrees G k (λ c. refl)

  -- the handlers agree on responses under a call depth
  module _ (d : Option ℕ)
      (handled : (v : Values) (addr port : Bytes) (msgs : List SubMsg) (answer : Option Bytes)
        → v.call_depth ≡ d
        → Agrees G k k (f v addr port msgs answer) (f' v addr port msgs answer)) where
    pub response_agrees :
        (v : Values) (addr port : Bytes) (r : Response)
        → v.call_depth ≡ d
        → Agrees G k k
            (handle_contract_response G h v addr port r)
            (handle_contract_response G h' v addr port r)
    unfolding handle_contract_response
    response_agrees v addr port r e =
        let text = base.text (base.sdk.render addr) in
        let module_events =
          events_unless_empty r.attributes (new_wasm_module_event r.attributes text) in
        let custom_events = events_unless_empty r.events (new_custom_events r.events text) in
        bind_agrees G (lift_agrees G k (event_costs base.gas_register r.attributes r.events))
          (λ cost. bind_agrees G (spend_agrees cost) (λ u1.
            bind_agrees G (lift_agrees G k module_events) (λ e1.
              bind_agrees G (emit_agrees G k e1) (λ u2.
                bind_agrees G (lift_agrees G k custom_events) (λ e2.
                  bind_agrees G (emit_agrees G k e2)
                    (λ u3. handled v addr port r.messages r.data_bytes e))))))

    pub wrapped_agrees :
        (v : Values) (addr port : Bytes) (r : Response)
        → v.call_depth ≡ d
        → Agrees G k k
            (λ c. wrap_error "dispatch" (handle_contract_response G h v addr port r c))
            (λ c. wrap_error "dispatch" (handle_contract_response G h' v addr port r c))
    wrapped_agrees v addr port r e = wrap_agrees G "dispatch" (response_agrees v addr port r e)
