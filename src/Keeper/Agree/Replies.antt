-- ===== src/Keeper/Agree/Replies.antt =====
-- Replies, uploads and changes of settings over two keepers that differ in how they handle
-- responses: a reply costs gas before its response is handled.
use cosmwasgo.Base.{
  ℕ, zero, suc, ◌≤◌, ◌≡◌, refl, Bool, true, false, List, Option, none, some, arith, if◌then◌else◌,
  length,
}
use cosmwasgo.Base.Outcome.{Panic, Outcome, ok, err, panic, Exec, lift, continue, pure, ◌>>=◌, ◌>>◌}
use cosmwasgo.Vm.{Bytes, SubMsg, Reply}
use cosmwasgo.Gas.{reply_costs, uncompress_costs}
use cosmwasgo.Access.{AccessConfig}
use cosmwasgo.Policy.{Policy}
use cosmwasgo.Sdk.{GasMeter, GasMeterLaws, panicked, consume_gas}
use cosmwasgo.Keeper.Host.{Values, EntryPoint, Report, State, Host}
use cosmwasgo.Keeper.Addresses.{
  build_contract_address_classic, build_contract_address_predictable, classic_address_generator,
  predictable_address_generator,
}
use cosmwasgo.Keeper.Settings.{
  wrapped, modifiable, set_contract_admin, set_contract_label, set_contract_info_extension,
  set_access_config, pin_code, unpin_code,
}
use cosmwasgo.Keeper.Settings.Changes.{Change, admin, label, extension, access, pin, unpin, apply}
use cosmwasgo.Keeper.Code.{
  create, authorize_upload, compile_upload, register_code, uncompress, err_create_failed,
  uncompress_failed, is_gzip, max_wasm_size, store_code,
}
use cosmwasgo.Keeper.Entry.{err_execute_failed, reply}
use cosmwasgo.Keeper.Relation.{Handler, with_handler}
use cosmwasgo.Keeper.Agree.{
  Left, Ends, Agrees, bind_agrees, raise_agrees, quiet_agrees, lift_agrees, consume_agrees,
}
use cosmwasgo.Keeper.Agree.Steps.{
  Metered, run_contract_agrees, event_agrees, load_agrees, wrapped_agrees, spend_agrees,
  runtime_gas_agrees,
}

module _ (G : GasMeter) {E : Type 0} where
  -- what follows a value that was computed
  lift_bind_agrees :
      {A B : Type 0} (k : ℕ) (r : Outcome A) (f f' : A → Exec (State G E) B)
      → ((a : A) → r ≡ ok a → Agrees G k k (f a) (f' a))
      → Agrees G k k (lift r >>= f) (lift r >>= f')
  lift_bind_agrees k (ok a) f f' h = h a refl
  lift_bind_agrees k (err e) f f' h = lift_agrees G k (err e)
  lift_bind_agrees k (panic p) f f' h = lift_agrees G k (panic p)

  module _ (laws : GasMeterLaws G) where
    nothing-Left :
        {B : Type 0} (n : ℕ) (c d : State G E) (o : Option Panic)
        (f f' : Unit {0} → Exec (State G E) B)
        → 1 ≤ n
        → Left G 0 c.meter
        → (G.consume n c.meter).0 ≡ o
        → (continue (panicked o) f d ≡ continue (panicked o) f' d)
          × Ends G 0 (continue (panicked o) f d).0 (continue (panicked o) f d).1.meter
    nothing-Left n c d none f f' h x e =
        absurd (omega (arith, laws.consume_none n c.meter e, x.rest))
    nothing-Left n c d (some p) f f' h x e = (refl, tt)

    -- after gas was consumed less is left for what follows, which is not run if there was none
    consume_bind_agrees :
        {B : Type 0} (k n : ℕ) (f f' : Unit {0} → Exec (State G E) B)
        → 1 ≤ n
        → ((j : ℕ) → k ≡ suc j → (u : Unit {0}) → Agrees G j j (f u) (f' u))
        → Agrees G k k (consume_gas G n >>= f) (consume_gas G n >>= f')
    consume_bind_agrees zero n f f' h g = record {
      same =
          λ c x. (nothing-Left n c (consume_gas G n c).1 (G.consume n c.meter).0 f f' h x refl).0;
      ends =
          λ c x. (nothing-Left n c (consume_gas G n c).1 (G.consume n c.meter).0 f f' h x refl).1;
    }
    consume_bind_agrees (suc j) n f f' h g = raise_agrees G (suc j) (omega arith) (
        bind_agrees G (raise_agrees G j (omega arith) (consume_agrees G laws (suc j) n))
          (λ u. g j refl u))

module _ (G : GasMeter) (laws : GasMeterLaws G) {E : Type 0} (base : Host G E)
    (metered : Metered G base) (f f' : Handler G E) (k : ℕ) where
  abbrev h : Host G E
  h = with_handler G base f

  abbrev h' : Host G E
  h' = with_handler G base f'

  -- The response of a reply is handled with less gas than the reply was called with.
  pub reply_agrees :
      (v : Values) (addr : Bytes) (rep : Reply)
      → ((n : ℕ) → reply_costs base.gas_register true rep ≡ ok n → 1 ≤ n)
      → ((j : ℕ)
          → k ≡ suc j
          → (w : Values) (addr port : Bytes) (msgs : List SubMsg) (answer : Option Bytes)
          → w.call_depth ≡ v.call_depth
          → Agrees G j j (f w addr port msgs answer) (f' w addr port msgs answer))
      → Agrees G k k (reply G h v addr rep) (reply G h' v addr rep)
  unfolding reply
  reply_agrees v addr rep costly handled =
      bind_agrees G (load_agrees G laws base metered f f' k addr) (λ loaded.
        lift_bind_agrees G k (reply_costs base.gas_register true rep) _ _ (λ cost e.
          consume_bind_agrees G laws k cost _ _ (costly cost e) (λ j q u.
            bind_agrees G
              (run_contract_agrees G laws base metered f f' j err_execute_failed v addr
                loaded.1.code_hash (EntryPoint.reply rep))
              (λ r. bind_agrees G (event_agrees G laws base metered f f' j "reply" addr) (λ w.
                wrapped_agrees G laws base metered f f' j v.call_depth (handled j q) v addr
                  loaded.0.ibc_port r refl)))))

  pub settings_agrees : (x : Change) → Agrees G k k (apply G h x) (apply G h' x)
  unfolding apply set_contract_admin set_contract_label set_contract_info_extension
      set_access_config pin_code unpin_code modifiable
  settings_agrees (admin addr caller a p) = quiet_agrees G k (λ c. ground arith)
  settings_agrees (label addr caller a p) = quiet_agrees G k (λ c. ground arith)
  settings_agrees (extension addr ext valid) = quiet_agrees G k (λ c. ground arith)
  settings_agrees (access id caller config p) = quiet_agrees G k (λ c. ground arith)
  settings_agrees (pin id) = quiet_agrees G k (λ c. ground arith)
  settings_agrees (unpin id) = quiet_agrees G k (λ c. ground arith)

  pub classic_agrees :
      (id : ℕ) (checksum : Bytes)
      → Agrees G k k
          (classic_address_generator G h id checksum)
          (classic_address_generator G h' id checksum)
  unfolding classic_address_generator build_contract_address_classic
  classic_agrees id checksum = quiet_agrees G k (λ c. refl)

  pub predictable_agrees :
      (creator salt msg : Bytes) (fix_msg : Bool) (id : ℕ) (checksum : Bytes)
      → Agrees G k k
          (predictable_address_generator G h creator salt msg fix_msg id checksum)
          (predictable_address_generator G h' creator salt msg fix_msg id checksum)
  unfolding predictable_address_generator build_contract_address_predictable
  predictable_agrees creator salt msg fix_msg id checksum = quiet_agrees G k (λ c. refl)

  authorize_agrees :
      (creator : Bytes) (config : Option AccessConfig) (p : Policy)
      → Agrees G k k
          (authorize_upload G h creator config p)
          (authorize_upload G h' creator config p)
  unfolding authorize_upload
  authorize_agrees creator config p = quiet_agrees G k (λ c. ground arith)

  decompress_if_agrees :
      (b : Bool) (wasm_code : Bytes)
      → Agrees G {E = E} k k
          (if b
            then consume_gas G (uncompress_costs base.gas_register (length wasm_code))
              >> lift (uncompress_failed (uncompress G h wasm_code max_wasm_size))
            else pure wasm_code)
          (if b
            then consume_gas G (uncompress_costs base.gas_register (length wasm_code))
              >> lift (uncompress_failed (uncompress G h' wasm_code max_wasm_size))
            else pure wasm_code)
  unfolding uncompress
  decompress_if_agrees true wasm_code =
      bind_agrees G
        (spend_agrees G laws base metered f f' k
          (uncompress_costs base.gas_register (length wasm_code)))
        (λ u. lift_agrees G k (uncompress_failed (uncompress G h wasm_code max_wasm_size)))
  decompress_if_agrees false wasm_code = lift_agrees G k (ok wasm_code)

  store_code_agrees :
      (raw : Bytes) (gas : ℕ) → Agrees G k k (store_code G h raw gas) (store_code G h' raw gas)
  store_code_agrees raw gas = quiet_agrees G k (λ c. refl)

  analyze_code_agrees :
      (checksum : Bytes)
      → let m : Exec (State G E) Report =
          λ c. (wrapped err_create_failed (base.analyze_code c.store.ext checksum), c) in
        Agrees G k k m m
  analyze_code_agrees checksum = quiet_agrees G k (λ c. refl)

  compile_agrees :
      (wasm_code : Bytes)
      → Agrees G k k (compile_upload G h wasm_code) (compile_upload G h' wasm_code)
  unfolding compile_upload
  compile_agrees wasm_code =
      bind_agrees G (decompress_if_agrees (is_gzip wasm_code) wasm_code) (λ raw.
        bind_agrees G (quiet_agrees G k (λ c. refl)) (λ gas_left.
          bind_agrees G (store_code_agrees raw gas_left) (λ stored.
            bind_agrees G (runtime_gas_agrees G laws base metered f f' k stored.1) (λ u.
              bind_agrees G (lift_agrees G k (wrapped err_create_failed stored.0)) (λ checksum.
                bind_agrees G (analyze_code_agrees checksum)
                  (λ report. lift_agrees G k (ok (checksum, report))))))))

  register_agrees :
      (creator : Bytes) (config : AccessConfig) (x : Bytes × Report)
      → Agrees G k k (register_code G h creator config x) (register_code G h' creator config x)
  unfolding register_code
  register_agrees creator config (checksum, report) = quiet_agrees G k (λ c. refl)

  pub create_agrees :
      (creator : Option Bytes) (code : Bytes) (config : Option AccessConfig) (p : Policy)
      → Agrees G k k (create G h creator code config p) (create G h' creator code config p)
  unfolding create
  create_agrees none code config p = quiet_agrees G k (λ c. refl)
  create_agrees (some creator) code config p =
      bind_agrees G (authorize_agrees creator config p) (λ config.
        bind_agrees G (compile_agrees code) (λ stored. register_agrees creator config stored))
