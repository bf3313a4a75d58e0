-- ===== src/Keeper/Code/Upload.antt =====
-- About uploads (create) and the numbering of codes.
use cosmwasgo.Base.{
  ℕ, ◌≡◌, refl, sym, subst, ◌+◌, ap, ◌∙◌, Bool, true, false, not, [], ◌∷◌, Option, none, some,
  arith,
}
use cosmwasgo.Base.Outcome.{ok, is_ok, wrap}
use cosmwasgo.Vm.{Bytes, word64}
use cosmwasgo.Access.{Bech32, AccessConfig, access_with}
use cosmwasgo.Policy.{Policy, can_create_code}
use cosmwasgo.Sdk.{GasMeter}
use cosmwasgo.Keeper.State.{
  Store, Params, err_unauthorized, peek_id, auto_increment, store_code_info,
}
use cosmwasgo.Keeper.Host.{Report, State, Host}
use cosmwasgo.Keeper.Settings.{wrapped}
use cosmwasgo.Keeper.Metering.{runtime_gas_for_contract, consume_runtime_gas}
use cosmwasgo.Keeper.Entry.Isolation.{Keeps, bind-Keeps, same-Keeps, lift-Keeps}
use cosmwasgo.Keeper.Runs.{
  Runs, bind_runs, read_runs, lift_runs, fail_if_runs, return_runs, then_runs, Post-ok,
  Post-refused,
}
use cosmwasgo.Keeper.Code.{
  err_create_failed, decompress, store_code, authorize_upload, compile_upload, register_code,
  create, option_or,
}

module _ (G : GasMeter) {E : Type 0} (h : Host G E) (P : Store → Type 0) where
  runtime-Keeps : Keeps G {E = E} P (λ c. (runtime_gas_for_contract G h.gas_register c.meter, c))
  runtime-Keeps = same-Keeps G P (λ c. refl)

  consume_runtime-Keeps : (gas : ℕ) → Keeps G {E = E} P (consume_runtime_gas G h.gas_register gas)
  unfolding consume_runtime_gas
  consume_runtime-Keeps gas = same-Keeps G P (λ c. ground arith)

  store_code-Keeps : (raw : Bytes) (gas : ℕ) → Keeps G P (store_code G h raw gas)
  store_code-Keeps raw gas = same-Keeps G P (λ c. refl)

  analyze-Keeps :
      (checksum : Bytes)
      → Keeps G P (λ c. (wrapped err_create_failed (h.analyze_code c.store.ext checksum), c))
  analyze-Keeps checksum = same-Keeps G P (λ c. refl)

  decompress-Keeps : (wasm_code : Bytes) → Keeps G P (decompress G h wasm_code)
  decompress-Keeps wasm_code = same-Keeps G P (λ c. ground arith)

  compile_upload-Keeps : (wasm_code : Bytes) → Keeps G P (compile_upload G h wasm_code)
  unfolding compile_upload
  compile_upload-Keeps wasm_code = bind-Keeps G P (decompress-Keeps wasm_code) (λ raw.
      bind-Keeps G P runtime-Keeps (λ gas_left.
        bind-Keeps G P (store_code-Keeps raw gas_left) (λ stored.
          bind-Keeps G P (consume_runtime-Keeps stored.1) (λ u.
            bind-Keeps G P (lift-Keeps G P (wrapped err_create_failed stored.0)) (λ checksum.
              bind-Keeps G P (analyze-Keeps checksum)
                (λ report. lift-Keeps G P (ok (checksum, report))))))))

was_true : (b : Bool) → not b ≡ false → b ≡ true
was_true b e = ground arith

-- The configuration of a new code is the one that is asked for, or else the default one.
abbrev pub Requested : Option AccessConfig → AccessConfig → AccessConfig → Type 0
Requested (some config) default stored = stored ≡ config
Requested none default stored = stored ≡ default

option_or-Requested :
    (access : Option AccessConfig) (default : AccessConfig)
    → Requested access default (option_or access default)
option_or-Requested (some config) default = refl
option_or-Requested none default = refl

module _ (sdk : Bech32) (policy : Policy) (creator : Bytes) (access : Option AccessConfig) where
  -- The configuration that an upload gets: it is as requested, where the default is made for the
  -- creator from the parameters of the module, and the policy allows the upload with it.
  pub record Authorized (params : Params) (config : AccessConfig) : Type 0 where
    pub default : AccessConfig
    pub default_access :
        access_with sdk params.instantiate_default_permission (creator ∷ []) ≡ ok default
    pub requested : Requested access default config
    pub is_allowed :
        can_create_code sdk policy
          (record { upload = params.code_upload_access; instantiate = default })
          creator
          config
        ≡ ok true

  -- The store after an upload, from the store before it, with the code id and checksum that were
  -- returned.
  pub record Registered (before after : Store) (code_id : ℕ) (checksum : Bytes) : Type 0 where
    pub next_id : code_id ≡ peek_id before.last_code_id
    pub config : AccessConfig
    pub authorized : Authorized before.params config
    pub effect :
        after
        ≡ store_code_info code_id
            (record {
              code_hash = checksum;
              creator = sdk.render creator;
              instantiate_config = config;
            })
            (record before { last_code_id = some (word64 (code_id + 1)) })

module _ (G : GasMeter) {E : Type 0} (h : Host G E) (creator : Bytes) (access : Option AccessConfig)
    (policy : Policy) where
  RegisteredWith : Store → ℕ × Bytes → Store → Type 0
  RegisteredWith before (code_id, checksum) after =
      Registered h.sdk policy creator access before after code_id checksum

  take_id :
      (before : Store) (config : AccessConfig) (checksum : Bytes) (x : Option ℕ)
      → Authorized h.sdk policy creator access before.params config
      → before.last_code_id ≡ x
      → let (id, next) = auto_increment x in
        Registered h.sdk policy creator access before
          (store_code_info id
            (record {
              code_hash = checksum;
              creator = h.sdk.render creator;
              instantiate_config = config;
            })
            (record before { last_code_id = some next }))
          id
          checksum
  take_id before config checksum none k e = record {
    next_id = ap peek_id (sym e);
    config = config;
    authorized = k;
    effect = refl;
  }
  take_id before config checksum (some n) k e = record {
    next_id = ap peek_id (sym e);
    config = config;
    authorized = k;
    effect = refl;
  }

  -- the store as it was, and the configuration that the upload gets
  AuthorizedAt : Store → AccessConfig → Store → Type 0
  AuthorizedAt before config s =
      (s ≡ before) × Authorized h.sdk policy creator access before.params config

  register_runs :
      (before : Store) (config : AccessConfig) (stored : Bytes × Report)
      → Runs G
          (λ s. s ≡ before)
          (AuthorizedAt before config)
          (register_code G h creator config stored)
          (RegisteredWith before)
  unfolding register_code RegisteredWith AuthorizedAt
  register_runs before config (checksum, report) = record {
    runs = λ c (e, k).
        subst
          (λ s.
            RegisteredWith s ((auto_increment c.store.wasm.last_code_id).0, checksum)
              (register_code G h creator config (checksum, report) c).1.store.wasm)
          e
          (take_id c.store.wasm config checksum c.store.wasm.last_code_id
            (subst (λ s. Authorized h.sdk policy creator access s.params config) (sym e) k) refl);
  }

  authorize_runs :
      (before : Store)
      → Runs G
          (λ s. s ≡ before)
          (λ s. s ≡ before)
          (authorize_upload G h creator access policy)
          (AuthorizedAt before)
  unfolding authorize_upload AuthorizedAt
  authorize_runs before =
      let R = λ (s : Store). s ≡ before in
      bind_runs G R (read_runs G R (λ s. s.params)) (λ params.
        bind_runs G R
          (lift_runs G R (access_with h.sdk params.instantiate_default_permission (creator ∷ []))
            (λ s k. k.0))
          (λ default.
            bind_runs G R
              (lift_runs G R
                (can_create_code h.sdk policy
                  (record { upload = params.code_upload_access; instantiate = default }) creator
                  (option_or access default))
                (λ s k. k.0.0))
              (λ is_allowed.
                bind_runs G R
                  (fail_if_runs G R (not is_allowed) (wrap err_unauthorized "can not create code")
                    (λ s k. k.0.0.0))
                  (λ u.
                    return_runs G R (option_or access default) (AuthorizedAt before)
                      (λ s ((((e, read), made), answer), allowed). (
                        e,
                        subst
                            (λ (p : Params).
                              Authorized h.sdk policy creator access p (option_or access default))
                            (read ∙ ap (λ (x : Store). x.params) e)
                            (record {
                              default = default;
                              default_access = made;
                              requested = option_or-Requested access default;
                              is_allowed = answer ∙ ap ok (was_true is_allowed allowed);
                            }),
                      ))))))

  create_runs :
      (before : Store) (wasm_code : Bytes)
      → Runs G
          (λ s. s ≡ before)
          (λ s. s ≡ before)
          (create G h (some creator) wasm_code access policy)
          (RegisteredWith before)
  unfolding create AuthorizedAt
  create_runs before wasm_code =
      let R = λ (s : Store). s ≡ before in
      bind_runs G R (authorize_runs before) (λ config.
        then_runs G R (λ s k. k.0) (compile_upload-Keeps G h (AuthorizedAt before config) wasm_code)
          (λ stored. register_runs before config stored))

  -- An upload that succeeds returns the code id that was next, and stores the code under it with its
  -- checksum, its creator and the configuration that was asked for, or else the default one of the
  -- module for that creator, which the policy allows; besides that and the next code id the store of
  -- the keeper is as it was.
  pub create_registers :
      (wasm_code : Bytes) (c : State G E) (code_id : ℕ) (checksum : Bytes)
      → (create G h (some creator) wasm_code access policy c).0 ≡ ok (code_id, checksum)
      → Registered h.sdk policy creator access c.store.wasm
          (create G h (some creator) wasm_code access policy c).1.store.wasm
          code_id
          checksum
  unfolding RegisteredWith
  create_registers wasm_code c code_id checksum e =
      let (r, after) = create G h (some creator) wasm_code access policy c in
      Post-ok (λ s. s ≡ c.store.wasm) (RegisteredWith c.store.wasm) r after.store.wasm
        (code_id, checksum) ((create_runs c.store.wasm wasm_code).runs c refl) e

  -- An upload that is refused or fails leaves the store of the keeper as it was.
  pub create_refused :
      (wasm_code : Bytes) (c : State G E)
      → is_ok (create G h (some creator) wasm_code access policy c).0 ≡ false
      → (create G h (some creator) wasm_code access policy c).1.store.wasm ≡ c.store.wasm
  create_refused wasm_code c e =
      let (r, after) = create G h (some creator) wasm_code access policy c in
      Post-refused (λ s. s ≡ c.store.wasm) (RegisteredWith c.store.wasm) r after.store.wasm
        ((create_runs c.store.wasm wasm_code).runs c refl) e
