-- ===== src/Keeper/Code.antt =====
-- Uploading code, x/wasm/keeper/keeper.go: create and importCode, with IsGzip and the first test of
-- Uncompress (x/wasm/ioutils).
pub mod Upload
use Prim.Native.Char.{Char, code}
use cosmwasgo.Base.{
  ℕ, ◌*◌, Bool, true, false, not, ◌&&◌, List, [], ◌∷◌, ◌++◌, map, Option, none, some, String,
  length, is_some, bytes_eq, ltb, ◌==◌, if◌then◌else◌,
}
use cosmwasgo.Base.Outcome.{
  Error, registered, wrap, wrap_cause, external, Outcome, ok, err, panic, Exec, pure, fail, lift,
  fail_if, continue, ◌>>=◌, ◌>>◌,
}
use cosmwasgo.Base.Words.{take}
use cosmwasgo.Vm.{Bytes, EventAttribute}
use cosmwasgo.Gas.{uncompress_costs}
use cosmwasgo.Access.{AccessConfig, access_with}
use cosmwasgo.Policy.{Policy, ChainAccessConfigs, can_create_code}
use cosmwasgo.Sdk.{GasMeter, Ctx, consume_gas, emit}
use cosmwasgo.Keeper.State.{Store, CodeInfo, auto_increment, store_code_info, err_unauthorized}
use cosmwasgo.Keeper.Host.{
  Report, World, State, Host, read_store, update_store, attribute, new_event,
}
use cosmwasgo.Keeper.Events.{push, trim_space}
use cosmwasgo.Keeper.Settings.{or_fail, wrapped}
use cosmwasgo.Keeper.Metering.{runtime_gas_for_contract, consume_runtime_gas}

abbrev pub err_create_failed : Error
err_create_failed = registered "wasm" 2

-- IsGzip
abbrev pub is_gzip : Bytes → Bool
is_gzip input = bytes_eq (0x1f ∷ 0x8b ∷ 0x08 ∷ []) (take 3 input)

-- MaxWasmSize
abbrev pub max_wasm_size : ℕ
max_wasm_size = 800 * 1024

-- strings.Split by ","
abbrev pub add_to_head : Char → List String → List String
add_to_head c [] = String.◌∷◌ c "" ∷ []
add_to_head c (s ∷ ss) = String.◌∷◌ c s ∷ ss

unfoldable pub split_at_commas : String → List String
split_at_commas String.[] = "" ∷ []
split_at_commas (String.◌∷◌ c s) =
    let rest = split_at_commas s in if code c == b',' then "" ∷ rest else add_to_head c rest

abbrev pub capability_attribute : String → EventAttribute
capability_attribute f = attribute "required_capability" (trim_space f)

-- the error of Uncompress, wrapped as create and importCode do
abbrev pub uncompress_failed : {A : Type 0} → Outcome A → Outcome A
uncompress_failed (ok a) = ok a
uncompress_failed (err e) = err (wrap_cause err_create_failed (wrap e "uncompress wasm archive"))
uncompress_failed (panic p) = panic p

abbrev pub option_or {ℓ} : {A : Type ℓ} → Option A → A → A
option_or none a = a
option_or (some b) a = b

module _ (G : GasMeter) {E : Type 0} (h : Host G E) where
  -- Uncompress
  unfoldable pub uncompress : Bytes → ℕ → Outcome Bytes
  uncompress src limit =
      if ltb limit (length src) then err (wrap (external 1) "max bytes") else h.inflate src limit

  -- the branch of create on gzip data
  abbrev pub decompress : Bytes → Exec (State G E) Bytes
  decompress wasm_code =
      if is_gzip wasm_code
      then consume_gas G (uncompress_costs h.gas_register (length wasm_code))
        >> lift (uncompress_failed (uncompress wasm_code max_wasm_size))
      else pure wasm_code

  -- VM.StoreCode: the checksum or the error comes with the gas that was used
  abbrev pub store_code : Bytes → ℕ → Exec (State G E) (Outcome Bytes × ℕ)
  store_code wasm_code gas_left c =
      let (r, used, ext) = h.store_code wasm_code gas_left c.store.ext in
      (ok (r, used), record c { store = record c.store { ext = ext } })

  -- mustAutoIncrementID on the sequence of codes
  abbrev pub next_code_id : Exec (State G E) ℕ
  next_code_id c =
      let (id, next) = auto_increment c.store.wasm.last_code_id in
      (
        ok id,
        record c {
          store = record c.store { wasm = record c.store.wasm { last_code_id = some next } };
        },
      )

  -- the tests of create on creator and access: the configuration of the new code
  unfoldable pub authorize_upload :
      Bytes → Option AccessConfig → Policy → Exec (State G E) AccessConfig
  authorize_upload creator instantiate_access policy = do
    params ← read_store G (λ s. s.params)
    default ← lift (access_with h.sdk params.instantiate_default_permission (creator ∷ []))
    is_allowed ← lift (
        can_create_code h.sdk policy
          (record { upload = params.code_upload_access; instantiate = default }) creator
          (option_or instantiate_access default))
    fail_if (not is_allowed) (wrap err_unauthorized "can not create code")
    pure (option_or instantiate_access default)

  -- ... the code is given to the VM
  unfoldable pub compile_upload : Bytes → Exec (State G E) (Bytes × Report)
  compile_upload wasm_code = do
    raw ← decompress wasm_code
    gas_left ← λ c. (runtime_gas_for_contract G h.gas_register c.meter, c)
    stored ← store_code raw gas_left
    consume_runtime_gas G h.gas_register stored.1
    checksum ← lift (wrapped err_create_failed stored.0)
    report ← λ c. (wrapped err_create_failed (h.analyze_code c.store.ext checksum), c)
    pure (checksum, report)

  -- ... and its record is stored
  unfoldable pub register_code :
      Bytes → AccessConfig → Bytes × Report → Exec (State G E) (ℕ × Bytes)
  register_code creator config (checksum, report) = do
    code_id ← next_code_id
    update_store G (
        store_code_info code_id (record {
          code_hash = checksum;
          creator = h.sdk.render creator;
          instantiate_config = config;
        }))
    emit G (
        new_event "store_code" (
          attribute "code_checksum" (h.hex checksum)
          ∷ attribute "code_id" (h.format_uint code_id)
          ∷ map capability_attribute (split_at_commas report.required_capabilities))
        ∷ [])
    pure (code_id, checksum)

  -- create; `none` for the creator is a nil address
  unfoldable pub create :
      Option Bytes → Bytes → Option AccessConfig → Policy → Exec (State G E) (ℕ × Bytes)
  create none wasm_code instantiate_access policy = fail (wrap (registered "sdk" 7) "cannot be nil")
  create (some creator) wasm_code instantiate_access policy =
      authorize_upload creator instantiate_access policy >>= λ config.
      compile_upload wasm_code >>= λ stored. register_code creator config stored

  -- importCode
  unfoldable pub import_code : ℕ → CodeInfo → Bytes → Exec (State G E) (Unit {0})
  import_code code_id info wasm_code = do
    raw ← lift (
        if is_gzip wasm_code
        then uncompress_failed (uncompress wasm_code 0x7fff_ffff_ffff_ffff)
        else ok wasm_code)
    hash ← λ c.
        let (r, ext) = h.store_code_unchecked raw c.store.ext in
        (wrapped err_create_failed r, record c { store = record c.store { ext = ext } })
    fail_if (not (bytes_eq info.code_hash hash))
        (wrap (registered "wasm" 14) "code hashes not same")
    found ← read_store G (λ s. s.codes code_id)
    fail_if (is_some found) (wrap (registered "wasm" 15) "duplicate code")
    update_store G (store_code_info code_id info)
