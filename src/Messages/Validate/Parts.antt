-- ===== src/Messages/Validate/Parts.antt =====
-- ValidateBasic of the messages that do two things at once (MsgStoreAndInstantiateContract,
-- MsgStoreAndMigrateContract), and of the two messages that do them one after the other.
use cosmwasgo.Base.{ℕ, true, List, [], ◌∷◌, String, ◌≡◌, ◌≢◌, refl, All, arith, ◌==◌}
use cosmwasgo.Base.Outcome.{Error, Outcome, ok, err, panic, is_ok}
use cosmwasgo.Messages.{
  MsgStoreCode, MsgInstantiateContract, MsgMigrateContract, MsgStoreAndInstantiateContract,
  MsgStoreAndMigrateContract, Message,
}
use cosmwasgo.Messages.Validate.{
  Checks, first_failure, within, checked, refuse_if, unless_empty, address, store_code_checks,
  instantiate_contract_checks, migrate_contract_checks, store_and_instantiate_contract_checks,
  store_and_migrate_contract_checks, validate_store_code, validate_instantiate_contract,
  validate_migrate_contract, validate_store_and_instantiate_contract,
  validate_store_and_migrate_contract, validate,
}

-- the upload, the birth and the migration that such a message stands for
abbrev pub upload_part : MsgStoreAndInstantiateContract → MsgStoreCode
upload_part m = record {
  sender = m.authority;
  wasm_byte_code = m.wasm_byte_code;
  instantiate_permission = m.instantiate_permission;
}

abbrev pub birth_part : MsgStoreAndInstantiateContract → ℕ → MsgInstantiateContract
birth_part m code_id = record {
  sender = m.authority;
  admin = m.admin;
  code_id = code_id;
  label = m.label;
  msg = m.msg;
  funds = m.funds;
}

abbrev pub new_code_part : MsgStoreAndMigrateContract → MsgStoreCode
new_code_part m = record {
  sender = m.authority;
  wasm_byte_code = m.wasm_byte_code;
  instantiate_permission = m.instantiate_permission;
}

abbrev pub move_part : MsgStoreAndMigrateContract → ℕ → MsgMigrateContract
move_part m code_id = record {
  sender = m.authority;
  contract = m.contract;
  code_id = code_id;
  msg = m.msg;
}

abbrev Passes : Outcome (Unit {0}) → Type 0
Passes r = r ≡ ok tt

All-pass : (rs : List (Outcome (Unit {0}))) → Passes (first_failure rs) → All Passes rs
All-pass [] e = tt
All-pass (ok t ∷ rs) e = (refl, All-pass rs e)
All-pass (err x ∷ rs) e = absurd cc
All-pass (panic x ∷ rs) e = absurd cc

pass_all : (rs : List (Outcome (Unit {0}))) → All Passes rs → Passes (first_failure rs)
pass_all [] k = refl
pass_all (ok t ∷ rs) (e, k) = pass_all rs k
pass_all (err x ∷ rs) (e, k) = e
pass_all (panic x ∷ rs) (e, k) = e

-- an address that passes with its error wrapped is one
pub within_ok :
    {A : Type 0} (text : String) (r : Outcome A) → Passes (within text r) → is_ok r ≡ true
within_ok text (ok a) e = refl
within_ok text (err x) e = absurd cc
within_ok text (panic x) e = absurd cc

ok_within : {A : Type 0} (text : String) (r : Outcome A) → is_ok r ≡ true → Passes (within text r)
ok_within text (ok a) e = refl
ok_within text (err x) e = absurd cc
ok_within text (panic x) e = absurd cc

checked_ok : {A : Type 0} (r : Outcome A) → is_ok r ≡ true → Passes (checked r)
checked_ok (ok a) e = refl
checked_ok (err x) e = absurd cc
checked_ok (panic x) e = absurd cc

not_zero : (n : ℕ) (e : Error) → n ≢ 0 → Passes (refuse_if (n == 0) e)
not_zero n e k = ground arith

module _ (x : Checks) where
  -- what is known of the parts of a message that passes
  pub record BirthParts (m : MsgStoreAndInstantiateContract) : Type 0 where
    pub sender : is_ok (x.sdk.parse m.authority) ≡ true
    pub admin : Passes (unless_empty m.admin (address x "admin" m.admin))
    pub upload : Passes (validate x (Message.store_code (upload_part m)))
    pub birth :
        (code_id : ℕ)
        → code_id ≢ 0
        → Passes (validate x (Message.instantiate_contract (birth_part m code_id)))

  pub validate-birth :
      (m : MsgStoreAndInstantiateContract)
      → Passes (validate x (Message.store_and_instantiate_contract m))
      → BirthParts m
  unfolding validate validate_store_and_instantiate_contract validate_store_code
      validate_instantiate_contract
  validate-birth m e =
      let (sender, (l, (funds, (admin, (info, (msg, (code, (config, z)))))))) =
        All-pass (store_and_instantiate_contract_checks x m) e in
      let is_sender = within_ok "authority" (x.sdk.parse m.authority) sender in
      record {
        sender = is_sender;
        admin = admin;
        upload =
            pass_all (store_code_checks x (upload_part m))
              (checked_ok (x.sdk.parse m.authority) is_sender, (code, (config, tt)));
        birth = λ code_id k. pass_all (instantiate_contract_checks x (birth_part m code_id)) (
          ok_within "sender" (x.sdk.parse m.authority) is_sender,
          (not_zero code_id _ k, (l, (funds, (admin, (msg, tt))))),
        );
      }

  pub record MoveParts (m : MsgStoreAndMigrateContract) : Type 0 where
    pub sender : is_ok (x.sdk.parse m.authority) ≡ true
    pub contract : is_ok (x.sdk.parse m.contract) ≡ true
    pub upload : Passes (validate x (Message.store_code (new_code_part m)))
    pub move :
        (code_id : ℕ)
        → code_id ≢ 0
        → Passes (validate x (Message.migrate_contract (move_part m code_id)))

  pub validate-move :
      (m : MsgStoreAndMigrateContract)
      → Passes (validate x (Message.store_and_migrate_contract m))
      → MoveParts m
  unfolding validate validate_store_and_migrate_contract validate_store_code
      validate_migrate_contract
  validate-move m e =
      let (sender, (contract, (msg, (code, (config, z))))) =
        All-pass (store_and_migrate_contract_checks x m) e in
      let is_sender = within_ok "authority" (x.sdk.parse m.authority) sender in
      record {
        sender = is_sender;
        contract = within_ok "contract" (x.sdk.parse m.contract) contract;
        upload =
            pass_all (store_code_checks x (new_code_part m))
              (checked_ok (x.sdk.parse m.authority) is_sender, (code, (config, tt)));
        move = λ code_id k. pass_all (migrate_contract_checks x (move_part m code_id)) (
          not_zero code_id _ k,
          (ok_within "sender" (x.sdk.parse m.authority) is_sender, (contract, (msg, tt))),
        );
      }
