-- ===== src/Keeper/Server/Refused.antt =====
-- About the messages that the server refuses before it calls a keeper.
use cosmwasgo.Base.{Bool, true, false, not, ◌&&◌, ◌≡◌, refl, bytes_eq, String}
use cosmwasgo.Base.Outcome.{
  Error, wrap, Outcome, ok, err, panic, is_ok, Exec, lift, fail_if, ◌>>=◌, ◌>>◌,
}
use cosmwasgo.Vm.{Bytes}
use cosmwasgo.Access.{err_invalid}
use cosmwasgo.Sdk.{GasMeter}
use cosmwasgo.Keeper.Host.{Values, State, Host}
use cosmwasgo.Keeper.Server.{
  Service, wrap_text, checks, parse, basic, require_authority, serve_store_code,
  serve_instantiate_contract, serve_instantiate_contract2, serve_execute_contract,
  serve_migrate_contract, serve_update_admin, serve_clear_admin, serve_update_instantiate_config,
  serve_update_params, serve_pin_codes, serve_unpin_codes, serve_sudo_contract,
  serve_store_and_instantiate_contract, serve_code_upload_params,
  serve_add_code_upload_params_addresses, serve_remove_code_upload_params_addresses,
  serve_store_and_migrate_contract, serve_update_contract_label, serve,
}
use cosmwasgo.Messages.{Message}
use cosmwasgo.Messages.Validate.{validate}

-- Whom a message comes from: an account, or the authority that governs the module.
pub data Origin : Type 0 where
  account : Bytes → Origin
  governance : Bytes → Origin

abbrev pub origin : Message → Origin
origin (Message.store_code m) = account m.sender
origin (Message.instantiate_contract m) = account m.sender
origin (Message.instantiate_contract2 m) = account m.base.sender
origin (Message.execute_contract m) = account m.sender
origin (Message.migrate_contract m) = account m.sender
origin (Message.update_admin m) = account m.sender
origin (Message.clear_admin m) = account m.sender
origin (Message.update_instantiate_config m) = account m.sender
origin (Message.update_params m) = governance m.authority
origin (Message.pin_codes m) = governance m.authority
origin (Message.unpin_codes m) = governance m.authority
origin (Message.sudo_contract m) = governance m.authority
origin (Message.store_and_instantiate_contract m) = account m.authority
origin (Message.add_code_upload_params_addresses m) = governance m.authority
origin (Message.remove_code_upload_params_addresses m) = governance m.authority
origin (Message.store_and_migrate_contract m) = account m.authority
origin (Message.update_contract_label m) = account m.sender

module _ (G : GasMeter) {E : Type 0} where
  -- a call that does not succeed and leaves its context as it was
  abbrev pub Refused : {A : Type 0} → Exec (State G E) A → State G E → Type 0
  Refused m c = (is_ok (m c).0 ≡ false) × ((m c).1 ≡ c)

  -- the two tests, in either order
  sent-Refused :
      {A : Type 0} (r : Outcome (Unit {0})) (text : String) (x : Outcome Bytes)
      (f : Bytes → Exec (State G E) A) (c : State G E)
      → is_ok r && is_ok x ≡ false
      → Refused (lift r >> (lift (wrap_text text x) >>= f)) c
  sent-Refused (ok t) text (ok a) f c e = absurd (cc)
  sent-Refused (ok t) text (err a) f c e = (refl, refl)
  sent-Refused (ok t) text (panic p) f c e = (refl, refl)
  sent-Refused (err a) text x f c e = (refl, refl)
  sent-Refused (panic p) text x f c e = (refl, refl)

  read-Refused :
      {A : Type 0} (r : Outcome (Unit {0})) (text : String) (x : Outcome Bytes)
      (f : Bytes → Exec (State G E) A) (c : State G E)
      → is_ok r && is_ok x ≡ false
      → Refused (lift (wrap_text text x) >>= λ a. lift r >> f a) c
  read-Refused (ok t) text (ok a) f c e = absurd (cc)
  read-Refused (err b) text (ok a) f c e = (refl, refl)
  read-Refused (panic p) text (ok a) f c e = (refl, refl)
  read-Refused r text (err a) f c e = (refl, refl)
  read-Refused r text (panic p) f c e = (refl, refl)

  governed-Refused :
      {A : Type 0} (r : Outcome (Unit {0})) (b : Bool) (e : Error) (rest : Exec (State G E) A)
      (c : State G E)
      → is_ok r && b ≡ false
      → Refused (lift r >> (fail_if (not b) e >> rest)) c
  governed-Refused (ok t) true e rest c q = absurd (cc)
  governed-Refused (ok t) false e rest c q = (refl, refl)
  governed-Refused (err a) b e rest c q = (refl, refl)
  governed-Refused (panic p) b e rest c q = (refl, refl)

  module _ (h : Host G E) (s : Service) (v : Values) where
    abbrev comes_from : Origin → Bool
    comes_from (account a) = is_ok (h.sdk.parse a)
    comes_from (governance a) = bytes_eq s.authority a

    -- ValidateBasic passes, and the message comes from an account, or from the authority where it
    -- is for the authority
    abbrev pub is_acceptable : Message → Bool
    is_acceptable m = is_ok (validate (checks G h s) m) && comes_from (origin m)

    account-Refused :
        {A : Type 0} (m : Message) (text : String) (a : Bytes) (f : Bytes → Exec (State G E) A)
        (c : State G E)
        → is_ok (validate (checks G h s) m) && is_ok (h.sdk.parse a) ≡ false
        → Refused (basic G h s m >> (parse G h s text a >>= f)) c
    account-Refused m text a f c e =
        sent-Refused (validate (checks G h s) m) text (h.sdk.parse a) f c e

    authority-Refused :
        {A : Type 0} (m : Message) (a : Bytes) (rest : Exec (State G E) A) (c : State G E)
        → is_ok (validate (checks G h s) m) && bytes_eq s.authority a ≡ false
        → Refused (basic G h s m >> (require_authority G h s a >> rest)) c
    authority-Refused m a rest c e =
        governed-Refused (validate (checks G h s) m) (bytes_eq s.authority a)
          (wrap err_invalid "invalid authority") rest c e

    -- Every message of the service that fails ValidateBasic, or does not come from an account, or
    -- is for the authority and does not come from it, is refused and changes nothing.
    pub serve-Refused :
        (m : Message) (c : State G E) → is_acceptable m ≡ false → Refused (serve G h s v m) c
    unfolding serve serve_store_code serve_instantiate_contract serve_instantiate_contract2
        serve_execute_contract serve_migrate_contract serve_update_admin serve_clear_admin
        serve_update_instantiate_config serve_update_params serve_pin_codes serve_unpin_codes
        serve_sudo_contract serve_store_and_instantiate_contract
        serve_add_code_upload_params_addresses serve_remove_code_upload_params_addresses
        serve_store_and_migrate_contract serve_update_contract_label serve_code_upload_params
    serve-Refused (Message.store_code m) c e =
        account-Refused (Message.store_code m) "sender" m.sender _ c e
    serve-Refused (Message.instantiate_contract m) c e =
        account-Refused (Message.instantiate_contract m) "sender" m.sender _ c e
    serve-Refused (Message.instantiate_contract2 m) c e =
        account-Refused (Message.instantiate_contract2 m) "sender" m.base.sender _ c e
    serve-Refused (Message.execute_contract m) c e =
        account-Refused (Message.execute_contract m) "sender" m.sender _ c e
    serve-Refused (Message.migrate_contract m) c e =
        account-Refused (Message.migrate_contract m) "sender" m.sender _ c e
    serve-Refused (Message.update_admin m) c e =
        account-Refused (Message.update_admin m) "sender" m.sender _ c e
    serve-Refused (Message.clear_admin m) c e =
        account-Refused (Message.clear_admin m) "sender" m.sender _ c e
    serve-Refused (Message.update_instantiate_config m) c e =
        account-Refused (Message.update_instantiate_config m) "sender" m.sender _ c e
    serve-Refused (Message.update_params m) c e =
        authority-Refused (Message.update_params m) m.authority _ c e
    serve-Refused (Message.pin_codes m) c e =
        authority-Refused (Message.pin_codes m) m.authority _ c e
    serve-Refused (Message.unpin_codes m) c e =
        authority-Refused (Message.unpin_codes m) m.authority _ c e
    serve-Refused (Message.sudo_contract m) c e =
        authority-Refused (Message.sudo_contract m) m.authority _ c e
    serve-Refused (Message.store_and_instantiate_contract m) c e =
        account-Refused (Message.store_and_instantiate_contract m) "authority" m.authority _ c e
    serve-Refused (Message.add_code_upload_params_addresses m) c e =
        authority-Refused (Message.add_code_upload_params_addresses m) m.authority _ c e
    serve-Refused (Message.remove_code_upload_params_addresses m) c e =
        authority-Refused (Message.remove_code_upload_params_addresses m) m.authority _ c e
    serve-Refused (Message.store_and_migrate_contract m) c e =
        read-Refused (validate (checks G h s) (Message.store_and_migrate_contract m)) "authority"
          (h.sdk.parse m.authority) _ c e
    serve-Refused (Message.update_contract_label m) c e =
        account-Refused (Message.update_contract_label m) "sender" m.sender _ c e
