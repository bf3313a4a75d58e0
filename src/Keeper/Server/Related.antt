-- ===== src/Keeper/Server/Related.antt =====
-- The message server under a relation of calls: what relates the operations of two keepers that
-- differ in how they handle responses relates their servers.
use cosmwasgo.Base.{ℕ, Bool, not, List, [], ◌∷◌, Option, none, some, String, bytes_eq}
use cosmwasgo.Base.Outcome.{wrap, ok, panic, other, Exec, ◌>>=◌, ◌>>◌}
use cosmwasgo.Vm.{Bytes}
use cosmwasgo.Access.{AccessConfig, err_invalid, is_any_of_addresses}
use cosmwasgo.Policy.{Policy}
use cosmwasgo.Sdk.{GasMeter}
use cosmwasgo.Keeper.State.{Params}
use cosmwasgo.Keeper.Host.{Coin, Values, State, Host, update_store}
use cosmwasgo.Keeper.Addresses.{classic_address_generator, predictable_address_generator}
use cosmwasgo.Keeper.Settings.Changes.{Change, admin, label, access, pin, unpin, apply}
use cosmwasgo.Keeper.Code.{create}
use cosmwasgo.Keeper.Entry.{execute, sudo}
use cosmwasgo.Keeper.Relation.{
  Handler, with_handler, Relation, IsClosed, bind_related, lift_related, fail_if_related,
}
use cosmwasgo.Keeper.Instantiate.{Order, instantiate}
use cosmwasgo.Keeper.Migrate.{Order as Migration, migrate}
use cosmwasgo.Keeper.Server.{
  Service, Answer, done, stored, instantiated, answered, stored_and_migrated,
  select_authorization_policy, wrap_text, with_addresses, checks, parse, parse_admin, basic,
  require_authority, for_each, deref, order, serve_store_code, serve_instantiate_contract,
  serve_instantiate_contract2, serve_execute_contract, serve_migrate_contract, serve_update_admin,
  serve_clear_admin, serve_update_instantiate_config, serve_update_params, serve_pin_codes,
  serve_unpin_codes, serve_sudo_contract, instantiate_part, serve_store_and_instantiate_contract,
  serve_code_upload_params, serve_add_code_upload_params_addresses,
  serve_remove_code_upload_params_addresses, serve_store_and_migrate_contract,
  serve_update_contract_label, serve, add_addresses, remove_addresses,
}
use cosmwasgo.Messages.{Message}
use cosmwasgo.Messages.Validate.{validate}

module _ (G : GasMeter) {E : Type 0} (base : Host G E) (before after : Handler G E)
    (R : Relation G E) (v : Values) where
  abbrev h : Host G E
  h = with_handler G base before

  abbrev h' : Host G E
  h' = with_handler G base after

  -- the operations of the keepers that the server calls are related
  pub record KeepersRelated : Type 0 where
    pub settings : (x : Change) → R (Unit {0}) (apply G h x) (apply G h' x)
    pub params :
        (p : Params)
        → R
            (Unit {0})
            (update_store G (λ w. record w { params = p }))
            (update_store G (λ w. record w { params = p }))
    pub upload :
        (creator : Option Bytes) (code : Bytes) (config : Option AccessConfig) (p : Policy)
        → R (ℕ × Bytes) (create G h creator code config p) (create G h' creator code config p)
    pub birth :
        (o : Order)
        → R
            (Bytes × Option Bytes)
            (instantiate G h v o (classic_address_generator G h))
            (instantiate G h' v o (classic_address_generator G h'))
    pub birth2 :
        (o : Order) (creator salt msg : Bytes) (fix_msg : Bool)
        → R
            (Bytes × Option Bytes)
            (instantiate G h v o (predictable_address_generator G h creator salt msg fix_msg))
            (instantiate G h' v o (predictable_address_generator G h' creator salt msg fix_msg))
    pub call :
        (addr caller msg : Bytes) (coins : List Coin)
        → R
            (Option Bytes)
            (execute G h v addr caller msg coins)
            (execute G h' v addr caller msg coins)
    pub order : (addr msg : Bytes) → R (Option Bytes) (sudo G h v addr msg) (sudo G h' v addr msg)
    pub move : (o : Migration) → R (Option Bytes) (migrate G h v o) (migrate G h' v o)

  module _ (s : Service) (closed : IsClosed G R) (k : KeepersRelated) where
    parse_related : (text : String) (a : Bytes) → R _ (parse G h s text a) (parse G h' s text a)
    parse_related text a = lift_related G closed (wrap_text text (h.sdk.parse a))

    parse_admin_related : (a : Bytes) → R _ (parse_admin G h s a) (parse_admin G h' s a)
    parse_admin_related [] = lift_related G closed (ok none)
    parse_admin_related (b ∷ bs) =
        bind_related G closed (parse_related "admin" (b ∷ bs))
          (λ a. lift_related G closed (ok (some a)))

    basic_related : (m : Message) → R _ (basic G h s m) (basic G h' s m)
    basic_related m = lift_related G closed (validate (checks G h s) m)

    authority_related : (a : Bytes) → R _ (require_authority G h s a) (require_authority G h' s a)
    authority_related a =
        fail_if_related G closed (not (bytes_eq s.authority a))
          (wrap err_invalid "invalid authority")

    deref_related : (c : Option AccessConfig) → R _ (deref G h s c) (deref G h' s c)
    deref_related none = lift_related G closed (panic (other "nil pointer"))
    deref_related (some c) = lift_related G closed (ok c)

    end_related : (a : Answer) → R _ (λ c. (ok a, c)) (λ c. (ok a, c))
    end_related a = lift_related G closed (ok a)

    each_related :
        (f f' : ℕ → Exec (State G E) (Unit {0}))
        → ((id : ℕ) → R _ (f id) (f' id))
        → (ids : List ℕ) → R _ (for_each G h s f ids) (for_each G h' s f' ids)
    each_related f f' kept [] = lift_related G closed (ok tt)
    each_related f f' kept (id ∷ ids) =
        bind_related G closed (kept id) (λ u. each_related f f' kept ids)

    params_related :
        (p : Params)
        → R _
            (update_store G (λ w. record w { params = p }))
            (update_store G (λ w. record w { params = p }))
    params_related p = k.params p

    change_related :
        (x : Change)
        → R _ (apply G h x >>= λ u. λ c. (ok done, c)) (apply G h' x >>= λ u. λ c. (ok done, c))
    change_related x = bind_related G closed (k.settings x) (λ u. end_related done)

    abbrev policy : Bytes → Policy
    policy actor = select_authorization_policy s v actor

    -- the handlers that read the sender and go on
    sent_by :
        {A : Type 0} (m : Message) (sender : Bytes) (f f' : Bytes → Exec (State G E) A)
        → ((a : Bytes) → R _ (f a) (f' a))
        → R _
            (basic G h s m >> (parse G h s "sender" sender >>= f))
            (basic G h' s m >> (parse G h' s "sender" sender >>= f'))
    sent_by m sender f f' kept =
        bind_related G closed (basic_related m)
          (λ u. bind_related G closed (parse_related "sender" sender) kept)

    -- ... and those that are for the authority
    for_authority :
        {A : Type 0} (m : Message) (a : Bytes) (rest rest' : Exec (State G E) A)
        → R _ rest rest'
        → R _
            (basic G h s m >> (require_authority G h s a >> rest))
            (basic G h' s m >> (require_authority G h' s a >> rest'))
    for_authority m a rest rest' kept =
        bind_related G closed (basic_related m)
          (λ u. bind_related G closed (authority_related a) (λ w. kept))

    code_upload_params_related :
        (m : Message) (a : Bytes) (f : List Bytes → List Bytes)
        → R _ (serve_code_upload_params G h s v m a f) (serve_code_upload_params G h' s v m a f)
    unfolding serve_code_upload_params
    code_upload_params_related m a f = for_authority m a _ _ (
        bind_related G closed (closed.read _ (λ w. w.params)) (λ p.
          bind_related G closed
            (fail_if_related G closed (not (is_any_of_addresses p.code_upload_access.permission))
              (wrap err_invalid "permission"))
            (λ u.
              bind_related G closed
                (params_related (with_addresses (f p.code_upload_access.addresses) p))
                (λ w. end_related done))))

    pub serve_related : (m : Message) → R _ (serve G h s v m) (serve G h' s v m)
    unfolding serve apply serve_store_code serve_instantiate_contract serve_instantiate_contract2
        serve_execute_contract serve_migrate_contract serve_update_admin serve_clear_admin
        serve_update_instantiate_config serve_update_params serve_pin_codes serve_unpin_codes
        serve_sudo_contract serve_store_and_instantiate_contract
        serve_add_code_upload_params_addresses serve_remove_code_upload_params_addresses
        serve_store_and_migrate_contract serve_update_contract_label
    serve_related (Message.store_code m) = sent_by (Message.store_code m) m.sender _ _ (λ a.
        bind_related G closed
          (k.upload (some a) m.wasm_byte_code m.instantiate_permission (policy m.sender))
          (λ r. end_related (stored r.0 r.1)))
    serve_related (Message.instantiate_contract m) =
        sent_by (Message.instantiate_contract m) m.sender _ _ (λ a.
          bind_related G closed (parse_admin_related m.admin) (λ b.
            bind_related G closed (k.birth (order G h s m m.code_id a b (policy m.sender)))
              (λ r. end_related (instantiated (h.sdk.render r.0) r.1))))
    serve_related (Message.instantiate_contract2 m) =
        sent_by (Message.instantiate_contract2 m) m.base.sender _ _ (λ a.
          bind_related G closed (parse_admin_related m.base.admin) (λ b.
            bind_related G closed
              (k.birth2 (order G h s m.base m.base.code_id a b (policy m.base.sender)) a m.salt
                m.base.msg m.fix_msg)
              (λ r. end_related (instantiated (h.sdk.render r.0) r.1))))
    serve_related (Message.execute_contract m) =
        sent_by (Message.execute_contract m) m.sender _ _ (λ a.
          bind_related G closed (parse_related "contract" m.contract)
            (λ b. bind_related G closed (k.call b a m.msg m.funds) (λ r. end_related (answered r))))
    serve_related (Message.migrate_contract m) =
        sent_by (Message.migrate_contract m) m.sender _ _ (λ a.
          bind_related G closed (parse_related "contract" m.contract) (λ b.
            bind_related G closed
              (k.move (record {
                addr = b;
                caller = a;
                new_code_id = m.code_id;
                msg = m.msg;
                policy = policy m.sender;
              }))
              (λ r. end_related (answered r))))
    serve_related (Message.update_admin m) = sent_by (Message.update_admin m) m.sender _ _ (λ a.
        bind_related G closed (parse_related "contract" m.contract) (λ b.
          bind_related G closed (parse_related "new admin" m.new_admin)
            (λ d. change_related (admin b a (some d) (policy m.sender)))))
    serve_related (Message.clear_admin m) = sent_by (Message.clear_admin m) m.sender _ _ (λ a.
        bind_related G closed (parse_related "contract" m.contract)
          (λ b. change_related (admin b a none (policy m.sender))))
    serve_related (Message.update_instantiate_config m) =
        sent_by (Message.update_instantiate_config m) m.sender _ _ (λ a.
          bind_related G closed (deref_related m.new_instantiate_permission)
            (λ c. change_related (access m.code_id a c (policy m.sender))))
    serve_related (Message.update_params m) =
        for_authority (Message.update_params m) m.authority _ _
          (bind_related G closed (params_related m.params) (λ u. end_related done))
    serve_related (Message.pin_codes m) = for_authority (Message.pin_codes m) m.authority _ _ (
        bind_related G closed (each_related _ _ (λ id. k.settings (pin id)) m.code_ids)
          (λ u. end_related done))
    serve_related (Message.unpin_codes m) = for_authority (Message.unpin_codes m) m.authority _ _ (
        bind_related G closed (each_related _ _ (λ id. k.settings (unpin id)) m.code_ids)
          (λ u. end_related done))
    serve_related (Message.sudo_contract m) =
        for_authority (Message.sudo_contract m) m.authority _ _ (
          bind_related G closed (parse_related "contract" m.contract)
            (λ b. bind_related G closed (k.order b m.msg) (λ r. end_related (answered r))))
    serve_related (Message.store_and_instantiate_contract m) =
        bind_related G closed (basic_related (Message.store_and_instantiate_contract m)) (λ u.
          bind_related G closed (parse_related "authority" m.authority) (λ a.
            bind_related G closed (parse_admin_related m.admin) (λ b.
              bind_related G closed
                (k.upload (some a) m.wasm_byte_code m.instantiate_permission (policy m.authority))
                (λ code.
                  bind_related G closed
                    (k.birth
                      (order G h s (instantiate_part G h s v m) code.0 a b (policy m.authority)))
                    (λ r. end_related (instantiated (h.sdk.render r.0) r.1))))))
    serve_related (Message.add_code_upload_params_addresses m) =
        code_upload_params_related (Message.add_code_upload_params_addresses m) m.authority
          (λ addresses. add_addresses addresses m.addresses)
    serve_related (Message.remove_code_upload_params_addresses m) =
        code_upload_params_related (Message.remove_code_upload_params_addresses m) m.authority
          (λ addresses. remove_addresses addresses m.addresses)
    serve_related (Message.store_and_migrate_contract m) =
        bind_related G closed (parse_related "authority" m.authority) (λ a.
          bind_related G closed (basic_related (Message.store_and_migrate_contract m)) (λ u.
            bind_related G closed
              (k.upload (some a) m.wasm_byte_code m.instantiate_permission (policy m.authority))
              (λ code. bind_related G closed (parse_related "contract" m.contract) (λ b.
                bind_related G closed
                  (k.move (record {
                    addr = b;
                    caller = a;
                    new_code_id = code.0;
                    msg = m.msg;
                    policy = policy m.authority;
                  }))
                  (λ r. end_related (stored_and_migrated code.0 code.1 r))))))
    serve_related (Message.update_contract_label m) =
        sent_by (Message.update_contract_label m) m.sender _ _ (λ a.
          bind_related G closed (parse_related "contract" m.contract)
            (λ b. change_related (label b a m.new_label (policy m.sender))))
