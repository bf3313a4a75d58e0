-- ===== src/Keeper/Server/Parts.antt =====
-- About the messages that do two things at once, against the two messages one after the other.
use cosmwasgo.Base.{ℕ, true, [], ◌∷◌, Option, none, some, String, ◌≡◌, ◌≢◌, refl, sym, ap, ◌∙◌}
use cosmwasgo.Base.Outcome.{Outcome, ok, err, panic, is_ok, Exec, lift, continue, pure, ◌>>=◌, ◌>>◌}
use cosmwasgo.Vm.{Bytes}
use cosmwasgo.Sdk.{GasMeter}
use cosmwasgo.Keeper.State.{peek_id}
use cosmwasgo.Keeper.Host.{Values, State, Host}
use cosmwasgo.Keeper.Addresses.{classic_address_generator}
use cosmwasgo.Keeper.Code.{create}
use cosmwasgo.Keeper.Code.Upload.{create_registers}
use cosmwasgo.Keeper.Instantiate.{instantiate}
use cosmwasgo.Keeper.Migrate.{migrate}
use cosmwasgo.Keeper.Server.{
  Service, Answer, stored, instantiated, answered, stored_and_migrated, wrap_text, checks,
  parse_admin, order, instantiate_part, select_authorization_policy, serve_store_code,
  serve_instantiate_contract, serve_migrate_contract, serve_store_and_instantiate_contract,
  serve_store_and_migrate_contract, serve,
}
use cosmwasgo.Access.{AccessConfig}
use cosmwasgo.Messages.{
  Message, MsgStoreCode, MsgStoreAndInstantiateContract, MsgStoreAndMigrateContract,
}
use cosmwasgo.Messages.Validate.{validate, unless_empty, address}
use cosmwasgo.Messages.Validate.Parts.{
  upload_part, birth_part, new_code_part, move_part, validate-birth, validate-move, within_ok,
}

ok_value : {A : Type 0} (r : Outcome A) → is_ok r ≡ true → (a : A) × (r ≡ ok a)
ok_value (ok a) e = (a, refl)
ok_value (err x) e = absurd cc
ok_value (panic x) e = absurd cc

module _ (G : GasMeter) {E : Type 0} where
  -- what follows the result of a call may use that result
  then_same :
      {A B : Type 0} (r : Outcome A) (c : State G E) (f g : A → Exec (State G E) B)
      → ((a : A) → r ≡ ok a → f a c ≡ g a c)
      → continue r f c ≡ continue r g c
  then_same (ok a) c f g k = k a refl
  then_same (err e) c f g k = refl
  then_same (panic p) c f g k = refl

  -- continuing twice is continuing once
  continue_assoc :
      {A B C : Type 0} (r : Outcome A) (c : State G E) (f : A → B) (g : B → Exec (State G E) C)
      → (let x = continue r (λ a. pure (f a)) c in continue x.0 g x.1) ≡ continue r (λ a. g (f a)) c
  continue_assoc (ok a) c f g = refl
  continue_assoc (err e) c f g = refl
  continue_assoc (panic p) c f g = refl

  -- the tests that a handler makes first, where they pass
  open_sender :
      {A : Type 0} (r : Outcome (Unit {0})) (text : String) (x : Outcome Bytes) (a : Bytes)
      (f : Bytes → Exec (State G E) A) (c : State G E)
      → r ≡ ok tt
      → x ≡ ok a
      → (lift r >> (lift (wrap_text text x) >>= f)) c ≡ f a c
  open_sender r text x a f c e q =
      ap (λ r. (lift r >> (lift (wrap_text text x) >>= f)) c) e
      ∙ ap (λ x. (lift (wrap_text text x) >>= f) c) q

  open_read :
      {A : Type 0} (r : Outcome (Unit {0})) (text : String) (x : Outcome Bytes) (a : Bytes)
      (f : Bytes → Exec (State G E) A) (c : State G E)
      → r ≡ ok tt
      → x ≡ ok a
      → (lift (wrap_text text x) >>= λ a. lift r >> f a) c ≡ f a c
  open_read r text x a f c e q =
      ap (λ x. (lift (wrap_text text x) >>= λ a. lift r >> f a) c) q ∙ ap (λ r. (lift r >> f a) c) e

  module _ (h : Host G E) (s : Service) (v : Values) where
    admin_value :
        (a : Bytes)
        → unless_empty a (address (checks G h s) "admin" a) ≡ ok tt
        → (d : Option Bytes) × ((c : State G E) → parse_admin G h s a c ≡ (ok d, c))
    admin_value [] e = (none, λ c. refl)
    admin_value (b ∷ bs) e =
        let (d, q) = ok_value (h.sdk.parse (b ∷ bs)) (within_ok "admin" (h.sdk.parse (b ∷ bs)) e) in
        (
          some d,
          λ c. ap (λ (x : Outcome Bytes). (lift (wrap_text "admin" x) >>= λ a. pure (some a)) c) q,
        )

    -- an instance of the code of an upload that was stored
    abbrev pub then_instantiate : MsgStoreAndInstantiateContract → Answer → Exec (State G E) Answer
    then_instantiate m (stored code_id checksum) =
        serve G h s v (Message.instantiate_contract (birth_part m code_id))
    then_instantiate m a = pure a

    open_admin :
        {A : Type 0} (a : Bytes) (d : Option Bytes) (f : Option Bytes → Exec (State G E) A)
        (c : State G E)
        → ((c : State G E) → parse_admin G h s a c ≡ (ok d, c))
        → (parse_admin G h s a >>= f) c ≡ f d c
    open_admin a d f c e = ap (λ (x : Outcome (Option Bytes) × State G E). continue x.0 f x.1) (e c)

    abbrev birth :
        MsgStoreAndInstantiateContract → ℕ → Bytes → Option Bytes → Exec (State G E) Answer
    birth m code_id a d =
        instantiate G h v
          (order G h s (instantiate_part G h s v m) code_id a d
            (select_authorization_policy s v m.authority))
          (classic_address_generator G h)
        >>= λ r. pure (instantiated (h.sdk.render r.0) r.1)

    abbrev upload : Bytes → Option AccessConfig → Bytes → Bytes → Exec (State G E) (ℕ × Bytes)
    upload code config sender a =
        create G h (some a) code config (select_authorization_policy s v sender)

    birth_same :
        (m : MsgStoreAndInstantiateContract) (a : Bytes) (d : Option Bytes) (code_id : ℕ)
        (c : State G E)
        → h.sdk.parse m.authority ≡ ok a
        → ((c : State G E) → parse_admin G h s m.admin c ≡ (ok d, c))
        → validate (checks G h s) (Message.instantiate_contract (birth_part m code_id)) ≡ ok tt
        → serve G h s v (Message.instantiate_contract (birth_part m code_id)) c
          ≡ birth m code_id a d c
    unfolding serve serve_instantiate_contract
    birth_same m a d code_id c sender admin e =
        open_sender (validate (checks G h s) (Message.instantiate_contract (birth_part m code_id)))
          "sender" (h.sdk.parse m.authority) a
          (λ a. parse_admin G h s m.admin >>= λ d. birth m code_id a d) c e sender
        ∙ open_admin m.admin d (birth m code_id a) c admin

    -- an upload that is followed by something else
    upload_same :
        (m : MsgStoreCode) (a : Bytes) (f : Answer → Exec (State G E) Answer) (c : State G E)
        → h.sdk.parse m.sender ≡ ok a
        → validate (checks G h s) (Message.store_code m) ≡ ok tt
        → (serve G h s v (Message.store_code m) >>= f) c
          ≡ (upload m.wasm_byte_code m.instantiate_permission m.sender a >>= λ r.
                f (stored r.0 r.1))
              c
    unfolding serve serve_store_code
    upload_same m a f c sender e =
        let made = upload m.wasm_byte_code m.instantiate_permission m.sender in
        let store = λ (b : Bytes). made b >>= λ r. pure (stored r.0 r.1) in
        ap (λ (x : Outcome Answer × State G E). continue x.0 f x.1)
          (open_sender (validate (checks G h s) (Message.store_code m)) "sender"
            (h.sdk.parse m.sender) a store c e sender)
        ∙ continue_assoc (made a c).0 (made a c).1 (λ (r : ℕ × Bytes). stored r.0 r.1) f

    -- the id of a stored code is not 0
    id_given :
        (code : Bytes) (config : Option AccessConfig) (sender a : Bytes) (c : State G E)
        (code_id : ℕ) (checksum : Bytes)
        → peek_id c.store.wasm.last_code_id ≢ 0
        → (upload code config sender a c).0 ≡ ok (code_id, checksum)
        → code_id ≢ 0
    id_given code config sender a c code_id checksum k e z =
        let registered =
          create_registers G h a config (select_authorization_policy s v sender) code c code_id
            checksum e in
        k (sym registered.next_id ∙ z)

    -- MsgStoreAndInstantiateContract does what the upload and the instantiation of the new code do
    -- one after the other, for every message that passes ValidateBasic, where the next code id is
    -- not 0: with the same results, effects and failures.
    pub store_and_instantiate_parts :
        (m : MsgStoreAndInstantiateContract) (c : State G E)
        → validate (checks G h s) (Message.store_and_instantiate_contract m) ≡ ok tt
        → peek_id c.store.wasm.last_code_id ≢ 0
        → serve G h s v (Message.store_and_instantiate_contract m) c
          ≡ (serve G h s v (Message.store_code (upload_part m)) >>= then_instantiate m) c
    unfolding serve serve_store_and_instantiate_contract
    store_and_instantiate_parts m c e k =
        let parts = validate-birth (checks G h s) m e in
        let (a, sender) = ok_value (h.sdk.parse m.authority) parts.sender in
        let (d, admin) = admin_value m.admin parts.admin in
        let made = upload m.wasm_byte_code m.instantiate_permission m.authority in
        let both = λ (a : Bytes) (d : Option Bytes). made a >>= λ r. birth m r.0 a d in
        open_sender (validate (checks G h s) (Message.store_and_instantiate_contract m)) "authority"
          (h.sdk.parse m.authority) a (λ a. parse_admin G h s m.admin >>= λ d. both a d) c e sender
        ∙ open_admin m.admin d (both a) c admin
        ∙ then_same (made a c).0 (made a c).1 (λ r. birth m r.0 a d)
            (λ r. then_instantiate m (stored r.0 r.1))
            (λ r q. sym (
              birth_same m a d r.0 (made a c).1 sender admin (
                parts.birth r.0 (
                  id_given m.wasm_byte_code m.instantiate_permission m.authority a c r.0 r.1 k q))))
        ∙ sym (upload_same (upload_part m) a (then_instantiate m) c sender parts.upload)

    -- a migration to the code of an upload that was stored, with its id and checksum in the answer
    abbrev pub move_answer : ℕ → Bytes → Answer → Answer
    move_answer code_id checksum (answered r) = stored_and_migrated code_id checksum r
    move_answer code_id checksum a = a

    abbrev pub then_migrate : MsgStoreAndMigrateContract → Answer → Exec (State G E) Answer
    then_migrate m (stored code_id checksum) =
        serve G h s v (Message.migrate_contract (move_part m code_id)) >>= λ a.
        pure (move_answer code_id checksum a)
    then_migrate m a = pure a

    abbrev move : MsgStoreAndMigrateContract → ℕ → Bytes → Bytes → Exec (State G E) (Option Bytes)
    move m code_id a b = migrate G h v (record {
      addr = b;
      caller = a;
      new_code_id = code_id;
      msg = m.msg;
      policy = select_authorization_policy s v m.authority;
    })

    move_same :
        (m : MsgStoreAndMigrateContract) (a b : Bytes) (code_id : ℕ) (checksum : Bytes)
        (c : State G E)
        → h.sdk.parse m.authority ≡ ok a
        → h.sdk.parse m.contract ≡ ok b
        → validate (checks G h s) (Message.migrate_contract (move_part m code_id)) ≡ ok tt
        → then_migrate m (stored code_id checksum) c
          ≡ (lift (wrap_text "contract" (h.sdk.parse m.contract)) >>= λ b.
                move m code_id a b >>= λ r. pure (stored_and_migrated code_id checksum r))
              c
    unfolding serve serve_migrate_contract
    move_same m a b code_id checksum c sender contract e =
        let rest = λ (b : Bytes). move m code_id a b in
        let done = λ (r : Option Bytes). stored_and_migrated code_id checksum r in
        let f = λ (x : Answer). pure {S = State G E} (move_answer code_id checksum x) in
        ap (λ (x : Outcome Answer × State G E). continue x.0 f x.1)
          (open_sender (validate (checks G h s) (Message.migrate_contract (move_part m code_id)))
              "sender" (h.sdk.parse m.authority) a
              (λ a. lift (wrap_text "contract" (h.sdk.parse m.contract)) >>= λ b.
                move m code_id a b >>= λ r. pure (answered r))
              c e sender
            ∙ ap
                (λ (x : Outcome Bytes).
                  (lift (wrap_text "contract" x) >>= λ b.
                  move m code_id a b >>= λ r. pure (answered r))
                    c)
                contract)
        ∙ continue_assoc (rest b c).0 (rest b c).1 (λ (r : Option Bytes). answered r) f
        ∙ sym (
            ap
              (λ (x : Outcome Bytes).
                (lift (wrap_text "contract" x) >>= λ b. rest b >>= λ r. pure (done r)) c)
              contract)

    -- MsgStoreAndMigrateContract does what the upload and the migration to the new code do one after
    -- the other, for every message that passes ValidateBasic, where the next code id is not 0: with
    -- the same effects and failures, and the id and checksum of the code in the answer.
    pub store_and_migrate_parts :
        (m : MsgStoreAndMigrateContract) (c : State G E)
        → validate (checks G h s) (Message.store_and_migrate_contract m) ≡ ok tt
        → peek_id c.store.wasm.last_code_id ≢ 0
        → serve G h s v (Message.store_and_migrate_contract m) c
          ≡ (serve G h s v (Message.store_code (new_code_part m)) >>= then_migrate m) c
    unfolding serve serve_store_and_migrate_contract
    store_and_migrate_parts m c e k =
        let parts = validate-move (checks G h s) m e in
        let (a, sender) = ok_value (h.sdk.parse m.authority) parts.sender in
        let (b, contract) = ok_value (h.sdk.parse m.contract) parts.contract in
        let made = upload m.wasm_byte_code m.instantiate_permission m.authority in
        let moved = λ (a : Bytes) (r : ℕ × Bytes).
          lift {S = State G E} (wrap_text "contract" (h.sdk.parse m.contract)) >>= λ b.
          move m r.0 a b >>= λ x. pure (stored_and_migrated r.0 r.1 x) in
        open_read (validate (checks G h s) (Message.store_and_migrate_contract m)) "authority"
          (h.sdk.parse m.authority) a (λ a. made a >>= moved a) c e sender
        ∙ then_same (made a c).0 (made a c).1 (moved a) (λ r. then_migrate m (stored r.0 r.1))
            (λ r q. sym (
              move_same m a b r.0 r.1 (made a c).1 sender contract (
                parts.move r.0 (
                  id_given m.wasm_byte_code m.instantiate_permission m.authority a c r.0 r.1 k q))))
        ∙ sym (upload_same (new_code_part m) a (then_migrate m) c sender parts.upload)
