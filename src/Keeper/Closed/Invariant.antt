-- ===== src/Keeper/Closed/Invariant.antt =====
-- Invariants of the store under messages that the running keeper serves, with all that they set off:
-- what the operations of the keeper must keep for the running keeper to keep it.
use cosmwasgo.Base.{ℕ, zero, suc, ◌≡◌, refl, Bool, List, [], Option, none}
use cosmwasgo.Base.Outcome.{Outcome, ok, err, panic, Error, Exec, continue, pure, rescue}
use cosmwasgo.Vm.{Bytes, SubMsg, Reply}
use cosmwasgo.Access.{AccessConfig}
use cosmwasgo.Policy.{Policy}
use cosmwasgo.Sdk.{GasMeter}
use cosmwasgo.Dispatch.{handle, newer, dispatch_submessages}
use cosmwasgo.Dispatch.Frame.{dispatch_submessages_keeps}
use cosmwasgo.Keeper.State.{Store, Params, ContractInfo, HistoryEntry}
use cosmwasgo.Keeper.Host.{Values, World, State, Host}
use cosmwasgo.Keeper.Settings.Changes.{Change, apply}
use cosmwasgo.Keeper.Addresses.{classic_address_generator, predictable_address_generator}
use cosmwasgo.Keeper.Code.{create}
use cosmwasgo.Keeper.Entry.{reply}
use cosmwasgo.Keeper.Entry.Isolation.{
  OnlyStorage, Keeps, bind-Keeps, lift-Keeps, same-Keeps, entry_points_keep,
}
use cosmwasgo.Keeper.Instantiate.{persist_instance}
use cosmwasgo.Keeper.Instantiate.Steps.{instantiate_keeps}
use cosmwasgo.Keeper.Migrate.{Order as Migration, migrate}
use cosmwasgo.Keeper.Index.Reach.{no_reply}
use cosmwasgo.Keeper.Server.{serve}
use cosmwasgo.Keeper.Server.Related.{KeepersRelated, serve_related}
use cosmwasgo.Keeper.Handlers.{default_message_handler}
use cosmwasgo.Keeper.Handlers.Related.{PluginsRelated, messenger_related}
use cosmwasgo.Keeper.Relation.{Handler, with_handler, Relation, IsClosed}
use cosmwasgo.Keeper.Closed.{Setup, handler, respond, run_message, out_of_fuel}
use cosmwasgo.Messages.{Message}

-- a call keeps the property, as a relation that looks at one run
abbrev pub Kept : (G : GasMeter) {E : Type 0} → (Store → Type 0) → Relation G E
Kept G P A m m' = Keeps G P m

-- a response handler keeps the property
abbrev pub Handles : (G : GasMeter) {E : Type 0} → (Store → Type 0) → Handler G E → Type 0
Handles G P f =
    (w : Values) (addr port : Bytes) (msgs : List SubMsg) (answer : Option Bytes)
    → Keeps G P (f w addr port msgs answer)

-- The writes and the operations of the keeper keep the property: migrate where the response handler
-- does.
pub record IsInvariant (G : GasMeter) (E : Type 0) (P : Store → Type 0) : Type 0 where
  pub stable : (addr : Bytes) (a b : Store) → OnlyStorage addr a b → P a → P b
  pub next_contract : (n : Option ℕ) (s : Store) → P s → P (record s { last_contract_id = n })
  pub params : (p : Params) (s : Store) → P s → P (record s { params = p })
  pub persisted :
      (s : Store) (creator addr : Bytes) (info : ContractInfo) (entry : HistoryEntry)
      → P s
      → s.contracts addr ≡ none
      → entry.code_id ≡ info.code_id
      → P (persist_instance creator addr info entry s)
  pub settings : (h : Host G E) (x : Change) → Keeps G P (apply G h x)
  pub upload :
      (h : Host G E) (creator : Option Bytes) (code : Bytes) (config : Option AccessConfig)
      (p : Policy)
      → Keeps G P (create G h creator code config p)
  pub move :
      (h : Host G E) (v : Values) (o : Migration)
      → Handles G P h.handle_response
      → Keeps G P (migrate G h v o)

module _ (G : GasMeter) {E : Type 0} (P : Store → Type 0) where
  rescue_kept :
      {A : Type 0} (r : Outcome A) (f : Error → Exec (State G E) A) (c : State G E)
      → ((e : Error) → Keeps G P (f e))
      → P c.store.wasm
      → P (rescue r f c).1.store.wasm
  rescue_kept (ok a) f c k q = q
  rescue_kept (err e) f c k q = (k e).keeps c q
  rescue_kept (panic p) f c k q = q

  pub Kept-IsClosed : IsClosed G (Kept G {E = E} P)
  Kept-IsClosed = record {
    bind = λ A B m m' f f' k l. bind-Keeps G P k l;
    lift = λ A r. lift-Keeps G P r;
    read = λ A f. same-Keeps G P (λ c. refl);
    rescue =
        λ A m m' f f' k l. record { keeps = λ c q. rescue_kept (m c).0 f (m c).1 l (k.keeps c q) };
  }

  module _ (inv : IsInvariant G E P) where
    classic_kept :
        (h : Host G E) (id : ℕ) (checksum : Bytes)
        → Keeps G P (classic_address_generator G h id checksum)
    unfolding classic_address_generator
    classic_kept h id checksum = record { keeps = λ c k. inv.next_contract _ c.store.wasm k }

    predictable_kept :
        (h : Host G E) (creator salt msg : Bytes) (fix_msg : Bool) (id : ℕ) (checksum : Bytes)
        → Keeps G P (predictable_address_generator G h creator salt msg fix_msg id checksum)
    unfolding predictable_address_generator
    predictable_kept h creator salt msg fix_msg id checksum = same-Keeps G P (λ c. refl)

    module _ (base : Host G E) (f : Handler G E) (v : Values) (handled : Handles G P f) where
      abbrev h : Host G E
      h = with_handler G base f

      keeper_kept : KeepersRelated G base f f (Kept G P) v
      keeper_kept = record {
        settings = λ x. inv.settings h x;
        params = λ p. record { keeps = λ c q. inv.params p c.store.wasm q };
        upload = λ creator code config p. inv.upload h creator code config p;
        birth = λ o. record {
          keeps = λ c.
              instantiate_keeps G h v o P inv.stable inv.persisted handled _ c (classic_kept h);
        };
        birth2 = λ o creator salt msg fix_msg. record {
          keeps = λ c.
              instantiate_keeps G h v o P inv.stable inv.persisted handled _ c
                (predictable_kept h creator salt msg fix_msg);
        };
        call = λ addr caller msg coins. record {
          keeps = λ c q.
              (entry_points_keep G P h addr (inv.stable addr) (λ u. handled u addr) v caller msg
                coins no_reply c q).0;
        };
        order = λ addr msg. record {
          keeps = λ c q.
              (entry_points_keep G P h addr (inv.stable addr) (λ u. handled u addr) v msg msg []
                no_reply c q).1;
        };
        move = λ o. inv.move h v o handled;
      }

      reply_kept : (addr : Bytes) (r : Reply) → Keeps G P (reply G h v addr r)
      reply_kept addr r = record {
        keeps = λ c q.
            (entry_points_keep G P h addr (inv.stable addr) (λ u. handled u addr) v [] [] [] r c
              q).2;
      }

    module _ (k : Setup G E) (plugins : PluginsRelated G (Kept G P) k.plugins) where
      newer_keeps :
          (answer : Option Bytes) (r : Outcome (Option Bytes)) (c : State G E)
          → P c.store.wasm
          → P (continue r (λ rsp. pure (newer answer rsp)) c).1.store.wasm
      newer_keeps answer (ok rsp) c q = q
      newer_keeps answer (err e) c q = q
      newer_keeps answer (panic p) c q = q

      respond_kept : (f : Handler G E) → Handles G P f → Handles G P (respond G k f)
      unfolding handle
      respond_kept f handled w addr port msgs answer =
          let h = with_handler G k.host f in
          let messenger =
            default_message_handler G k.plugins k.max_call_depth (serve G h k.service) w addr
              port in
          record {
            keeps = λ c q.
                newer_keeps answer
                  (dispatch_submessages G k.info messenger (reply G h w addr) msgs c).0
                  (dispatch_submessages G k.info messenger (reply G h w addr) msgs c).1
                  (dispatch_submessages_keeps G messenger (λ (x : World E). P x.wasm)
                    (λ msg d r e p.
                      (messenger_related G (Kept G P) Kept-IsClosed k.plugins plugins
                          k.max_call_depth (serve G h k.service) (serve G h k.service) w addr port
                          (λ u m e.
                            serve_related G k.host f f (Kept G P) u k.service Kept-IsClosed
                              (keeper_kept k.host f u handled) m)
                          msg).keeps
                        d p)
                    k.info (reply G h w addr)
                    (λ r d p. (reply_kept k.host f w handled addr r).keeps d p) msgs c q);
          }

      handler_kept : (n : ℕ) → Handles G P (handler G k (out_of_fuel G) n)
      unfolding handler
      handler_kept zero w addr port msgs answer = same-Keeps G P (λ c. refl)
      handler_kept (suc n) w addr port msgs answer =
          respond_kept (handler G k (out_of_fuel G) n) (handler_kept n) w addr port msgs answer

      -- a message that the running keeper serves keeps the property, however it ends
      pub run_message_kept :
          (n : ℕ) (v : Values) (m : Message) → Keeps G P (run_message G k (out_of_fuel G) n v m)
      unfolding run_message
      run_message_kept n v m =
          serve_related G k.host (handler G k (out_of_fuel G) n) (handler G k (out_of_fuel G) n)
            (Kept G P) v k.service Kept-IsClosed
            (keeper_kept k.host (handler G k (out_of_fuel G) n) v (handler_kept n)) m
