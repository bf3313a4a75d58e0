-- ===== src/Keeper/Handlers/Related.antt =====
-- The message handlers under a relation of calls: what relates two message servers, and the other
-- packages respect, relates the handlers that route to them.
use cosmwasgo.Base.{
  ℕ, List, [], ◌∷◌, Option, none, some, not, any, bytes_eq, Bool, true, false, if◌then◌else◌, ◌≡◌,
  refl,
}
use cosmwasgo.Base.Outcome.{Error, wrap, Outcome, ok, err, panic, Exec, fail}
use cosmwasgo.Vm.{Bytes, CosmosMsg, BankMsg}
use cosmwasgo.Access.{err_empty}
use cosmwasgo.Sdk.{GasMeter}
use cosmwasgo.Dispatch.{Dispatched, Messenger}
use cosmwasgo.Keeper.State.{err_unauthorized}
use cosmwasgo.Keeper.Host.{Coin, Values, World, State}
use cosmwasgo.Keeper.Entry.{is_zero}
use cosmwasgo.Keeper.Relation.{Relation, IsClosed, bind_related, lift_related, fail_if_related}
use cosmwasgo.Keeper.Metering.{check_and_increase_call_depth}
use cosmwasgo.Keeper.Server.{Answer}
use cosmwasgo.Keeper.Handlers.{
  Plugins, SdkResult, validate_basic, is_unknown_msg, or_next, route, message_handler_chain,
  at_depth, call_depth_handler, handle_sdk_message, handle_all, sdk_message_handler, send_to_module,
  burn_coins, burn, burn_coin_handler, default_handlers, default_message_handler, nothing, prepend,
}
use cosmwasgo.Keeper.Handlers.Encoders.{
  SdkMsg, encode, convert_wasm_coins_to_sdk_coins, err_unknown_msg,
}
use cosmwasgo.Messages.{Message}

module _ (G : GasMeter) {E : Type 0} (R : Relation G E) where
  abbrev Route : Type 0
  Route = Option (Exec (State G E) SdkResult)

  -- both routes are there and related, or none is
  abbrev pub RoutesRelated : Route → Route → Type 0
  RoutesRelated none none = Unit
  RoutesRelated (some x) (some y) = R SdkResult x y
  RoutesRelated _ _ = ⊥

  -- The code of other packages is related to itself: the router where the services that it calls
  -- are related.
  pub record PluginsRelated (p : Plugins G E) : Type 0 where
    pub router :
        (serve serve' : Message → Exec (State G E) Answer) (m : SdkMsg)
        → ((x : Message) → R Answer (serve x) (serve' x))
        → RoutesRelated (p.router serve m) (p.router serve' m)
    pub ibc_raw_packet :
        (v : Values) (addr port : Bytes) (msg : CosmosMsg)
        → R Dispatched (p.ibc_raw_packet v addr port msg) (p.ibc_raw_packet v addr port msg)
    pub send :
        (addr : Bytes) (coins : List Coin)
        → R (Unit {0}) (send_to_module G p addr coins) (send_to_module G p addr coins)
    pub burn : (coins : List Coin) → R (Unit {0}) (burn_coins G p coins) (burn_coins G p coins)

  module _ (closed : IsClosed G R) where
    route_related : (r r' : Route) → RoutesRelated r r' → R SdkResult (route G r) (route G r')
    route_related none none k = lift_related G closed _
    route_related none (some y) k = absurd k
    route_related (some x) none k = absurd k
    route_related (some x) (some y) k = k

    if_related :
        (b : Bool) (e : Error) (rest rest' : Exec (State G E) Dispatched)
        → R Dispatched rest rest'
        → R Dispatched (if b then rest else fail e) (if b then rest' else fail e)
    if_related true e rest rest' k = k
    if_related false e rest rest' k = lift_related G closed (err e)

    abbrev MessengersRelated : Messenger G (World E) → Messenger G (World E) → Type 0
    MessengersRelated h h' = (msg : CosmosMsg) → R Dispatched (h msg) (h' msg)

    abbrev EachRelated : List (Messenger G (World E)) → List (Messenger G (World E)) → Type 0
    EachRelated [] [] = Unit
    EachRelated (h ∷ hs) (h' ∷ hs') = MessengersRelated h h' × EachRelated hs hs'
    EachRelated _ _ = ⊥

    chain_related :
        (hs hs' : List (Messenger G (World E)))
        → EachRelated hs hs'
        → MessengersRelated (message_handler_chain G hs) (message_handler_chain G hs')
    unfolding message_handler_chain
    chain_related [] [] k msg =
        lift_related G closed (err (wrap err_unknown_msg "no handler found"))
    chain_related [] (h ∷ hs) k msg = absurd k
    chain_related (h ∷ hs) [] k msg = absurd k
    chain_related (h ∷ hs) (h' ∷ hs') (k, ks) msg =
        closed.rescue _ (h msg) (h' msg) (or_next G (message_handler_chain G hs msg))
          (or_next G (message_handler_chain G hs' msg)) (k msg)
          (λ e. if_related (is_unknown_msg e) e _ _ (chain_related hs hs' ks msg))

    at_depth_related :
        (r : Outcome Values) (f f' : Values → Exec (State G E) Dispatched)
        → ((w : Values) → r ≡ ok w → R Dispatched (f w) (f' w))
        → R Dispatched (at_depth G r f) (at_depth G r f')
    at_depth_related (ok w) f f' k = k w refl
    at_depth_related (err e) f f' k = lift_related G closed (err (wrap e "dispatch"))
    at_depth_related (panic p) f f' k = lift_related G closed (panic p)

    module _ (p : Plugins G E) (related : PluginsRelated p) where
      module _ (serve serve' : Message → Exec (State G E) Answer)
          (served : (m : Message) → R Answer (serve m) (serve' m)) where
        message_related :
            (addr : Bytes) (m : SdkMsg)
            → R SdkResult
                (handle_sdk_message G p serve addr m)
                (handle_sdk_message G p serve' addr m)
        unfolding handle_sdk_message
        message_related addr m =
            bind_related G closed (lift_related G closed (validate_basic G p m)) (λ u1.
              bind_related G closed (lift_related G closed (p.signers m)) (λ signers.
                bind_related G closed
                  (fail_if_related G closed (any (λ acct. not (bytes_eq addr acct)) signers)
                    (wrap err_unauthorized "contract doesn't have permission"))
                  (λ u2.
                    route_related (p.router serve m) (p.router serve' m)
                      (related.router serve serve' m served))))

        all_related :
            (addr : Bytes) (msgs : List SdkMsg)
            → R Dispatched (handle_all G p serve addr msgs) (handle_all G p serve' addr msgs)
        unfolding handle_all
        all_related addr [] = lift_related G closed (ok nothing)
        all_related addr (m ∷ msgs) = bind_related G closed (message_related addr m) (λ r.
            bind_related G closed (all_related addr msgs)
              (λ d. lift_related G closed (ok (prepend r d))))

      burn_related :
          (addr : Bytes) (coins : List Coin)
          → R Dispatched (burn G p addr coins) (burn G p addr coins)
      burn_related addr coins =
          bind_related G closed (fail_if_related G closed (is_zero coins) (wrap err_empty "amount"))
            (λ u1. bind_related G closed (related.send addr coins) (λ u2.
              bind_related G closed (related.burn coins)
                (λ u3. lift_related G closed (ok nothing))))

      burner_related :
          (addr : Bytes)
          → MessengersRelated (burn_coin_handler G p addr) (burn_coin_handler G p addr)
      unfolding burn_coin_handler
      burner_related addr (CosmosMsg.bank (BankMsg.burn amount)) =
          bind_related G closed
            (lift_related G closed (convert_wasm_coins_to_sdk_coins p.coding amount))
            (λ coins. burn_related addr coins)
      burner_related addr (CosmosMsg.bank (BankMsg.send to coins)) =
          lift_related G closed (err err_unknown_msg)
      burner_related addr (CosmosMsg.bank BankMsg.unset) =
          lift_related G closed (err err_unknown_msg)
      burner_related addr (CosmosMsg.wasm m) = lift_related G closed (err err_unknown_msg)
      burner_related addr (CosmosMsg.custom m) = lift_related G closed (err err_unknown_msg)
      burner_related addr (CosmosMsg.distribution m) = lift_related G closed (err err_unknown_msg)
      burner_related addr (CosmosMsg.gov m) = lift_related G closed (err err_unknown_msg)
      burner_related addr (CosmosMsg.ibc m) = lift_related G closed (err err_unknown_msg)
      burner_related addr (CosmosMsg.staking m) = lift_related G closed (err err_unknown_msg)
      burner_related addr (CosmosMsg.any m) = lift_related G closed (err err_unknown_msg)
      burner_related addr CosmosMsg.unset = lift_related G closed (err err_unknown_msg)

      -- the messengers over two message servers that are related one call deeper
      pub messenger_related :
          (max : ℕ) (serve serve' : Values → Message → Exec (State G E) Answer) (v : Values)
          (addr port : Bytes)
          → ((w : Values) (m : Message)
              → check_and_increase_call_depth max v ≡ ok w
              → R Answer (serve w m) (serve' w m))
          → (msg : CosmosMsg)
          → R Dispatched
              (default_message_handler G p max serve v addr port msg)
              (default_message_handler G p max serve' v addr port msg)
      unfolding default_message_handler call_depth_handler sdk_message_handler
      messenger_related max serve serve' v addr port served msg =
          at_depth_related (check_and_increase_call_depth max v) _ _ (λ w e.
            chain_related (default_handlers G p serve w addr port)
              (default_handlers G p serve' w addr port)
              (
                λ msg.
                    bind_related G closed (lift_related G closed (encode p.coding w addr port msg))
                      (λ msgs. all_related (serve w) (serve' w) (λ m. served w m e) addr msgs),
                (λ msg. related.ibc_raw_packet w addr port msg, (burner_related addr, tt)),
              )
              msg)
