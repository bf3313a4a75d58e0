-- ===== src/Keeper/Handlers/Concrete.antt =====
-- Plugins that the handlers run on: a router that knows the messages of the module, and a bank that
-- accepts what it is asked.
use cosmwasgo.Base.{ℕ, List, [], ◌∷◌, none, some}
use cosmwasgo.Base.Outcome.{ok, err, external, Exec, pure, fail, ◌>>=◌}
use cosmwasgo.Sdk.Concrete.{basic_meter}
use cosmwasgo.Vm.{Bytes}
use cosmwasgo.Keeper.Host.{Coin, State}
use cosmwasgo.Keeper.Relation.{Relation, IsClosed, bind_related, lift_related}
use cosmwasgo.Keeper.Server.{Answer}
use cosmwasgo.Keeper.Handlers.Related.{PluginsRelated, RoutesRelated}
use cosmwasgo.Messages.{Message}
use cosmwasgo.Keeper.Concrete.{plain_host, plain_service, done}
use cosmwasgo.Keeper.Handlers.{Plugins, Router, send_to_module, burn_coins}
use cosmwasgo.Keeper.Handlers.Encoders.{SdkMsg, Coding, natural, err_unknown_msg}

abbrev pub plain_coding : Coding
plain_coding = record {
  render = λ a. a;
  new_int_from_string = λ text. some (natural 5);
  new_dec_from_str = λ text. ok text;
  validate_denom = λ denom. ok tt;
  add = λ coins coin. coin ∷ coins;
  sort = λ coins. coins;
  encode_other = λ v addr port msg. err (external 3);
}

-- messages of the module go to its server, others are not known
abbrev pub plain_router : Router basic_meter ℕ
plain_router serve (SdkMsg.wasm m) =
    some (serve m >>= λ a. pure (record { data_bytes = []; events = []; msg_responses = [] }))
plain_router serve m = none

abbrev pub plain_plugins : Plugins basic_meter ℕ
plain_plugins = record {
  coding = plain_coding;
  router = plain_router;
  checks = record {
    sdk = plain_host.sdk;
    coins = plain_service.coins;
    is_json = plain_host.is_json;
    is_print = plain_service.is_print;
    request_uri = plain_service.request_uri;
    docker_ref = plain_service.docker_ref;
  };
  validate_other = λ m. ok tt;
  signers = λ m. ok [];
  ibc_raw_packet = λ v addr port msg. fail err_unknown_msg;
  send_coins_from_account_to_module = λ addr coins. done tt;
  burn_coins = λ coins. done tt;
}

-- the plugins respect every relation that can be followed, if their bank does
pub respects :
    (R : Relation basic_meter ℕ)
    → IsClosed basic_meter R
    → ((addr : Bytes) (coins : List Coin)
        → R
            (Unit {0})
            (send_to_module basic_meter plain_plugins addr coins)
            (send_to_module basic_meter plain_plugins addr coins))
    → ((coins : List Coin)
        → R
            (Unit {0})
            (burn_coins basic_meter plain_plugins coins)
            (burn_coins basic_meter plain_plugins coins))
    → PluginsRelated basic_meter R plain_plugins
respects R closed sends burns = record {
  router = routed;
  ibc_raw_packet = λ v addr port msg. lift_related basic_meter closed (err err_unknown_msg);
  send = sends;
  burn = burns;
}
  where
    routed :
        (serve serve' : Message → Exec (State basic_meter ℕ) Answer) (m : SdkMsg)
        → ((x : Message) → R Answer (serve x) (serve' x))
        → RoutesRelated basic_meter R (plain_router serve m) (plain_router serve' m)
    routed serve serve' (SdkMsg.wasm m) k =
        bind_related basic_meter closed (k m) (λ a. lift_related basic_meter closed (ok _))
    routed serve serve' m k = tt
