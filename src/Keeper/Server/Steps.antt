-- ===== src/Keeper/Server/Steps.antt =====
-- What the handlers of x/wasm/keeper/msg_server.go share: the settings that they read, their
-- responses, the choice of the policy, and the tests that they begin with.
use cosmwasgo.Base.{
  ℕ, Bool, not, List, [], ◌∷◌, ◌++◌, Option, none, some, String, bytes_eq, contains, if◌then◌else◌,
}
use cosmwasgo.Base.Outcome.{
  wrap, other, Outcome, ok, err, panic, Exec, pure, throw, lift, fail_if, ◌>>=◌, ◌>>◌,
}
use cosmwasgo.Vm.{Bytes}
use cosmwasgo.Access.{AccessConfig, err_invalid}
use cosmwasgo.Policy.{Action, Policy, default_policy, gov}
use cosmwasgo.Sdk.{GasMeter}
use cosmwasgo.Keeper.State.{Params}
use cosmwasgo.Keeper.Host.{Coin, Values, State, Host}
use cosmwasgo.Keeper.Instantiate.{Order}
use cosmwasgo.Messages.{MsgInstantiateContract, Message}
use cosmwasgo.Messages.Validate.{Checks, validate}

-- The settings of the keeper that the server reads, authority and propagateGovAuthorization, and the
-- checks of other packages.
pub record Service : Type 0 where
  pub authority : Bytes
  pub propagate : List Action
  pub coins : List Coin → Outcome (Unit {0})
  pub is_print : ℕ → Bool
  pub request_uri : Bytes → Outcome (Unit {0})
  pub docker_ref : Bytes → Outcome (Unit {0})

-- the responses of the service
pub data Answer : Type 0 where
  done : Answer
  stored : ℕ → Bytes → Answer
  instantiated : Bytes → Option Bytes → Answer
  answered : Option Bytes → Answer
  stored_and_migrated : ℕ → Bytes → Option Bytes → Answer

-- selectAuthorizationPolicy
unfoldable pub select_authorization_policy : Service → Values → Bytes → Policy
select_authorization_policy s v actor =
    if bytes_eq actor s.authority
    then gov s.propagate
    else elim v.sub_msg_policy [ some policy ↦ policy | none ↦ default_policy ]

-- the loop of AddCodeUploadParamsAddresses
abbrev pub add_addresses : List Bytes → List Bytes → List Bytes
add_addresses addresses [] = addresses
add_addresses addresses (new_addr ∷ req) =
    add_addresses (if contains addresses new_addr then addresses else addresses ++ (new_addr ∷ []))
      req

-- the loop of RemoveCodeUploadParamsAddresses
abbrev pub remove_addresses : List Bytes → List Bytes → List Bytes
remove_addresses [] req = []
remove_addresses (addr ∷ addresses) req =
    let rest = remove_addresses addresses req in if contains req addr then rest else addr ∷ rest

abbrev pub with_addresses : List Bytes → Params → Params
with_addresses addresses p = record p {
  code_upload_access = record p.code_upload_access { addresses = addresses };
}

-- errorsmod.Wrap with a text
abbrev pub wrap_text : {A : Type 0} → String → Outcome A → Outcome A
wrap_text text (ok a) = ok a
wrap_text text (err e) = err (wrap e text)
wrap_text text (panic p) = panic p

module _ (G : GasMeter) {E : Type 0} (h : Host G E) (s : Service) where
  abbrev pub checks : Checks
  checks = record {
    sdk = h.sdk;
    coins = s.coins;
    is_json = h.is_json;
    is_print = s.is_print;
    request_uri = s.request_uri;
    docker_ref = s.docker_ref;
  }

  -- sdk.AccAddressFromBech32 with the error wrapped
  abbrev pub parse : String → Bytes → Exec (State G E) Bytes
  parse text addr = lift (wrap_text text (h.sdk.parse addr))

  -- an address that may be left empty
  abbrev pub parse_admin : Bytes → Exec (State G E) (Option Bytes)
  parse_admin [] = pure none
  parse_admin (b ∷ bs) = parse "admin" (b ∷ bs) >>= λ a. pure (some a)

  -- msg.ValidateBasic()
  abbrev pub basic : Message → Exec (State G E) (Unit {0})
  basic m = lift (validate checks m)

  abbrev pub require_authority : Bytes → Exec (State G E) (Unit {0})
  require_authority authority =
      fail_if (not (bytes_eq s.authority authority)) (wrap err_invalid "invalid authority")

  -- a call for every element, in order
  abbrev pub for_each : (ℕ → Exec (State G E) (Unit {0})) → List ℕ → Exec (State G E) (Unit {0})
  for_each f [] = pure tt
  for_each f (id ∷ ids) = f id >> for_each f ids

  -- `*msg.NewInstantiatePermission`
  abbrev pub deref : Option AccessConfig → Exec (State G E) AccessConfig
  deref none = throw (other "nil pointer")
  deref (some c) = pure c

  abbrev pub order : MsgInstantiateContract → ℕ → Bytes → Option Bytes → Policy → Order
  order m code_id creator admin policy = record {
    code_id = code_id;
    creator = creator;
    admin = admin;
    init_msg = m.msg;
    label = m.label;
    deposit = m.funds;
    policy = policy;
  }
