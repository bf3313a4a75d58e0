-- ===== src/Authz/Allowed.antt =====
-- About the messages that an authorization lets pass: which grant allows them.
use cosmwasgo.Base.{
  ◌≡◌, refl, subst, Bool, true, false, List, [], ◌∷◌, ◌++◌, arith, Option, none, some, bytes_eq,
  bytes_eq_iff, if◌then◌else◌,
}
use cosmwasgo.Base.Outcome.{Error, Outcome, ok, err, panic, Exec, continue, wrap, lift, fail, ◌>>◌}
use cosmwasgo.Sdk.{GasMeter, Ctx}
use cosmwasgo.Messages.{Message}
use cosmwasgo.Messages.Validate.{validate}
use cosmwasgo.Authz.{
  ContractGrant, LimitResult, not_applicable, applicable, used_up, updated, Response, Kind, Granted,
  Tools, granted, is_empty, err_invalid_type, accept_limit, applied, by_filter, by_limit,
  within_limit, within_filter, try_grant, accept_from, accept_filter, accept_granted,
  accept_granted_message,
}
use cosmwasgo.Authz.Calls.{passed, append_one}

module _ (x : Tools) (G : GasMeter) (S : Type 0) where
  -- a grant among those of the authorization is for the contract of the message, and its filter
  -- accepts the payload
  pub record Allowed (grants : List ContractGrant) (m : Granted) : Type 0 where
    pub before : List ContractGrant
    pub grant : ContractGrant
    pub rest : List ContractGrant
    pub place : grants ≡ before ++ (grant ∷ rest)
    pub contract : grant.contract ≡ m.get_contract
    pub at : Ctx G S
    pub filter : (accept_filter x G grant.filter m.get_msg at).0 ≡ ok true

  -- a message passes only if it is allowed
  abbrev OnlyAllowed : List ContractGrant → Granted → Outcome Response → Type 0
  OnlyAllowed grants m r = passed r ≡ 1 → Allowed grants m

  abbrev AlwaysAllowed : List ContractGrant → Granted → Exec (Ctx G S) Response → Type 0
  AlwaysAllowed grants m f = (c : Ctx G S) → OnlyAllowed grants m (f c).0

  module _ (before : List ContractGrant) (g : ContractGrant) (rest : List ContractGrant)
      (m : Granted) (next : Exec (Ctx G S) Response)
      (later : AlwaysAllowed (before ++ (g ∷ rest)) m next) where
    filter_allowed :
        (b : Outcome Bool) (c c' : Ctx G S) (r : Outcome Response)
        → (accept_filter x G g.filter m.get_msg c).0 ≡ b
        → g.contract ≡ m.get_contract
        → OnlyAllowed
            (before ++ (g ∷ rest))
            m
            (continue
              (within_filter x b)
              (λ is_allowed. if is_allowed then (λ d. (r, d)) else next)
              c').0
    filter_allowed (ok true) c c' r e q p = record {
      before = before;
      grant = g;
      rest = rest;
      place = refl;
      contract = q;
      at = c;
      filter = e;
    }
    filter_allowed (ok false) c c' r e q p = later c' p
    filter_allowed (err a) c c' r e q p = absurd (omega (arith, p))
    filter_allowed (panic a) c c' r e q p = absurd (omega (arith, p))

    limit_allowed :
        (r : Outcome LimitResult) (c : Ctx G S)
        → g.contract ≡ m.get_contract
        → let filter = accept_filter x G g.filter m.get_msg in
          OnlyAllowed
            (before ++ (g ∷ rest))
            m
            (continue
              (within_limit x r)
              (λ a. by_limit x G a next (by_filter x G filter next (applied x before g rest a)))
              c).0
    limit_allowed (ok not_applicable) c q p = later c p
    limit_allowed (ok applicable) c q p =
        let f = accept_filter x G g.filter m.get_msg c in
        filter_allowed f.0 c f.1 (applied x before g rest applicable) refl q p
    limit_allowed (ok used_up) c q p =
        let f = accept_filter x G g.filter m.get_msg c in
        filter_allowed f.0 c f.1 (applied x before g rest used_up) refl q p
    limit_allowed (ok (updated l)) c q p =
        let f = accept_filter x G g.filter m.get_msg c in
        filter_allowed f.0 c f.1 (applied x before g rest (updated l)) refl q p
    limit_allowed (err a) c q p = absurd (omega (arith, p))
    limit_allowed (panic a) c q p = absurd (omega (arith, p))

    either_allowed :
        (b : Bool) (f : Exec (Ctx G S) Response)
        → (b ≡ true → AlwaysAllowed (before ++ (g ∷ rest)) m f)
        → AlwaysAllowed (before ++ (g ∷ rest)) m (if b then f else next)
    either_allowed true f k = k refl
    either_allowed false f k = later

  from_allowed :
      (before rest : List ContractGrant) (m : Granted)
      → AlwaysAllowed (before ++ rest) m (accept_from x G before rest m)
  unfolding accept_from
  from_allowed before [] m = λ c p. absurd (omega (arith, p))
  from_allowed before (g ∷ rest) m =
      let next = accept_from x G (before ++ (g ∷ [])) rest m in
      let later =
        subst (λ gs. AlwaysAllowed gs m next) (append_one before g rest)
          (from_allowed (before ++ (g ∷ [])) rest m) in
      either_allowed before g rest m next later (bytes_eq g.contract m.get_contract)
        (try_grant x G before g rest m next)
        (λ e c.
          limit_allowed before g rest m next later (accept_limit x g.limit m.get_funds) c
            ((bytes_eq_iff g.contract m.get_contract).0 e))

  validated_allowed :
      (grants : List ContractGrant) (r : Outcome (Unit {0})) (b : Bool) (m : Granted) (e : Error)
      (c : Ctx G S)
      → OnlyAllowed grants m ((if b then fail e else lift r >> accept_from x G [] grants m) c).0
  validated_allowed grants r true m e c p = absurd (omega (arith, p))
  validated_allowed grants (ok t) false m e c p = from_allowed [] grants m c p
  validated_allowed grants (err a) false m e c p = absurd (omega (arith, p))
  validated_allowed grants (panic a) false m e c p = absurd (omega (arith, p))

  granted-Allowed :
      (grants : List ContractGrant) (msg : Message) (m : Option Granted) (c : Ctx G S)
      → passed (accept_granted x G grants msg m c).0 ≡ 1
      → (a : Granted) × (m ≡ some a) × Allowed grants a
  granted-Allowed grants msg none c p = absurd (omega (arith, p))
  granted-Allowed grants msg (some m) c p = (
    m,
    refl,
    validated_allowed grants (validate x.checks msg) (is_empty m.get_msg) m
        (wrap err_invalid_type "empty message") c p,
  )

  -- A message that an authorization lets pass is of the kind that it is for, and one of the grants is
  -- for the contract of the message and has a filter that accepts its payload.
  pub accept_granted_message-Allowed :
      (kind : Kind) (grants : List ContractGrant) (msg : Message) (c : Ctx G S)
      → passed (accept_granted_message x G kind grants msg c).0 ≡ 1
      → (m : Granted) × (granted kind msg ≡ some m) × Allowed grants m
  unfolding accept_granted_message
  accept_granted_message-Allowed kind grants msg c p =
      granted-Allowed grants msg (granted kind msg) c p
