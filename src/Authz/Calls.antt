-- ===== src/Authz/Calls.antt =====
-- About the number of calls that an authorization lets pass.
use cosmwasgo.Base.{
  ℕ, ◌+◌, ◌≤◌, ◌≡◌, refl, sym, subst, ap, Bool, true, false, List, [], ◌∷◌, ◌++◌, All, arith,
  Option, none, some, bytes_eq, if◌then◌else◌,
}
use cosmwasgo.Base.Outcome.{Outcome, wrap, lift, fail, ◌>>◌, ok, err, panic, Exec, continue}
use cosmwasgo.Sdk.{GasMeter, Ctx}
use cosmwasgo.Messages.{Message}
use cosmwasgo.Messages.Validate.{validate}
use cosmwasgo.Authz.{
  err_invalid_type, accept_granted, Limit, ContractGrant, LimitResult, not_applicable, applicable,
  used_up, updated, Response, refused, accepted, deleted, replaced, Kind, Granted, Tools, granted,
  is_empty, accept_limit, applied, by_filter, by_limit, within_limit, within_filter, try_grant,
  accept_from, accept_filter, accept_granted_message, deleted_grant, sane, validate_grants,
}
use cosmwasgo.Authz.Limits.{calls_of, IsCounted, Paid, IfPaid, limit_paid}

abbrev pub AllCounted : List ContractGrant → Type 0
AllCounted grants = All (λ g. IsCounted g.limit) grants

abbrev pub total_calls : List ContractGrant → ℕ
total_calls [] = 0
total_calls (g ∷ gs) = calls_of g.limit + total_calls gs

-- the grants that the authz module keeps after an answer
abbrev pub kept : List ContractGrant → Outcome Response → List ContractGrant
kept grants (ok deleted) = []
kept grants (ok (replaced gs)) = gs
kept grants r = grants

-- the calls that an answer lets pass
abbrev pub passed : Outcome Response → ℕ
passed (ok refused) = 0
passed (ok accepted) = 1
passed (ok deleted) = 1
passed (ok (replaced gs)) = 1
passed (err e) = 0
passed (panic p) = 0

total_calls-append :
    (xs ys : List ContractGrant) → total_calls (xs ++ ys) ≡ total_calls xs + total_calls ys
total_calls-append [] ys = omega arith
total_calls-append (g ∷ xs) ys = omega (arith, total_calls-append xs ys)

-- the answer is paid for with calls of the grants
abbrev IsPaid : List ContractGrant → Outcome Response → Type 0
IsPaid grants r =
    (passed r + total_calls (kept grants r) ≤ total_calls grants) × AllCounted (kept grants r)

refused-IsPaid : (grants : List ContractGrant) → AllCounted grants → IsPaid grants (ok refused)
refused-IsPaid grants k = (omega arith, k)

pub append_one :
    (xs : List ContractGrant) (g : ContractGrant) (ys : List ContractGrant)
    → (xs ++ (g ∷ [])) ++ ys ≡ xs ++ (g ∷ ys)
append_one [] g ys = refl
append_one (y ∷ xs) g ys = ap (λ zs. y ∷ zs) (append_one xs g ys)

module _ (x : Tools) where
  sane-IsPaid :
      (grants gs : List ContractGrant) (r : Outcome (Unit {0}))
      → 1 + total_calls gs ≤ total_calls grants
      → AllCounted gs
      → AllCounted grants
      → IsPaid grants (sane x gs r)
  sane-IsPaid grants gs (ok t) k counted old = (k, counted)
  sane-IsPaid grants gs (err e) k counted old = (omega arith, old)
  sane-IsPaid grants gs (panic p) k counted old = (omega arith, old)

  deleted-IsPaid :
      (grants gs : List ContractGrant)
      → 1 + total_calls gs ≤ total_calls grants
      → AllCounted gs
      → AllCounted grants
      → IsPaid grants (deleted_grant x gs)
  deleted-IsPaid grants [] k counted old = (k, tt)
  deleted-IsPaid grants (g ∷ gs) k counted old =
      sane-IsPaid grants (g ∷ gs) (validate_grants x (g ∷ gs)) k counted old

  -- a grant can be left out or replaced by one that is counted too
  without :
      (before : List ContractGrant) (g : ContractGrant) (rest : List ContractGrant)
      → AllCounted (before ++ (g ∷ rest))
      → AllCounted (before ++ rest)
  without [] g rest k = k.1
  without (b ∷ before) g rest k = (k.0, without before g rest k.1)

  IsCounted-at :
      (before : List ContractGrant) (g : ContractGrant) (rest : List ContractGrant)
      → AllCounted (before ++ (g ∷ rest))
      → IsCounted g.limit
  IsCounted-at [] g rest k = k.0
  IsCounted-at (b ∷ before) g rest k = IsCounted-at before g rest k.1

  with_limit :
      (before : List ContractGrant) (g : ContractGrant) (rest : List ContractGrant) (l : Limit)
      → AllCounted (before ++ (g ∷ rest))
      → IsCounted l
      → AllCounted (before ++ (record g { limit = l } ∷ rest))
  with_limit [] g rest l k c = (c, k.1)
  with_limit (b ∷ before) g rest l k c = (k.0, with_limit before g rest l k.1 c)

  applied-Paid :
      (before : List ContractGrant) (g : ContractGrant) (rest : List ContractGrant)
      (r : LimitResult)
      → AllCounted (before ++ (g ∷ rest))
      → Paid g.limit r
      → IsPaid (before ++ (g ∷ rest)) (applied x before g rest r)
  applied-Paid before g rest not_applicable k p = refused-IsPaid (before ++ (g ∷ rest)) k
  applied-Paid before g rest applicable k p = absurd p
  applied-Paid before g rest used_up k p =
      deleted-IsPaid (before ++ (g ∷ rest)) (before ++ rest)
        (omega (arith, p, total_calls-append before rest, total_calls-append before (g ∷ rest)))
        (without before g rest k) k
  applied-Paid before g rest (updated l) k (c, p) =
      let gs = before ++ (record g { limit = l } ∷ rest) in
      sane-IsPaid (before ++ (g ∷ rest)) gs (validate_grants x gs)
        (omega (
          arith,
          p,
          total_calls-append before (record g { limit = l } ∷ rest),
          total_calls-append before (g ∷ rest),
        ))
        (with_limit before g rest l k c) k

  module _ (G : GasMeter) {S : Type 0} where
    abbrev AlwaysPaid : List ContractGrant → Exec (Ctx G S) Response → Type 0
    AlwaysPaid grants m = (c : Ctx G S) → IsPaid grants (m c).0

    filter-IsPaid :
        (grants : List ContractGrant) (b : Outcome Bool) (c : Ctx G S)
        (next : Exec (Ctx G S) Response) (r : Outcome Response)
        → AllCounted grants
        → AlwaysPaid grants next
        → IsPaid grants r
        → IsPaid grants
            (continue
              (within_filter x b)
              (λ is_allowed. if is_allowed then (λ d. (r, d)) else next)
              c).0
    filter-IsPaid grants (ok true) c next r k n p = p
    filter-IsPaid grants (ok false) c next r k n p = n c
    filter-IsPaid grants (err e) c next r k n p = (omega arith, k)
    filter-IsPaid grants (panic q) c next r k n p = (omega arith, k)

    limited-IsPaid :
        (before : List ContractGrant) (g : ContractGrant) (rest : List ContractGrant)
        (filter : Exec (Ctx G S) Bool) (next : Exec (Ctx G S) Response) (r : Outcome LimitResult)
        (c : Ctx G S)
        → AllCounted (before ++ (g ∷ rest))
        → AlwaysPaid (before ++ (g ∷ rest)) next
        → IfPaid g.limit r
        → IsPaid
            (before ++ (g ∷ rest))
            (continue
              (within_limit x r)
              (λ a. by_limit x G a next (by_filter x G filter next (applied x before g rest a)))
              c).0
    limited-IsPaid before g rest filter next (ok not_applicable) c k n p = n c
    limited-IsPaid before g rest filter next (ok applicable) c k n p = absurd p
    limited-IsPaid before g rest filter next (ok used_up) c k n p =
        filter-IsPaid (before ++ (g ∷ rest)) (filter c).0 (filter c).1 next
          (applied x before g rest used_up) k n (applied-Paid before g rest used_up k p)
    limited-IsPaid before g rest filter next (ok (updated l)) c k n p =
        filter-IsPaid (before ++ (g ∷ rest)) (filter c).0 (filter c).1 next
          (applied x before g rest (updated l)) k n (applied-Paid before g rest (updated l) k p)
    limited-IsPaid before g rest filter next (err e) c k n p = (omega arith, k)
    limited-IsPaid before g rest filter next (panic q) c k n p = (omega arith, k)

    chosen_paid :
        (grants : List ContractGrant) (b : Bool) (m next : Exec (Ctx G S) Response)
        → AlwaysPaid grants m
        → AlwaysPaid grants next
        → AlwaysPaid grants (if b then m else next)
    chosen_paid grants true m next k n = k
    chosen_paid grants false m next k n = n

    from_paid :
        (before rest : List ContractGrant) (m : Granted)
        → AllCounted (before ++ rest)
        → AlwaysPaid (before ++ rest) (accept_from x G before rest m)
    unfolding accept_from
    from_paid before [] m k = λ c. refused-IsPaid (before ++ []) k
    from_paid before (g ∷ rest) m k =
        let next = accept_from x G (before ++ (g ∷ [])) rest m in
        let same = append_one before g rest in
        let later =
          subst (λ gs. AlwaysPaid gs next) same
            (from_paid (before ++ (g ∷ [])) rest m (subst AllCounted (sym same) k)) in
        chosen_paid (before ++ (g ∷ rest)) (bytes_eq g.contract m.get_contract)
          (try_grant x G before g rest m next) next
          (λ c.
            limited-IsPaid before g rest (accept_filter x G g.filter m.get_msg) next
              (accept_limit x g.limit m.get_funds) c k later
              (limit_paid x g.limit m.get_funds (IsCounted-at before g rest k)))
          later

    validated_paid :
        (grants : List ContractGrant) (r : Outcome (Unit {0})) (m : Exec (Ctx G S) Response)
        → AllCounted grants
        → AlwaysPaid grants m
        → AlwaysPaid grants (lift r >> m)
    validated_paid grants (ok t) m k p = p
    validated_paid grants (err e) m k p = λ c. (omega arith, k)
    validated_paid grants (panic q) m k p = λ c. (omega arith, k)

    granted_paid :
        (grants : List ContractGrant) (msg : Message) (m : Option Granted)
        → AllCounted grants
        → AlwaysPaid grants (accept_granted x G grants msg m)
    granted_paid grants msg none k = λ c. (omega arith, k)
    granted_paid grants msg (some m) k =
        chosen_paid grants (is_empty m.get_msg) (fail (wrap err_invalid_type "empty message"))
          (lift (validate x.checks msg) >> accept_from x G [] grants m) (λ c. (omega arith, k))
          (validated_paid grants (validate x.checks msg) (accept_from x G [] grants m) k
            (from_paid [] grants m k))

    message_paid :
        (kind : Kind) (grants : List ContractGrant) (msg : Message)
        → AllCounted grants
        → AlwaysPaid grants (accept_granted_message x G kind grants msg)
    unfolding accept_granted_message
    message_paid kind grants msg k = granted_paid grants msg (granted kind msg) k

    -- how many of the messages pass, one after the other, where the grants are kept up
    unfoldable pub passing : Kind → List ContractGrant → List Message → Ctx G S → ℕ
    passing kind grants [] c = 0
    passing kind grants (msg ∷ msgs) c =
        let r = accept_granted_message x G kind grants msg c in
        passed r.0 + passing kind (kept grants r.0) msgs r.1

    -- Whatever messages are sent under an authorization whose limits all count calls, however often and
    -- with whatever funds and outcomes between them, no more of them pass than the limits together
    -- leave calls.
    pub passing-total_calls :
        (kind : Kind) (grants : List ContractGrant) (msgs : List Message) (c : Ctx G S)
        → AllCounted grants
        → passing kind grants msgs c ≤ total_calls grants
    unfolding passing
    passing-total_calls kind grants [] c k = omega arith
    passing-total_calls kind grants (msg ∷ msgs) c k =
        let r = accept_granted_message x G kind grants msg c in
        let (paid, counted) = message_paid kind grants msg k c in
        omega (arith, paid, passing-total_calls kind (kept grants r.0) msgs r.1 counted)
