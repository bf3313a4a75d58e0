-- ===== src/Keeper/Relation.antt =====
-- Relations between two runs of a call, over keepers that differ in how they handle responses: what
-- a relation must be closed under to be followed through the code.
use cosmwasgo.Base.{Bool, true, false, List, Option}
use cosmwasgo.Base.Outcome.{Error, Outcome, ok, err, Exec, lift, fail_if, rescue, ◌>>=◌}
use cosmwasgo.Vm.{Bytes, SubMsg}
use cosmwasgo.Sdk.{GasMeter}
use cosmwasgo.Keeper.State.{Store}
use cosmwasgo.Keeper.Host.{Values, State, Host, read_store}

abbrev pub Handler : GasMeter → Type 0 → Type 0
Handler G E = Values → Bytes → Bytes → List SubMsg → Option Bytes → Exec (State G E) (Option Bytes)

abbrev pub with_handler : (G : GasMeter) {E : Type 0} → Host G E → Handler G E → Host G E
with_handler G h f = record h { handle_response = f }

abbrev pub Relation : GasMeter → Type 0 → Type 1
Relation G E = (A : Type 0) → Exec (State G E) A → Exec (State G E) A → Type 0

pub record IsClosed (G : GasMeter) {E : Type 0} (R : Relation G E) : Type 1 where
  pub bind :
      (A B : Type 0) (m m' : Exec (State G E) A) (f f' : A → Exec (State G E) B)
      → R A m m'
      → ((a : A) → R B (f a) (f' a))
      → R B (m >>= f) (m' >>= f')
  pub lift : (A : Type 0) (r : Outcome A) → R A (lift r) (lift r)
  pub read : (A : Type 0) (f : Store → A) → R A (read_store G f) (read_store G f)
  pub rescue :
      (A : Type 0) (m m' : Exec (State G E) A) (f f' : Error → Exec (State G E) A)
      → R A m m'
      → ((e : Error) → R A (f e) (f' e))
      → R A (λ c. rescue (m c).0 f (m c).1) (λ c. rescue (m' c).0 f' (m' c).1)

module _ (G : GasMeter) {E : Type 0} {R : Relation G E} (closed : IsClosed G R) where
  pub bind_related :
      {A B : Type 0} {m m' : Exec (State G E) A} {f f' : A → Exec (State G E) B}
      → R A m m'
      → ((a : A) → R B (f a) (f' a))
      → R B (m >>= f) (m' >>= f')
  bind_related k l = closed.bind _ _ _ _ _ _ k l

  pub lift_related : {A : Type 0} (r : Outcome A) → R A (lift r) (lift r)
  lift_related r = closed.lift _ r

  pub fail_if_related : (b : Bool) (e : Error) → R (Unit {0}) (fail_if b e) (fail_if b e)
  fail_if_related true e = closed.lift _ (err e)
  fail_if_related false e = closed.lift _ (ok tt)
