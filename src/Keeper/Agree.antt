-- ===== src/Keeper/Agree.antt =====
-- When two runs of a call over keepers that differ in how they handle responses are the same run, on
-- a meter with a bounded rest of gas.
pub mod Steps
pub mod Calls
pub mod Dispatch
pub mod Replies
use cosmwasgo.Base.{
  ℕ, ◌+◌, ◌-◌, ◌≤◌, ◌<◌, ◌≡◌, refl, sym, subst, ap, ◌∙◌, List, Option, none, some, arith,
}
use cosmwasgo.Base.Outcome.{
  Error, Panic, Outcome, ok, err, panic, Exec, lift, continue, rescue, ◌>>=◌,
}
use cosmwasgo.Vm.{Event}
use cosmwasgo.Sdk.{GasMeter, GasMeterLaws, panicked, consume_gas, emit}
use cosmwasgo.Keeper.State.{Store}
use cosmwasgo.Keeper.Host.{State, Effect, read_store, update_store, external}
use cosmwasgo.Keeper.Relation.{IsClosed}

-- No more than `k` gas is left on the meter, whose limit is a uint64 that was not exceeded.
pub record Left (G : GasMeter) (k : ℕ) (m : G.Meter) : Type 0 where
  pub word : G.limit m < 0x1_0000_0000_0000_0000
  pub within : G.consumed m ≤ G.limit m
  pub rest : G.limit m ≤ G.consumed m + k

pub Left-mono : (G : GasMeter) (k l : ℕ) (m : G.Meter) → k ≤ l → Left G k m → Left G l m
Left-mono G k l m h x = record { word = x.word; within = x.within; rest = omega (arith, x.rest) }

-- a call that does not panic leaves no more than `k`
abbrev pub Ends : (G : GasMeter) → ℕ → {A : Type 0} → Outcome A → G.Meter → Type 0
Ends G k (ok a) m = Left G k m
Ends G k (err e) m = Left G k m
Ends G k (panic p) m = Unit

pub Ends-Left :
    (G : GasMeter) (k : ℕ) {A : Type 0} (r : Outcome A) (m : G.Meter) → Left G k m → Ends G k r m
Ends-Left G k (ok a) m x = x
Ends-Left G k (err e) m x = x
Ends-Left G k (panic p) m x = tt

pub Ends-mono :
    (G : GasMeter) (k l : ℕ) {A : Type 0} (r : Outcome A) (m : G.Meter)
    → k ≤ l
    → Ends G k r m
    → Ends G l r m
Ends-mono G k l (ok a) m h x = Left-mono G k l m h x
Ends-mono G k l (err e) m h x = Left-mono G k l m h x
Ends-mono G k l (panic p) m h x = tt

-- with no more than `k` left, both runs are the same and leave no more than `l`
pub record Agrees (G : GasMeter) {E : Type 0} (k l : ℕ) {A : Type 0} (m m' : Exec (State G E) A)
    : Type 0 where
  pub same : (c : State G E) → Left G k c.meter → m c ≡ m' c
  pub ends : (c : State G E) → Left G k c.meter → Ends G l (m c).0 (m c).1.meter

module _ (G : GasMeter) {E : Type 0} where
  continue_same :
      {A B : Type 0} (k : ℕ) (r : Outcome A) (c : State G E) (f f' : A → Exec (State G E) B)
      → ((a : A) → Agrees G k k (f a) (f' a))
      → Ends G k r c.meter
      → continue r f c ≡ continue r f' c
  continue_same k (ok a) c f f' h x = (h a).same c x
  continue_same k (err e) c f f' h x = refl
  continue_same k (panic p) c f f' h x = refl

  continue-Ends :
      {A B : Type 0} (k : ℕ) (r : Outcome A) (c : State G E) (f f' : A → Exec (State G E) B)
      → ((a : A) → Agrees G k k (f a) (f' a))
      → Ends G k r c.meter
      → Ends G k (continue r f c).0 (continue r f c).1.meter
  continue-Ends k (ok a) c f f' h x = (h a).ends c x
  continue-Ends k (err e) c f f' h x = x
  continue-Ends k (panic p) c f f' h x = tt

  pub bind_agrees :
      {A B : Type 0} {k l : ℕ} {m m' : Exec (State G E) A} {f f' : A → Exec (State G E) B}
      → Agrees G k l m m'
      → ((a : A) → Agrees G l l (f a) (f' a))
      → Agrees G k l (m >>= f) (m' >>= f')
  bind_agrees {l} {m} {m'} {f} {f'} x h = record {
    same = λ c q.
        continue_same l (m c).0 (m c).1 f f' h (x.ends c q)
        ∙ ap (λ (r : Outcome _ × State G E). continue r.0 f' r.1) (x.same c q);
    ends = λ c q. continue-Ends l (m c).0 (m c).1 f f' h (x.ends c q);
  }

  rescue_same :
      {A : Type 0} (k : ℕ) (r : Outcome A) (c : State G E) (f f' : Error → Exec (State G E) A)
      → ((e : Error) → Agrees G k k (f e) (f' e))
      → Ends G k r c.meter
      → rescue r f c ≡ rescue r f' c
  rescue_same k (ok a) c f f' h x = refl
  rescue_same k (err e) c f f' h x = (h e).same c x
  rescue_same k (panic p) c f f' h x = refl

  rescue-Ends :
      {A : Type 0} (k : ℕ) (r : Outcome A) (c : State G E) (f f' : Error → Exec (State G E) A)
      → ((e : Error) → Agrees G k k (f e) (f' e))
      → Ends G k r c.meter
      → Ends G k (rescue r f c).0 (rescue r f c).1.meter
  rescue-Ends k (ok a) c f f' h x = x
  rescue-Ends k (err e) c f f' h x = (h e).ends c x
  rescue-Ends k (panic p) c f f' h x = tt

  pub rescue_agrees :
      {A : Type 0} {k l : ℕ} {m m' : Exec (State G E) A} (f f' : Error → Exec (State G E) A)
      → Agrees G k l m m'
      → ((e : Error) → Agrees G l l (f e) (f' e))
      → Agrees G k l (λ c. rescue (m c).0 f (m c).1) (λ c. rescue (m' c).0 f' (m' c).1)
  rescue_agrees {l} {m} {m'} f f' x h = record {
    same = λ c q.
        rescue_same l (m c).0 (m c).1 f f' h (x.ends c q)
        ∙ ap (λ (r : Outcome _ × State G E). rescue r.0 f' r.1) (x.same c q);
    ends = λ c q. rescue-Ends l (m c).0 (m c).1 f f' h (x.ends c q);
  }

  pub raise_agrees :
      {A : Type 0} {k l : ℕ} (j : ℕ) {m m' : Exec (State G E) A}
      → l ≤ j
      → Agrees G k l m m'
      → Agrees G k j m m'
  raise_agrees {l} j {m} h x = record {
    same = x.same;
    ends = λ c q. Ends-mono G l j (m c).0 (m c).1.meter h (x.ends c q);
  }

  -- a step that leaves the meter alone agrees with itself
  pub quiet_agrees :
      {A : Type 0} (k : ℕ) {m : Exec (State G E) A}
      → ((c : State G E) → (m c).1.meter ≡ c.meter)
      → Agrees G k k m m
  quiet_agrees k {m} e = record {
    same = λ c q. refl;
    ends = λ c q. Ends-Left G k (m c).0 (m c).1.meter (subst (Left G k) (sym (e c)) q);
  }

  pub lift_agrees : {A : Type 0} (k : ℕ) (r : Outcome A) → Agrees G {E = E} k k (lift r) (lift r)
  lift_agrees k r = quiet_agrees k (λ c. refl)

  pub emit_agrees :
      (k : ℕ) (events : List Event) → Agrees G {E = E} k k (emit G events) (emit G events)
  emit_agrees k events = quiet_agrees k (λ c. refl)

  pub read_agrees :
      {A : Type 0} (k : ℕ) (f : Store → A) → Agrees G {E = E} k k (read_store G f) (read_store G f)
  read_agrees k f = quiet_agrees k (λ c. refl)

  pub update_agrees :
      (k : ℕ) (f : Store → Store) → Agrees G {E = E} k k (update_store G f) (update_store G f)
  update_agrees k f = quiet_agrees k (λ c. refl)

  -- what another keeper does, where it goes by the meter
  pub external_agrees :
      {A : Type 0} (k : ℕ) (f : E → G.Meter → Effect G E A)
      → ((x : E) (m : G.Meter) → Left G k m → Ends G k (f x m).result (f x m).meter)
      → Agrees G k k (external G f) (external G f)
  external_agrees k f h = record { same = λ c q. refl; ends = λ c q. h c.store.ext c.meter q }

  pub agrees-IsClosed : (k : ℕ) → IsClosed G {E = E} (λ A m m'. Agrees G k k m m')
  agrees-IsClosed k = record {
    bind = λ A B m m' f f' x h. bind_agrees x h;
    lift = λ A r. lift_agrees k r;
    read = λ A f. read_agrees k f;
    rescue = λ A m m' f f' x h. rescue_agrees f f' x h;
  }

module _ (G : GasMeter) (laws : GasMeterLaws G) where
  consumed-Left :
      (k n : ℕ) (m m' : G.Meter) (r : Option Panic)
      → (r ≡ none → (G.consumed m' ≡ G.consumed m + n) × (G.consumed m + n ≤ G.limit m))
      → G.limit m' ≡ G.limit m
      → Left G k m
      → Ends G (k - n) (panicked r) m'
  consumed-Left k n m m' none h e x = record {
    word = omega (arith, e, x.word);
    within = omega (arith, e, h refl);
    rest = omega (arith, e, h refl, x.rest);
  }
  consumed-Left k n m m' (some p) h e x = tt

  -- consuming gas lowers what is left by as much
  pub consume_agrees :
      {E : Type 0} (k n : ℕ) → Agrees G {E = E} k (k - n) (consume_gas G n) (consume_gas G n)
  consume_agrees k n = record {
    same = λ c q. refl;
    ends = λ c q.
        consumed-Left k n c.meter (G.consume n c.meter).1 (G.consume n c.meter).0
          (laws.consume_none n c.meter) (laws.limit_consume n c.meter) q;
  }
