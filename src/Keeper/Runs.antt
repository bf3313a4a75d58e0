-- ===== src/Keeper/Runs.antt =====
-- Reasoning on the keeper's calls step by step: what holds of the store before a call, what holds of
-- its value and the store when it succeeds, and what holds however it ends.
use cosmwasgo.Base.{◌≡◌, refl, subst, Bool, true, false, Option, none, some, arith}
use cosmwasgo.Base.Outcome.{
  Error, Outcome, ok, err, panic, Exec, pure, lift, fail_if, continue, ◌>>=◌, is_ok, ok_inj,
}
use cosmwasgo.Sdk.{GasMeter}
use cosmwasgo.Keeper.State.{Store}
use cosmwasgo.Keeper.Host.{State, read_store, update_store}
use cosmwasgo.Keeper.Settings.{or_fail}
use cosmwasgo.Keeper.Entry.Isolation.{Keeps, same-Keeps}

module _ (R : Store → Type 0) where
  -- R holds after an error or a panic
  abbrev pub Post : {A : Type 0} → (A → Store → Type 0) → Outcome A → Store → Type 0
  Post Q (ok a) s = Q a s
  Post Q (err e) s = R s
  Post Q (panic p) s = R s

  Post-keeps :
      {A : Type 0} (P : Store → Type 0) (r : Outcome A) (s : Store)
      → (P s → R s)
      → P s
      → Post (λ a. P) r s
  Post-keeps P (ok a) s k h = h
  Post-keeps P (err e) s k h = k h
  Post-keeps P (panic p) s k h = k h

  pub Post-all : {A : Type 0} (r : Outcome A) (s : Store) → Post (λ a. R) r s → R s
  Post-all (ok a) s h = h
  Post-all (err e) s h = h
  Post-all (panic p) s h = h

  pub Post-ok :
      {A : Type 0} (Q : A → Store → Type 0) (r : Outcome A) (s : Store) (a : A)
      → Post Q r s
      → r ≡ ok a
      → Q a s
  Post-ok Q (ok b) s a h e = subst (λ x. Q x s) (ok_inj b a e) h
  Post-ok Q (err x) s a h e = ground arith
  Post-ok Q (panic x) s a h e = ground arith

  pub Post-refused :
      {A : Type 0} (Q : A → Store → Type 0) (r : Outcome A) (s : Store)
      → Post Q r s
      → is_ok r ≡ false
      → R s
  Post-refused Q (ok b) s h e = ground arith
  Post-refused Q (err x) s h e = h
  Post-refused Q (panic x) s h e = h

module _ (G : GasMeter) {E : Type 0} (R : Store → Type 0) where
  pub record Runs {A : Type 0} (P : Store → Type 0) (m : Exec (State G E) A)
      (Q : A → Store → Type 0) : Type 0 where
    pub runs : (c : State G E) → P c.store.wasm → Post R Q (m c).0 (m c).1.store.wasm

  continue_runs :
      {A B : Type 0} (Q : A → Store → Type 0) (Q' : B → Store → Type 0) (r : Outcome A)
      (c : State G E) (f : A → Exec (State G E) B)
      → ((a : A) → Runs (Q a) (f a) Q')
      → Post R Q r c.store.wasm
      → Post R Q' (continue r f c).0 (continue r f c).1.store.wasm
  continue_runs Q Q' (ok a) c f k h = (k a).runs c h
  continue_runs Q Q' (err e) c f k h = h
  continue_runs Q Q' (panic p) c f k h = h

  pub bind_runs :
      {A B : Type 0} {P : Store → Type 0} {m : Exec (State G E) A} {f : A → Exec (State G E) B}
      {Q : A → Store → Type 0} {Q' : B → Store → Type 0}
      → Runs P m Q
      → ((a : A) → Runs (Q a) (f a) Q')
      → Runs P (m >>= f) Q'
  bind_runs {m} {f} {Q} {Q'} k l = record {
    runs = λ c h. continue_runs Q Q' (m c).0 (m c).1 f l (k.runs c h);
  }

  pub keeps_runs :
      {A : Type 0} {P : Store → Type 0} {m : Exec (State G E) A}
      → ((s : Store) → P s → R s)
      → Keeps G P m
      → Runs P m (λ a. P)
  keeps_runs {P} {m} k l = record {
    runs = λ c h. Post-keeps R P (m c).0 (m c).1.store.wasm (k _) (l.keeps c h);
  }

  -- a step that keeps what held, and the rest
  pub then_runs :
      {A B : Type 0} {P : Store → Type 0} {m : Exec (State G E) A} {f : A → Exec (State G E) B}
      {Q : B → Store → Type 0}
      → ((s : Store) → P s → R s)
      → Keeps G P m
      → ((a : A) → Runs P (f a) Q)
      → Runs P (m >>= f) Q
  then_runs k l r = bind_runs (keeps_runs k l) r

  pub weaken :
      {A : Type 0} {P P' : Store → Type 0} {m : Exec (State G E) A} {Q : A → Store → Type 0}
      → ((s : Store) → P' s → P s)
      → Runs P m Q
      → Runs P' m Q
  weaken k l = record { runs = λ c h. l.runs c (k _ h) }

  pub return_runs :
      {A : Type 0} {P : Store → Type 0} (a : A) (Q : A → Store → Type 0)
      → ((s : Store) → P s → Q a s)
      → Runs P (pure a) Q
  return_runs a Q k = record { runs = λ c h. k _ h }

  pub lift_runs :
      {A : Type 0} {P : Store → Type 0} (r : Outcome A)
      → ((s : Store) → P s → R s)
      → Runs P (lift r) (λ a s. P s × (r ≡ ok a))
  lift_runs (ok a) k = record { runs = λ c h. (h, refl) }
  lift_runs (err e) k = record { runs = λ c h. k _ h }
  lift_runs (panic p) k = record { runs = λ c h. k _ h }

  pub update_runs :
      {P Q : Store → Type 0} (f : Store → Store)
      → ((s : Store) → P s → Q (f s))
      → Runs P (update_store G f) (λ u. Q)
  update_runs f k = record { runs = λ c h. k _ h }

  -- what is read is the part of the store
  pub read_runs :
      {A : Type 0} {P : Store → Type 0} (f : Store → A)
      → Runs P (read_store G f) (λ a s. P s × (a ≡ f s))
  read_runs f = record { runs = λ c h. (h, refl) }

  pub or_fail_runs :
      {A : Type 0} {P : Store → Type 0} (x : Option A) (e : Error)
      → ((s : Store) → P s → R s)
      → Runs P (or_fail x e) (λ a s. P s × (x ≡ some a))
  or_fail_runs none e k = record { runs = λ c h. k _ h }
  or_fail_runs (some a) e k = record { runs = λ c h. (h, refl) }

  pub fail_if_runs :
      {P : Store → Type 0} (b : Bool) (e : Error)
      → ((s : Store) → P s → R s)
      → Runs P (fail_if b e) (λ u s. P s × (b ≡ false))
  fail_if_runs true e k = record { runs = λ c h. k _ h }
  fail_if_runs false e k = record { runs = λ c h. (h, refl) }

  -- a run that ends in R whether it succeeds or not keeps what implies it
  pub runs_all :
      {A : Type 0} {P : Store → Type 0} {m : Exec (State G E) A}
      → Runs P m (λ a. R)
      → (c : State G E) → P c.store.wasm
      → R (m c).1.store.wasm
  runs_all {m} k c h = Post-all R (m c).0 (m c).1.store.wasm (k.runs c h)

module _ (G : GasMeter) {E : Type 0} (P : Store → Type 0) where
  pub read-Keeps : {A : Type 0} (f : Store → A) → Keeps G {E = E} P (read_store G f)
  read-Keeps f = same-Keeps G P (λ c. refl)

  pub or_fail-Keeps : {A : Type 0} (x : Option A) (e : Error) → Keeps G {E = E} P (or_fail x e)
  or_fail-Keeps none e = same-Keeps G P (λ c. refl)
  or_fail-Keeps (some a) e = same-Keeps G P (λ c. refl)

  pub fail_if-Keeps : (b : Bool) (e : Error) → Keeps G {E = E} P (fail_if b e)
  fail_if-Keeps true e = same-Keeps G P (λ c. refl)
  fail_if-Keeps false e = same-Keeps G P (λ c. refl)
