-- ===== src/Keeper/Handlers/Within.antt =====
-- The message handlers and the limit of the meter: where the services and the code of other packages
-- panic before they pass the limit, so do the handlers.
use cosmwasgo.Base.{ℕ, ◌+◌, ◌≤◌, ◌≡◌, refl, sym, subst, ◌∙◌, false, Option, none, some, arith}
use cosmwasgo.Base.Outcome.{Error, Panic, Outcome, ok, err, panic, Exec, continue, rescue}
use cosmwasgo.Vm.{Bytes, CosmosMsg}
use cosmwasgo.Sdk.{GasMeter, GasMeterLaws, panicked, consume_gas}
use cosmwasgo.Dispatch.Limit.{is_panic}
use cosmwasgo.Keeper.Host.{Values, State}
use cosmwasgo.Keeper.Server.{Answer}
use cosmwasgo.Keeper.Relation.{Relation, IsClosed}
use cosmwasgo.Keeper.Handlers.{Plugins, default_message_handler}
use cosmwasgo.Keeper.Handlers.Related.{PluginsRelated, messenger_related}
use cosmwasgo.Messages.{Message}

-- Unless the call panicked, the meter has this limit and did not pass it.
abbrev pub Stays : (G : GasMeter) → ℕ → {A : Type 0} → Outcome A → G.Meter → Type 0
Stays G l (ok a) m = (G.consumed m ≤ l) × (G.limit m ≡ l)
Stays G l (err e) m = (G.consumed m ≤ l) × (G.limit m ≡ l)
Stays G l (panic p) m = Unit

module _ (G : GasMeter) where
  Stays-same :
      {A : Type 0} (l : ℕ) (r : Outcome A) (m : G.Meter)
      → G.consumed m ≤ l
      → G.limit m ≡ l
      → Stays G l r m
  Stays-same l (ok a) m h k = (h, k)
  Stays-same l (err e) m h k = (h, k)
  Stays-same l (panic p) m h k = tt

  panicked-Stays :
      (l n : ℕ) (m m' : G.Meter) (r : Option Panic)
      → (r ≡ none → (G.consumed m' ≡ G.consumed m + n) × (G.consumed m + n ≤ G.limit m))
      → G.limit m' ≡ G.limit m
      → G.limit m ≡ l
      → Stays G l (panicked r) m'
  panicked-Stays l n m m' none h e k = (omega (arith, h refl, k), e ∙ k)
  panicked-Stays l n m m' (some p) h e k = tt

  within_limit :
      {A : Type 0} (l : ℕ) (r : Outcome A) (m : G.Meter)
      → Stays G l r m
      → is_panic r ≡ false
      → G.consumed m ≤ l
  within_limit l (ok a) m s h = s.0
  within_limit l (err e) m s h = s.0
  within_limit l (panic p) m s h = ground arith

module _ (G : GasMeter) {E : Type 0} where
  -- on a meter within its limit, a call stays within it or panics
  pub record IsWithin {A : Type 0} (m : Exec (State G E) A) : Type 0 where
    pub stays :
        (c : State G E) (l : ℕ)
        → G.consumed c.meter ≤ l
        → G.limit c.meter ≡ l
        → Stays G l (m c).0 (m c).1.meter

  -- ... as a relation that looks at one run
  abbrev pub Within : Relation G E
  Within A m m' = IsWithin m

  -- a call that leaves the meter alone
  pub quiet-IsWithin :
      {A : Type 0} {m : Exec (State G E) A}
      → ((c : State G E) → (m c).1.meter ≡ c.meter)
      → IsWithin m
  quiet-IsWithin {m} e = record {
    stays = λ c l h k. subst (Stays G l (m c).0) (sym (e c)) (Stays-same G l (m c).0 c.meter h k);
  }

  continue-Stays :
      {A B : Type 0} (l : ℕ) (r : Outcome A) (c : State G E) (f : A → Exec (State G E) B)
      → ((a : A) → IsWithin (f a))
      → Stays G l r c.meter
      → Stays G l (continue r f c).0 (continue r f c).1.meter
  continue-Stays l (ok a) c f k s = (k a).stays c l s.0 s.1
  continue-Stays l (err e) c f k s = s
  continue-Stays l (panic p) c f k s = tt

  rescue-Stays :
      {A : Type 0} (l : ℕ) (r : Outcome A) (c : State G E) (f : Error → Exec (State G E) A)
      → ((e : Error) → IsWithin (f e))
      → Stays G l r c.meter
      → Stays G l (rescue r f c).0 (rescue r f c).1.meter
  rescue-Stays l (ok a) c f k s = s
  rescue-Stays l (err e) c f k s = (k e).stays c l s.0 s.1
  rescue-Stays l (panic p) c f k s = tt

  pub Within-IsClosed : IsClosed G Within
  Within-IsClosed = record {
    bind = λ A B m m' f f' k h. record {
      stays = λ c l p q. continue-Stays l (m c).0 (m c).1 f h (k.stays c l p q);
    };
    lift = λ A r. quiet-IsWithin (λ c. refl);
    read = λ A f. quiet-IsWithin (λ c. refl);
    rescue = λ A m m' f f' k h. record {
      stays = λ c l p q. rescue-Stays l (m c).0 (m c).1 f h (k.stays c l p q);
    };
  }

  -- ConsumeGas panics where it passes the limit
  pub consume-IsWithin : GasMeterLaws G → (n : ℕ) → IsWithin (consume_gas G n)
  consume-IsWithin laws n = record {
    stays = λ c l h k.
        panicked-Stays G l n c.meter (G.consume n c.meter).1 (G.consume n c.meter).0
          (laws.consume_none n c.meter) (laws.limit_consume n c.meter) k;
  }

  -- the default message handler stays within the limit, or panics, where the services do
  pub default_message_handler-within :
      (p : Plugins G E) (plugins : PluginsRelated G Within p) (max : ℕ)
      (serve : Values → Message → Exec (State G E) Answer)
      → ((v : Values) (m : Message) → IsWithin (serve v m))
      → (v : Values) (addr port : Bytes) (msg : CosmosMsg) (c : State G E)
      → G.consumed c.meter ≤ G.limit c.meter
      → is_panic (default_message_handler G p max serve v addr port msg c).0 ≡ false
      → G.consumed (default_message_handler G p max serve v addr port msg c).1.meter
        ≤ G.limit c.meter
  default_message_handler-within p plugins max serve served v addr port msg c h =
      within_limit G (G.limit c.meter) (default_message_handler G p max serve v addr port msg c).0
        (default_message_handler G p max serve v addr port msg c).1.meter
        ((messenger_related G Within Within-IsClosed p plugins max serve serve v addr port
            (λ w m e. served w m) msg).stays
          c (G.limit c.meter) h refl)
