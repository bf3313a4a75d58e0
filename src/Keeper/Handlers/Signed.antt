-- ===== src/Keeper/Handlers/Signed.antt =====
-- About the signers of the messages that a contract sends.
use cosmwasgo.Base.{
  Bool, true, false, not, List, [], ◌∷◌, ◌≡◌, refl, ap, ◌∙◌, arith, bytes_eq, any, inl, inr,
  Bool-cases,
}
use cosmwasgo.Base.Outcome.{
  Error, wrap, Outcome, ok, err, panic, is_ok, Exec, lift, fail_if, continue, ◌>>=◌, ◌>>◌,
}
use cosmwasgo.Vm.{Bytes, CosmosMsg}
use cosmwasgo.Sdk.{GasMeter}
use cosmwasgo.Keeper.State.{err_unauthorized}
use cosmwasgo.Keeper.Host.{Values, State}
use cosmwasgo.Keeper.Server.{Answer}
use cosmwasgo.Keeper.Handlers.{
  Plugins, SdkResult, validate_basic, route, handle_sdk_message, handle_all, sdk_message_handler,
}
use cosmwasgo.Keeper.Handlers.Encoders.{SdkMsg, encode}
use cosmwasgo.Messages.{Message}

module _ (G : GasMeter) {E : Type 0} (p : Plugins G E) where
  abbrev is_another : Bytes → Bytes → Bool
  is_another addr acct = not (bytes_eq addr acct)

  abbrev names_another : Bytes → Outcome (List Bytes) → Bool
  names_another addr (ok signers) = any (is_another addr) signers
  names_another addr (err e) = false
  names_another addr (panic q) = false

  -- a message that another account must sign
  abbrev pub signed_by_another : Bytes → SdkMsg → Bool
  signed_by_another addr m = names_another addr (p.signers m)

  module _ (serve : Message → Exec (State G E) Answer) (addr : Bytes) where
    guarded :
        (r : Outcome (Unit {0})) (signers : Outcome (List Bytes)) (e : Error)
        (rest : Exec (State G E) SdkResult) (c : State G E)
        → names_another addr signers ≡ true
        → let m = lift r >> (lift signers >>= λ s. fail_if (any (is_another addr) s) e >> rest) in
          (is_ok (m c).0 ≡ false) × ((m c).1 ≡ c)
    guarded (ok t) (ok signers) e rest c q = ground arith
    guarded (ok t) (err x) e rest c q = (refl, refl)
    guarded (ok t) (panic x) e rest c q = (refl, refl)
    guarded (err x) signers e rest c q = (refl, refl)
    guarded (panic x) signers e rest c q = (refl, refl)

    one_refused :
        (m : SdkMsg) (c : State G E)
        → signed_by_another addr m ≡ true
        → (is_ok (handle_sdk_message G p serve addr m c).0 ≡ false)
          × ((handle_sdk_message G p serve addr m c).1 ≡ c)
    unfolding handle_sdk_message
    one_refused m c q =
        guarded (validate_basic G p m) (p.signers m)
          (wrap err_unauthorized "contract doesn't have permission") (route G (p.router serve m)) c
          q

    continue_fails :
        {A B : Type 0} (r : Outcome A) (f : A → Exec (State G E) B) (c : State G E)
        → ((a : A) (d : State G E) → is_ok (f a d).0 ≡ false)
        → is_ok (continue r f c).0 ≡ false
    continue_fails (ok a) f c k = k a c
    continue_fails (err e) f c k = refl
    continue_fails (panic q) f c k = refl

    stays_failed :
        {A B : Type 0} (r : Outcome A) (f : A → Exec (State G E) B) (c : State G E)
        → is_ok r ≡ false
        → is_ok (continue r f c).0 ≡ false
    stays_failed (ok a) f c q = absurd cc
    stays_failed (err e) f c q = refl
    stays_failed (panic x) f c q = refl

    any_refused :
        (msgs : List SdkMsg) (c : State G E)
        → any (signed_by_another addr) msgs ≡ true
        → is_ok (handle_all G p serve addr msgs c).0 ≡ false
    unfolding handle_all
    any_refused [] c q = absurd cc
    any_refused (m ∷ msgs) c q = elim (Bool-cases (signed_by_another addr m)) [
      | inl y ↦
          stays_failed (handle_sdk_message G p serve addr m c).0 _
            (handle_sdk_message G p serve addr m c).1 (one_refused m c y).0
      | inr n ↦
          continue_fails (handle_sdk_message G p serve addr m c).0 _
            (handle_sdk_message G p serve addr m c).1
            (λ r d.
              stays_failed (handle_all G p serve addr msgs d).0 _
                (handle_all G p serve addr msgs d).1 (any_refused msgs d (ground arith)))
    ]

  -- A contract cannot act for another account: where one of the messages that its message is encoded
  -- as must be signed by an account other than the contract, handling it fails, wherever that message
  -- stands among them and whatever the others do.
  pub sdk_message_handler_signed :
      (serve : Values → Message → Exec (State G E) Answer) (v : Values) (addr port : Bytes)
      (msg : CosmosMsg) (msgs : List SdkMsg) (c : State G E)
      → encode p.coding v addr port msg ≡ ok msgs
      → any (signed_by_another addr) msgs ≡ true
      → is_ok (sdk_message_handler G p serve v addr port msg c).0 ≡ false
  unfolding sdk_message_handler
  sdk_message_handler_signed serve v addr port msg msgs c e q =
      ap (λ r. is_ok (continue r (λ ms. handle_all G p (serve v) addr ms) c).0) e
      ∙ any_refused (serve v) addr msgs c q
