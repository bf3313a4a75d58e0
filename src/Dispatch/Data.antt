-- ===== src/Dispatch/Data.antt =====
-- About the data that a contract call returns (DispatchSubmessages, Handle).
use cosmwasgo.Base.{◌≡◌, ap, ◌∙◌, refl, sym, List, [], ◌∷◌, Option, none, some}
use cosmwasgo.Base.Outcome.{Outcome, ok, err, panic, Exec, pure, continue, ◌>>=◌}
use cosmwasgo.Vm.{Bytes, SubMsg, Reply}
use cosmwasgo.Sdk.{GasMeter, ErrorInfo, Ctx}
use cosmwasgo.Dispatch.{
  Messenger, newer, dispatch_submessage, dispatch_from, dispatch_submessages, handle,
}

-- the last element that is there, or else the given one
abbrev pub last_some : Option Bytes → List (Option Bytes) → Option Bytes
last_some d [] = d
last_some d (none ∷ xs) = last_some d xs
last_some d (some x ∷ xs) = last_some (some x) xs

module _ {S A B C : Type 0} where
  continue_assoc :
      (r : Outcome A) (f : A → Exec S B) (g : B → Exec S C) (s : S)
      → (continue r f >>= g) s ≡ continue r (λ a. f a >>= g) s
  continue_assoc (ok a) f g s = refl
  continue_assoc (err e) f g s = refl
  continue_assoc (panic p) f g s = refl

module _ {S A B : Type 0} where
  continue_cong :
      (r : Outcome A) (f g : A → Exec S B) (s : S)
      → ((a : A) → f a s ≡ g a s)
      → continue r f s ≡ continue r g s
  continue_cong (ok a) f g s h = h a
  continue_cong (err e) f g s h = refl
  continue_cong (panic p) f g s h = refl

last_some-newer :
    (d e : Option Bytes) (ds : List (Option Bytes))
    → last_some (newer d e) ds ≡ last_some d (e ∷ ds)
last_some-newer d none ds = refl
last_some-newer d (some x) ds = refl

newer-last_some :
    (d e : Option Bytes) (ds : List (Option Bytes))
    → newer d (last_some e ds) ≡ last_some (newer d e) ds
newer-last_some d e [] = refl
newer-last_some d none (none ∷ ds) = newer-last_some d none ds
newer-last_some d (some y) (none ∷ ds) = newer-last_some d (some y) ds
newer-last_some d e (some x ∷ ds) = newer-last_some d (some x) ds

module _ (G : GasMeter) {S : Type 0} (info : ErrorInfo) (messenger : Messenger G S)
    (reply : Reply → Exec (Ctx G S) (Option Bytes)) where
  -- the sub-messages one after the other, with the data of every one
  pub collect : List SubMsg → Exec (Ctx G S) (List (Option Bytes))
  collect [] = pure []
  collect (msg ∷ msgs) =
      dispatch_submessage G info messenger reply msg >>= λ d. collect msgs >>= λ ds. pure (d ∷ ds)

  from-collect :
      (msgs : List SubMsg) (rsp : Option Bytes) (c : Ctx G S)
      → dispatch_from G info messenger reply rsp msgs c
        ≡ (collect msgs >>= λ ds. pure (last_some rsp ds)) c
  unfolding dispatch_from collect
  from-collect [] rsp c = refl
  from-collect (msg ∷ msgs) rsp c =
      let (r, c') = dispatch_submessage G info messenger reply msg c in
      let rest = λ (d : Option Bytes). collect msgs >>= λ ds. pure (d ∷ ds) in
      let finish = λ (ds : List (Option Bytes)). pure {S = Ctx G S} (last_some rsp ds) in
      continue_cong r (λ d. dispatch_from G info messenger reply (newer rsp d) msgs)
        (λ d. rest d >>= finish) c'
        (λ d.
          let (r', c'') = collect msgs c' in
          from-collect msgs (newer rsp d) c'
          ∙ continue_cong r' (λ ds. pure (last_some (newer rsp d) ds))
              (λ ds. pure (last_some rsp (d ∷ ds))) c''
              (λ ds. ap (λ (x : Option Bytes). (ok x, c'')) (last_some-newer rsp d ds))
          ∙ sym (continue_assoc r' (λ ds. pure (d ∷ ds)) finish c''))
      ∙ sym (continue_assoc r rest finish c')

  -- The data of a contract call is that of the last reply that returned any, and where none did,
  -- the data that the contract itself returned; errors and panics end the call as they come.
  pub handle-collect :
      (msgs : List SubMsg) (orig : Option Bytes) (c : Ctx G S)
      → handle G info messenger reply msgs orig c
        ≡ (collect msgs >>= λ ds. pure (last_some orig ds)) c
  unfolding handle dispatch_submessages
  handle-collect msgs orig c =
      let k = λ (rsp : Option Bytes). pure {S = Ctx G S} (newer orig rsp) in
      let (r, c') = collect msgs c in
      let answered : Option Bytes → Outcome (Option Bytes) × Ctx G S = λ d. (ok d, c') in
      ap (λ (p : Outcome (Option Bytes) × Ctx G S). continue p.0 k p.1) (from-collect msgs none c)
      ∙ (continue_assoc r (λ ds. pure (last_some none ds)) k c'
          ∙ continue_cong r (λ ds. pure (newer orig (last_some none ds)))
              (λ ds. pure (last_some orig ds)) c'
              (λ ds. ap answered (newer-last_some orig none ds)))
