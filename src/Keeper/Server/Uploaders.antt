-- ===== src/Keeper/Server/Uploaders.antt =====
-- About the addresses that may upload code, as the server adds and removes them.
use cosmwasgo.Base.{
  Bool, true, not, ◌&&◌, ◌||◌, List, [], ◌∷◌, ◌++◌, ◌≡◌, refl, sym, ap, ◌∙◌, arith, bytes_eq,
  bytes_eq_iff, contains, if◌then◌else◌, inl, inr,
}
use cosmwasgo.Vm.{Bytes}
use cosmwasgo.Base.Outcome.{ok, Outcome-cases}
use cosmwasgo.Access.{is_any_of_addresses}
use cosmwasgo.Sdk.{GasMeter}
use cosmwasgo.Keeper.Host.{Values, State, Host}
use cosmwasgo.Keeper.Server.{
  Service, Answer, add_addresses, remove_addresses, with_addresses, checks,
  serve_code_upload_params, serve_add_code_upload_params_addresses,
  serve_remove_code_upload_params_addresses,
}
use cosmwasgo.Messages.{Message, MsgCodeUploadParamsAddresses}
use cosmwasgo.Messages.Validate.{validate}

contains-append :
    (xs ys : List Bytes) (x : Bytes) → contains (xs ++ ys) x ≡ contains xs x || contains ys x
contains-append [] ys x = refl
contains-append (z ∷ xs) ys x = ground (arith, contains-append xs ys x)

-- a test that is symmetric
bytes_eq_sym : (x y : Bytes) → bytes_eq x y ≡ bytes_eq y x
bytes_eq_sym [] [] = refl
bytes_eq_sym [] (b ∷ y) = refl
bytes_eq_sym (a ∷ x) [] = refl
bytes_eq_sym (a ∷ x) (b ∷ y) = ground (arith, bytes_eq_sym x y)

same_member : (xs : List Bytes) (x a : Bytes) → bytes_eq x a ≡ true → contains xs x ≡ contains xs a
same_member xs x a e = ap (contains xs) ((bytes_eq_iff x a).0 e)

add_one :
    (xs : List Bytes) (a x : Bytes)
    → contains (if contains xs a then xs else xs ++ (a ∷ [])) x ≡ contains xs x || bytes_eq x a
add_one xs a x = ground (arith, contains-append xs (a ∷ []) x, same_member xs x a)

add_addresses-contains :
    (xs req : List Bytes) (x : Bytes)
    → contains (add_addresses xs req) x ≡ contains xs x || contains req x
add_addresses-contains xs [] x = ground arith
add_addresses-contains xs (a ∷ req) x = ground (
  arith,
  add_addresses-contains (if contains xs a then xs else xs ++ (a ∷ [])) req x,
  add_one xs a x,
)

remove_addresses-contains :
    (xs req : List Bytes) (x : Bytes)
    → contains (remove_addresses xs req) x ≡ contains xs x && not (contains req x)
remove_addresses-contains [] req x = refl
remove_addresses-contains (a ∷ xs) req x =
    ground (arith, remove_addresses-contains xs req x, same_member req x a)

module _ (G : GasMeter) {E : Type 0} (h : Host G E) (s : Service) (v : Values) where
  abbrev pub uploaders : State G E → List Bytes
  uploaders c = c.store.wasm.params.code_upload_access.addresses

  abbrev pub with_uploaders : List Bytes → State G E → State G E
  with_uploaders addresses c = record c {
    store = record c.store {
      wasm = record c.store.wasm { params = with_addresses addresses c.store.wasm.params };
    };
  }

  -- the keeper that has been asked by the authority, and lists uploaders
  abbrev pub IsListing : Bytes → State G E → Type 0
  IsListing a c =
      (bytes_eq s.authority a ≡ true)
      × (is_any_of_addresses c.store.wasm.params.code_upload_access.permission ≡ true)

  changed :
      (m : Message) (a : Bytes) (f : List Bytes → List Bytes) (c : State G E) (r : Answer)
      → (serve_code_upload_params G h s v m a f c).0 ≡ ok r
      → IsListing a c
        × ((serve_code_upload_params G h s v m a f c).1 ≡ with_uploaders (f (uploaders c)) c)
  unfolding serve_code_upload_params
  changed m a f c r e = elim (Outcome-cases (validate (checks G h s) m)) [
    | inl x ↦ ground arith
    | inr (inl x) ↦ ground arith
    | inr (inr x) ↦ ground arith
  ]

  -- what changes the list is done for the authority only, and changes nothing else
  only_uploaders :
      (m : Message) (a : Bytes) (f : List Bytes → List Bytes) (c : State G E) (r : Answer)
      (x : Bytes) (b : Bool)
      → (serve_code_upload_params G h s v m a f c).0 ≡ ok r
      → contains (f (uploaders c)) x ≡ b
      → let after = (serve_code_upload_params G h s v m a f c).1 in
        IsListing a c
        × (after ≡ with_uploaders (uploaders after) c)
        × (contains (uploaders after) x ≡ b)
  only_uploaders m a f c r x b e q =
      let (listing, same) = changed m a f c r e in
      (
        listing,
        same ∙ ap (λ d. with_uploaders d c) (sym (ap uploaders same)),
        ap (λ d. contains d x) (ap uploaders same) ∙ q,
      )

  -- Addresses are added to those that may upload code only by the authority and where uploads are
  -- for listed addresses; after it exactly the former and the new addresses are listed, and nothing
  -- else has changed.
  pub uploaders_added :
      (m : MsgCodeUploadParamsAddresses) (c : State G E) (r : Answer) (x : Bytes)
      → (serve_add_code_upload_params_addresses G h s v m c).0 ≡ ok r
      → let after = (serve_add_code_upload_params_addresses G h s v m c).1 in
        IsListing m.authority c
        × (after ≡ with_uploaders (uploaders after) c)
        × (contains (uploaders after) x ≡ contains (uploaders c) x || contains m.addresses x)
  unfolding serve_add_code_upload_params_addresses
  uploaders_added m c r x e =
      only_uploaders (Message.add_code_upload_params_addresses m) m.authority
        (λ addresses. add_addresses addresses m.addresses) c r x _ e
        (add_addresses-contains (uploaders c) m.addresses x)

  -- Addresses are removed from those that may upload code only by the authority and where uploads are
  -- for listed addresses; after it exactly the former addresses that were not named are listed, and
  -- nothing else has changed.
  pub uploaders_removed :
      (m : MsgCodeUploadParamsAddresses) (c : State G E) (r : Answer) (x : Bytes)
      → (serve_remove_code_upload_params_addresses G h s v m c).0 ≡ ok r
      → let after = (serve_remove_code_upload_params_addresses G h s v m c).1 in
        IsListing m.authority c
        × (after ≡ with_uploaders (uploaders after) c)
        × (contains (uploaders after) x ≡ contains (uploaders c) x && not (contains m.addresses x))
  unfolding serve_remove_code_upload_params_addresses
  uploaders_removed m c r x e =
      only_uploaders (Message.remove_code_upload_params_addresses m) m.authority
        (λ addresses. remove_addresses addresses m.addresses) c r x _ e
        (remove_addresses-contains (uploaders c) m.addresses x)
