-- ===== src/Access/Subset.antt =====
-- About IsSubset on access configurations (x/wasm/types/types.go and params.go).
use cosmwasgo.Base.{
  ◌≤◌, ◌≡◌, refl, true, List, [], ◌∷◌, arith, length, contains, bytes_eq_iff, ◌==◌,
}
use cosmwasgo.Base.Outcome.{ok}
use cosmwasgo.Vm.{Bytes}
use cosmwasgo.Access.{Bech32, AccessConfig, allowed, matches, is_subset_list, is_subset}

-- every element of `sub` is in `super`
abbrev pub Included : List Bytes → List Bytes → Type 0
Included sub super = (o : Bytes) → contains sub o ≡ true → contains super o ≡ true

matches-le : (super sub : List Bytes) → matches super sub ≤ length sub
matches-le super [] = omega arith
matches-le super (o ∷ sub) = ground (arith, matches-le super sub)

matches-Included :
    (super sub : List Bytes) → (matches super sub == length sub) ≡ true → Included sub super
matches-Included super [] h o e = cc
matches-Included super (x ∷ sub) h o e = ground (
  arith,
  matches-le super sub,
  bytes_eq_iff o x,
  matches-Included super sub,
  matches-Included super sub (ground (arith, matches-le super sub)) o,
)

is_subset_list-Included :
    (super sub : List Bytes) → is_subset_list super sub ≡ true → Included sub super
unfolding is_subset_list
is_subset_list-Included super [] h o e = cc
is_subset_list-Included super (x ∷ sub) h o e = matches-Included super (x ∷ sub) h o e

is_subset_list-contains :
    (super sub : List Bytes) (o : Bytes)
    → is_subset_list super sub ≡ true
    → contains sub o ≡ true
    → contains super o ≡ true
is_subset_list-contains super sub o h e = is_subset_list-Included super sub h o e

contains-tail :
    (x : Bytes) (xs : List Bytes) (o : Bytes) → contains xs o ≡ true → contains (x ∷ xs) o ≡ true
contains-tail x xs o h = ground arith

matches-eq : (super sub : List Bytes) → Included sub super → matches super sub ≡ length sub
matches-eq super [] h = omega arith
matches-eq super (x ∷ sub) h =
    ground
      (arith, h x, bytes_eq_iff x x, matches-eq super sub (λ o e. h o (contains-tail x sub o e)))

is_subset_list_complete :
    (super sub : List Bytes) → Included sub super → is_subset_list super sub ≡ true
unfolding is_subset_list
is_subset_list_complete super [] h = refl
is_subset_list_complete super (x ∷ sub) h = ground (arith, matches-eq super (x ∷ sub) h)

is_subset_list_trans :
    (xs ys zs : List Bytes)
    → is_subset_list ys xs ≡ true
    → is_subset_list zs ys ≡ true
    → is_subset_list zs xs ≡ true
is_subset_list_trans xs ys zs h k =
    is_subset_list_complete zs xs
      (λ o e. is_subset_list-Included zs ys k o (is_subset_list-Included ys xs h o e))

-- Where a configuration is a subset of another, every actor that it allows is allowed by the
-- other one, and the other one does not panic.
pub is_subset-allowed :
    (sdk : Bech32) (a super : AccessConfig) (actor : Bytes)
    → is_subset a super ≡ true
    → allowed sdk a actor ≡ ok true
    → allowed sdk super actor ≡ ok true
unfolding is_subset allowed
is_subset-allowed sdk a super actor h k =
    ground (arith, is_subset_list-contains super.addresses a.addresses (sdk.render actor))

-- Being a subset is transitive.
is_subset_trans :
    (a b c : AccessConfig) → is_subset a b ≡ true → is_subset b c ≡ true → is_subset a c ≡ true
unfolding is_subset
is_subset_trans a b c h k = ground (arith, is_subset_list_trans a.addresses b.addresses c.addresses)
