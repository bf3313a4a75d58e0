-- ===== src/Dispatch/Sort.antt =====
-- The stable sort of event attributes by key (sort.SliceStable with strings.Compare).
use Prim.Native.String.{compare}
use Prim.Native.Nat.{Ordering}
use cosmwasgo.Base.{Bool, true, false, List, [], ◌∷◌, String, if◌then◌else◌}
use cosmwasgo.Vm.{EventAttribute}

-- `strings.Compare(a, b) < 0`
abbrev pub before : String → String → Bool
before a b = elim (compare a b) [ Ordering.lt ↦ true | _ ↦ false ]

-- an attribute that came earlier goes in front of those with the same key
unfoldable pub insert_by_key : EventAttribute → List EventAttribute → List EventAttribute
insert_by_key a [] = a ∷ []
insert_by_key a (b ∷ bs) = if before b.key a.key then b ∷ insert_by_key a bs else a ∷ b ∷ bs

unfoldable pub sort_by_key : List EventAttribute → List EventAttribute
unfolding insert_by_key
sort_by_key [] = []
sort_by_key (a ∷ bs) = insert_by_key a (sort_by_key bs)
