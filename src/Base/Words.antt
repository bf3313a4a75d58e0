-- ===== src/Base/Words.antt =====
-- Big-endian numbers (encoding/binary) and byte slices that are cut at a known length.
use cosmwasgo.Base.Lists.{length}
use Prim.Native.Nat.{ℕ, zero, suc, ◌+◌, ◌*◌, ◌/◌, ◌%◌, ◌^◌, ◌<◌}
use mathlib.Core.Path.{◌≡◌, refl, sym, ap, ◌∙◌}
use mathlib.Core.List.{List, [], ◌∷◌, ◌++◌}
use native.Mathlib.Omega.{arith}

-- binary.BigEndian.PutUint64 on eight bytes
unfoldable pub be64 : ℕ → List ℕ
be64 n =
    n / 2 ^ 56 % 256
    ∷ n / 2 ^ 48 % 256
    ∷ n / 2 ^ 40 % 256
    ∷ n / 2 ^ 32 % 256
    ∷ n / 2 ^ 24 % 256
    ∷ n / 2 ^ 16 % 256
    ∷ n / 2 ^ 8 % 256
    ∷ n % 256
    ∷ []

-- binary.BigEndian.PutUint32 on four bytes
abbrev pub be32 : ℕ → List ℕ
be32 n = n / 2 ^ 24 % 256 ∷ n / 2 ^ 16 % 256 ∷ n / 2 ^ 8 % 256 ∷ n % 256 ∷ []

-- binary.BigEndian.Uint64
unfoldable pub from_be : ℕ → List ℕ → ℕ
from_be acc [] = acc
from_be acc (b ∷ bs) = from_be (acc * 256 + b) bs

pub from_be-be32 : (n : ℕ) → n < 2 ^ 32 → from_be 0 (be32 n) ≡ n
unfolding from_be
from_be-be32 n h = omega arith

pub from_be-be64 : (n : ℕ) → n < 2 ^ 64 → from_be 0 (be64 n) ≡ n
unfolding from_be be64
from_be-be64 n h = omega arith

pub length-be64 : (n : ℕ) → length (be64 n) ≡ 8
unfolding be64
length-be64 n = refl

pub be64_inj : (m n : ℕ) → m < 2 ^ 64 → n < 2 ^ 64 → be64 m ≡ be64 n → m ≡ n
be64_inj m n h k e = sym (from_be-be64 m h) ∙ ap (from_be 0) e ∙ from_be-be64 n k

unfoldable pub take : ℕ → List ℕ → List ℕ
take zero xs = []
take (suc n) [] = []
take (suc n) (x ∷ xs) = x ∷ take n xs

unfoldable pub drop : ℕ → List ℕ → List ℕ
drop zero xs = xs
drop (suc n) [] = []
drop (suc n) (x ∷ xs) = drop n xs

pub take-append : (xs ys : List ℕ) → take (length xs) (xs ++ ys) ≡ xs
unfolding take
take-append [] ys = refl
take-append (x ∷ xs) ys = ap (◌∷◌ x) (take-append xs ys)

pub drop-append : (xs ys : List ℕ) → drop (length xs) (xs ++ ys) ≡ ys
unfolding drop
drop-append [] ys = refl
drop-append (x ∷ xs) ys = drop-append xs ys

-- two slices joined are cut in one way only, if the first ones are of the same length
pub append_inj :
    (xs ys us vs : List ℕ) → length xs ≡ length us → xs ++ ys ≡ us ++ vs → (xs ≡ us) × (ys ≡ vs)
append_inj xs ys us vs e k = (
  sym (take-append xs ys)
      ∙ ap (take (length xs)) k
      ∙ ap (λ n. take n (us ++ vs)) e
      ∙ take-append us vs,
  sym (drop-append xs ys)
      ∙ ap (drop (length xs)) k
      ∙ ap (λ n. drop n (us ++ vs)) e
      ∙ drop-append us vs,
)
