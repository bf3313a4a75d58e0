-- ===== src/Keeper/Keys/Order.antt =====
-- About positions as bytes, and the order that iteration follows.
use cosmwasgo.Base.{
  ℕ, ◌+◌, ◌*◌, ◌<◌, ◌^◌, ◌≡◌, refl, sym, ap, ◌∙◌, Bool, true, false, ◌&&◌, ◌||◌, [], ◌∷◌, ◌++◌,
  length, bytes_eq, bytes_eq_iff, ==_iff, ◌%◌, ltb, ◌==◌, arith, All,
}
use cosmwasgo.Base.Words.{be64, from_be, from_be-be64, be64_inj, length-be64}
use cosmwasgo.Vm.{Bytes}
use cosmwasgo.Keeper.State.{Position}
use cosmwasgo.Keeper.Keys.{less_than, position_bytes}

-- the order of keys in the store: bytes.Compare(xs, ys) < 0
unfoldable pub before : Bytes → Bytes → Bool
before [] [] = false
before [] (y ∷ ys) = true
before (x ∷ xs) [] = false
before (x ∷ xs) (y ∷ ys) = let rest = before xs ys in ltb x y || (x == y && rest)

abbrev IsByte : ℕ → Type 0
IsByte n = n < 256

-- a larger number stays larger with as many bytes behind it
from_be_lt :
    (xs ys : Bytes) (a b : ℕ)
    → All IsByte xs
    → length xs ≡ length ys
    → a < b
    → from_be a xs < from_be b ys
unfolding from_be
from_be_lt [] [] a b h e k = k
from_be_lt [] (y ∷ ys) a b h e k = ground arith
from_be_lt (x ∷ xs) [] a b h e k = ground arith
from_be_lt (x ∷ xs) (y ∷ ys) a b h e k =
    from_be_lt xs ys (a * 256 + x) (b * 256 + y) h.1 (omega arith) (omega (arith, h.0))

before-from_be :
    (xs ys : Bytes) (a : ℕ)
    → All IsByte xs
    → All IsByte ys
    → length xs ≡ length ys
    → before xs ys ≡ ltb (from_be a xs) (from_be a ys)
unfolding before from_be
before-from_be [] [] a h k e = ground arith
before-from_be [] (y ∷ ys) a h k e = ground arith
before-from_be (x ∷ xs) [] a h k e = ground arith
before-from_be (x ∷ xs) (y ∷ ys) a h k e =
    let same_length : length xs ≡ length ys = omega arith in
    ground (
      arith,
      before-from_be xs ys (a * 256 + x) h.1 k.1 same_length,
      from_be_lt xs ys (a * 256 + x) (a * 256 + y) h.1 same_length,
      from_be_lt ys xs (a * 256 + y) (a * 256 + x) k.1 (sym same_length),
    )

be64-bytes : (n : ℕ) → All IsByte (be64 n)
unfolding be64
be64-bytes n =
    let byte : (m : ℕ) → IsByte (m % 256) = λ m. omega arith in
    (byte _, (byte _, (byte _, (byte _, (byte _, (byte _, (byte _, (byte n, tt))))))))

before-be64 : (m n : ℕ) → m < 2 ^ 64 → n < 2 ^ 64 → before (be64 m) (be64 n) ≡ ltb m n
unfolding be64
before-be64 m n h k =
    before-from_be (be64 m) (be64 n) 0 (be64-bytes m) (be64-bytes n) refl
    ∙ ap (λ x. ltb x (from_be 0 (be64 n))) (from_be-be64 m h)
    ∙ ap (ltb m) (from_be-be64 n k)

bytes_eq-be64 : (m n : ℕ) → m < 2 ^ 64 → n < 2 ^ 64 → bytes_eq (be64 m) (be64 n) ≡ (m == n)
bytes_eq-be64 m n h k = ground (arith, bytes_eq_iff (be64 m) (be64 n), be64_inj m n h k, ==_iff m n)

before-append :
    (xs us ys vs : Bytes)
    → length xs ≡ length us
    → before (xs ++ ys) (us ++ vs) ≡ (before xs us || (bytes_eq xs us && before ys vs))
unfolding before
before-append [] [] ys vs e = refl
before-append [] (u ∷ us) ys vs e = ground arith
before-append (x ∷ xs) [] ys vs e = ground arith
before-append (x ∷ xs) (u ∷ us) ys vs e = ground (arith, before-append xs us ys vs (omega arith))

-- The order of positions is the order of their bytes as keys of the store, for heights and indexes
-- that fit into uint64.
before-position_bytes :
    (a b : Position)
    → a.block_height < 2 ^ 64
    → a.tx_index < 2 ^ 64
    → b.block_height < 2 ^ 64
    → b.tx_index < 2 ^ 64
    → before (position_bytes a) (position_bytes b) ≡ less_than a b
unfolding position_bytes less_than
before-position_bytes a b h1 h2 h3 h4 =
    before-append (be64 a.block_height) (be64 b.block_height) (be64 a.tx_index) (be64 b.tx_index)
      (length-be64 a.block_height ∙ sym (length-be64 b.block_height))
    ∙ rw
        (
          before-be64 a.block_height b.block_height h1 h3,
          bytes_eq-be64 a.block_height b.block_height h1 h3,
          before-be64 a.tx_index b.tx_index h2 h4,
        )
        refl
