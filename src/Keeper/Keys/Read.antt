-- ===== src/Keeper/Keys/Read.antt =====
-- The entries of the keeper's store, and how the keys of keys.go are read back.
use cosmwasgo.Base.{
  ℕ, ◌-◌, ◌<◌, ◌≤◌, ◌^◌, ◌≡◌, refl, sym, ap, ◌∙◌, [], ◌∷◌, ◌++◌, length, length-append, ◌==◌,
  if◌then◌else◌, arith, All, ◌/◌, ◌%◌,
}
use cosmwasgo.Base.Outcome.{Outcome, ok}
use cosmwasgo.Base.Words.{
  be32, from_be-be32, be64, from_be, from_be-be64, length-be64, take, drop, take-append,
  drop-append,
}
use cosmwasgo.Vm.{Bytes}
use cosmwasgo.Keeper.State.{Position}
use cosmwasgo.Keeper.Keys.{position_bytes, get_async_packet_key}

-- the entries of the store; `async_ack` is a packet, by port, channel and sequence, that is acknowledged
-- later
pub data Entry : Type 0 where
  code pinned : ℕ → Entry
  contract : Bytes → Entry
  storage : Bytes → Bytes → Entry
  next_code next_contract params tx_counter : Entry
  history : Bytes → ℕ → Entry
  by_code : ℕ → Position → Bytes → Entry
  by_creator : Bytes → Position → Bytes → Entry
  async_ack : Bytes → Bytes → ℕ → Entry

abbrev pub IsNonzero : ℕ → Type 0
IsNonzero n = 1 ≤ n

-- Numbers fit into uint64, the address before the key of a contract's own storage has 32 bytes, a
-- creator's address has 1 to 255 bytes, a port has no byte 0, and a channel less than 2 ^ 24 bytes.
unfoldable pub Fits : Entry → Type 0
Fits (code id) = id < 2 ^ 64
Fits (pinned id) = id < 2 ^ 64
Fits (contract addr) = Unit
Fits (storage addr key) = length addr ≡ 32
Fits next_code = Unit
Fits next_contract = Unit
Fits params = Unit
Fits tx_counter = Unit
Fits (history addr pos) = pos < 2 ^ 64
Fits (by_code id p addr) = (id < 2 ^ 64) × (p.block_height < 2 ^ 64) × (p.tx_index < 2 ^ 64)
Fits (by_creator creator p addr) =
    (1 ≤ length creator)
    × (length creator ≤ 255)
    × (p.block_height < 2 ^ 64)
    × (p.tx_index < 2 ^ 64)
Fits (async_ack port channel sequence) =
    All IsNonzero port × (length channel < 2 ^ 24) × (sequence < 2 ^ 64)

-- reading a key back, by its first byte
unfoldable pub read_history : Bytes → Entry
read_history bs = history (take (length bs - 8) bs) (from_be 0 (drop (length bs - 8) bs))

read_position : Bytes → Position
read_position bs = record {
  block_height = from_be 0 (take 8 bs);
  tx_index = from_be 0 (take 8 (drop 8 bs));
}

unfoldable pub read_by_code : Bytes → Entry
unfolding read_position
read_by_code bs = by_code (from_be 0 (take 8 bs)) (read_position (drop 8 bs)) (drop 16 (drop 8 bs))

unfoldable pub read_by_creator : Bytes → Entry
unfolding read_position
read_by_creator [] = next_code
read_by_creator (n ∷ bs) = by_creator (take n bs) (read_position (drop n bs)) (drop 16 (drop n bs))

-- the bytes before the first 0, and the rest
until_zero : Bytes → Bytes × Bytes
until_zero [] = ([], [])
until_zero (b ∷ bs) =
    let rest = until_zero bs in if b == 0 then ([], b ∷ bs) else (b ∷ rest.0, rest.1)

read_packet : Bytes → Bytes → Entry
read_packet port bs =
    let n = from_be 0 (take 4 bs) in
    async_ack port (take n (drop 4 bs)) (from_be 0 (drop n (drop 4 bs)))

unfoldable pub read_async_ack : Bytes → Entry
unfolding until_zero read_packet
read_async_ack bs = read_packet (until_zero bs).0 (until_zero bs).1

unfoldable pub read : ℕ → Bytes → Entry
unfolding read_async_ack read_history read_by_code read_by_creator
read tag bs =
    if tag == 1
    then code (from_be 0 bs)
    else if tag == 7
    then pinned (from_be 0 bs)
    else if tag == 2
    then contract bs
    else if tag == 3
    then storage (take 32 bs) (drop 32 bs)
    else if tag == 5
    then read_history bs
    else if tag == 6
    then read_by_code bs
    else if tag == 8
    then tx_counter
    else if tag == 9
    then read_by_creator bs
    else if tag == 16
    then params
    else if tag == 17
    then read_async_ack bs
    else if length bs == 10
    then next_code
    else next_contract

unfoldable pub read_key : Bytes → Entry
unfolding read
read_key [] = next_code
read_key (tag ∷ bs) = read tag bs

pub take_at : (n : ℕ) (xs ys : Bytes) → length xs ≡ n → take n (xs ++ ys) ≡ xs
take_at n xs ys e = ap (λ k. take k (xs ++ ys)) (sym e) ∙ take-append xs ys

pub drop_at : (n : ℕ) (xs ys : Bytes) → length xs ≡ n → drop n (xs ++ ys) ≡ ys
drop_at n xs ys e = ap (λ k. drop k (xs ++ ys)) (sym e) ∙ drop-append xs ys

pub read_history-eq :
    (addr : Bytes) (pos : ℕ) → pos < 2 ^ 64 → read_history (addr ++ be64 pos) ≡ history addr pos
unfolding read_history
read_history-eq addr pos h =
    let n = length (addr ++ be64 pos) - 8 in
    let e : length addr ≡ n = omega (arith, length-append addr (be64 pos), length-be64 pos) in
    ap (λ a. history a (from_be 0 (drop n (addr ++ be64 pos)))) (take_at n addr (be64 pos) e)
    ∙ ap (λ b. history addr (from_be 0 b)) (drop_at n addr (be64 pos) e)
    ∙ ap (history addr) (from_be-be64 pos h)

read_position-eq :
    (p : Position) (rest : Bytes)
    → p.block_height < 2 ^ 64
    → p.tx_index < 2 ^ 64
    → read_position (position_bytes p ++ rest) ≡ p
unfolding read_position position_bytes be64 take drop
read_position-eq p rest h k =
    ap (λ i. record { block_height = i; tx_index = from_be 0 (be64 p.tx_index) })
      (from_be-be64 p.block_height h)
    ∙ ap (λ i. record { block_height = p.block_height; tx_index = i }) (from_be-be64 p.tx_index k)

pub read_by_code-eq :
    (id : ℕ) (p : Position) (addr : Bytes)
    → Fits (by_code id p addr)
    → read_by_code (be64 id ++ (position_bytes p ++ addr)) ≡ by_code id p addr
unfolding read_by_code position_bytes be64 take drop Fits
read_by_code-eq id p addr (h, k, l) =
    ap (λ i. by_code i (read_position (position_bytes p ++ addr)) addr) (from_be-be64 id h)
    ∙ ap (λ q. by_code id q addr) (read_position-eq p addr k l)

drop_position : (p : Position) (addr : Bytes) → drop 16 (position_bytes p ++ addr) ≡ addr
unfolding position_bytes be64 drop
drop_position p addr = refl

pub read_by_creator-eq :
    (creator : Bytes) (p : Position) (addr : Bytes)
    → p.block_height < 2 ^ 64
    → p.tx_index < 2 ^ 64
    → read_by_creator (length creator ∷ (creator ++ (position_bytes p ++ addr)))
      ≡ by_creator creator p addr
unfolding read_by_creator
read_by_creator-eq creator p addr k l =
    let rest = position_bytes p ++ addr in
    rw (take_at (length creator) creator rest refl, drop_at (length creator) creator rest refl)
      (rw (drop_position p addr)
        (ap (λ q. by_creator creator q addr) (read_position-eq p addr k l)))

until_zero-eq :
    (port ys : Bytes) → All IsNonzero port → until_zero (port ++ (0 ∷ ys)) ≡ (port, 0 ∷ ys)
unfolding until_zero
until_zero-eq [] ys h = refl
until_zero-eq (b ∷ port) ys h = ground (arith, until_zero-eq port ys h.1, h.0)

read_packet-eq :
    (port channel : Bytes) (sequence : ℕ)
    → length channel < 2 ^ 24
    → sequence < 2 ^ 64
    → read_packet port (get_async_packet_key channel sequence) ≡ async_ack port channel sequence
unfolding read_packet get_async_packet_key take drop
read_packet-eq port channel sequence h k =
    let n = length channel in
    let e : from_be 0 (be32 (n % 2 ^ 32)) ≡ n =
      from_be-be32 (n % 2 ^ 32) (omega arith) ∙ omega arith in
    let rest = channel ++ be64 sequence in
    ap (λ m. async_ack port (take m rest) (from_be 0 (drop m rest))) e
    ∙ rw (take_at n channel (be64 sequence) refl, drop_at n channel (be64 sequence) refl)
        (ap (async_ack port channel) (from_be-be64 sequence k))

-- the first byte of the length of a channel is 0
first_zero : (n : ℕ) → n < 2 ^ 24 → n % 2 ^ 32 / 2 ^ 24 % 256 ≡ 0
first_zero n h = omega arith

pub read_async_ack-eq :
    (port channel : Bytes) (sequence : ℕ)
    → All IsNonzero port
    → length channel < 2 ^ 24
    → sequence < 2 ^ 64
    → read_async_ack (port ++ get_async_packet_key channel sequence)
      ≡ async_ack port channel sequence
unfolding read_async_ack get_async_packet_key
read_async_ack-eq port channel sequence a h k =
    let n = length channel % 2 ^ 32 in
    let ys = n / 2 ^ 16 % 256 ∷ n / 2 ^ 8 % 256 ∷ n % 256 ∷ (channel ++ be64 sequence) in
    let zero_first = first_zero (length channel) h in
    ap (λ b. read_async_ack (port ++ (b ∷ ys))) zero_first
    ∙ ap (λ (x : Bytes × Bytes). read_packet x.0 x.1) (until_zero-eq port ys a)
    ∙ ap (λ b. read_packet port (b ∷ ys)) (sym zero_first)
    ∙ read_packet-eq port channel sequence h k

-- the entry of a key that there is
unfoldable pub read_made : Outcome Bytes → Entry
read_made (ok bs) = read_key bs
read_made _ = next_code
