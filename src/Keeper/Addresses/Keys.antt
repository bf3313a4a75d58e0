-- ===== src/Keeper/Addresses/Keys.antt =====
-- About the bytes that addresses are hashed from (addresses.go), and their length prefixes.
use cosmwasgo.Base.{ℕ, ◌^◌, ◌<◌, ◌≡◌, refl, ◌++◌, length}
use cosmwasgo.Base.Words.{be64, be64_inj, append_inj}
use cosmwasgo.Vm.{Bytes}
use cosmwasgo.Keeper.Addresses.{classic_key, uint64_length_prefix, predictable_key}

-- a slice and its length, with anything behind them
prefixed_inj :
    (a b xs ys : Bytes)
    → length a < 2 ^ 64
    → length b < 2 ^ 64
    → uint64_length_prefix a ++ xs ≡ uint64_length_prefix b ++ ys
    → (a ≡ b) × (xs ≡ ys)
unfolding uint64_length_prefix be64
prefixed_inj a b xs ys h k e =
    let (same_length, rest) =
      append_inj (be64 (length a)) (a ++ xs) (be64 (length b)) (b ++ ys) refl e in
    append_inj a xs b ys (be64_inj (length a) (length b) h k same_length) rest

last_inj : (a b : Bytes) → uint64_length_prefix a ≡ uint64_length_prefix b → a ≡ b
unfolding uint64_length_prefix be64
last_inj a b e = (append_inj (be64 (length a)) a (be64 (length b)) b refl e).1

-- what BuildContractAddressPredictable hashes
pub record Parts : Type 0 where
  pub checksum : Bytes
  pub creator : Bytes
  pub salt : Bytes
  pub init_msg : Bytes

pub key_of : Parts → Bytes
key_of p = predictable_key p.checksum p.creator p.salt p.init_msg

-- the lengths fit into uint64
pub record Fits (p : Parts) : Type 0 where
  pub checksum : length p.checksum < 2 ^ 64
  pub creator : length p.creator < 2 ^ 64
  pub salt : length p.salt < 2 ^ 64

-- The keys that predictable addresses are hashed from differ wherever the checksum, the creator, the
-- salt or the message do, for slices whose lengths fit into uint64.
pub predictable_key_inj :
    (p q : Parts)
    → Fits p
    → Fits q
    → key_of p ≡ key_of q
    → (p.checksum ≡ q.checksum)
      × (p.creator ≡ q.creator)
      × (p.salt ≡ q.salt)
      × (p.init_msg ≡ q.init_msg)
unfolding key_of predictable_key
predictable_key_inj p q fp fq e =
    let (e1, r1) = prefixed_inj p.checksum q.checksum _ _ fp.checksum fq.checksum e in
    let (e2, r2) = prefixed_inj p.creator q.creator _ _ fp.creator fq.creator r1 in
    let (e3, r3) = prefixed_inj p.salt q.salt _ _ fp.salt fq.salt r2 in
    (e1, e2, e3, last_inj p.init_msg q.init_msg r3)

-- The keys that classic addresses are hashed from differ wherever the code id or the instance id do.
classic_key_inj :
    (id n id' n' : ℕ)
    → id < 2 ^ 64
    → n < 2 ^ 64
    → id' < 2 ^ 64
    → n' < 2 ^ 64
    → classic_key id n ≡ classic_key id' n'
    → (id ≡ id') × (n ≡ n')
unfolding classic_key be64
classic_key_inj id n id' n' h k h' k' e =
    let (e1, e2) = append_inj (be64 id) (be64 n) (be64 id') (be64 n') refl e in
    (be64_inj id id' h h' e1, be64_inj n n' k k' e2)
