-- ===== src/Ante/Counter.antt =====
-- About the counter of the transactions of a block.
use cosmwasgo.Base.{
  ℕ, zero, suc, ◌+◌, ◌%◌, ◌^◌, ◌<◌, ◌≡◌, ◌≢◌, refl, ap, ◌∙◌, false, true, none, some, arith,
}
use cosmwasgo.Base.Outcome.{Outcome, ok, continue}
use cosmwasgo.Base.Words.{be32, from_be-be32, be64, from_be, take, drop, from_be-be64}
use cosmwasgo.Sdk.{GasMeter}
use cosmwasgo.Ante.{
  Context, Stored, Handler, encode_height_counter, decode_height_counter, stored_counter,
  counter_at, count_tx_decorator,
}

ok_pair : (a b c d : ℕ) → a ≡ b → c ≡ d → ◌≡◌ {A = Outcome (ℕ × ℕ)} (ok (a, c)) (ok (b, d))
ok_pair a b c d e k i = ok (e i, k i)

-- what is decoded is what was encoded
pub decode-encode :
    (height counter : ℕ)
    → height < 2 ^ 64
    → counter < 2 ^ 32
    → decode_height_counter (encode_height_counter height counter) ≡ ok (height, counter)
unfolding decode_height_counter encode_height_counter be64 from_be take drop
decode-encode height counter h k =
    ok_pair (from_be 0 (be64 height)) height (from_be 0 (be32 counter)) counter
      (from_be-be64 height h) (from_be-be32 counter k)

-- the store is new for a block: it has no counter, or that of another block
pub data IsNewFor (height : ℕ) : Stored → Type 0 where
  no_counter : IsNewFor height none
  other_block :
      (last counter : ℕ)
      → last < 2 ^ 64
      → counter < 2 ^ 32
      → last ≢ height
      → IsNewFor height (some (encode_height_counter last counter))

module _ (G : GasMeter) where
  -- a next handler that returns its context
  abbrev pub passes : Handler G
  passes ctx simulate store = (ok ctx, store)

  -- the store after a number of delivered transactions of a block
  abbrev pub delivered : Context G → ℕ → Stored → Stored
  delivered ctx zero store = store
  delivered ctx (suc n) store = (count_tx_decorator G passes ctx false (delivered ctx n store)).1

  first_counter :
      (height : ℕ) (store : Stored) → IsNewFor height store → stored_counter height store ≡ ok 0
  first_counter height none no_counter = refl
  first_counter height (some bz) (other_block last counter h k d) =
      ap (counter_at height) (decode-encode last counter h k) ∙ ground arith

  stored_next :
      (height counter : ℕ)
      → height < 2 ^ 64
      → counter < 2 ^ 32
      → stored_counter height (some (encode_height_counter height counter)) ≡ ok counter
  stored_next height counter h k =
      ap (counter_at height) (decode-encode height counter h k) ∙ ground arith

  after_one :
      (ctx : Context G) (store : Stored) (n : ℕ)
      → stored_counter ctx.block_height store ≡ ok n
      → count_tx_decorator G passes ctx false store ≡ (
        ok (record ctx { tx_counter = some n }),
        some (encode_height_counter ctx.block_height ((n + 1) % 2 ^ 32)),
      )
  unfolding count_tx_decorator
  after_one ctx store n e =
      ap
        (λ (r : Outcome ℕ).
          continue r
            (λ tx_counter s.
              passes (record ctx { tx_counter = some tx_counter }) false
                (some (encode_height_counter ctx.block_height ((tx_counter + 1) % 2 ^ 32))))
            store)
        e

  counted :
      (ctx : Context G) (store : Stored) (n : ℕ)
      → ctx.block_height < 2 ^ 64
      → IsNewFor ctx.block_height store
      → n < 2 ^ 32
      → stored_counter ctx.block_height (delivered ctx n store) ≡ ok n
  counted ctx store zero h new k = first_counter ctx.block_height store new
  counted ctx store (suc n) h new k =
      let before = counted ctx store n h new (omega (arith, k)) in
      let next = ap (λ r. r.1) (after_one ctx (delivered ctx n store) n before) in
      ap (stored_counter ctx.block_height) next
      ∙ stored_next ctx.block_height ((n + 1) % 2 ^ 32) h (omega arith)
      ∙ ap ok {x = (n + 1) % 2 ^ 32} {y = suc n} (omega (arith, k))

  -- Every transaction of a block gets the number of those that were delivered in the block before it,
  -- from a store that holds no counter or that of another block, up to 2 ^ 32 of them; a simulation
  -- is handed on with its context and the store as they are.
  pub count_tx_decorator_counts :
      (ctx : Context G) (store : Stored) (n : ℕ)
      → ctx.block_height < 2 ^ 64
      → IsNewFor ctx.block_height store
      → n < 2 ^ 32
      → ((count_tx_decorator G passes ctx false (delivered ctx n store)).0
          ≡ ok (record ctx { tx_counter = some n }))
        × (count_tx_decorator G passes ctx true (delivered ctx n store)
            ≡ (ok ctx, delivered ctx n store))
  unfolding count_tx_decorator
  count_tx_decorator_counts ctx store n h new k =
      (ap (λ r. r.0) (after_one ctx (delivered ctx n store) n (counted ctx store n h new k)), refl)
