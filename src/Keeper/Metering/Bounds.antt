-- ===== src/Keeper/Metering/Bounds.antt =====
-- About the limits on recursion through queries and messages, and the discount on loading.
use cosmwasgo.Base.{
  ℕ, zero, suc, ◌+◌, ◌^◌, ◌≤◌, ◌<◌, ◌≡◌, true, false, List, ◌∷◌, some, arith, contains,
  bytes_eq_refl, Bool-cases, inl, inr, ◌-◌,
}
use cosmwasgo.Base.Outcome.{Outcome-cases, Outcome, ok, err, panic}
use cosmwasgo.Vm.{Bytes, word64, max_uint64}
use cosmwasgo.Gas.{Config, from_wasm_vm_gas}
use cosmwasgo.Gas.Convert.{from_wasm_vm_gas-le, from_wasm_vm_gas-zero}
use cosmwasgo.Sdk.{GasMeter, Ctx}
use cosmwasgo.Keeper.Host.{Values}
use cosmwasgo.Keeper.Metering.{
  runtime_gas_for_contract, check_discount_eligibility, value_or_zero,
  check_and_increase_query_stack_size, check_and_increase_call_depth,
}

-- n calls nested in one another, each of which passes the check
unfoldable pub nest : (Values → Outcome Values) → ℕ → Values → Outcome Values
nest check zero v = ok v
nest check (suc n) v = elim (check v) [
  | ok v' ↦ nest check n v'
  | err e ↦ err e
  | panic p ↦ panic p
]

-- a check that counts up to a maximum lets no more than that many calls be nested
module _ (size : Values → ℕ) (check : Values → Outcome Values) (max : ℕ)
    (step : (v v' : Values)
      → size v ≤ max
      → check v ≡ ok v'
      → (size v' ≡ size v + 1) × (size v' ≤ max)) where
  nest_bounded :
      (n : ℕ) (v v' : Values)
      → size v ≤ max
      → nest check n v ≡ ok v'
      → (size v' ≡ size v + n) × (size v' ≤ max)
  unfolding nest
  nest_bounded zero v v' h e = ground arith
  nest_bounded (suc n) v v' h e = elim (Outcome-cases (check v)) [
    | inl (w, k) ↦ ground (arith, step v w h k, nest_bounded n w v')
    | inr other ↦ ground arith
  ]

-- Where n smart queries nested in one another pass the check, the stack in the context grew by n and
-- is no larger than the maximum; and likewise n nested contract calls and the call depth.
recursion_bounded :
    (max n : ℕ) (v queried called : Values)
    → max + 1 < 2 ^ 32
    → value_or_zero v.query_stack_size ≤ max
    → value_or_zero v.call_depth ≤ max
    → nest (check_and_increase_query_stack_size max) n v ≡ ok queried
    → nest (check_and_increase_call_depth max) n v ≡ ok called
    → (value_or_zero queried.query_stack_size ≡ value_or_zero v.query_stack_size + n)
      × (value_or_zero queried.query_stack_size ≤ max)
      × (value_or_zero called.call_depth ≡ value_or_zero v.call_depth + n)
      × (value_or_zero called.call_depth ≤ max)
unfolding check_and_increase_query_stack_size check_and_increase_call_depth
recursion_bounded max n v queried called small hq hc eq ec =
    let (grown, within) =
      nest_bounded (λ w. value_or_zero w.query_stack_size) (check_and_increase_query_stack_size max)
        max (λ w w' h e. ground arith) n v queried hq eq in
    let (grown', within') =
      nest_bounded (λ w. value_or_zero w.call_depth) (check_and_increase_call_depth max) max
        (λ w w' h e. ground arith) n v called hc ec in
    (grown, within, grown', within')

module _ (G : GasMeter) {S : Type 0} where
  -- Within one transaction the second load of a code is discounted: after a check that found the code
  -- neither pinned nor loaded before, the next check grants the discount and changes nothing more,
  -- given a context that carries the transaction's contracts and a checksum that is not empty.
  second_load_discounted :
      (b : ℕ) (checksum : Bytes) (loaded : List Bytes) (c : Ctx G S)
      → c.tx_contracts ≡ some loaded
      → contains loaded (b ∷ checksum) ≡ false
      → let (r, c') = check_discount_eligibility G (b ∷ checksum) false c in
        (r ≡ ok false) × (check_discount_eligibility G (b ∷ checksum) false c' ≡ (ok true, c'))
  unfolding check_discount_eligibility
  second_load_discounted b checksum loaded c e k =
      ground (arith, bytes_eq_refl (b ∷ checksum), bytes_eq_refl checksum)

word64-sub : (l c : ℕ) → l < max_uint64 → c ≤ l → word64 (l + 0x1_0000_0000_0000_0000 - c) ≡ l - c
word64-sub l c h k = omega arith

module _ (G : GasMeter) where
  -- The gas that a contract may use and what is charged for it: where the contract used no more
  -- wasmvm gas than it was given, it costs no more SDK gas than the meter had left, given a meter
  -- that has a limit and did not pass it, and a multiplier that is not 0.
  pub runtime_gas_covered :
      (r : Config) (m : G.Meter) (given used : ℕ)
      → 0 < r.gas_multiplier
      → G.limit m < max_uint64
      → G.consumed_to_limit m ≤ G.limit m
      → runtime_gas_for_contract G r m ≡ ok given
      → used ≤ given
      → from_wasm_vm_gas r used ≤ G.limit m - G.consumed_to_limit m
  unfolding runtime_gas_for_contract
  runtime_gas_covered r m given used pos limited within e h =
      elim (Bool-cases (G.is_out_of_gas m)) [
        | inl out ↦ ground (arith, from_wasm_vm_gas-zero r used)
        | inr left ↦
            from_wasm_vm_gas-le r (G.limit m - G.consumed_to_limit m) given used pos
              (ground (arith, word64-sub (G.limit m) (G.consumed_to_limit m) limited within)) h
      ]
