-- ===== src/Keeper/Index.antt =====
-- The invariant of the keeper's store, which relates the record of a contract, its history and
-- the index of contracts by code, and the writes of instantiate and migrate under it.
pub mod Life
pub mod Move
pub mod Calls
pub mod Reach
use cosmwasgo.Base.{
  ℕ, ◌≡◌, refl, sym, ap, subst, ◌∙◌, Bool, true, false, ◌&&◌, List, [], ◌∷◌, ◌++◌, Option, none,
  some, arith, bytes_eq, bytes_eq_iff, bytes_eq_refl, ◌==◌, ==_iff, Bool-cases, if◌then◌else◌, inl,
  inr,
}
use cosmwasgo.Vm.{Bytes, word64}
use cosmwasgo.Keeper.State.{
  Position, position_eq, Store, ContractInfo, HistoryEntry, last_entry, last_position, set_by_code,
  append_to_contract_history, add_to_contract_code_index, remove_from_contract_code_index,
  add_to_contract_creator_index, store_contract_info,
}
use cosmwasgo.Keeper.Instantiate.{persist_instance}
use cosmwasgo.Keeper.Migrate.{persist_migration}

-- the code of a contract by its record, and by the last entry of its history
abbrev pub code_of : Option ContractInfo → Option ℕ
code_of none = none
code_of (some info) = some info.code_id

abbrev pub code_of_entry : Option HistoryEntry → Option ℕ
code_of_entry none = none
code_of_entry (some e) = some e.code_id

-- an entry is for this code and was made at this position
abbrev pub is_entry : Option HistoryEntry → ℕ → Position → Bool
is_entry none i p = false
is_entry (some e) i p = i == e.code_id && position_eq p e.updated

-- The code in a contract's record is that of the last entry of its history, and a contract without
-- a record has no history; and the index by code has a contract exactly under the code and the
-- position of that entry.
pub record IsConsistent (s : Store) : Type 0 where
  pub agree : (a : Bytes) → code_of_entry (last_entry (s.history a)) ≡ code_of (s.contracts a)
  pub indexed :
      (i : ℕ) (p : Position) (a : Bytes) → s.by_code i p a ≡ is_entry (last_entry (s.history a)) i p

last_entry-append :
    (xs : List (ℕ × HistoryEntry)) (p : ℕ) (e : HistoryEntry)
    → last_entry (xs ++ (p, e) ∷ []) ≡ some e
last_entry-append [] p e = refl
last_entry-append (x ∷ []) p e = refl
last_entry-append (x ∷ y ∷ xs) p e = last_entry-append (y ∷ xs) p e

-- a contract that has no record has no entry
no_entry : (x : Option HistoryEntry) → code_of_entry x ≡ none → x ≡ none
no_entry none e = refl
no_entry (some x) e = ground arith

if_absent : (x y old : Bool) → (if x && (y && false) then true else old) ≡ old
if_absent true true old = refl
if_absent true false old = refl
if_absent false y old = refl

if_absent_false : (x y old : Bool) → (if x && (y && false) then false else old) ≡ old
if_absent_false true true old = refl
if_absent_false true false old = refl
if_absent_false false y old = refl

module _ (s : Store) (addr : Bytes) (info : ContractInfo) (entry : HistoryEntry)
    (ok : IsConsistent s) (same : entry.code_id ≡ info.code_id) where
  pub persist_instance-IsConsistent :
      (creator : Bytes)
      → s.contracts addr ≡ none
      → IsConsistent (persist_instance creator addr info entry s)
  unfolding persist_instance append_to_contract_history add_to_contract_code_index
      add_to_contract_creator_index
  persist_instance-IsConsistent creator new = record {
    agree = λ a. elim (Bool-cases (bytes_eq a addr)) [
      | inl e ↦ rw (e, last_entry-append) (ap some same)
      | inr e ↦ rw e (ok.agree a)
    ];
    indexed = λ i p a. elim (Bool-cases (bytes_eq a addr)) [
      | inl e ↦
          rw (e, last_entry-append)
            (ground (
              arith,
              ok.indexed i p a,
              ap (λ x. is_entry x i p)
                  (no_entry (last_entry (s.history a))
                    (ok.agree a ∙ ap code_of (ap s.contracts ((bytes_eq_iff a addr).0 e) ∙ new))),
            ))
      | inr e ↦ rw (e, if_absent) (ok.indexed i p a)
    ];
  }

  pub persist_migration-IsConsistent :
      (last : HistoryEntry)
      → last_entry (s.history addr) ≡ some last
      → IsConsistent (persist_migration addr info last entry s)
  unfolding persist_migration append_to_contract_history add_to_contract_code_index
      remove_from_contract_code_index
  persist_migration-IsConsistent last found = record {
    agree = λ a. elim (Bool-cases (bytes_eq a addr)) [
      | inl e ↦ rw (e, last_entry-append) (ap some same)
      | inr e ↦ rw e (ok.agree a)
    ];
    indexed = λ i p a. elim (Bool-cases (bytes_eq a addr)) [
      | inl e ↦
          rw (e, last_entry-append)
            (ground (
              arith,
              ok.indexed i p a,
              ap (λ x. is_entry x i p)
                  (ap (λ y. last_entry (s.history y)) ((bytes_eq_iff a addr).0 e) ∙ found),
            ))
      | inr e ↦ rw (e, if_absent, if_absent_false) (ok.indexed i p a)
    ];
  }
