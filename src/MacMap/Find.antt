-- ===== src/MacMap/Find.antt =====
-- findByMacAddressAndInstanceName of pkg/pool-manager/macpoolmap.go, and its callers by whether the
-- instance holds the address: each touches the first entry of the instance under the key.
use kubemacpool.Prelude.{
  ℕ, suc, ◌+◌, ◌≡◌, ◌⊎◌, inl, inr, refl, ap, true, false, Option, none, some, List, [], ◌∷◌, ◌++◌,
  Text, text_eq, lookup, insert, delete, any_of, length, set, take, drop, arith, if◌then◌else◌,
  Bool-cases, Option-cases, get_or_zero_missing, get_or_zero_present, ok, err, Error, ◌==◌,
}
use kubemacpool.Net.{new_mac_key}
use kubemacpool.MacMap.{
  MacEntry, MacMap, find_by_mac_address, find_instance, find_by_mac_address_and_instance_name,
  remove_instance_from_mac, clear_mac_transaction_from_mac_entry, stamp_mac, reset_transaction,
  set_transaction,
}
use kubemacpool.MacMap.View.{
  entries_at, holds_any, is_of, nonempty, IsCompact, entries_at-insert, entries_at-delete,
  insert-IsCompact, delete-IsCompact,
}

-- The list without its first entry of the instance.
unfoldable pub erase_first : Text → List MacEntry → List MacEntry
erase_first n [] = []
erase_first n (e ∷ es) = let rest = erase_first n es in if is_of n e then es else e ∷ rest

-- The list with its first entry of the instance changed.
unfoldable pub map_first : Text → (MacEntry → MacEntry) → List MacEntry → List MacEntry
map_first n f [] = []
map_first n f (e ∷ es) = let rest = map_first n f es in if is_of n e then f e ∷ es else e ∷ rest

-- What the index that findByMacAddressAndInstanceName returns is good for.
record FoundAt (n : Text) (es : List MacEntry) (e : MacEntry) (j : ℕ) : Type 0 where
  present : any_of (is_of n) es ≡ true
  erased : take j es ++ drop (j + 1) es ≡ erase_first n es
  changed : (f : MacEntry → MacEntry) → set es j (f e) ≡ map_first n f es

FoundAt-cons :
    (n : Text) (e : MacEntry) (es : List MacEntry) (found : MacEntry) (j : ℕ)
    → is_of n e ≡ false
    → FoundAt n es found j
    → FoundAt n (e ∷ es) found (suc j)
unfolding erase_first map_first
FoundAt-cons n e es found j other at = record {
  present = rw other at.present;
  erased =
      let step : suc j + 1 ≡ suc (j + 1) = omega arith in rw (step, other) (ap (◌∷◌ e) at.erased);
  changed = λ f. rw other (ap (◌∷◌ e) (at.changed f));
}

find_instance_cases :
    (n : Text) (i : ℕ) (es : List MacEntry)
    → ((find_instance n i es ≡ none) × (any_of (is_of n) es ≡ false))
      ⊎ ((e : MacEntry) × (j : ℕ) × (find_instance n i es ≡ some (e, i + j)) × FoundAt n es e j)
unfolding find_instance erase_first map_first is_of
find_instance_cases n i [] = inl (refl, refl)
find_instance_cases n i (e ∷ es) = elim (Bool-cases (is_of n e)) [
  | inl hit ↦
      inr (e, 0, ground arith, record { present = rw hit; erased = rw hit; changed = λ f. rw hit })
  | inr miss ↦ elim (find_instance_cases n (i + 1) es) [
    | inl (nothing, absent) ↦ inl (ground arith, rw miss absent)
    | inr (found, j, there, at) ↦
        inr (found, suc j, ground arith, FoundAt-cons n e es found j miss at)
  ]
]

-- A list of entries is written back, or its key deleted if it is empty.
unfoldable pub store : Text → List MacEntry → MacMap → MacMap
store k [] m = delete k m
store k (e ∷ es) m = insert k (e ∷ es) m

store_lem :
    (k : Text) (es : List MacEntry) (m : MacMap)
    → (if length es == 0 then delete k m else insert k es m) ≡ store k es m
unfolding store
store_lem k [] m = refl
store_lem k (e ∷ es) m = ground arith

pub entries_at-store :
    (k j : Text) (es : List MacEntry) (m : MacMap)
    → entries_at j (store k es m) ≡ (if text_eq k j then es else entries_at j m)
unfolding store
entries_at-store k j [] m = entries_at-delete k j m
entries_at-store k j (e ∷ es) m = entries_at-insert k j (e ∷ es) m

pub store-IsCompact :
    (k : Text) (es : List MacEntry) (m : MacMap) → IsCompact m → IsCompact (store k es m)
unfolding store nonempty
store-IsCompact k [] m compact = delete-IsCompact k m compact
store-IsCompact k (e ∷ es) m compact = insert-IsCompact k (e ∷ es) m refl compact

module _ (mac n : Text) (m : MacMap) where
  -- The search fails where the instance holds nothing, and else finds its first entry.
  find_cases :
      ((e : Error) × (find_by_mac_address_and_instance_name mac n m ≡ err e)
        × (holds_any m (new_mac_key mac) n ≡ false))
      ⊎ ((e : MacEntry) × (j : ℕ) × (find_by_mac_address_and_instance_name mac n m ≡ ok (e, j))
          × FoundAt n (entries_at (new_mac_key mac) m) e j)
  unfolding find_by_mac_address_and_instance_name find_by_mac_address holds_any
  find_cases = elim (Option-cases (lookup (new_mac_key mac) m)) [
    | inl missing ↦ inl (
      Error.entry_not_found,
      rw (missing, find_by_mac_address_and_instance_name),
      rw (get_or_zero_missing [] (new_mac_key mac) m missing),
    )
    | inr (es, present) ↦
        rw (get_or_zero_present [] (new_mac_key mac) m present) (elim (find_instance_cases n 0 es) [
          | inl (nothing, absent) ↦ inl (
            Error.entry_not_found,
            rw (present, find_by_mac_address_and_instance_name, nothing),
            absent,
          )
          | inr (e, j, there, at) ↦
              let there' : find_instance n 0 es ≡ some (e, j) = ground (arith, there) in
              inr (e, j, rw (present, find_by_mac_address_and_instance_name, there'), at)
        ])
  ]

  -- The entry of the instance is taken out, and the key with it if nothing else is left.
  pub remove_cases :
      ((holds_any m (new_mac_key mac) n ≡ false) × (remove_instance_from_mac mac n m ≡ m))
      ⊎ ((holds_any m (new_mac_key mac) n ≡ true)
          × (remove_instance_from_mac mac n m
              ≡ store (new_mac_key mac) (erase_first n (entries_at (new_mac_key mac) m)) m))
  unfolding remove_instance_from_mac holds_any
  remove_cases = elim find_cases [
    | inl (e, fails, absent) ↦ inl (absent, rw (fails, remove_instance_from_mac))
    | inr (e, j, finds, at) ↦
        inr (at.present, rw (finds, remove_instance_from_mac, at.erased) (store_lem _ _ m))
  ]

  pub clear_cases :
      ((holds_any m (new_mac_key mac) n ≡ false)
        × (clear_mac_transaction_from_mac_entry mac n m ≡ m))
      ⊎ ((holds_any m (new_mac_key mac) n ≡ true)
          × (clear_mac_transaction_from_mac_entry mac n m
              ≡ insert
                  (new_mac_key mac)
                  (map_first n reset_transaction (entries_at (new_mac_key mac) m))
                  m))
  unfolding clear_mac_transaction_from_mac_entry holds_any
  clear_cases = elim find_cases [
    | inl (e, fails, absent) ↦ inl (absent, rw (fails, clear_mac_transaction_from_mac_entry))
    | inr (e, j, finds, at) ↦
        inr (
          at.present,
          rw (finds, clear_mac_transaction_from_mac_entry, at.changed reset_transaction),
        )
  ]

  pub stamp_cases :
      (timestamp : Option ℕ)
      → ((holds_any m (new_mac_key mac) n ≡ false)
          × (e : Error) × (stamp_mac n timestamp mac m ≡ err e))
        ⊎ ((holds_any m (new_mac_key mac) n ≡ true)
            × (stamp_mac n timestamp mac m
                ≡ ok (
                    insert
                      (new_mac_key mac)
                      (map_first n
                        (λ e. set_transaction e timestamp)
                        (entries_at (new_mac_key mac) m))
                      m)))
  unfolding stamp_mac holds_any
  stamp_cases timestamp = elim find_cases [
    | inl (e, fails, absent) ↦ inl (absent, e, rw (fails, stamp_mac))
    | inr (e, j, finds, at) ↦
        inr (at.present, rw (finds, stamp_mac, at.changed (λ e. set_transaction e timestamp)))
  ]
