-- ===== src/MacMap/Count.antt =====
-- How many entries an instance has under a key of the map of pkg/pool-manager/macpoolmap.go, bounded
-- by the addresses of a list of new allocations.
use kubemacpool.Prelude.{
  ℕ, suc, ◌-◌, ◌≤◌, ◌≡◌, inl, inr, none, List, [], ◌∷◌, Text, text_eq, text_eq_iff, GoMap, lookup,
  insert, length, keep_if, arith, if◌then◌else◌, Bool-cases,
}
use kubemacpool.Net.{new_mac_key}
use kubemacpool.MacMap.{
  MacEntry, MacMap, upsert_entry, create_or_update_entry, remove_instance_from_mac,
}
use kubemacpool.MacMap.View.{entries_at, is_of, entries_at-insert}
use kubemacpool.MacMap.Find.{erase_first}
use kubemacpool.MacMap.Remove.{entries_at-remove}

abbrev pub count_of : Text → List MacEntry → ℕ
count_of n es = length (keep_if (is_of n) es)

-- The new allocations whose address has the key.
abbrev pub uses : Text → GoMap Text → ℕ
uses k [] = 0
uses k ((i, mac) ∷ news) =
    let rest = uses k news in if text_eq (new_mac_key mac) k then suc rest else rest

-- No more entries of the instance than allocations that account for them.
abbrev pub IsCovered : Text → GoMap Text → MacMap → Type 0
IsCovered n news m = (k : Text) → count_of n (entries_at k m) ≤ uses k news

count_of-upsert_entry :
    (n : Text) (new : MacEntry) (es : List MacEntry)
    → count_of n (upsert_entry new es) ≤ suc (count_of n es)
unfolding upsert_entry
count_of-upsert_entry n new [] = ground arith
count_of-upsert_entry n new (e ∷ es) = ground (arith, count_of-upsert_entry n new es)

count_of-erase_first :
    (n : Text) (es : List MacEntry) → count_of n (erase_first n es) ≡ count_of n es - 1
unfolding erase_first
count_of-erase_first n [] = omega arith
count_of-erase_first n (e ∷ es) = elim (Bool-cases (is_of n e)) [
  | inl first ↦ rw first (omega arith)
  | inr other ↦ rw other (rw other (count_of-erase_first n es))
]

uses-insert :
    (k i mac : Text) (news : GoMap Text)
    → lookup i news ≡ none
    → uses k (insert i mac news)
      ≡ (if text_eq (new_mac_key mac) k then suc (uses k news) else uses k news)
unfolding insert lookup
uses-insert k i mac [] h = ground arith
uses-insert k i mac ((j, v) ∷ news) h = ground (arith, uses-insert k i mac news)

pub create-IsCovered :
    (mac n i : Text) (news : GoMap Text) (m : MacMap)
    → lookup i news ≡ none
    → IsCovered n news m
    → IsCovered n (insert i mac news) (create_or_update_entry mac n i m)
unfolding create_or_update_entry
create-IsCovered mac n i news m missing covered k =
    let new : MacEntry = record {
      instance_name = n;
      mac_instance_key = i;
      transaction_timestamp = none;
    } in
    elim (Bool-cases (text_eq (new_mac_key mac) k)) [
      | inl same ↦
          let e = (text_eq_iff (new_mac_key mac) k).0 same in
          rw (entries_at-insert, uses-insert k i mac news missing, same)
            (rw e (omega (arith, count_of-upsert_entry n new (entries_at k m), covered k)))
      | inr other ↦ rw (entries_at-insert, uses-insert k i mac news missing, other) (covered k)
    ]

pub remove-IsCovered :
    (mac n i : Text) (news : GoMap Text) (m : MacMap)
    → IsCovered n ((i, mac) ∷ news) m
    → IsCovered n news (remove_instance_from_mac mac n m)
remove-IsCovered mac n i news m covered k = elim (Bool-cases (text_eq (new_mac_key mac) k)) [
  | inl same ↦
      rw (entries_at-remove, same)
        (let here : count_of n (entries_at k m) ≤ suc (uses k news) = rw same at (covered k) in
          omega (arith, count_of-erase_first n (entries_at k m), here))
  | inr other ↦ rw (entries_at-remove, other) (rw other at (covered k))
]
