-- ===== src/MacMap/Update.antt =====
-- createOrUpdateEntry of pkg/pool-manager/macpoolmap.go adds one triple to the relation.
use kubemacpool.Prelude.{
  ap, ◌∙◌, if_split, false, keep_if, ap, ◌∙◌, keep_if, if_split, insert-IsMap, IsMap, ◌≡◌, refl,
  true, ◌&&◌, none, List, [], ◌∷◌, Text, text_eq, text_eq_iff, any_of, arith, if◌then◌else◌,
  Bool-cases, inl, inr,
}
use kubemacpool.Net.{new_mac_key}
use kubemacpool.MacMap.{false, MacEntry, MacMap, belongs_to, upsert_entry, create_or_update_entry}
use kubemacpool.MacMap.View.{
  is_of, entries_at, entries_of, is_of, holds, nonempty, IsCompact, entries_at-insert,
  insert-IsCompact,
}

-- The replaced or new entry belongs to its own interface, and to no other.
any_of-upsert_entry :
    (n i : Text) (new : MacEntry) (es : List MacEntry)
    → any_of (belongs_to n i) (upsert_entry new es)
      ≡ (if belongs_to n i new then true else any_of (belongs_to n i) es)
unfolding upsert_entry belongs_to
any_of-upsert_entry n i new [] = refl
any_of-upsert_entry n i new (e ∷ es) = ground (
  arith,
  any_of-upsert_entry n i new es,
  text_eq_iff e.instance_name new.instance_name,
  text_eq_iff e.mac_instance_key new.mac_instance_key,
)

-- After createOrUpdateEntry the instance and interface of the call hold the key of its address, and
-- every other pair of instance and interface holds what it held.
pub holds-create_or_update_entry :
    (mac n i : Text) (m : MacMap) (k n' i' : Text)
    → holds (create_or_update_entry mac n i m) k n' i' ≡ (
        if text_eq (new_mac_key mac) k && (text_eq n n' && text_eq i i')
        then true
        else holds m k n' i')
unfolding holds create_or_update_entry belongs_to
holds-create_or_update_entry mac n i m k n' i' = elim (Bool-cases (text_eq (new_mac_key mac) k)) [
  | inl same ↦
      let new : MacEntry = record {
        instance_name = n;
        mac_instance_key = i;
        transaction_timestamp = none;
      } in
      let e = (text_eq_iff _ _).0 same in
      let added = any_of-upsert_entry n' i' new (entries_at (new_mac_key mac) m) in
      rw (entries_at-insert, same) (rw (← e) (ground (arith, added)))
  | inr other ↦ rw (entries_at-insert, other)
]

keep_if-upsert_entry :
    (n : Text) (new : MacEntry) (es : List MacEntry)
    → text_eq new.instance_name n ≡ false
    → keep_if (is_of n) (upsert_entry new es) ≡ keep_if (is_of n) es
unfolding upsert_entry belongs_to is_of
keep_if-upsert_entry n new [] ne = ground (arith, ne)
keep_if-upsert_entry n new (e ∷ es) ne = ground (
  arith,
  ne,
  keep_if-upsert_entry n new es ne,
  ap (λ t. text_eq t n),
  text_eq_iff e.instance_name new.instance_name,
)

-- createOrUpdateEntry leaves the entries of other instances as they were.
pub entries_of-create :
    (mac n i : Text) (m : MacMap) (k n' : Text)
    → text_eq n n' ≡ false
    → entries_of n' k (create_or_update_entry mac n i m) ≡ entries_of n' k m
unfolding create_or_update_entry
entries_of-create mac n i m k n' ne = rw entries_at-insert (
    if_split (λ es. keep_if (is_of n') es ≡ entries_of n' k m) (text_eq (new_mac_key mac) k)
      (λ same.
        keep_if-upsert_entry n' _ (entries_at (new_mac_key mac) m) ne
        ∙ ap (λ k. entries_of n' k m) ((text_eq_iff (new_mac_key mac) k).0 same))
      (λ other. refl))

nonempty-upsert_entry :
    (new : MacEntry) (es : List MacEntry) → nonempty (upsert_entry new es) ≡ true
unfolding upsert_entry nonempty
nonempty-upsert_entry new [] = refl
nonempty-upsert_entry new (e ∷ es) = ground arith

-- Compact maps stay compact.
pub create_or_update_entry-IsCompact :
    (mac n i : Text) (m : MacMap) → IsCompact m → IsCompact (create_or_update_entry mac n i m)
unfolding create_or_update_entry
create_or_update_entry-IsCompact mac n i m compact =
    insert-IsCompact _ _ m (nonempty-upsert_entry _ _) compact

pub create_or_update_entry-IsMap :
    (mac n i : Text) (m : MacMap) → IsMap m → IsMap (create_or_update_entry mac n i m)
unfolding create_or_update_entry
create_or_update_entry-IsMap mac n i m once = insert-IsMap _ _ m once
