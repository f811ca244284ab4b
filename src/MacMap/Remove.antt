-- ===== src/MacMap/Remove.antt =====
-- What removeInstanceFromMac of pkg/pool-manager/macpoolmap.go does to who holds what, and lemmas on
-- changes of the first entry of an instance.
use kubemacpool.Prelude.{
  keep_if, insert-IsMap, delete-IsMap, IsMap, ◌≡◌, ◌≢◌, inl, inr, refl, ap, true, false, List, [],
  ◌∷◌, Text, text_eq, text_eq_iff, any_of, arith, if◌then◌else◌, if_split,
}
use kubemacpool.Net.{new_mac_key}
use kubemacpool.MacMap.{MacEntry, MacMap, belongs_to, remove_instance_from_mac}
use kubemacpool.MacMap.View.{entries_at, entries_of, holds, holds_any, is_of, nonempty, IsCompact}
use kubemacpool.MacMap.Find.{
  store, erase_first, map_first, entries_at-store, store-IsCompact, remove_cases,
}

erase_first_absent :
    (n : Text) (es : List MacEntry) → any_of (is_of n) es ≡ false → erase_first n es ≡ es
unfolding erase_first
erase_first_absent n [] h = refl
erase_first_absent n (e ∷ es) h = ground (arith, erase_first_absent n es)

-- Entries of other instances stay.
any_of-erase_first :
    (n n' i' : Text) (es : List MacEntry)
    → n ≢ n'
    → any_of (belongs_to n' i') (erase_first n es) ≡ any_of (belongs_to n' i') es
unfolding erase_first is_of belongs_to
any_of-erase_first n n' i' [] ne = refl
any_of-erase_first n n' i' (e ∷ es) ne = ground (
  arith,
  any_of-erase_first n n' i' es ne,
  text_eq_iff e.instance_name n,
  text_eq_iff e.instance_name n',
)

-- A change that keeps who holds the address keeps the relation.
pub any_of-map_first :
    (n n' i' : Text) (f : MacEntry → MacEntry) (es : List MacEntry)
    → ((e : MacEntry) → belongs_to n' i' (f e) ≡ belongs_to n' i' e)
    → any_of (belongs_to n' i') (map_first n f es) ≡ any_of (belongs_to n' i') es
unfolding map_first
any_of-map_first n n' i' f [] keeps = refl
any_of-map_first n n' i' f (e ∷ es) keeps =
    ground (arith, keeps e, any_of-map_first n n' i' f es keeps)

pub nonempty-map_first :
    (n : Text) (f : MacEntry → MacEntry) (es : List MacEntry)
    → nonempty (map_first n f es) ≡ nonempty es
unfolding map_first nonempty
nonempty-map_first n f [] = refl
nonempty-map_first n f (e ∷ es) = ground arith

same_key {ℓ} :
    {A : Type ℓ} (f : List MacEntry → A) (k j : Text) (m : MacMap)
    → text_eq k j ≡ true
    → f (entries_at k m) ≡ f (entries_at j m)
same_key f k j m same = ap (λ k. f (entries_at k m)) ((text_eq_iff k j).0 same)

absent_at :
    (mac n : Text) (m : MacMap)
    → holds_any m (new_mac_key mac) n ≡ false
    → any_of (is_of n) (entries_at (new_mac_key mac) m) ≡ false
unfolding holds_any
absent_at mac n m h = h

-- removeInstanceFromMac takes the first entry of the instance out of the list under the key of the
-- address, and leaves the lists of all other keys as they were.
pub entries_at-remove :
    (mac n : Text) (m : MacMap) (k : Text)
    → entries_at k (remove_instance_from_mac mac n m)
      ≡ (if text_eq (new_mac_key mac) k then erase_first n (entries_at k m) else entries_at k m)
entries_at-remove mac n m k = elim (remove_cases mac n m) [
  | inl (absent, e) ↦ rw e (
      ground (
        arith,
        erase_first_absent n (entries_at k m),
        same_key (λ es. any_of (is_of n) es) (new_mac_key mac) k m,
        absent_at mac n m absent,
      ))
  | inr (present, e) ↦
      rw (e, entries_at-store) (ground (arith, same_key (erase_first n) (new_mac_key mac) k m))
]

-- removeInstanceFromMac leaves no key with an empty list where there was none before.
pub remove-IsCompact :
    (mac n : Text) (m : MacMap) → IsCompact m → IsCompact (remove_instance_from_mac mac n m)
remove-IsCompact mac n m compact = elim (remove_cases mac n m) [
  | inl (absent, e) ↦ rw e compact
  | inr (present, e) ↦ rw e (store-IsCompact _ _ m compact)
]

keep_if-erase_first :
    (n n' : Text) (es : List MacEntry)
    → n ≢ n'
    → keep_if (is_of n') (erase_first n es) ≡ keep_if (is_of n') es
unfolding erase_first is_of
keep_if-erase_first n n' [] ne = refl
keep_if-erase_first n n' (e ∷ es) ne = ground (
  arith,
  keep_if-erase_first n n' es ne,
  text_eq_iff e.instance_name n,
  text_eq_iff e.instance_name n',
)

-- A change of an entry that keeps its instance changes no entry of another one.
pub keep_if-map_first :
    (n n' : Text) (f : MacEntry → MacEntry) (es : List MacEntry)
    → ((e : MacEntry) → (f e).instance_name ≡ e.instance_name)
    → n ≢ n'
    → keep_if (is_of n') (map_first n f es) ≡ keep_if (is_of n') es
unfolding map_first is_of
keep_if-map_first n n' f [] keeps ne = refl
keep_if-map_first n n' f (e ∷ es) keeps ne =
    let same = ap (λ t. text_eq t n') (keeps e) in
    ground (
      arith,
      same,
      keep_if-map_first n n' f es keeps ne,
      text_eq_iff e.instance_name n,
      text_eq_iff e.instance_name n',
    )

-- removeInstanceFromMac leaves the entries of other instances as they were.
pub entries_of-remove :
    (mac n : Text) (m : MacMap) (k n' : Text)
    → n ≢ n'
    → entries_of n' k (remove_instance_from_mac mac n m) ≡ entries_of n' k m
entries_of-remove mac n m k n' ne = rw entries_at-remove (
    if_split (λ es. keep_if (is_of n') es ≡ entries_of n' k m) (text_eq (new_mac_key mac) k)
      (λ same. keep_if-erase_first n n' (entries_at k m) ne) (λ other. refl))

-- removeInstanceFromMac takes no address from an instance other than the one it is called for.
pub holds-remove_ne :
    (mac n : Text) (m : MacMap) (k n' i' : Text)
    → n ≢ n'
    → holds (remove_instance_from_mac mac n m) k n' i' ≡ holds m k n' i'
unfolding holds
holds-remove_ne mac n m k n' i' ne = rw entries_at-remove (
    if_split (λ es. any_of (belongs_to n' i') es ≡ any_of (belongs_to n' i') (entries_at k m))
      (text_eq (new_mac_key mac) k) (λ same. any_of-erase_first n n' i' (entries_at k m) ne)
      (λ other. refl))

store-IsMap : (k : Text) (es : List MacEntry) (m : MacMap) → IsMap m → IsMap (store k es m)
unfolding store
store-IsMap k [] m once = delete-IsMap k m once
store-IsMap k (e ∷ es) m once = insert-IsMap k (e ∷ es) m once

pub remove-IsMap : (mac n : Text) (m : MacMap) → IsMap m → IsMap (remove_instance_from_mac mac n m)
remove-IsMap mac n m once = elim (remove_cases mac n m) [
  | inl (absent, e) ↦ rw e once
  | inr (present, e) ↦ rw e (store-IsMap _ _ m once)
]
