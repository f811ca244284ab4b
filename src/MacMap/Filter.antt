-- ===== src/MacMap/Filter.antt =====
-- filterInByInstanceName of pkg/pool-manager/macpoolmap.go: the keys that an instance holds.
use kubemacpool.Prelude.{
  has_key-insert, ◌≡◌, refl, true, false, ◌&&◌, none, List, [], ◌∷◌, Text, text_eq, text_eq_iff,
  IsMap, lookup, get_or_zero, has_key, any_of, arith, if◌then◌else◌, Bool-cases, inl, inr,
}
use kubemacpool.MacMap.{
  MacEntry, MacMap, filter_in_entries, filter_in_loop, filter_in_by_instance_name,
}
use kubemacpool.MacMap.View.{holds_any, is_of}

has_key-filter_in_entries :
    (n key : Text) (es : List MacEntry) (acc : MacMap) (k : Text)
    → has_key k (filter_in_entries n key es acc)
      ≡ (if text_eq key k && any_of (is_of n) es then true else has_key k acc)
unfolding filter_in_entries is_of
has_key-filter_in_entries n key [] acc k = ground arith
has_key-filter_in_entries n key (e ∷ es) acc k = elim (Bool-cases (text_eq e.instance_name n)) [
  | inl hit ↦ rw hit (rw (has_key-filter_in_entries n key es _ k, has_key-insert) (ground arith))
  | inr miss ↦ rw miss (has_key-filter_in_entries n key es acc k)
]

holds_any-cons :
    (key : Text) (es : List MacEntry) (m : MacMap) (k n : Text)
    → holds_any ((key, es) ∷ m) k n
      ≡ (if text_eq key k then any_of (is_of n) es else holds_any m k n)
unfolding holds_any get_or_zero lookup
holds_any-cons key es m k n = ground arith

holds_any_missing : (m : MacMap) (k n : Text) → lookup k m ≡ none → holds_any m k n ≡ false
unfolding holds_any get_or_zero
holds_any_missing m k n e = rw (e, get_or_zero)

holds_any_shadowed :
    (m : MacMap) (key k n : Text)
    → lookup key m ≡ none
    → text_eq key k ≡ true
    → holds_any m k n ≡ false
holds_any_shadowed m key k n e same =
    rw (← (text_eq_iff key k).0 same) (holds_any_missing m key n e)

has_key-filter_in_loop :
    (n : Text) (m : MacMap) (acc : MacMap) (k : Text)
    → IsMap m
    → has_key k (filter_in_loop n m acc) ≡ (if holds_any m k n then true else has_key k acc)
unfolding filter_in_loop lookup
has_key-filter_in_loop n [] acc k h = rw (holds_any_missing [] k n refl)
has_key-filter_in_loop n ((key, es) ∷ m) acc k h =
    rw (has_key-filter_in_loop n m _ k h.1, has_key-filter_in_entries, holds_any-cons)
      (ground (arith, holds_any_shadowed m key k n h.0))

-- The keys of the filtered map are the addresses that the instance holds.
pub has_key-filter_in :
    (n : Text) (m : MacMap) (k : Text)
    → IsMap m
    → has_key k (filter_in_by_instance_name n m) ≡ holds_any m k n
unfolding filter_in_by_instance_name has_key lookup
has_key-filter_in n m k h = rw (has_key-filter_in_loop n m [] k h) (ground arith)
