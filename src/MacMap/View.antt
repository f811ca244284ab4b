-- ===== src/MacMap/View.antt =====
-- The map of allocated addresses as a relation: which interface of which instance holds which
-- address (pkg/pool-manager/macpoolmap.go). Keys are normalised addresses.
use kubemacpool.Prelude.{
  refl, ap, ◌∙◌, ap, keep_if, ◌∙◌, ◌≡◌, Bool, true, false, some, List, [], ◌∷◌, Text, text_eq,
  lookup, insert, delete, get_or_zero, has_key, any_of, arith, lookup-insert, lookup-delete,
  if◌then◌else◌, Option-cases, inl, inr, sym,
}
use kubemacpool.MacMap.{MacEntry, MacMap, belongs_to}

-- The entries under a key; none if the key is missing.
abbrev pub entries_at : Text → MacMap → List MacEntry
entries_at k m = get_or_zero [] k m

-- The interface `i` of the instance `n` holds the address.
unfoldable pub holds : MacMap → Text → Text → Text → Bool
holds m k n i = any_of (belongs_to n i) (entries_at k m)

unfoldable pub is_of : Text → MacEntry → Bool
is_of n e = text_eq e.instance_name n

-- Some interface of the instance `n` holds the address.
unfoldable pub holds_any : MacMap → Text → Text → Bool
holds_any m k n = any_of (is_of n) (entries_at k m)

-- The entries of the instance `n` under a key, whole.
abbrev pub entries_of : Text → Text → MacMap → List MacEntry
entries_of n k m = keep_if (is_of n) (entries_at k m)

any_of-keep_if :
    (n i : Text) (es : List MacEntry)
    → any_of (belongs_to n i) (keep_if (is_of n) es) ≡ any_of (belongs_to n i) es
unfolding belongs_to is_of
any_of-keep_if n i [] = refl
any_of-keep_if n i (e ∷ es) = ground (arith, any_of-keep_if n i es)

-- Where the entries of an instance are the same, it holds the same.
pub holds-entries_of :
    (k n i : Text) (m m' : MacMap)
    → entries_of n k m' ≡ entries_of n k m
    → holds m' k n i ≡ holds m k n i
unfolding holds
holds-entries_of k n i m m' same =
    sym (any_of-keep_if n i (entries_at k m'))
    ∙ (ap (any_of (belongs_to n i)) same ∙ any_of-keep_if n i (entries_at k m))

-- No key has an empty list: a key is missing as soon as nothing holds the address.
unfoldable pub nonempty : List MacEntry → Bool
nonempty [] = false
nonempty (e ∷ es) = true

abbrev pub IsCompact : MacMap → Type 0
IsCompact m = (k : Text) (es : List MacEntry) → lookup k m ≡ some es → nonempty es ≡ true

pub entries_at-insert :
    (k j : Text) (es : List MacEntry) (m : MacMap)
    → entries_at j (insert k es m) ≡ (if text_eq k j then es else entries_at j m)
unfolding get_or_zero
entries_at-insert k j es m = ground (arith, lookup-insert k j es m)

pub entries_at-delete :
    (k j : Text) (m : MacMap)
    → entries_at j (delete k m) ≡ (if text_eq k j then [] else entries_at j m)
unfolding get_or_zero
entries_at-delete k j m = ground (arith, lookup-delete k j m)

-- In a compact map the keys are exactly the addresses that something holds.
pub has_key-nonempty :
    (k : Text) (m : MacMap) → IsCompact m → has_key k m ≡ nonempty (entries_at k m)
unfolding has_key get_or_zero nonempty
has_key-nonempty k m compact = elim (Option-cases (lookup k m)) [
  | inl e ↦ rw (e, has_key, nonempty)
  | inr (es, e) ↦ rw (e, has_key, nonempty) (sym (compact k es e))
]

pub insert-IsCompact :
    (k : Text) (es : List MacEntry) (m : MacMap)
    → nonempty es ≡ true
    → IsCompact m
    → IsCompact (insert k es m)
insert-IsCompact k es m ne compact j fs e = ground (arith, lookup-insert k j es m, compact j fs)

pub delete-IsCompact : (k : Text) (m : MacMap) → IsCompact m → IsCompact (delete k m)
delete-IsCompact k m compact j fs e = ground (arith, lookup-delete k j m, compact j fs)
