-- ===== src/Prelude/Maps.antt =====
-- Go's `map[string]V` as an association list. A `range` over the map visits the entries in the
-- order of the list; as a theorem is about every list, it covers every order of iteration.
use mathlib.Core.Path.{◌≡◌, refl}
use mathlib.Core.Bool.{Bool, true, false}
use mathlib.Core.Option.{Option, none, some}
use mathlib.Core.List.{List, [], ◌∷◌}
use native.Mathlib.Omega.{arith}
use kubemacpool.Prelude.Tests.{if◌then◌else◌}
use kubemacpool.Prelude.Texts.{Text, text_eq, text_eq_iff, text_eq_refl}

abbrev pub GoMap {ℓ} : Type ℓ → Type ℓ
GoMap V = List (Text × V)

module _ {ℓ} {V : Type ℓ} where
  unfoldable pub lookup : Text → GoMap V → Option V
  lookup k [] = none
  lookup k ((j, v) ∷ m) = let rest = lookup k m in if text_eq j k then some v else rest

  unfoldable pub insert : Text → V → GoMap V → GoMap V
  insert k v [] = (k, v) ∷ []
  insert k v ((j, w) ∷ m) =
      let rest = insert k v m in if text_eq j k then (k, v) ∷ m else (j, w) ∷ rest

  unfoldable pub delete : Text → GoMap V → GoMap V
  delete k [] = []
  delete k ((j, w) ∷ m) = let rest = delete k m in if text_eq j k then rest else (j, w) ∷ rest

  -- `m[k]` of a missing key is the zero value.
  unfoldable pub get_or_zero : V → Text → GoMap V → V
  get_or_zero z k m = elim (lookup k m) [ none ↦ z | some v ↦ v ]

  unfoldable pub has_key : Text → GoMap V → Bool
  has_key k m = elim (lookup k m) [ none ↦ false | some v ↦ true ]

  pub lookup-insert :
      (k j : Text) (v : V) (m : GoMap V)
      → lookup j (insert k v m) ≡ (if text_eq k j then some v else lookup j m)
  unfolding lookup insert
  lookup-insert k j v [] = refl
  lookup-insert k j v ((i, w) ∷ m) =
      ground (arith, text_eq_iff k j, text_eq_iff i k, text_eq_iff i j, lookup-insert k j v m)

  pub lookup-delete :
      (k j : Text) (m : GoMap V)
      → lookup j (delete k m) ≡ (if text_eq k j then none else lookup j m)
  unfolding lookup delete
  lookup-delete k j [] = ground arith
  lookup-delete k j ((i, w) ∷ m) =
      ground (arith, text_eq_iff k j, text_eq_iff i k, text_eq_iff i j, lookup-delete k j m)

  pub lookup-insert_self : (k : Text) (v : V) (m : GoMap V) → lookup k (insert k v m) ≡ some v
  lookup-insert_self k v m = simp (lookup-insert, text_eq_refl)

  pub lookup-delete_self : (k : Text) (m : GoMap V) → lookup k (delete k m) ≡ none
  lookup-delete_self k m = simp (lookup-delete, text_eq_refl)

  -- Each key stands once, as in a Go map.
  abbrev pub IsMap : GoMap V → Type ℓ
  IsMap [] = Unit
  IsMap ((k, v) ∷ m) = (lookup k m ≡ none) × IsMap m

  pub insert-IsMap : (k : Text) (v : V) (m : GoMap V) → IsMap m → IsMap (insert k v m)
  unfolding insert lookup
  insert-IsMap k v [] h = (refl, tt)
  insert-IsMap k v ((j, w) ∷ m) h =
      ground
        (arith, text_eq_iff j k, text_eq_iff k j, lookup-insert k j v m, insert-IsMap k v m h.1)

  pub delete-IsMap : (k : Text) (m : GoMap V) → IsMap m → IsMap (delete k m)
  unfolding delete lookup
  delete-IsMap k [] h = tt
  delete-IsMap k ((j, w) ∷ m) h =
      ground (arith, text_eq_iff j k, text_eq_iff k j, lookup-delete k j m, delete-IsMap k m h.1)

pub ruleset map_laws = (lookup-insert, lookup-delete, text_eq_refl)

module _ {ℓ} {V : Type ℓ} where
  pub get_or_zero_missing :
      (z : V) (k : Text) (m : GoMap V) → lookup k m ≡ none → get_or_zero z k m ≡ z
  unfolding get_or_zero
  get_or_zero_missing z k m e = rw (e, get_or_zero)

  pub get_or_zero_present :
      (z : V) (k : Text) (m : GoMap V) {v : V} → lookup k m ≡ some v → get_or_zero z k m ≡ v
  unfolding get_or_zero
  get_or_zero_present z k m e = rw (e, get_or_zero)

  pub has_key-insert :
      (k j : Text) (v : V) (m : GoMap V)
      → has_key j (insert k v m) ≡ (if text_eq k j then true else has_key j m)
  unfolding has_key
  has_key-insert k j v m = ground (arith, lookup-insert k j v m)
