-- ===== src/Prelude/Texts.antt =====
-- Go strings as lists of code points, which the program takes apart, joins and compares.
use Prim.Native.Nat.{ℕ}
use Prim.Native.Char.{code}
use Prim.Native.String.{String}
use mathlib.Core.Path.{◌≡◌, refl}
use mathlib.Core.Logic.{◌↔◌, ◌≢◌}
use mathlib.Core.Bool.{Bool, true, false, ◌&&◌}
use mathlib.Core.List.{List, [], ◌∷◌, ◌++◌}
use native.Mathlib.Omega.{arith}
use kubemacpool.Prelude.Tests.{◌==◌, if◌then◌else◌}
use kubemacpool.Prelude.Lists.{All}

abbrev pub Text : Type 0
Text = List ℕ

-- The code points of a literal. `String` has its own `[]` and `∷`.
abbrev pub codes : String → Text
codes String.[] = []
codes (String.◌∷◌ c s) = code c ∷ codes s

unfoldable pub text_eq : Text → Text → Bool
text_eq [] [] = true
text_eq [] (y ∷ ys) = false
text_eq (x ∷ xs) [] = false
text_eq (x ∷ xs) (y ∷ ys) = (x == y) && text_eq xs ys

pub text_eq_iff : (a b : Text) → (text_eq a b ≡ true) ↔ (a ≡ b)
unfolding text_eq
text_eq_iff [] [] = ground arith
text_eq_iff [] (y ∷ ys) = ground arith
text_eq_iff (x ∷ xs) [] = ground arith
text_eq_iff (x ∷ xs) (y ∷ ys) = ground (arith, text_eq_iff xs ys)

pub text_eq_refl : (a : Text) → text_eq a a ≡ true
text_eq_refl a = (text_eq_iff a a).1 refl

pub text_eq_ne : (a b : Text) → a ≢ b → text_eq a b ≡ false
text_eq_ne a b h = ground (arith, text_eq_iff a b)

-- Go's `strings.Split(s, "/")`-style split at one separator: the parts, the last included.
unfoldable pub split_on : ℕ → Text → Text → List Text
split_on sep part [] = part ∷ []
split_on sep part (c ∷ cs) =
    let cut = part ∷ split_on sep [] cs in
    let more = split_on sep (part ++ c ∷ []) cs in if c == sep then cut else more

abbrev pub IsFree : ℕ → Text → Type 0
IsFree sep = All (λ c. c ≢ sep)
