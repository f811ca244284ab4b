-- ===== src/Paging/Chain.antt =====
-- Over a list that the API server cuts into finitely many pages the loop ends, and has handled the
-- pages in order.
use kubemacpool.Prelude.{
  ℕ, zero, suc, ◌≤◌, ◌≡◌, refl, false, Option, some, List, [], ◌∷◌, Text, text_eq, text_eq_refl,
  length, arith, Result, ok, err,
}
use kubemacpool.Client.{Page}
use kubemacpool.Paging.{each_item, ℕ, Option, ok, List, Text, Result, paginate}

-- The pages of a list from a token on: the token of each page but the last asks for the next one.
abbrev pub IsChain : {A : Type 0} → (Text → Option (Page A)) → Text → List (List A) → Type 0
IsChain list token [] = ⊥
IsChain list token (items ∷ []) = list token ≡ some (record { items = items; continue = [] })
IsChain list token (items ∷ more ∷ rest) =
    (next : Text) × (text_eq next [] ≡ false)
    × (list token ≡ some (record { items = items; continue = next }))
    × IsChain list next (more ∷ rest)

after_ok {ℓ} :
    {S : Type ℓ} (r : Result (Unit {0})) (s : S) {k l : S × Result (Unit {0})}
    → k ≡ l
    → elim r as (λ _. S × Result (Unit {0})) [ err e ↦ (s, err e) | ok _ ↦ k ]
      ≡ elim r [ err e ↦ (s, err e) | ok _ ↦ l ]
after_ok (err e) s same = refl
after_ok (ok u) s same = same

-- With fuel for as many pages as there are, the loop over a list that the API server cuts into
-- pages ends, and does what handling each page once, in order, up to the first error, does.
pub paginate-IsChain {κ} :
    {A : Type 0} {S : Type κ} (list : Text → Option (Page A))
    (handle : List A → S → S × Result (Unit {0})) (pages : List (List A)) (fuel : ℕ) (token : Text)
    (s : S)
    → IsChain list token pages
    → length pages ≤ fuel
    → paginate fuel list handle token s ≡ each_item handle pages s
unfolding paginate
paginate-IsChain list handle [] fuel token s chain enough = absurd chain
paginate-IsChain list handle (items ∷ pages) zero token s chain enough = absurd (omega arith)
paginate-IsChain list handle (items ∷ []) (suc fuel) token s chain enough =
    rw (chain, paginate)
      (after_ok (handle items s).1 (handle items s).0 (rw (text_eq_refl []) refl))
paginate-IsChain list handle (items ∷ more ∷ rest) (suc fuel) token s (next, nonempty, this, chain)
      enough =
    rw (this, paginate)
      (after_ok (handle items s).1 (handle items s).0 (
        rw nonempty (
          paginate-IsChain list handle (more ∷ rest) fuel next (handle items s).0 chain
            (omega arith))))
