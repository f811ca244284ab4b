-- ===== src/Paging.antt =====
-- The loop that pkg/pool-manager writes three times: a list is asked for page by page, each page is
-- handled, and the token of the page asks for the next one until it is empty.
pub mod Chain
pub mod Each
pub mod Invariant
use kubemacpool.Prelude.{
  ◌∷◌, [], ℕ, zero, suc, Bool, true, false, Option, none, some, Text, text_eq, List, Result, ok,
  err, Error,
}
use kubemacpool.Client.{Page}

unfoldable pub paginate {ℓ κ} :
    {A : Type ℓ} {S : Type κ}
    → ℕ
    → (Text → Option (Page A))
    → (List A → S → S × Result (Unit {0}))
    → Text
    → S
    → S × Result (Unit {0})
paginate zero list handle token s = (s, err Error.out_of_fuel)
paginate (suc fuel) list handle token s = elim (list token) [
  | none ↦ (s, err Error.client_failed)
  | some page ↦ elim (handle page.items s).1 [
    | err e ↦ ((handle page.items s).0, err e)
    | ok _ ↦ elim (text_eq page.continue []) [
      | true ↦ ((handle page.items s).0, ok tt)
      | false ↦ paginate fuel list handle page.continue (handle page.items s).0
    ]
  ]
]

-- A range over a list whose body may return an error: the items in order, up to the first error.
abbrev pub each_item {ℓ κ} :
    {A : Type ℓ} {S : Type κ} → (A → S → S × Result (Unit {0})) → List A → S → S × Result (Unit {0})
each_item handle [] s = (s, ok tt)
each_item handle (x ∷ xs) s = elim (handle x s).1 [
  | err e ↦ ((handle x s).0, err e)
  | ok _ ↦ each_item handle xs (handle x s).0
]
