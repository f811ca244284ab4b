-- ===== src/Paging/Invariant.antt =====
-- What every round of a loop keeps, the loop keeps, however it ends.
use kubemacpool.Prelude.{
  ℕ, zero, suc, Bool, true, false, Option, none, some, List, [], ◌∷◌, Text, text_eq, Result, ok,
  err, Error,
}
use kubemacpool.Client.{Page}
use kubemacpool.Paging.{paginate, each_item}

module _ {ℓ κ} {A : Type ℓ} {S : Type κ} (I : S → Type 0) where
  pub each_item-invariant :
      (handle : A → S → S × Result (Unit {0}))
      → ((a : A) (s : S) → I s → I (handle a s).0)
      → (xs : List A) (s : S) → I s
      → I (each_item handle xs s).0
  each_item-invariant handle keeps [] s h = h
  each_item-invariant handle keeps (x ∷ xs) s h =
      go (handle x s).1 (keeps x s h)
        (each_item-invariant handle keeps xs (handle x s).0 (keeps x s h))
    where
      go :
          (r : Result (Unit {0}))
          → I (handle x s).0
          → I (each_item handle xs (handle x s).0).0
          → I
              (elim r as (λ _. S × Result (Unit {0})) [
                | err e ↦ ((handle x s).0, err e)
                | ok _ ↦ each_item handle xs (handle x s).0
              ]).0
      go (err e) here rest = here
      go (ok u) here rest = rest

  pub paginate-invariant :
      (list : Text → Option (Page A)) (handle : List A → S → S × Result (Unit {0}))
      → ((items : List A) (s : S) → I s → I (handle items s).0)
      → (fuel : ℕ) (token : Text) (s : S) → I s
      → I (paginate fuel list handle token s).0
  unfolding paginate
  paginate-invariant list handle keeps zero token s h = h
  paginate-invariant list handle keeps (suc fuel) token s h =
      page (paginate-invariant list handle keeps fuel) (list token)
    where
      last :
          ((continue : Text) (t : S) → I t → I (paginate fuel list handle continue t).0)
          → (items : List A) (continue : Text) (empty : Bool)
          → I
              (elim empty as (λ _. S × Result (Unit {0})) [
                | true ↦ ((handle items s).0, ok tt)
                | false ↦ paginate fuel list handle continue (handle items s).0
              ]).0
      last more items continue true = keeps items s h
      last more items continue false = more continue (handle items s).0 (keeps items s h)

      handled :
          ((continue : Text) (t : S) → I t → I (paginate fuel list handle continue t).0)
          → (items : List A) (continue : Text) (r : Result (Unit {0}))
          → I
              (elim r as (λ _. S × Result (Unit {0})) [
                | err e ↦ ((handle items s).0, err e)
                | ok _ ↦ elim (text_eq continue []) [
                  | true ↦ ((handle items s).0, ok tt)
                  | false ↦ paginate fuel list handle continue (handle items s).0
                ]
              ]).0
      handled more items continue (err e) = keeps items s h
      handled more items continue (ok u) = last more items continue (text_eq continue [])

      page :
          ((continue : Text) (t : S) → I t → I (paginate fuel list handle continue t).0)
          → (o : Option (Page A))
          → I
              (elim o as (λ _. S × Result (Unit {0})) [
                | none ↦ (s, err Error.client_failed)
                | some page ↦ elim (handle page.items s).1 [
                  | err e ↦ ((handle page.items s).0, err e)
                  | ok _ ↦ elim (text_eq page.continue []) [
                    | true ↦ ((handle page.items s).0, ok tt)
                    | false ↦ paginate fuel list handle page.continue (handle page.items s).0
                  ]
                ]
              ]).0
      page more none = h
      page more (some p) = handled more p.items p.continue (handle p.items s).1
