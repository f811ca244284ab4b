-- ===== src/Paging/Each.antt =====
-- What a range over a list achieves item by item.
use kubemacpool.Prelude.{◌⊎◌, inl, inr, List, [], ◌∷◌, All, Result, ok, err, Error}
use kubemacpool.Paging.{each_item}

-- What holds of an outcome: `P` without an error, `E` of the error.
abbrev pub Done {ℓ} :
    {S : Type ℓ} → (Error → Type 0) → (S → Type 0) → S × Result (Unit {0}) → Type 0
Done E P (s, ok _) = P s
Done E P (s, err e) = E e

pub Done-map {ℓ} :
    {S : Type ℓ} (E F : Error → Type 0) (P Q : S → Type 0) (r : S × Result (Unit {0}))
    → ((e : Error) → E e → F e)
    → ((s : S) → P s → Q s)
    → Done E P r
    → Done F Q r
Done-map E F P Q (s, ok _) g f h = f s h
Done-map E F P Q (s, err e) g f h = g e h

-- The error is one that an item of the list makes.
abbrev pub FailsAt {ℓ} : {A : Type ℓ} → (A → Error → Type 0) → List A → Error → Type 0
FailsAt E [] e = ⊥
FailsAt E (x ∷ xs) e = E x e ⊎ FailsAt E xs e

-- What each item achieves and later items keep holds of all items at the end.
pub each_item-All {ℓ κ} :
    {A : Type ℓ} {S : Type κ} (E : A → Error → Type 0) (Keeps : S → S → Type 0) (P : A → S → Type 0)
    (handle : A → S → S × Result (Unit {0}))
    → ((s : S) → Keeps s s)
    → ((s t u : S) → Keeps s t → Keeps t u → Keeps s u)
    → ((a : A) (s t : S) → Keeps s t → P a s → P a t)
    → ((a : A) (s : S) → Done (E a) (λ t. Keeps s t × P a t) (handle a s))
    → (xs : List A) (s : S)
    → Done (FailsAt E xs) (λ t. Keeps s t × All (λ a. P a t) xs) (each_item handle xs s)
each_item-All E Keeps P handle here next moves step [] s = (here s, tt)
each_item-All {A} {S} E Keeps P handle here next moves step (x ∷ xs) s =
    go (handle x s) (step x s)
      (each_item-All E Keeps P handle here next moves step xs (handle x s).0)
  where
    last :
        (t : S) (r : S × Result (Unit {0}))
        → Keeps s t
        → P x t
        → Done (FailsAt E xs) (λ u. Keeps t u × All (λ a. P a u) xs) r
        → Done (FailsAt E (x ∷ xs)) (λ u. Keeps s u × (P x u × All (λ a. P a u) xs)) r
    last t (u, ok _) k p (k', rest) = (next s t u k k', (moves x t u k' p, rest))
    last t (u, err e) k p h = inr h

    go :
        (r : S × Result (Unit {0}))
        → Done (E x) (λ t. Keeps s t × P x t) r
        → Done (FailsAt E xs) (λ u. Keeps r.0 u × All (λ a. P a u) xs) (each_item handle xs r.0)
        → Done
            (FailsAt E (x ∷ xs))
            (λ u. Keeps s u × (P x u × All (λ a. P a u) xs))
            (elim r.1 as (λ _. S × Result (Unit {0})) [
              | err e ↦ (r.0, err e)
              | ok _ ↦ each_item handle xs r.0
            ])
    go (t, err e) h rest = inl h
    go (t, ok _) (k, p) rest = last t (each_item handle xs t) k p rest
