-- ===== src/Namespaces/Managed.antt =====
-- What the opt modes of pkg/pool-manager/pool.go mean for a namespace.
use kubemacpool.Prelude.{
  some_inj, ok_inj, ◌≡◌, refl, ap, ◌∙◌, subst, Bool, true, false, not, Option, none, some, List, [],
  ◌∷◌, Text, codes, text_eq, GoMap, lookup, if◌then◌else◌, if_split, Result, ok, err, Error, ◌>>=◌,
}
use kubemacpool.Client.{Requirement, Client, Webhook, LabelSelector, Namespace}
use kubemacpool.Namespaces.{
  is_requirement, OptMode, opt_in, opt_out, undefined, lookup_webhook, get_opt_mode_from_webhook,
  mode_of_expressions, is_namespace_managed_by_default, is_managed_by_selector,
  is_namespace_managed_from_object, is_namespace_managed,
}

-- One of the two modes, as a selector can stand for.
abbrev pub IsMode : OptMode → Type 0
IsMode opt_in = Unit
IsMode opt_out = Unit
IsMode (undefined t) = ⊥

mode_of_expressions-IsMode :
    (name : Text) (rs : List Requirement) (mode : OptMode)
    → mode_of_expressions name rs ≡ some mode
    → IsMode mode
unfolding mode_of_expressions
mode_of_expressions-IsMode name [] mode h = cc
mode_of_expressions-IsMode name (r ∷ rs) mode h =
    if_split (λ o. o ≡ some mode → IsMode mode)
      (is_requirement name (codes "In") (codes "allocate") r) (λ _ e. subst IsMode (some_inj e) tt)
      (λ _.
        if_split (λ o. o ≡ some mode → IsMode mode)
          (is_requirement name (codes "NotIn") (codes "ignore") r)
          (λ _ e. subst IsMode (some_inj e) tt) (λ _. mode_of_expressions-IsMode name rs mode))
      h

-- A mode that a selector gives is one of the two.
pub get_opt_mode_from_webhook-IsMode :
    (name : Text) (selector : Option LabelSelector) (mode : OptMode)
    → get_opt_mode_from_webhook name selector ≡ ok mode
    → IsMode mode
unfolding get_opt_mode_from_webhook
get_opt_mode_from_webhook-IsMode name none mode h = cc
get_opt_mode_from_webhook-IsMode name (some selector) mode h =
    go (mode_of_expressions name selector.match_expressions) refl h
  where
    labels :
        (o : Option Text)
        → elim o as (λ _. Result OptMode) [
          | none ↦ err Error.opt_mode_undefined
          | some value ↦
              if text_eq value (codes "allocate") then ok opt_in else err Error.opt_mode_undefined
        ]
          ≡ ok mode
        → IsMode mode
    labels none h = cc
    labels (some value) h =
        if_split (λ (r : Result OptMode). r ≡ ok mode → IsMode mode)
          (text_eq value (codes "allocate")) (λ _ e. subst IsMode (ok_inj e) tt) (λ _ e. cc e) h

    go :
        (o : Option OptMode)
        → mode_of_expressions name selector.match_expressions ≡ o
        → elim o as (λ _. Result OptMode) [
          | some m ↦ ok m
          | none ↦ elim (lookup name selector.match_labels) [
            | none ↦ err Error.opt_mode_undefined
            | some value ↦
                if text_eq value (codes "allocate") then ok opt_in else err Error.opt_mode_undefined
          ]
        ]
          ≡ ok mode
        → IsMode mode
    go (some m) e h =
        mode_of_expressions-IsMode name selector.match_expressions mode (e ∙ ap some (ok_inj h))
    go none e h = labels (lookup name selector.match_labels) h

-- What a namespace without labels is.
abbrev pub by_default : OptMode → Bool
by_default opt_out = true
by_default _ = false

-- What the program is to decide: a namespace with labels by the selector, one without by the mode.
abbrev pub expected : Client → LabelSelector → OptMode → Option (GoMap Text) → Result Bool
expected client selector mode none = ok (by_default mode)
expected client selector mode (some labels) = elim (client.selects selector labels) [
  | none ↦ err Error.selector_failed
  | some is_match ↦ ok is_match
]

from_object_lem :
    (client : Client) (ns : Namespace) (selector : LabelSelector) (mode : OptMode)
    → IsMode mode
    → is_namespace_managed_from_object client ns (some selector) mode
      ≡ expected client selector mode ns.labels
unfolding is_namespace_managed_from_object is_namespace_managed_by_default is_managed_by_selector
from_object_lem client ns selector mode h = go mode h ns.labels
  where
    matched :
        (mode : OptMode)
        → IsMode mode
        → (labels : GoMap Text) → (o : Option Bool)
        → (is_namespace_managed_by_default mode >>= λ default. elim o as (λ _. Result Bool) [
          | none ↦ err Error.selector_failed
          | some is_match ↦ elim mode [
            | opt_in ↦ if is_match then ok true else ok default
            | opt_out ↦ if not is_match then ok false else ok default
            | undefined t ↦ ok default
          ]
        ])
          ≡ elim o [ none ↦ err Error.selector_failed | some is_match ↦ ok is_match ]
    matched opt_in h labels none = refl
    matched opt_in h labels (some true) = refl
    matched opt_in h labels (some false) = refl
    matched opt_out h labels none = refl
    matched opt_out h labels (some true) = refl
    matched opt_out h labels (some false) = refl
    matched (undefined t) h labels o = absurd h

    go :
        (mode : OptMode)
        → IsMode mode
        → (l : Option (GoMap Text))
        → (is_namespace_managed_by_default mode >>= λ default. elim l as (λ _. Result Bool) [
          | none ↦ ok default
          | some labels ↦ is_managed_by_selector client (some selector) mode labels default
        ])
          ≡ expected client selector mode l
    go opt_in h none = refl
    go opt_out h none = refl
    go (undefined t) h l = absurd h
    go opt_in h (some labels) = matched opt_in h labels (client.selects selector labels)
    go opt_out h (some labels) = matched opt_out h labels (client.selects selector labels)

-- Where the webhook, its opt mode and the namespace are found, a namespace with labels is managed
-- exactly if the selector of the webhook matches them, in both modes, and one without labels
-- exactly in the opt-out mode.
pub is_namespace_managed_lem :
    (client : Client) (namespace name : Text) (w : Webhook) (selector : LabelSelector)
    (mode : OptMode) (ns : Namespace)
    → lookup_webhook client name ≡ ok w
    → w.namespace_selector ≡ some selector
    → get_opt_mode_from_webhook name (some selector) ≡ ok mode
    → client.get_namespace namespace ≡ some ns
    → is_namespace_managed client namespace name ≡ expected client selector mode ns.labels
unfolding is_namespace_managed
is_namespace_managed_lem client namespace name w selector mode ns hw hs hm hn =
    simp (is_namespace_managed, hw, hs, hm, hn)
      (from_object_lem client ns selector mode
        (get_opt_mode_from_webhook-IsMode name (some selector) mode hm))
