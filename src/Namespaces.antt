-- ===== src/Namespaces.antt =====
-- The part of pkg/pool-manager/pool.go that decides which namespaces KubeMacPool manages: the opt
-- mode that a webhook's namespace selector stands for, and what it says of a namespace.
pub mod Managed
pub mod Listing
use kubemacpool.Prelude.{
  ℕ, zero, suc, ◌+◌, ◌-◌, ◌*◌, ◌<◌, ◌≤◌, ◌≡◌, ◌≢◌, ◌⊎◌, ◌↔◌, inl, inr, refl, sym, ap, ◌∙◌, subst,
  Bool, true, false, not, ◌&&◌, ◌||◌, Option, none, some, List, [], ◌∷◌, ◌++◌, Text, codes, text_eq,
  text_eq_iff, text_eq_refl, GoMap, lookup, insert, delete, has_key, get_or_zero, IsMap, length,
  any_of, keep_if, All, arith, if◌then◌else◌, ◌==◌, Bool-cases, Option-cases, Result-cases,
  if_intro, if_split, Result, ok, err, Error, ◌>>=◌, ◌>>◌,
}
use kubemacpool.Client.{Requirement, LabelSelector, Webhook, Namespace, Client}
use kubemacpool.Paging.{paginate}

-- A text in the source: two constants, and whatever else a text can be.
pub data OptMode : Type 0 where
  opt_in opt_out : OptMode
  undefined : Text → OptMode

abbrev pub virtual_machines_webhook : Text
virtual_machines_webhook = codes "mutatevirtualmachines.kubemacpool.io"

abbrev pub pods_webhook : Text
pods_webhook = codes "mutatepods.kubemacpool.io"

unfoldable pub find_webhook : Text → List Webhook → Result Webhook
find_webhook name [] = err Error.webhook_not_found
find_webhook name (w ∷ ws) =
    let rest = find_webhook name ws in if text_eq w.name name then ok w else rest

unfoldable pub lookup_webhook : Client → Text → Result Webhook
lookup_webhook client name = elim client.webhooks [
  | none ↦ err Error.client_failed
  | some webhooks ↦ find_webhook name webhooks
]

unfoldable pub texts_eq : List Text → List Text → Bool
texts_eq [] [] = true
texts_eq (t ∷ ts) (u ∷ us) = text_eq t u && texts_eq ts us
texts_eq _ _ = false

-- `reflect.DeepEqual` of two requirements, the second with one value.
unfoldable pub is_requirement : Text → Text → Text → Requirement → Bool
is_requirement key operator value r =
    text_eq r.key key && (text_eq r.operator operator && texts_eq r.values (value ∷ []))

-- The first expression that stands for a mode decides.
unfoldable pub mode_of_expressions : Text → List Requirement → Option OptMode
mode_of_expressions name [] = none
mode_of_expressions name (r ∷ rs) =
    let rest = mode_of_expressions name rs in
    if is_requirement name (codes "In") (codes "allocate") r
    then some opt_in
    else if is_requirement name (codes "NotIn") (codes "ignore") r
    then some opt_out
    else rest

unfoldable pub get_opt_mode_from_webhook : Text → Option LabelSelector → Result OptMode
get_opt_mode_from_webhook name none = err Error.no_namespace_selector
get_opt_mode_from_webhook name (some selector) =
    elim (mode_of_expressions name selector.match_expressions) [
      | some mode ↦ ok mode
      | none ↦ elim (lookup name selector.match_labels) [
        | none ↦ err Error.opt_mode_undefined
        | some value ↦
            if text_eq value (codes "allocate") then ok opt_in else err Error.opt_mode_undefined
      ]
    ]

unfoldable pub get_opt_mode : Client → Text → Result OptMode
get_opt_mode client name =
    lookup_webhook client name >>= λ w. get_opt_mode_from_webhook name w.namespace_selector

unfoldable pub is_namespace_managed_by_default : OptMode → Result Bool
is_namespace_managed_by_default opt_in = ok false
is_namespace_managed_by_default opt_out = ok true
is_namespace_managed_by_default (undefined mode) = err Error.opt_mode_undefined

-- `none` for the selector is the nil selector, which converts to one that matches nothing.
unfoldable pub is_managed_by_selector :
    Client → Option LabelSelector → OptMode → GoMap Text → Bool → Result Bool
is_managed_by_selector client selector mode labels default =
    let matches : Option Bool = elim selector [
      | none ↦ some false
      | some s ↦ client.selects s labels
    ] in
    elim matches [
      | none ↦ err Error.selector_failed
      | some is_match ↦ elim mode [
        | opt_in ↦ if is_match then ok true else ok default
        | opt_out ↦ if not is_match then ok false else ok default
        | undefined t ↦ ok default
      ]
    ]

unfoldable pub is_namespace_managed_from_object :
    Client → Namespace → Option LabelSelector → OptMode → Result Bool
is_namespace_managed_from_object client namespace selector mode =
    is_namespace_managed_by_default mode >>= λ default. elim namespace.labels [
      | none ↦ ok default
      | some labels ↦ is_managed_by_selector client selector mode labels default
    ]

unfoldable pub is_namespace_managed : Client → Text → Text → Result Bool
is_namespace_managed client namespace webhook_name =
    lookup_webhook client webhook_name >>= λ webhook.
    get_opt_mode_from_webhook webhook_name webhook.namespace_selector >>= λ mode.
    elim (client.get_namespace namespace) [
      | none ↦ err Error.client_failed
      | some ns ↦ is_namespace_managed_from_object client ns webhook.namespace_selector mode
    ]

unfoldable pub is_virtual_machine_managed : Client → Text → Result Bool
is_virtual_machine_managed client namespace =
    is_namespace_managed client namespace virtual_machines_webhook

unfoldable pub is_pod_managed : Client → Text → Result Bool
is_pod_managed client namespace = is_namespace_managed client namespace pods_webhook

-- The loop over one page: a namespace whose check fails is skipped.
unfoldable pub add_managed :
    Client → Webhook → OptMode → List Namespace → GoMap (Unit {0}) → GoMap (Unit {0})
add_managed client webhook mode [] acc = acc
add_managed client webhook mode (ns ∷ rest) acc =
    elim (is_namespace_managed_from_object client ns webhook.namespace_selector mode) [
      | err e ↦ add_managed client webhook mode rest acc
      | ok managed ↦
          add_managed client webhook mode rest (if managed then insert ns.name tt acc else acc)
    ]

-- `fuel` bounds the pages that are asked for.
unfoldable pub get_managed_namespaces : ℕ → Client → Text → Result (GoMap (Unit {0}))
get_managed_namespaces fuel client webhook_name = lookup_webhook client webhook_name >>= λ webhook.
    get_opt_mode_from_webhook webhook_name webhook.namespace_selector >>= λ mode.
    let run =
      paginate fuel client.list_namespaces
        (λ items acc. (add_managed client webhook mode items acc, ok tt)) [] [] in
    elim run.1 [ err e ↦ err e | ok _ ↦ ok run.0 ]
