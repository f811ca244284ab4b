-- ===== src/Namespaces/Listing.antt =====
-- getManagedNamespaces of pkg/pool-manager/pool.go: the namespaces of all pages that are managed.
use kubemacpool.Prelude.{
  has_key-insert, ℕ, ◌≤◌, ◌≡◌, inl, inr, refl, ap, ◌∙◌, Bool, true, false, ◌&&◌, List, [], ◌∷◌,
  Text, text_eq, GoMap, lookup, insert, has_key, length, any_of, arith, if◌then◌else◌, Result-cases,
  Result, ok, err,
}
use kubemacpool.Client.{Client, Webhook, Namespace}
use kubemacpool.Paging.{each_item}
use kubemacpool.Paging.Chain.{IsChain, paginate-IsChain}
use kubemacpool.Namespaces.{
  OptMode, lookup_webhook, get_opt_mode_from_webhook, is_namespace_managed_from_object, add_managed,
  get_managed_namespaces,
}

-- The check of the namespace succeeds and says that it is managed.
abbrev pub is_managed : Client → Webhook → OptMode → Namespace → Bool
is_managed client webhook mode ns =
    elim (is_namespace_managed_from_object client ns webhook.namespace_selector mode) [
      | err e ↦ false
      | ok managed ↦ managed
    ]

-- A managed namespace of that name is on the page.
abbrev pub lists : Client → Webhook → OptMode → Text → List Namespace → Bool
lists client webhook mode name =
    any_of (λ ns. text_eq ns.name name && is_managed client webhook mode ns)

module _ (client : Client) (webhook : Webhook) (mode : OptMode) (name : Text) where
  has_key-add_managed :
      (items : List Namespace) (acc : GoMap (Unit {0}))
      → has_key name (add_managed client webhook mode items acc)
        ≡ (if lists client webhook mode name items then true else has_key name acc)
  unfolding add_managed
  has_key-add_managed [] acc = refl
  has_key-add_managed (ns ∷ items) acc =
      elim (Result-cases
        (is_namespace_managed_from_object client ns webhook.namespace_selector mode)) [
          | inr (e, fails) ↦ rw (fails, add_managed) (ground (arith, has_key-add_managed items acc))
          | inl (managed, answers) ↦
              rw (answers, add_managed)
                (ground (
                  arith,
                  has_key-add_managed items (if managed then insert ns.name tt acc else acc),
                  has_key-insert ns.name name tt acc,
                ))
        ]

  -- The handler of one page, which never fails.
  abbrev handle : List Namespace → GoMap (Unit {0}) → GoMap (Unit {0}) × Result (Unit {0})
  handle items acc = (add_managed client webhook mode items acc, ok tt)

  abbrev lists_some : List (List Namespace) → Bool
  lists_some = any_of (lists client webhook mode name)

  each_item-add_managed :
      (pages : List (List Namespace)) (acc : GoMap (Unit {0}))
      → ((each_item handle pages acc).1 ≡ ok tt)
        × (has_key name (each_item handle pages acc).0
            ≡ (if lists_some pages then true else has_key name acc))
  each_item-add_managed [] acc = (refl, refl)
  each_item-add_managed (items ∷ pages) acc =
      let (fine, rest) = each_item-add_managed pages (add_managed client webhook mode items acc) in
      (fine, ground (arith, rest, has_key-add_managed items acc))

-- Where the webhook and its opt mode are found and the list of namespaces comes in finitely many
-- pages, no more than the fuel, getManagedNamespaces succeeds, and a name is in its result exactly
-- if a namespace of that name, which the check finds to be managed, is on one of the pages.
pub get_managed_namespaces_lem :
    (client : Client) (webhook : Webhook) (mode : OptMode) (name : Text)
    (pages : List (List Namespace)) (fuel : ℕ) (namespace : Text)
    → lookup_webhook client name ≡ ok webhook
    → get_opt_mode_from_webhook name webhook.namespace_selector ≡ ok mode
    → IsChain client.list_namespaces [] pages
    → length pages ≤ fuel
    → (m : GoMap (Unit {0})) × (get_managed_namespaces fuel client name ≡ ok m)
      × (has_key namespace m ≡ any_of (lists client webhook mode namespace) pages)
unfolding get_managed_namespaces has_key lookup
get_managed_namespaces_lem client webhook mode name pages fuel namespace hw hm chain enough =
    let run = each_item (handle client webhook mode namespace) pages [] in
    let (fine, has) = each_item-add_managed client webhook mode namespace pages [] in
    let pages_lem =
      paginate-IsChain client.list_namespaces (handle client webhook mode namespace) pages fuel []
        [] chain enough in
    (
      run.0,
      simp (get_managed_namespaces, hw, hm) (ap outcome pages_lem ∙ rw fine refl),
      has ∙ ground arith,
    )
  where
    outcome : GoMap (Unit {0}) × Result (Unit {0}) → Result (GoMap (Unit {0}))
    outcome r = elim r.1 [ err e ↦ err e | ok _ ↦ ok r.0 ]
