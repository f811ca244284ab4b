-- ===== src/Tests/Clusters.antt =====
-- The theorems on the start-up, the namespaces and the pages of a list, at a small cluster.
use kubemacpool.Prelude.{
  ℕ, ◌+◌, ◌≡◌, refl, true, Option, none, some, List, [], ◌∷◌, Text, codes, text_eq, GoMap, has_key,
  length, any_of, arith, Result, ok,
}
use kubemacpool.Kubevirt.{VirtualMachine, not_found}
use kubemacpool.Client.{LabelSelector, Webhook, Namespace, Page, Client}
use kubemacpool.Paging.{paginate, each_item}
use kubemacpool.Paging.Chain.{IsChain, paginate-IsChain}
use kubemacpool.Namespaces.{
  opt_in, lookup_webhook, find_webhook, get_opt_mode_from_webhook, mode_of_expressions,
  is_requirement, texts_eq, virtual_machines_webhook, is_namespace_managed, get_managed_namespaces,
}
use kubemacpool.Namespaces.Managed.{expected, is_namespace_managed_lem}
use kubemacpool.Namespaces.Listing.{lists, get_managed_namespaces_lem}
use kubemacpool.Tests.{demo_vm, eth0, first_text}

abbrev demo_selector : LabelSelector
demo_selector = record {
  match_expressions =
      record {
        key = virtual_machines_webhook;
        operator = codes "In";
        values = codes "allocate" ∷ [];
      }
      ∷ [];
  match_labels = [];
}

abbrev demo_webhook : Webhook
demo_webhook = record { name = virtual_machines_webhook; namespace_selector = some demo_selector }

abbrev demo_namespace : Namespace
demo_namespace = record { name = codes "default"; labels = some [] }

abbrev pub asking_vm : VirtualMachine
asking_vm = record demo_vm {
  interfaces =
      record { name = eth0; mac_address = first_text; masquerade = true; others = [] } ∷ [];
}

-- The second page of a list is asked for by the token "2".
abbrev two_pages {ℓ} : {A : Type ℓ} → List A → List A → Text → Option (Page A)
two_pages first second [] = some (record { items = first; continue = codes "2" })
two_pages first second (c ∷ token) = some (record { items = second; continue = [] })

abbrev pub demo_client : Client
demo_client = record {
  webhooks = some (demo_webhook ∷ []);
  get_namespace = λ name. some demo_namespace;
  get_vm = λ namespace name. not_found;
  get_pod = λ namespace name. not_found;
  list_namespaces = two_pages [] (demo_namespace ∷ []);
  list_vms = two_pages [] (asking_vm ∷ []);
  list_pods = λ token. none;
  selects = λ selector labels. some true;
}

namespaces-IsChain : IsChain demo_client.list_namespaces [] ([] ∷ (demo_namespace ∷ []) ∷ [])
unfolding text_eq
namespaces-IsChain = (codes "2", refl, refl, refl)

vms-IsChain : IsChain demo_client.list_vms [] ([] ∷ (asking_vm ∷ []) ∷ [])
unfolding text_eq
vms-IsChain = (codes "2", refl, refl, refl)

abbrev count : List VirtualMachine → ℕ → ℕ × Result (Unit {0})
count vms n = (n + length vms, ok tt)

paginate-IsChain_example :
    paginate 2 demo_client.list_vms count [] 0 ≡ each_item count ([] ∷ (asking_vm ∷ []) ∷ []) 0
paginate-IsChain_example =
    paginate-IsChain demo_client.list_vms count ([] ∷ (asking_vm ∷ []) ∷ []) 2 [] 0 vms-IsChain
      (omega arith)

found_webhook : lookup_webhook demo_client virtual_machines_webhook ≡ ok demo_webhook
unfolding lookup_webhook find_webhook text_eq
found_webhook = refl

found_mode : get_opt_mode_from_webhook virtual_machines_webhook (some demo_selector) ≡ ok opt_in
unfolding get_opt_mode_from_webhook mode_of_expressions is_requirement texts_eq text_eq
found_mode = refl

is_namespace_managed_lem_example :
    is_namespace_managed demo_client (codes "default") virtual_machines_webhook
    ≡ expected demo_client demo_selector opt_in demo_namespace.labels
is_namespace_managed_lem_example =
    is_namespace_managed_lem demo_client (codes "default") virtual_machines_webhook demo_webhook
      demo_selector opt_in demo_namespace found_webhook refl found_mode refl

get_managed_namespaces_lem_example :
    (m : GoMap (Unit {0})) × (get_managed_namespaces 2 demo_client virtual_machines_webhook ≡ ok m)
    × (has_key (codes "default") m
        ≡ any_of
            (lists demo_client demo_webhook opt_in (codes "default"))
            ([] ∷ (demo_namespace ∷ []) ∷ []))
get_managed_namespaces_lem_example =
    get_managed_namespaces_lem demo_client demo_webhook opt_in virtual_machines_webhook
      ([] ∷ (demo_namespace ∷ []) ∷ []) 2 (codes "default") found_webhook found_mode
      namespaces-IsChain (omega arith)

abbrev default_managed : GoMap (Unit {0})
default_managed = (codes "default", tt) ∷ []
