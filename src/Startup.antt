-- ===== src/Startup.antt =====
-- The start-up of the pool manager (pkg/pool-manager): Start and InitMaps of pool.go, initPodMap of
-- pod_pool.go and initVirtualMachineMap of virtualmachine_pool.go, which read the addresses in use
-- from the cluster page by page. `fuel` bounds the pages; the counter beside the pool is the metric
-- of duplicate addresses.
pub mod Entered
pub mod Recorded
pub mod Kept
use kubemacpool.Prelude.{
  ℕ, zero, suc, ◌+◌, ◌-◌, ◌*◌, ◌<◌, ◌≤◌, ◌≡◌, ◌≢◌, ◌⊎◌, ◌↔◌, inl, inr, refl, sym, ap, ◌∙◌, subst,
  Bool, true, false, not, ◌&&◌, ◌||◌, Option, none, some, List, [], ◌∷◌, ◌++◌, Text, codes, text_eq,
  text_eq_iff, text_eq_refl, GoMap, lookup, insert, delete, has_key, get_or_zero, IsMap, length,
  any_of, keep_if, All, arith, if◌then◌else◌, ◌==◌, Bool-cases, Option-cases, Result-cases,
  if_intro, if_split, Result, ok, err, Error, ◌>>=◌, ◌>>◌,
}
use kubemacpool.Net.{parse_mac, new_mac_key}
use kubemacpool.Kubevirt.{Interface, Network, VirtualMachine, NetworkSelection, Pod}
use kubemacpool.Client.{Client, Page}
use kubemacpool.Paging.{paginate, each_item}
use kubemacpool.MacMap.{MacEntry, belongs_to}
use kubemacpool.Pool.{PoolManager}
use kubemacpool.Namespaces.{get_managed_namespaces, virtual_machines_webhook, pods_webhook}
use kubemacpool.Vm.{
  vm_namespaced, is_interface_supported, network_map,
  allocate_requested_virtual_machine_interface_mac,
}
use kubemacpool.Pod.{init_pods}

unfoldable pub mac_already_belongs_to_vm_and_interface : Text → Text → List MacEntry → Bool
mac_already_belongs_to_vm_and_interface vm interface_name = any_of (belongs_to vm interface_name)

unfoldable pub check_requested_virtual_machine_interface_mac :
    Text → Interface → PoolManager → Result (Unit {0})
check_requested_virtual_machine_interface_mac vm iface p = elim (parse_mac iface.mac_address) [
  | none ↦ err Error.invalid_mac
  | some hw ↦ elim (lookup (new_mac_key iface.mac_address) p.mac_pool_map) [
    | none ↦ ok tt
    | some entries ↦
        if not (mac_already_belongs_to_vm_and_interface vm iface.name entries)
        then err Error.duplicate_allocation
        else ok tt
  ]
]

-- `monitoringmetrics.IncDuplicateMacs`, where the error is the one of a duplicate.
unfoldable pub count_duplicate : Result (Unit {0}) → ℕ → ℕ
count_duplicate (err Error.duplicate_allocation) n = n + 1
count_duplicate _ n = n

-- The function that initMacMapFromCluster runs on each interface.
unfoldable pub init_interface :
    Text → GoMap Network → Interface → PoolManager × ℕ → (PoolManager × ℕ) × Result (Unit {0})
init_interface vm networks iface (p, duplicates) =
    let counted =
      count_duplicate (check_requested_virtual_machine_interface_mac vm iface p) duplicates in
    let (p', done) = allocate_requested_virtual_machine_interface_mac vm iface true p in
    if not (is_interface_supported iface networks)
    then ((p, duplicates), ok tt)
    else if text_eq iface.mac_address []
    then ((p, duplicates), ok tt)
    else ((p', counted), done)

-- One virtual machine of forEachManagedVmInterfaceInClusterRunFunction; one without a template is a
-- nil dereference.
unfoldable pub init_vm : VirtualMachine → PoolManager × ℕ → (PoolManager × ℕ) × Result (Unit {0})
init_vm vm s =
    if not vm.has_template
    then (s, err Error.panic)
    else if length vm.interfaces == 0
    then (s, ok tt)
    else if length vm.networks == 0
    then (s, ok tt)
    else each_item
        (init_interface (vm_namespaced vm.namespace vm.name) (network_map vm.networks []))
        vm.interfaces s

-- The items in a managed namespace are handled, if there are any.
unfoldable pub filtered_page {ℓ κ} :
    {A : Type ℓ} {S : Type κ}
    → GoMap (Unit {0})
    → (A → Text)
    → (List A → S → S × Result (Unit {0}))
    → List A
    → S
    → S × Result (Unit {0})
filtered_page managed namespace_of handle items s =
    let kept = keep_if (λ a. has_key (namespace_of a) managed) items in
    if length kept == 0 then (s, ok tt) else handle kept s

-- paginateVmsInManagedNamespaces and paginatePodsInManagedNamespaces.
unfoldable pub paginate_managed {ℓ κ} :
    {A : Type ℓ} {S : Type κ}
    → ℕ
    → Client
    → Text
    → (Text → Option (Page A))
    → (A → Text)
    → (List A → S → S × Result (Unit {0}))
    → S
    → S × Result (Unit {0})
paginate_managed fuel client webhook list namespace_of handle s =
    elim (get_managed_namespaces fuel client webhook) [
      | err e ↦ (s, err e)
      | ok managed ↦
          if length managed == 0
          then (s, ok tt)
          else paginate fuel list (filtered_page managed namespace_of handle) [] s
    ]

unfoldable pub init_virtual_machine_map :
    ℕ → Client → PoolManager × ℕ → (PoolManager × ℕ) × Result (Unit {0})
init_virtual_machine_map fuel client s =
    if not s.0.is_kubevirt
    then (s, ok tt)
    else paginate_managed fuel client virtual_machines_webhook client.list_vms (λ vm. vm.namespace)
        (each_item init_vm) s

module _ (unmarshal : Text → Option (List (Option NetworkSelection))) (fuel : ℕ)
    (client : Client) where
  unfoldable pub init_pod_map : PoolManager × ℕ → (PoolManager × ℕ) × Result (Unit {0})
  init_pod_map s =
      paginate_managed fuel client pods_webhook client.list_pods (λ pod. pod.namespace)
        (λ pods s. ((init_pods unmarshal client.get_vm pods s.0, s.1), ok tt)) s

  unfoldable pub init_maps : PoolManager × ℕ → (PoolManager × ℕ) × Result (Unit {0})
  init_maps s = elim (init_pod_map s).1 [
    | err e ↦ ((init_pod_map s).0, err e)
    | ok _ ↦ init_virtual_machine_map fuel client (init_pod_map s).0
  ]

  -- The goroutine that heals stale entries is a step of its own.
  unfoldable pub start : PoolManager × ℕ → (PoolManager × ℕ) × Result (Unit {0})
  start s = elim (init_maps s).1 [
    | err e ↦ ((init_maps s).0, err e)
    | ok _ ↦ ((record (init_maps s).0.0 { is_pool_ready = true }, (init_maps s).0.1), ok tt)
  ]
