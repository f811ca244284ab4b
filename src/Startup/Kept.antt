-- ===== src/Startup/Kept.antt =====
-- The start-up of pkg/pool-manager keeps what the allocations keep, whatever the cluster answers.
use kubemacpool.Prelude.{
  ℕ, true, not, Option, none, some, List, [], ◌∷◌, Text, text_eq, GoMap, lookup, has_key, length,
  keep_if, if◌then◌else◌, ◌==◌, if_intro, Result, ok, err,
}
use kubemacpool.Kubevirt.{Interface, Network, VirtualMachine, NetworkSelection, Pod, Answer}
use kubemacpool.Client.{Client, Page}
use kubemacpool.Paging.{paginate, each_item}
use kubemacpool.Paging.Invariant.{each_item-invariant, paginate-invariant}
use kubemacpool.Pool.{PoolManager}
use kubemacpool.Pool.FreeMac.{IsRanged}
use kubemacpool.Pool.Keeps.{Keeps, Keeps-refl, Keeps-trans, Keeps-for}
use kubemacpool.Vm.{vm_namespaced, network_map, is_interface_supported}
use kubemacpool.Vm.Allocation.{requested-Keeps}
use kubemacpool.Pod.{
  network_attachment_annot, parse_pod_network_annotation, is_related_to_kubevirt,
  allocate_pod_requested_mac, init_pod_networks, init_pod, init_pods,
}
use kubemacpool.Pod.Allocation.{pod_requested-Keeps}
use kubemacpool.Namespaces.{virtual_machines_webhook, pods_webhook, get_managed_namespaces}
use kubemacpool.Startup.{
  init_interface, init_vm, filtered_page, paginate_managed, init_virtual_machine_map, init_pod_map,
  init_maps,
}

-- Anybody's entries may change.
abbrev pub Anybody : Text → Type 0
Anybody n = Unit

-- The pool of a state is one that the pool `p` was turned into.
abbrev pub From : PoolManager → PoolManager × ℕ → Type 0
From p s = Keeps Anybody p s.0

module _ (p : PoolManager) where
  init_interface-From :
      (n : Text) (networks : GoMap Network) (iface : Interface) (s : PoolManager × ℕ)
      → From p s
      → From p (init_interface n networks iface s).0
  unfolding init_interface
  init_interface-From n networks iface (q, duplicates) h =
      if_intro (λ (r : (PoolManager × ℕ) × Result (Unit {0})). From p r.0)
        (not (is_interface_supported iface networks)) h
        (if_intro (λ (r : (PoolManager × ℕ) × Result (Unit {0})). From p r.0)
          (text_eq iface.mac_address []) h
          (Keeps-trans h (requested-Keeps n true (λ _. tt) iface q h.ranged)))

  init_vm-From : (vm : VirtualMachine) (s : PoolManager × ℕ) → From p s → From p (init_vm vm s).0
  unfolding init_vm
  init_vm-From vm s h =
      let P = λ (r : (PoolManager × ℕ) × Result (Unit {0})). From p r.0 in
      let name = vm_namespaced vm.namespace vm.name in
      let networks = network_map vm.networks [] in
      if_intro P (not vm.has_template) h (
        if_intro P (length vm.interfaces == 0) h (
          if_intro P (length vm.networks == 0) h (
            each_item-invariant (From p) (init_interface name networks)
              (init_interface-From name networks) vm.interfaces s h)))

  filtered_page-From :
      {A : Type 0} (managed : GoMap (Unit {0})) (namespace_of : A → Text)
      (handle : List A → PoolManager × ℕ → (PoolManager × ℕ) × Result (Unit {0}))
      → ((items : List A) (s : PoolManager × ℕ) → From p s → From p (handle items s).0)
      → (items : List A) (s : PoolManager × ℕ) → From p s
      → From p (filtered_page managed namespace_of handle items s).0
  unfolding filtered_page
  filtered_page-From managed namespace_of handle keeps items s h =
      let kept = keep_if (λ a. has_key (namespace_of a) managed) items in
      if_intro (λ (r : (PoolManager × ℕ) × Result (Unit {0})). From p r.0) (length kept == 0) h
        (keeps kept s h)

  paginate_managed-From :
      {A : Type 0} (fuel : ℕ) (client : Client) (webhook : Text) (list : Text → Option (Page A))
      (namespace_of : A → Text)
      (handle : List A → PoolManager × ℕ → (PoolManager × ℕ) × Result (Unit {0}))
      → ((items : List A) (s : PoolManager × ℕ) → From p s → From p (handle items s).0)
      → (s : PoolManager × ℕ) → From p s
      → From p (paginate_managed fuel client webhook list namespace_of handle s).0
  unfolding paginate_managed
  paginate_managed-From fuel client webhook list namespace_of handle keeps s h =
      go (get_managed_namespaces fuel client webhook)
    where
      go :
          (r : Result (GoMap (Unit {0})))
          → From p
              (elim r as (λ _. (PoolManager × ℕ) × Result (Unit {0})) [
                | err e ↦ (s, err e)
                | ok managed ↦
                    if length managed == 0
                    then (s, ok tt)
                    else paginate fuel list (filtered_page managed namespace_of handle) [] s
              ]).0
      go (err e) = h
      go (ok managed) =
          if_intro (λ (r : (PoolManager × ℕ) × Result (Unit {0})). From p r.0) (length managed == 0)
            h
            (paginate-invariant (From p) list (filtered_page managed namespace_of handle)
              (filtered_page-From managed namespace_of handle keeps) fuel [] s h)

  pub init_virtual_machine_map-From :
      (fuel : ℕ) (client : Client) (s : PoolManager × ℕ)
      → From p s
      → From p (init_virtual_machine_map fuel client s).0
  unfolding init_virtual_machine_map
  init_virtual_machine_map-From fuel client s h =
      if_intro (λ (r : (PoolManager × ℕ) × Result (Unit {0})). From p r.0) (not s.0.is_kubevirt) h
        (paginate_managed-From fuel client virtual_machines_webhook client.list_vms
          (λ vm. vm.namespace) (each_item init_vm)
          (each_item-invariant (From p) init_vm init_vm-From) s h)

init_pod_networks-Keeps :
    (pod : Pod) (networks : List NetworkSelection) (p : PoolManager)
    → IsRanged p
    → Keeps Anybody p (init_pod_networks pod networks p)
unfolding init_pod_networks
init_pod_networks-Keeps pod [] p ranged = Keeps-refl ranged
init_pod_networks-Keeps pod (network ∷ networks) p ranged =
    let first : Keeps Anybody p (
        if text_eq network.mac_request []
        then p
        else (allocate_pod_requested_mac network pod true p).0) =
      if_intro (λ q. Keeps Anybody p q) (text_eq network.mac_request []) (Keeps-refl ranged)
        (Keeps-for (λ n mine. tt) (pod_requested-Keeps pod true network p ranged)) in
    Keeps-trans first (init_pod_networks-Keeps pod networks _ first.ranged)

module _ (unmarshal : Text → Option (List (Option NetworkSelection)))
    (get : Text → Text → Answer VirtualMachine) where
  init_pod-Keeps :
      (pod : Pod) (p : PoolManager) → IsRanged p → Keeps Anybody p (init_pod unmarshal get pod p)
  unfolding init_pod
  init_pod-Keeps pod p ranged = go (lookup network_attachment_annot pod.annotations)
    where
      parsed :
          (r : Result (List NetworkSelection))
          → Keeps Anybody p (elim r as (λ _. PoolManager) [
            | err e ↦ p
            | ok networks ↦
                if length networks == 0
                then p
                else if is_related_to_kubevirt get pod.namespace pod.owner_references
                then p
                else init_pod_networks pod networks p
          ])
      parsed (err e) = Keeps-refl ranged
      parsed (ok networks) =
          if_intro (λ q. Keeps Anybody p q) (length networks == 0) (Keeps-refl ranged)
            (if_intro (λ q. Keeps Anybody p q)
              (is_related_to_kubevirt get pod.namespace pod.owner_references) (Keeps-refl ranged)
              (init_pod_networks-Keeps pod networks p ranged))

      go :
          (o : Option Text)
          → Keeps Anybody p (elim o as (λ _. PoolManager) [
            | none ↦ p
            | some network_value ↦
                elim (parse_pod_network_annotation unmarshal network_value pod.namespace) [
                  | err e ↦ p
                  | ok networks ↦
                      if length networks == 0
                      then p
                      else if is_related_to_kubevirt get pod.namespace pod.owner_references
                      then p
                      else init_pod_networks pod networks p
                ]
          ])
      go none = Keeps-refl ranged
      go (some value) = parsed (parse_pod_network_annotation unmarshal value pod.namespace)

  init_pods-Keeps :
      (pods : List Pod) (p : PoolManager)
      → IsRanged p
      → Keeps Anybody p (init_pods unmarshal get pods p)
  unfolding init_pods
  init_pods-Keeps [] p ranged = Keeps-refl ranged
  init_pods-Keeps (pod ∷ pods) p ranged =
      let first = init_pod-Keeps pod p ranged in
      Keeps-trans first (init_pods-Keeps pods _ first.ranged)

module _ (unmarshal : Text → Option (List (Option NetworkSelection))) (fuel : ℕ)
    (client : Client) where
  init_pod_map-From :
      (p : PoolManager) (s : PoolManager × ℕ)
      → From p s
      → From p (init_pod_map unmarshal fuel client s).0
  unfolding init_pod_map
  init_pod_map-From p s h =
      paginate_managed-From p fuel client pods_webhook client.list_pods (λ pod. pod.namespace) _
        (λ pods t k. Keeps-trans k (init_pods-Keeps unmarshal client.get_vm pods t.0 k.ranged)) s h

  pub init_maps-From :
      (p : PoolManager) (s : PoolManager × ℕ)
      → From p s
      → From p (init_maps unmarshal fuel client s).0
  unfolding init_maps
  init_maps-From p s h = go (init_pod_map unmarshal fuel client s).1 (init_pod_map-From p s h)
    where
      first : PoolManager × ℕ
      first = (init_pod_map unmarshal fuel client s).0

      go :
          (r : Result (Unit {0}))
          → From p first
          → From p
              (elim r as (λ _. (PoolManager × ℕ) × Result (Unit {0})) [
                | err e ↦ (first, err e)
                | ok _ ↦ init_virtual_machine_map fuel client first
              ]).0
      go (err e) k = k
      go (ok u) k = init_virtual_machine_map-From p fuel client first k
