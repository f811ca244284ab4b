-- ===== src/Tests/Launchers.antt =====
-- The pod of a virtual machine, as the controller of pods meets it: read from the cache, it has lost
-- its owner (pkg/controller/maccollision/cache.go).
use kubemacpool.Prelude.{
  ◌≡◌, refl, Bool, true, false, Option, some, List, [], ◌∷◌, Text, codes, text_eq, lookup, insert,
  delete, has_key, get_or_zero,
}
use kubemacpool.Kubevirt.{Pod, NetworkSelection, found, not_found}
use kubemacpool.Client.{Client, Webhook}
use kubemacpool.MacMap.View.{holds}
use kubemacpool.Net.{new_mac_key}
use kubemacpool.Namespaces.{
  is_managed_by_selector, is_namespace_managed_by_default, texts_eq, is_requirement,
  mode_of_expressions, get_opt_mode_from_webhook, is_namespace_managed_from_object, find_webhook,
  lookup_webhook, is_namespace_managed, is_pod_managed, pods_webhook,
}
use kubemacpool.Pool.{PoolManager}
use kubemacpool.Vm.{release_all_macs}
use kubemacpool.Maccollision.{strip_pod_for_collision_detection}
use kubemacpool.Pod.{
  allocate_networks, allocate_network, default_namespaces, allocate_pod_requested_mac,
  is_related_to_kubevirt, parse_pod_network_annotation, network_attachment_annot, pod_namespaced,
  allocate_pod_mac,
}
use kubemacpool.Controller.Pods as PodController
use kubemacpool.Tests.{eth0, demo_pool, demo_vm, first_text, vm_a}
use kubemacpool.Tests.Clusters.{demo_client}

abbrev launcher : Pod
launcher = record {
  namespace = codes "default";
  name = codes "virt-launcher-a";
  uid = codes "1";
  annotations = (network_attachment_annot, codes "[]") ∷ [];
  labels = [];
  owner_references = record { kind = codes "VirtualMachineInstance"; name = codes "a" } ∷ [];
  phase = codes "Pending";
  has_annotations = true;
}

abbrev asks_first : Text → Option (List (Option NetworkSelection))
asks_first t = some (
    some (record { name = codes "net"; namespace = []; mac_request = first_text; others = [] })
    ∷ [])

abbrev printed : List NetworkSelection → Text
printed networks = codes "[]"

abbrev pod_hook : Webhook
pod_hook = record {
  name = pods_webhook;
  namespace_selector = some (record {
    match_expressions =
        record { key = pods_webhook; operator = codes "In"; values = codes "allocate" ∷ [] } ∷ [];
    match_labels = [];
  });
}

abbrev cluster : Client
cluster = record demo_client {
  webhooks = some (pod_hook ∷ []);
  get_vm = λ namespace name. found demo_vm;
  get_pod = λ namespace name. found launcher;
}

abbrev after : Client → PoolManager
after client =
    (PodController.reconcile asks_first printed client launcher.namespace launcher.name demo_pool).0

abbrev gone : Client
gone = record cluster { get_pod = λ namespace name. not_found }

abbrev first_held_by : PoolManager → Text × Text → Bool
first_held_by p (n, i) = holds p.mac_pool_map (new_mac_key first_text) n i

abbrev launcher_name : Text
launcher_name = pod_namespaced launcher.namespace launcher.name

abbrev deleted : PoolManager
deleted =
    (PodController.reconcile asks_first printed gone launcher.namespace launcher.name
      (after (PodController.cached cluster))).0

-- With its owner the pod would be passed over. As the cache has it, it comes to hold the address of
-- its machine, and when it is gone, nobody holds the address any more, nor does the machine.
cached_pod_takes_address :
    (after cluster ≡ demo_pool)
    × (first_held_by (after (PodController.cached cluster)) (launcher_name, codes "net") ≡ true)
    × (first_held_by demo_pool (vm_a, eth0) ≡ true)
    × (first_held_by deleted (vm_a, eth0) ≡ false)
unfolding PodController.reconcile PodController.cached is_pod_managed is_namespace_managed
    lookup_webhook find_webhook is_namespace_managed_from_object get_opt_mode_from_webhook
    mode_of_expressions is_requirement texts_eq is_namespace_managed_by_default
    is_managed_by_selector text_eq allocate_pod_mac parse_pod_network_annotation lookup has_key
    is_related_to_kubevirt release_all_macs strip_pod_for_collision_detection allocate_networks
    allocate_network default_namespaces allocate_pod_requested_mac holds get_or_zero new_mac_key
    kubemacpool.Net.parse_mac kubemacpool.Net.octet kubemacpool.Net.hex_val
    kubemacpool.Net.mac_string kubemacpool.Net.hex_digit kubemacpool.MacMap.belongs_to
    pod_namespaced kubemacpool.Pod.looks_like_json kubemacpool.Vm.record_entry
    kubemacpool.MacMap.create_or_update_entry insert kubemacpool.MacMap.upsert_entry
    kubemacpool.Pod.entry_name kubemacpool.MacMap.filter_in_by_instance_name
    kubemacpool.Vm.delete_keys delete
cached_pod_takes_address = (refl, refl, refl, refl)
