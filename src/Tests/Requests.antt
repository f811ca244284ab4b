-- ===== src/Tests/Requests.antt =====
-- The theorems on the webhooks, the controllers and the whole program, at concrete requests.
use kubemacpool.Prelude.{
  ℕ, ◌≡◌, refl, true, false, Option, none, some, List, [], ◌∷◌, Text, codes, text_eq, GoMap, lookup,
  if◌then◌else◌, ok,
}
use kubemacpool.Net.{hex_digit, hex_val, HardwareAddr, mac_string}
use kubemacpool.Kubevirt.{VirtualMachine, Answer, not_found, found}
use kubemacpool.Vm.Ready.{heal_stale_mac_entries}
use kubemacpool.Pool.{PoolManager, get_free_mac, update_ranges, get_current_ranges}
use kubemacpool.Pool.FreeMac.{Freed}
use kubemacpool.Pool.Keeps.{Keeps}
use kubemacpool.Webhook.{Json, Operation, Response, Verb, Request}
use kubemacpool.Webhook.VirtualMachines as VmWebhook
use kubemacpool.Webhook.VirtualMachines.{patch_vm_changes}
use kubemacpool.Webhook.VirtualMachines.Keeps as VmKeeps
use kubemacpool.Webhook.VirtualMachines.Keeps.{vm_request-Keeps}
use kubemacpool.Webhook.VirtualMachines.Patches.{patched_macs, macs_of, patch_vm_changes-Patches}
use kubemacpool.Webhook.VirtualMachines.Created.{Created, vm_request-Created}
use kubemacpool.Tests.Vms.{vm_c, full_pool-IsNew}
use kubemacpool.Controller.ConfigMaps as RangeController
use kubemacpool.Controller.ConfigMaps.Range.{
  InRange, reconcile-InRange, reconcile_again, pool_ranges,
}
use kubemacpool.Controller.VirtualMachines as VmController
use kubemacpool.Controller.VirtualMachines.Released.{HoldsNothing, reconcile-HoldsNothing}
use kubemacpool.System.{vm_request, next, here, healing}
use kubemacpool.System.Orderly.{IsOrderly}
use kubemacpool.Manager.{
  Settings, run_kubemacpool_manager, lookup_env, load_mac_address_from_env_var, round_pool,
  check_for_kubevirt,
}
use kubemacpool.Manager.Started.{started-Freed}
use kubemacpool.Tls.{Config, tls_cipher_suites, found_ids, or_else, last_id, tls_cipher_suites_lem}
use kubemacpool.Tests.{
  fresh_pool-created, fresh_pool, convert_hw_addr_to_int64, check_range, get_mac_pool_size,
  generate_random_mac, check_cast, demo_pool, demo_pool-IsRanged, demo_vm, vm_a, first_mac,
  last_mac, always_zero, always_zero-IsRandom,
}
use kubemacpool.Tests.Clusters.{asking_vm, demo_client}

abbrev create_diff : Text → Text → Option (List Operation)
create_diff a b = some (
    if text_eq a b
    then []
    else record { operation = codes "replace"; path = []; value = Json.string b } ∷ [])

patch_vm_changes-Patches_example :
    (ops : List Operation) × (patch_vm_changes create_diff demo_vm asking_vm ≡ Response.patched ops)
    × (patched_macs 0 ops demo_vm.interfaces ≡ macs_of asking_vm.interfaces)
unfolding VmWebhook.is_virtual_machine_deletion_in_progress
patch_vm_changes-Patches_example =
    patch_vm_changes-Patches create_diff demo_vm asking_vm (λ a b. refl) refl refl

abbrev clock_text : ℕ → Text
clock_text t = codes "now"

abbrev create_request : Request VirtualMachine
create_request = record {
  verb = Verb.create;
  namespace = codes "default";
  dry_run = false;
  object = some demo_vm;
}

abbrev no_vm : Text → Text → Answer VirtualMachine
no_vm namespace name = not_found

vm_request-Keeps_example :
    Keeps
      (VmKeeps.IsRequested create_request)
      demo_pool
      (VmWebhook.handle clock_text no_vm 7 create_diff create_request demo_pool).0
vm_request-Keeps_example =
    vm_request-Keeps clock_text no_vm 7 create_diff create_request demo_pool demo_pool-IsRanged

vm_request-Created_example :
    Created vm_c demo_vm demo_pool
      (VmWebhook.handle clock_text no_vm 7 create_diff create_request demo_pool)
unfolding text_eq VmWebhook.completed kubemacpool.Vm.vm_namespaced
vm_request-Created_example =
    vm_request-Created clock_text no_vm 7 create_diff create_request demo_vm demo_pool (λ a b. refl)
      demo_pool-IsRanged refl refl refl refl refl refl refl full_pool-IsNew

abbrev demo_config : Answer (GoMap Text)
demo_config = found (
    (codes "RANGE_START", codes "02:00:00:00:00:00")
    ∷ (codes "RANGE_END", codes "02:00:00:00:00:0f")
    ∷ [])

reconcile-InRange_example :
    InRange
      (pool_ranges always_zero)
      true
      none
      demo_pool
      demo_config
      (RangeController.reconcile (pool_ranges always_zero) true none demo_config demo_pool)
reconcile-InRange_example =
    reconcile-InRange (pool_ranges always_zero) true none demo_config demo_pool

reconcile-HoldsNothing_example :
    HoldsNothing vm_a
      (VmController.reconcile demo_client
        (λ t. none)
        (λ vm. ok tt)
        not_found
        (codes "default")
        (codes "a")
        demo_pool).0.0
unfolding lookup kubemacpool.Vm.vm_namespaced
reconcile-HoldsNothing_example =
    reconcile-HoldsNothing demo_client (λ t. none) (λ vm. ok tt) not_found (codes "default")
      (codes "a") demo_pool (refl, tt) tt

-- A request is served, and then the stale entries are healed.
abbrev served_pool : PoolManager
served_pool = (VmWebhook.handle clock_text no_vm 7 create_diff create_request fresh_pool).0

abbrev demo_env : Text → Option Text
demo_env name =
    if text_eq name (codes "POD_NAMESPACE")
    then some (codes "system")
    else if text_eq name (codes "POD_NAME")
    then some (codes "kubemacpool")
    else if text_eq name (codes "RANGE_START")
    then some (mac_string first_mac)
    else if text_eq name (codes "RANGE_END")
    then some (mac_string last_mac)
    else none

abbrev demo_tls : Config
demo_tls = record { min_tls_version = 772; cipher_suites = []; group_preferences = [] }

abbrev demo_settings : Settings
demo_settings = record {
  pod_namespace = codes "system";
  pod_name = codes "kubemacpool";
  range_start = first_mac;
  range_end = last_mac;
  tls_config = demo_tls;
}

demo_settings-read : run_kubemacpool_manager demo_env (ok demo_tls) ≡ ok demo_settings
unfolding run_kubemacpool_manager lookup_env load_mac_address_from_env_var text_eq
    kubemacpool.Net.parse_mac kubemacpool.Net.octet hex_val hex_digit mac_string
demo_settings-read = refl

started-Freed_example :
    let later = (heal_stale_mac_entries no_vm 9 served_pool).0 in
    IsOrderly later × Freed later (get_free_mac later)
unfolding round_pool check_for_kubevirt text_eq
started-Freed_example =
    started-Freed demo_env (ok demo_tls) always_zero demo_settings
      (some (codes "virtualmachines" ∷ [])) 600 fresh_pool
      (heal_stale_mac_entries no_vm 9 served_pool).0 always_zero-IsRandom demo_settings-read refl
      refl fresh_pool-created
      (next (next here (vm_request clock_text no_vm 7 create_diff create_request fresh_pool))
        (healing no_vm 9 served_pool))

reconcile_again_example :
    let settled =
      (RangeController.reconcile (pool_ranges always_zero) true none demo_config demo_pool).0.0 in
    RangeController.reconcile (pool_ranges always_zero) true none demo_config settled
    ≡ ((settled, []), ok tt)
unfolding RangeController.reconcile lookup text_eq RangeController.extract_ranges_from_config_map
    kubemacpool.Net.parse_mac kubemacpool.Net.octet hex_val RangeController.apply_ranges mac_string
    RangeController.new_range_config pool_ranges get_current_ranges hex_digit update_ranges
    kubemacpool.Mac.check_range kubemacpool.Mac.check_cast kubemacpool.Mac.generate_random_mac
    kubemacpool.Mac.get_mac_pool_size kubemacpool.Mac.convert_hw_addr_to_int64
reconcile_again_example =
    reconcile_again (pool_ranges always_zero) true none demo_config demo_pool refl

abbrev secure_suites : List (Text × ℕ)
secure_suites = (codes "A", 1) ∷ (codes "B", 2) ∷ []

tls_cipher_suites_lem_example :
    tls_cipher_suites secure_suites [] (codes "B" ∷ codes "C" ∷ codes "A" ∷ [])
    ≡ found_ids
        (λ name. or_else (last_id name []) (last_id name secure_suites))
        (codes "B" ∷ codes "C" ∷ codes "A" ∷ [])
tls_cipher_suites_lem_example =
    tls_cipher_suites_lem secure_suites [] (codes "B" ∷ codes "C" ∷ codes "A" ∷ [])
