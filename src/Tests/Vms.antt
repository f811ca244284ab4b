-- ===== src/Tests/Vms.antt =====
-- The theorems on virtual machines and pods, at concrete machines and pods.
use kubemacpool.Prelude.{
  false, lookup, get_or_zero, any_of, if_intro, ◌⊎◌, inl, inr, ◌≡◌, ◌↔◌, refl, true, Option, some,
  List, [], ◌∷◌, Text, codes, text_eq, arith, All, ok,
}
use kubemacpool.Kubevirt.{VirtualMachine, Answer, not_found, NetworkSelection, Pod}
use kubemacpool.Pool.Keeps.{Keeps}
use kubemacpool.Vm.{
  network_map, vm_namespaced, allocate_virtual_machine_mac, check_vm_for_interface_duplication,
  check_intra_vm_duplicate_macs,
}
use kubemacpool.Vm.Update.{update_mac_addresses_for_virtual_machine}
use kubemacpool.Vm.Update.Keeps.{update_mac_addresses_for_virtual_machine-Keeps}
use kubemacpool.Vm.Served.{OnOk}
use kubemacpool.Vm.Held.{Allocated, allocate_virtual_machine_mac-Allocated}
use kubemacpool.Vm.Checks.{
  IsDistinct, Parses, asked_macs, mac_keys, check_intra_vm_duplicate_macs_iff,
}
use kubemacpool.Vm.Names.{passed_on, getvm_instance-vm_namespaced}
use kubemacpool.Vm.Ready.{getvm_instance, mark_vm_as_ready, heal_stale_mac_entries}
use kubemacpool.Vm.Ready.Heal.{Healed, heal_stale_mac_entries-Healed}
use kubemacpool.Pool.{PoolManager}
use kubemacpool.Pool.FreeMac.{IsRanged}
use kubemacpool.Vm.Ready.Keeps.{mark_vm_as_ready-Keeps}
use kubemacpool.Pod.{network_attachment_annot}
use kubemacpool.Webhook.{Verb, Request}
use kubemacpool.Webhook.Pods as PodWebhook
use kubemacpool.Webhook.Pods.Keeps as PodKeeps
use kubemacpool.Webhook.Pods.Keeps.{pod_request-Keeps}
use kubemacpool.Prelude.{Result, err, Error}
use kubemacpool.Vm.Refused.{IsRefusal, allocate_virtual_machine_mac-Refused}
use kubemacpool.Vm.Refused.Faults.{Refused}
use kubemacpool.Vm.Rollback.{SameHolders, IsNew, allocate_virtual_machine_mac-SameHolders}
use kubemacpool.MacMap.View.{is_of, holds_any}
use kubemacpool.Prelude.{none, any_of, if_intro}
use kubemacpool.MacMap.{MacEntry}
use kubemacpool.Tests.{first_mac, demo_pool, demo_pool-IsRanged, demo_vm, eth0, first_text, vm_a}

-- The machine with an address that it asks for.
abbrev asking_vm : VirtualMachine
asking_vm = record demo_vm {
  interfaces =
      record { name = eth0; mac_address = first_text; masquerade = true; others = [] }
      ∷ record { name = codes "eth1"; mac_address = []; masquerade = true; others = [] }
      ∷ [];
}

abbrev demo_pod : Pod
demo_pod = record {
  namespace = codes "default";
  name = [];
  uid = codes "1";
  annotations = (network_attachment_annot, codes "[{}]") ∷ [];
  labels = [];
  owner_references = [];
  phase = codes "Running";
  has_annotations = true;
}

abbrev one_network : Text → Option (List (Option NetworkSelection))
one_network t =
    some (some (record { name = codes "net"; namespace = []; mac_request = []; others = [] }) ∷ [])

abbrev printed : List NetworkSelection → Text
printed networks = codes "[]"

abbrev no_vm : Text → Text → Answer VirtualMachine
no_vm namespace name = not_found

update_mac_addresses_for_virtual_machine-Keeps_example :
    Keeps
      (λ n. (true ≡ true) × (n ≡ vm_namespaced (codes "default") (codes "c")))
      demo_pool
      (update_mac_addresses_for_virtual_machine (some demo_vm) asking_vm 5 true demo_pool).0
update_mac_addresses_for_virtual_machine-Keeps_example =
    update_mac_addresses_for_virtual_machine-Keeps (some demo_vm) asking_vm 5 true demo_pool
      demo_pool-IsRanged

allocate_virtual_machine_mac-Allocated_example :
    OnOk (Allocated asking_vm demo_pool) (allocate_virtual_machine_mac asking_vm 5 true demo_pool)
allocate_virtual_machine_mac-Allocated_example =
    allocate_virtual_machine_mac-Allocated asking_vm 5 demo_pool demo_pool-IsRanged refl

check_intra_vm_duplicate_macs_iff_example :
    (check_intra_vm_duplicate_macs asking_vm.interfaces ≡ ok tt) ↔ (
      All Parses (asked_macs asking_vm.interfaces)
      × IsDistinct (mac_keys (asked_macs asking_vm.interfaces)))
check_intra_vm_duplicate_macs_iff_example = check_intra_vm_duplicate_macs_iff asking_vm.interfaces

getvm_instance-vm_namespaced_example :
    getvm_instance no_vm (vm_namespaced (codes "default") (codes "c"))
    ≡ passed_on (no_vm (codes "default") (codes "c"))
unfolding text_eq
getvm_instance-vm_namespaced_example =
    getvm_instance-vm_namespaced no_vm (codes "default") (codes "c") (ground arith) (ground arith)
      refl refl

mark_vm_as_ready-Keeps_example :
    Keeps
      (λ n. n ≡ vm_namespaced (codes "default") (codes "c"))
      demo_pool
      (mark_vm_as_ready demo_vm 9 demo_pool).0
mark_vm_as_ready-Keeps_example = mark_vm_as_ready-Keeps demo_vm 9 demo_pool demo_pool-IsRanged

-- A pool with an entry whose transaction was never finished.
abbrev stale_pool : PoolManager
stale_pool = record demo_pool {
  mac_pool_map =
      (
        first_text,
        record { instance_name = vm_a; mac_instance_key = eth0; transaction_timestamp = some 0 }
            ∷ [],
      )
      ∷ [];
}

stale_pool-IsRanged : IsRanged stale_pool
stale_pool-IsRanged = omega arith

abbrev Touched : Text → Type 0
Touched n =
    (n ≡ vm_a)
    ⊎ ((m : Text) × (vm : VirtualMachine) × (getvm_instance no_vm m ≡ ok (some vm))
        × (n ≡ vm_namespaced vm.namespace vm.name))

heal_stale_mac_entries-Healed_example :
    Healed Touched no_vm stale_pool (heal_stale_mac_entries no_vm 1000000000000000 stale_pool)
heal_stale_mac_entries-Healed_example =
    heal_stale_mac_entries-Healed Touched no_vm 1000000000000000 stale_pool
      (λ n vm h. inr (n, vm, h, refl)) ((λ expired. inl refl, tt), tt) stale_pool-IsRanged

abbrev dry_request : Request Pod
dry_request = record {
  verb = Verb.create;
  namespace = codes "default";
  dry_run = true;
  object = some demo_pod;
}

pod_request-Keeps_example :
    Keeps
      (PodKeeps.IsRequested dry_request)
      demo_pool
      (PodWebhook.handle one_network printed no_vm dry_request demo_pool).0
pod_request-Keeps_example =
    pod_request-Keeps one_network printed no_vm dry_request demo_pool demo_pool-IsRanged

-- A pool whose only address is taken, and a machine whose second interface finds none.
abbrev full_pool : PoolManager
full_pool = record demo_pool { range_end = first_mac }

abbrev two_vm : VirtualMachine
two_vm = record demo_vm {
  interfaces =
      record {
        name = eth0;
        mac_address = codes "02:00:00:00:00:07";
        masquerade = true;
        others = [];
      }
      ∷ record { name = codes "eth1"; mac_address = []; masquerade = true; others = [] }
      ∷ [];
}

full_pool-IsRanged : IsRanged full_pool
full_pool-IsRanged = omega arith

abbrev pub vm_c : Text
vm_c = vm_namespaced (codes "default") (codes "c")

pub full_pool-IsNew : IsNew vm_c full_pool
unfolding holds_any get_or_zero lookup is_of text_eq vm_namespaced
full_pool-IsNew k =
    if_intro
      (λ (o : Option (List MacEntry)).
        any_of (is_of vm_c) (elim o [ none ↦ [] | some es ↦ es ]) ≡ false)
      (text_eq first_text k) refl refl

no_address_left : (allocate_virtual_machine_mac two_vm 9 true full_pool).1 ≡ err Error.range_full
unfolding allocate_virtual_machine_mac kubemacpool.Vm.check_interfaces check_intra_vm_duplicate_macs
    kubemacpool.Vm.duplicate_macs_loop kubemacpool.Vm.interface_names_loop text_eq
    kubemacpool.Net.parse_mac kubemacpool.Net.octet kubemacpool.Net.hex_val
    kubemacpool.Prelude.has_key kubemacpool.Prelude.lookup check_vm_for_interface_duplication
    kubemacpool.Prelude.insert kubemacpool.Vm.allocate_interfaces kubemacpool.Vm.allocate_interface
    kubemacpool.Vm.is_interface_supported
    kubemacpool.Vm.allocate_requested_virtual_machine_interface_mac
    kubemacpool.Vm.allocate_from_pool_for_virtual_machine kubemacpool.Pool.get_free_mac
    kubemacpool.MacMap.create_or_update_entry kubemacpool.MacMap.upsert_entry
    kubemacpool.Net.hex_digit kubemacpool.Net.mac_string kubemacpool.Net.new_mac_key
    kubemacpool.Pool.copy_bytes kubemacpool.Pool.free_mac_pass kubemacpool.Pool.is_allocated
    kubemacpool.Pool.mac_space kubemacpool.Pool.scan kubemacpool.Prelude.get_or_zero
    kubemacpool.Vm.record_entry
no_address_left = refl

allocate_virtual_machine_mac-Refused_example :
    Refused
      (IsRefusal vm_c (network_map two_vm.networks []) true two_vm.interfaces full_pool)
      (allocate_virtual_machine_mac two_vm 9 true full_pool).1
allocate_virtual_machine_mac-Refused_example =
    allocate_virtual_machine_mac-Refused two_vm 9 true full_pool refl full_pool-IsRanged

allocate_virtual_machine_mac-SameHolders_example :
    SameHolders full_pool (allocate_virtual_machine_mac two_vm 9 true full_pool).0
allocate_virtual_machine_mac-SameHolders_example =
    allocate_virtual_machine_mac-SameHolders two_vm 9 full_pool Error.range_full full_pool-IsRanged
      full_pool-IsNew no_address_left
