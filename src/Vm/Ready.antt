-- ===== src/Vm/Ready.antt =====
-- MarkVMAsReady, healStaleMacEntries and getvmInstance of
-- pkg/pool-manager/virtualmachine_pool.go, and commitChangesToMacPoolMap of
-- pkg/pool-manager/transaction.go. `get` is the client's Get of a virtual machine by namespace and
-- name.
pub mod Keeps
pub mod Heal
use kubemacpool.Prelude.{
  ℕ, Option, none, some, List, [], ◌∷◌, ◌++◌, Text, text_eq, not, split_on, GoMap, insert,
  get_or_zero, length, index, ◌==◌, ◌||◌, ◌&&◌, if◌then◌else◌, Result, ok, err, Error, ◌>>=◌,
}
use kubemacpool.Kubevirt.{Interface, VirtualMachine, Answer, found, not_found, failed}
use kubemacpool.MacMap.{
  MacEntry, MacMap, filter_in_by_instance_name, filter_macs_that_require_commit,
  align_mac_entry_according_to_vm_interface, remove_instance_from_mac, has_expired_transaction,
}
use kubemacpool.Pool.{PoolManager}
use kubemacpool.Vm.{vm_namespaced}

unfoldable pub align_keys : MacMap → Text → List Interface → MacMap → MacMap
align_keys [] instance ifaces m = m
align_keys ((key, entries) ∷ keys) instance ifaces m =
    align_keys keys instance ifaces
      (align_mac_entry_according_to_vm_interface key instance ifaces m)

-- A machine without a template is a nil dereference.
unfoldable pub commit_changes_to_mac_pool_map :
    MacMap → VirtualMachine → PoolManager → PoolManager × Result (Unit {0})
commit_changes_to_mac_pool_map macs vm p = if not vm.has_template then (p, err Error.panic) else (
  record p {
    mac_pool_map =
        align_keys macs (vm_namespaced vm.namespace vm.name) vm.interfaces p.mac_pool_map;
  },
  ok tt,
)

unfoldable pub mark_vm_as_ready : VirtualMachine → ℕ → PoolManager → PoolManager × Result (Unit {0})
mark_vm_as_ready vm latest p =
    let vm_mac_map =
      filter_macs_that_require_commit latest
        (filter_in_by_instance_name (vm_namespaced vm.namespace vm.name) p.mac_pool_map) in
    if length vm_mac_map == 0 then (p, ok tt) else commit_changes_to_mac_pool_map vm_mac_map vm p

-- `none` is the client's NotFound. A name with fewer than three parts makes the index panic.
unfoldable pub getvm_instance :
    (Text → Text → Answer VirtualMachine) → Text → Result (Option VirtualMachine)
getvm_instance get vm_full_name =
    let parts = split_on b'/' [] vm_full_name in
    index parts 1 >>= λ namespace. index parts 2 >>= λ name.
    if text_eq namespace [] || text_eq name []
    then err Error.bad_instance_name
    else elim (get namespace name) [
      | found vm ↦ ok (some vm)
      | not_found ↦ ok none
      | failed ↦ err Error.client_failed
    ]

-- `macsToRemove` and `macsToAlign`.
pub record Stale : Type 0 where
  pub to_remove : GoMap Text
  pub to_align : GoMap (List VirtualMachine)

unfoldable pub stale_entry :
    (Text → Text → Answer VirtualMachine) → ℕ → ℕ → Text → MacEntry → Stale → Result Stale
stale_entry get now wait key e s =
    if has_expired_transaction now wait e
    then (getvm_instance get e.instance_name >>= λ answer. elim answer [
      | none ↦ ok (record s { to_remove = insert key e.instance_name s.to_remove })
      | some vm ↦
          ok (record s {
            to_align = insert key (get_or_zero [] key s.to_align ++ vm ∷ []) s.to_align;
          })
    ])
    else ok s

unfoldable pub stale_entries :
    (Text → Text → Answer VirtualMachine) → ℕ → ℕ → Text → List MacEntry → Stale → Result Stale
stale_entries get now wait key [] s = ok s
stale_entries get now wait key (e ∷ es) s =
    stale_entry get now wait key e s >>= λ s'. stale_entries get now wait key es s'

unfoldable pub stale_macs :
    (Text → Text → Answer VirtualMachine) → ℕ → ℕ → MacMap → Stale → Result Stale
stale_macs get now wait [] s = ok s
stale_macs get now wait ((key, entries) ∷ m) s =
    stale_entries get now wait key entries s >>= λ s'. stale_macs get now wait m s'

unfoldable pub remove_stale : GoMap Text → MacMap → MacMap
remove_stale [] m = m
remove_stale ((mac, instance) ∷ macs) m =
    remove_stale macs (remove_instance_from_mac mac instance m)

-- A machine without a template is a nil dereference; what has been aligned before stays so.
unfoldable pub align_vms : Text → List VirtualMachine → MacMap → MacMap × Result (Unit {0})
align_vms mac [] m = (m, ok tt)
align_vms mac (vm ∷ vms) m =
    let m' =
      align_mac_entry_according_to_vm_interface mac (vm_namespaced vm.namespace vm.name)
        vm.interfaces m in
    let rest = align_vms mac vms m' in if not vm.has_template then (m, err Error.panic) else rest

unfoldable pub align_stale : GoMap (List VirtualMachine) → MacMap → MacMap × Result (Unit {0})
align_stale [] m = (m, ok tt)
align_stale ((mac, vms) ∷ macs) m =
    let first = align_vms mac vms m in
    let rest = align_stale macs first.0 in elim first.1 [ err e ↦ (first.0, err e) | ok _ ↦ rest ]

-- A client error other than NotFound ends the round before anything is changed.
unfoldable pub heal_stale_mac_entries :
    (Text → Text → Answer VirtualMachine) → ℕ → PoolManager → PoolManager × Result (Unit {0})
heal_stale_mac_entries get now p =
    let none_yet : Stale = record { to_remove = []; to_align = [] } in
    elim (stale_macs get now p.wait_time p.mac_pool_map none_yet) [
      | err e ↦ (p, err e)
      | ok s ↦
          if length s.to_remove == 0 && length s.to_align == 0
          then (p, ok tt)
          else (let aligned = align_stale s.to_align (remove_stale s.to_remove p.mac_pool_map) in
              (record p { mac_pool_map = aligned.0 }, aligned.1))
    ]
