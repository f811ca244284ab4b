-- ===== src/Vm/Ready/Keeps.antt =====
-- What MarkVMAsReady of pkg/pool-manager/virtualmachine_pool.go and commitChangesToMacPoolMap of
-- pkg/pool-manager/transaction.go keep.
use kubemacpool.Prelude.{
  not, Result, ℕ, ◌≡◌, refl, inl, inr, List, [], ◌∷◌, Text, if_intro, Result-cases,
}
use kubemacpool.Kubevirt.{Interface, VirtualMachine}
use kubemacpool.MacMap.{
  MacMap, find_by_mac_address_and_instance_name, align_mac_entry_according_to_vm_interface,
}
use kubemacpool.Pool.{PoolManager}
use kubemacpool.Pool.FreeMac.{IsRanged}
use kubemacpool.Pool.Keeps.{
  KeepsMap, KeepsMap-refl, KeepsMap-trans, Keeps, Keeps-refl, Keeps-map, remove-KeepsMap,
  clear-KeepsMap,
}
use kubemacpool.Vm.{vm_namespaced}
use kubemacpool.Vm.Ready.{align_keys, commit_changes_to_mac_pool_map, mark_vm_as_ready}

module _ {Mine : Text → Type 0} (n : Text) (mine : Mine n) (ifaces : List Interface) where
  pub align-KeepsMap :
      (mac : Text) (m : MacMap)
      → KeepsMap Mine m (align_mac_entry_according_to_vm_interface mac n ifaces m)
  unfolding align_mac_entry_according_to_vm_interface
  align-KeepsMap mac m = elim (Result-cases (find_by_mac_address_and_instance_name mac n m)) [
    | inr (e, fails) ↦ rw (fails, align_mac_entry_according_to_vm_interface) (KeepsMap-refl m)
    | inl (found, finds) ↦
        rw (finds, align_mac_entry_according_to_vm_interface)
          (if_intro (KeepsMap Mine m) _ (clear-KeepsMap mac n m mine)
            (remove-KeepsMap mac n m mine))
  ]

  align_keys-KeepsMap : (keys m : MacMap) → KeepsMap Mine m (align_keys keys n ifaces m)
  unfolding align_keys
  align_keys-KeepsMap [] m = KeepsMap-refl m
  align_keys-KeepsMap ((key, entries) ∷ keys) m =
      KeepsMap-trans (align-KeepsMap key m) (align_keys-KeepsMap keys _)

-- In a pool with a proper range, MarkVMAsReady keeps, whatever it returns, the range invariant and
-- the absence of empty keys, and changes no entry of another instance, its transaction time
-- included.
pub mark_vm_as_ready-Keeps :
    (vm : VirtualMachine) (latest : ℕ) (p : PoolManager)
    → IsRanged p
    → Keeps (λ n. n ≡ vm_namespaced vm.namespace vm.name) p (mark_vm_as_ready vm latest p).0
unfolding mark_vm_as_ready commit_changes_to_mac_pool_map
mark_vm_as_ready-Keeps vm latest p ranged =
    let After = λ (r : PoolManager × Result (Unit {0})).
      Keeps (λ n. n ≡ vm_namespaced vm.namespace vm.name) p r.0 in
    if_intro After _ (Keeps-refl ranged) (
      if_intro After (not vm.has_template) (Keeps-refl ranged)
        (Keeps-map ranged (align_keys-KeepsMap _ refl vm.interfaces _ p.mac_pool_map)))
