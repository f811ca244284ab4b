-- ===== src/Vm/Allocation.antt =====
-- AllocateVirtualMachineMac of pkg/pool-manager/virtualmachine_pool.go.
use kubemacpool.Prelude.{
  if_split, true, ℕ, ◌≡◌, refl, Bool, not, some, List, [], ◌∷◌, Text, text_eq, GoMap, length,
  if_intro, Result, inl, inr, Option-cases, ◌==◌,
}
use kubemacpool.Net.{mac_string, parse_mac}
use kubemacpool.Kubevirt.{Interface, Network, VirtualMachine}
use kubemacpool.MacMap.{MacMap}
use kubemacpool.Pool.{PoolManager, get_free_mac}
use kubemacpool.Pool.FreeMac.{IsRanged}
use kubemacpool.Pool.Keeps.{
  KeepsMap, KeepsMap-refl, KeepsMap-trans, Keeps, Keeps-refl, Keeps-map, Keeps-step,
  create-KeepsMap, remove-KeepsMap, stamps-KeepsMap, get_free_mac-Keeps,
}
use kubemacpool.Vm.{
  vm_namespaced, is_interface_supported, network_map, check_interfaces, record_entry,
  allocate_from_pool_for_virtual_machine, allocate_requested_virtual_machine_interface_mac,
  revert_macs, revert_allocation, allocate_interface, allocate_interfaces, stamp_allocations,
  allocate_virtual_machine_mac,
}

-- A dry run acts for nobody.
module _ {Mine : Text → Type 0} (n : Text) (live : Bool) (mine : live ≡ true → Mine n) where
  pub record_entry-Keeps :
      (mac i : Text) (p : PoolManager) → IsRanged p → Keeps Mine p (record_entry live mac n i p)
  unfolding record_entry
  record_entry-Keeps mac i p ranged =
      if_split (Keeps Mine p) live
        (λ runs. Keeps-map ranged (create-KeepsMap mac n i p.mac_pool_map (mine runs)))
        (λ dry. Keeps-refl ranged)

  revert_macs-KeepsMap :
      Mine n → (macs : GoMap Text) (m : MacMap) → KeepsMap Mine m (revert_macs n macs m)
  unfolding revert_macs
  revert_macs-KeepsMap is_mine [] m = KeepsMap-refl m
  revert_macs-KeepsMap is_mine ((iface, mac) ∷ macs) m =
      KeepsMap-trans (remove-KeepsMap mac n m is_mine) (revert_macs-KeepsMap is_mine macs _)

  pub revert_allocation-Keeps :
      (macs : GoMap Text) (p : PoolManager)
      → IsRanged p
      → Keeps Mine p (revert_allocation n macs live p)
  unfolding revert_allocation
  revert_allocation-Keeps macs p ranged =
      if_split (Keeps Mine p) live
        (λ runs. Keeps-map ranged (revert_macs-KeepsMap (mine runs) macs p.mac_pool_map))
        (λ dry. Keeps-refl ranged)

  pub stamp_allocations-Keeps :
      (timestamp : ℕ) (macs : GoMap Text) (p : PoolManager)
      → IsRanged p
      → Keeps Mine p (stamp_allocations n timestamp macs live p)
  unfolding stamp_allocations
  stamp_allocations-Keeps timestamp macs p ranged =
      if_split (Keeps Mine p) live
        (λ runs.
          Keeps-map ranged (stamps-KeepsMap n (some timestamp) macs p.mac_pool_map (mine runs)))
        (λ dry. Keeps-refl ranged)

  pub requested-Keeps :
      (iface : Interface) (p : PoolManager)
      → IsRanged p
      → Keeps Mine p (allocate_requested_virtual_machine_interface_mac n iface live p).0
  unfolding allocate_requested_virtual_machine_interface_mac
  requested-Keeps iface p ranged = elim (Option-cases (parse_mac iface.mac_address)) [
    | inl e ↦ rw (e, allocate_requested_virtual_machine_interface_mac) (Keeps-refl ranged)
    | inr (hw, e) ↦
        rw (e, allocate_requested_virtual_machine_interface_mac)
          (record_entry-Keeps iface.mac_address iface.name p ranged)
  ]

  pub from_pool-Keeps :
      (iface : Interface) (p : PoolManager)
      → IsRanged p
      → Keeps Mine p (allocate_from_pool_for_virtual_machine n iface live p).0
  unfolding allocate_from_pool_for_virtual_machine
  from_pool-Keeps iface p ranged =
      let (keeps, same) = get_free_mac-Keeps p ranged in
      Keeps-step (get_free_mac p).1 _ _ keeps
        (λ mac e. record_entry-Keeps (mac_string mac) iface.name _ keeps.ranged)
        (λ e. Keeps-refl keeps.ranged)

  pub allocate_interface-Keeps :
      (networks : GoMap Network) (iface : Interface) (news : GoMap Text) (p : PoolManager)
      → IsRanged p
      → Keeps Mine p (allocate_interface n networks live iface news p).0
  unfolding allocate_interface
  allocate_interface-Keeps networks iface news p ranged =
      let asked = requested-Keeps iface p ranged in
      let drawn = from_pool-Keeps iface p ranged in
      if_intro (λ (r : PoolManager × Result (Interface × GoMap Text)). Keeps Mine p r.0)
        (not (is_interface_supported iface networks)) (Keeps-refl ranged)
        (if_intro (λ (r : PoolManager × Result (Interface × GoMap Text)). Keeps Mine p r.0)
          (not (text_eq iface.mac_address []))
          (Keeps-step _ _ _ asked (λ a e. Keeps-refl asked.ranged)
            (λ e. revert_allocation-Keeps news _ asked.ranged))
          (Keeps-step _ _ _ drawn (λ a e. Keeps-refl drawn.ranged)
            (λ e. revert_allocation-Keeps news _ drawn.ranged)))

  pub allocate_interfaces-Keeps :
      (networks : GoMap Network) (ifaces : List Interface) (news : GoMap Text) (p : PoolManager)
      → IsRanged p
      → Keeps Mine p (allocate_interfaces n networks live ifaces news p).0
  unfolding allocate_interfaces
  allocate_interfaces-Keeps networks [] news p ranged = Keeps-refl ranged
  allocate_interfaces-Keeps networks (iface ∷ ifaces) news p ranged =
      let first = allocate_interface-Keeps networks iface news p ranged in
      Keeps-step _ _ _ first
        (λ (a : Interface × GoMap Text) e.
          allocate_interfaces-Keeps networks ifaces a.1 _ first.ranged)
        (λ e. Keeps-refl first.ranged)

pub allocate_virtual_machine_mac-For :
    {Mine : Text → Type 0} (vm : VirtualMachine) (timestamp : ℕ) (live : Bool) (p : PoolManager)
    → (live ≡ true → Mine (vm_namespaced vm.namespace vm.name))
    → IsRanged p
    → Keeps Mine p (allocate_virtual_machine_mac vm timestamp live p).0
unfolding allocate_virtual_machine_mac
allocate_virtual_machine_mac-For {Mine} vm timestamp live p mine ranged =
    let name = vm_namespaced vm.namespace vm.name in
    let run =
      allocate_interfaces-Keeps name live mine (network_map vm.networks []) vm.interfaces [] p
        ranged in
    let After = λ (r : PoolManager × Result VirtualMachine). Keeps Mine p r.0 in
    if_intro After (not vm.has_template) (Keeps-refl ranged) (
      if_intro After (length vm.interfaces == 0) (Keeps-refl ranged) (
        Keeps-step (check_interfaces live vm.interfaces) _ _ (Keeps-refl ranged)
          (λ _ e.
            if_intro (λ (r : PoolManager × Result VirtualMachine). Keeps Mine p r.0)
              (length vm.networks == 0) (Keeps-refl ranged)
              (Keeps-step _ _ _ run
                (λ (a : List Interface × GoMap Text) e.
                  stamp_allocations-Keeps name live mine timestamp a.1 _ run.ranged)
                (λ e. Keeps-refl run.ranged)))
          (λ e. Keeps-refl ranged)))

-- In a pool with a proper range, AllocateVirtualMachineMac keeps, whatever it returns, the range
-- invariant and the absence of empty keys, changes nothing of the pool but the current address and
-- the map, and changes no entry of another instance, its transaction time included, and in a dry
-- run no entry at all.
pub allocate_virtual_machine_mac-Keeps :
    (vm : VirtualMachine) (timestamp : ℕ) (live : Bool) (p : PoolManager)
    → IsRanged p
    → Keeps
        (λ n. (live ≡ true) × (n ≡ vm_namespaced vm.namespace vm.name))
        p
        (allocate_virtual_machine_mac vm timestamp live p).0
allocate_virtual_machine_mac-Keeps vm timestamp live p ranged =
    allocate_virtual_machine_mac-For vm timestamp live p (λ runs. (runs, refl)) ranged
