-- ===== src/Vm/Update/Keeps.antt =====
-- What UpdateMacAddressesForVirtualMachine of pkg/pool-manager/virtualmachine_pool.go keeps.
use kubemacpool.Prelude.{
  true, ℕ, ◌≡◌, refl, Bool, not, Option, none, some, List, [], ◌∷◌, Text, text_eq, GoMap, lookup,
  Result, if_intro,
}
use kubemacpool.Net.{new_mac_key}
use kubemacpool.Kubevirt.{Interface, VirtualMachine}
use kubemacpool.Pool.{PoolManager}
use kubemacpool.Pool.FreeMac.{IsRanged}
use kubemacpool.Pool.Keeps.{Keeps, Keeps-refl, Keeps-trans, Keeps-step}
use kubemacpool.Vm.{vm_namespaced, check_interfaces}
use kubemacpool.Vm.Allocation.{
  revert_allocation-Keeps, stamp_allocations-Keeps, requested-Keeps, from_pool-Keeps,
  allocate_virtual_machine_mac-For,
}
use kubemacpool.Vm.Update.{
  Changes, interface_map, update_existing_interface, update_new_interface, update_interface,
  update_interfaces, stamp_changes, update_mac_addresses_for_virtual_machine,
}

-- The pool after a step, whatever its outcome.
abbrev After {ℓ} : {A : Type ℓ} → (Text → Type 0) → PoolManager → PoolManager × A → Type 0
After Mine p r = Keeps Mine p r.0

module _ {Mine : Text → Type 0} (n : Text) (live : Bool) (mine : live ≡ true → Mine n) where
  update_existing_interface-Keeps :
      (iface : Interface) (current : Text) (ch : Changes) (p : PoolManager)
      → IsRanged p
      → Keeps Mine p (update_existing_interface n live iface current ch p).0
  unfolding update_existing_interface
  update_existing_interface-Keeps iface current ch p ranged =
      let asked = requested-Keeps n live mine iface p ranged in
      if_intro (After Mine p) (text_eq iface.mac_address []) (Keeps-refl ranged) (
        if_intro (After Mine p) (not (text_eq (new_mac_key iface.mac_address) current))
          (Keeps-step _ _ _ asked (λ a e. Keeps-refl asked.ranged)
            (λ e. revert_allocation-Keeps n live mine ch.news _ asked.ranged))
          (Keeps-refl ranged))

  update_new_interface-Keeps :
      (iface : Interface) (ch : Changes) (p : PoolManager)
      → IsRanged p
      → Keeps Mine p (update_new_interface n live iface ch p).0
  unfolding update_new_interface
  update_new_interface-Keeps iface ch p ranged =
      let asked = requested-Keeps n live mine iface p ranged in
      let drawn = from_pool-Keeps n live mine iface p ranged in
      if_intro (After Mine p) (not (text_eq iface.mac_address []))
        (Keeps-step _ _ _ asked (λ a e. Keeps-refl asked.ranged)
          (λ e. revert_allocation-Keeps n live mine ch.news _ asked.ranged))
        (Keeps-step _ _ _ drawn (λ a e. Keeps-refl drawn.ranged)
          (λ e. revert_allocation-Keeps n live mine ch.news _ drawn.ranged))

  update_interface-Keeps :
      (currents : GoMap Text) (iface : Interface) (ch : Changes) (p : PoolManager)
      → IsRanged p
      → Keeps Mine p (update_interface n live currents iface ch p).0
  unfolding update_interface
  update_interface-Keeps currents iface ch p ranged = go (lookup iface.name currents)
    where
      go :
          (o : Option Text)
          → Keeps Mine p
              (elim o as (λ _. PoolManager × Result (Interface × Changes)) [
                | some current ↦ update_existing_interface n live iface current ch p
                | none ↦ update_new_interface n live iface ch p
              ]).0
      go none = update_new_interface-Keeps iface ch p ranged
      go (some current) = update_existing_interface-Keeps iface current ch p ranged

  update_interfaces-Keeps :
      (currents : GoMap Text) (ifaces : List Interface) (ch : Changes) (p : PoolManager)
      → IsRanged p
      → Keeps Mine p (update_interfaces n live currents ifaces ch p).0
  unfolding update_interfaces
  update_interfaces-Keeps currents [] ch p ranged = Keeps-refl ranged
  update_interfaces-Keeps currents (iface ∷ ifaces) ch p ranged =
      let first = update_interface-Keeps currents iface ch p ranged in
      Keeps-step _ _ _ first
        (λ (a : Interface × Changes) e. update_interfaces-Keeps currents ifaces a.1 _ first.ranged)
        (λ e. Keeps-refl first.ranged)

  stamp_changes-Keeps :
      (timestamp : ℕ) (ch : Changes) (p : PoolManager)
      → IsRanged p
      → Keeps Mine p (stamp_changes n timestamp ch live p)
  unfolding stamp_changes
  stamp_changes-Keeps timestamp ch p ranged =
      let a = stamp_allocations-Keeps n live mine timestamp ch.news p ranged in
      let b = stamp_allocations-Keeps n live mine timestamp ch.delta _ a.ranged in
      let c = stamp_allocations-Keeps n live mine timestamp ch.released _ b.ranged in
      Keeps-trans a (Keeps-trans b c)

pub update_mac_addresses_for_virtual_machine-For :
    {Mine : Text → Type 0} (previous : Option VirtualMachine) (vm : VirtualMachine) (timestamp : ℕ)
    (live : Bool) (p : PoolManager)
    → (live ≡ true → Mine (vm_namespaced vm.namespace vm.name))
    → IsRanged p
    → Keeps Mine p (update_mac_addresses_for_virtual_machine previous vm timestamp live p).0
unfolding update_mac_addresses_for_virtual_machine
update_mac_addresses_for_virtual_machine-For {Mine} none vm timestamp live p mine ranged =
    allocate_virtual_machine_mac-For vm timestamp live p mine ranged
update_mac_addresses_for_virtual_machine-For {Mine} (some previous) vm timestamp live p mine
      ranged =
    let name = vm_namespaced vm.namespace vm.name in
    let currents = interface_map previous.interfaces [] in
    let start : Changes = record { news = []; released = []; delta = currents } in
    let run = update_interfaces-Keeps name live mine currents vm.interfaces start p ranged in
    if_intro (After Mine p) (not vm.has_template) (Keeps-refl ranged) (
      Keeps-step (check_interfaces live vm.interfaces) _ _ (Keeps-refl ranged)
        (λ _ e. if_intro (After Mine p) (not previous.has_template) (Keeps-refl ranged) (
          Keeps-step _ _ _ run
            (λ (a : List Interface × Changes) e.
              stamp_changes-Keeps name live mine timestamp a.1 _ run.ranged)
            (λ e. Keeps-refl run.ranged)))
        (λ e. Keeps-refl ranged))

-- In a pool with a proper range, UpdateMacAddressesForVirtualMachine keeps, whatever it returns,
-- the range invariant and the absence of empty keys, changes nothing of the pool but the current
-- address and the map, and changes no entry of another instance, its transaction time included, and
-- in a dry run no entry at all.
pub update_mac_addresses_for_virtual_machine-Keeps :
    (previous : Option VirtualMachine) (vm : VirtualMachine) (timestamp : ℕ) (live : Bool)
    (p : PoolManager)
    → IsRanged p
    → Keeps
        (λ n. (live ≡ true) × (n ≡ vm_namespaced vm.namespace vm.name))
        p
        (update_mac_addresses_for_virtual_machine previous vm timestamp live p).0
update_mac_addresses_for_virtual_machine-Keeps previous vm timestamp live p ranged =
    update_mac_addresses_for_virtual_machine-For previous vm timestamp live p (λ runs. (runs, refl))
      ranged
