-- ===== src/Vm/Refused.antt =====
-- Why AllocateVirtualMachineMac of pkg/pool-manager/virtualmachine_pool.go fails.
pub mod Faults
use kubemacpool.Prelude.{
  ◌∙◌, ap, if_split, arith, ap, ◌++◌, ◌∙◌, All, Bool-cases, inl, inr, true, false, ℕ, ◌≡◌, refl,
  sym, subst, Bool, not, Option, none, some, List, [], ◌∷◌, Text, text_eq, GoMap, insert, has_key,
  length, ◌==◌, if_intro, Result, ok, err, Error, ◌>>=◌,
}
use kubemacpool.Net.{HardwareAddr, parse_mac, new_mac_key}
use kubemacpool.Kubevirt.{Interface, Network, VirtualMachine}
use kubemacpool.Pool.{PoolManager, get_free_mac}
use kubemacpool.Pool.FreeMac.{IsRanged, Freed, get_free_mac-Freed}
use kubemacpool.Vm.{
  vm_namespaced, is_interface_supported, network_map, interface_names_loop,
  check_vm_for_interface_duplication, duplicate_macs_loop, check_intra_vm_duplicate_macs,
  check_interfaces, record_entry, allocate_from_pool_for_virtual_machine,
  allocate_requested_virtual_machine_interface_mac, allocate_interface, allocate_interfaces,
  allocate_virtual_machine_mac,
}
use kubemacpool.Vm.Allocation.{allocate_interface-Keeps}
use kubemacpool.Vm.Checks.{
  IsDistinct, Parses, interface_names, asked_macs, mac_keys, seen_one-nil, duplicate_mac-seen,
  invalid_mac-Parses, check_vm_for_interface_duplication_iff,
}
use kubemacpool.MacMap.{MacMap}
use kubemacpool.Mac.Value.{value}
use kubemacpool.Pool.Scanning.{IsFull}
use kubemacpool.Pool.Keeps.{KeepsMap, KeepsMap-refl, KeepsMap-trans, Keeps}
use kubemacpool.Vm.Refused.Faults.{
  Refused, Refused-step, Refused->>=, Refused-map, IsAtFault, check_interfaces-Refused,
}

-- Every address of the range is held once the first interfaces, none or more, have been served.
abbrev pub IsFullAfter :
    Text → GoMap Network → Bool → List Interface → GoMap Text → PoolManager → Type 0
IsFullAfter n networks live is news p =
    (first : List Interface) × (rest : List Interface) × (is ≡ first ++ rest)
    × (served : List Interface × GoMap Text) × ((allocate_interfaces n networks live first news p).1
        ≡ ok served)
    × IsFull (allocate_interfaces n networks live first news p).0.mac_pool_map (value p.range_start)
        (value p.range_end)

-- Why the loop stops.
abbrev Stops :
    Text → GoMap Network → Bool → List Interface → GoMap Text → PoolManager → Error → Type 0
Stops n networks live is news p Error.invalid_mac = ¬ All Parses (asked_macs is)
Stops n networks live is news p Error.range_full = IsFullAfter n networks live is news p
Stops n networks live is news p _ = ⊥

-- A request is refused because it is at fault, or the range is full.
abbrev pub IsRefusal : Text → GoMap Network → Bool → List Interface → PoolManager → Error → Type 0
IsRefusal n networks live is p Error.range_full = IsFullAfter n networks live is [] p
IsRefusal n networks live is p e = IsAtFault is e

module _ (n : Text) (networks : GoMap Network) (live : Bool) where
  abbrev Own : Text → Type 0
  Own k = (live ≡ true) × (k ≡ n)

  -- Where the first interface is served, the loop goes on behind it.
  served_first :
      (iface : Interface) (is : List Interface) (news : GoMap Text) (p : PoolManager)
      (a : Interface × GoMap Text)
      → (allocate_interface n networks live iface news p).1 ≡ ok a
      → let rest =
          allocate_interfaces n networks live is a.1
            (allocate_interface n networks live iface news p).0 in
        allocate_interfaces n networks live (iface ∷ is) news p
        ≡ (rest.0, rest.1 >>= λ r. ok (a.0 ∷ r.0, r.1))
  unfolding allocate_interfaces
  served_first iface is news p a ok_first = rw (ok_first, allocate_interfaces) refl

  IsFullAfter-earlier :
      (iface : Interface) (is : List Interface) (news : GoMap Text) (p : PoolManager)
      (a : Interface × GoMap Text)
      → (allocate_interface n networks live iface news p).1 ≡ ok a
      → Keeps Own p (allocate_interface n networks live iface news p).0
      → IsFullAfter n networks live is a.1 (allocate_interface n networks live iface news p).0
      → IsFullAfter n networks live (iface ∷ is) news p
  IsFullAfter-earlier iface is news p a ok_first keeps (first, rest, split, served, is_ok, full) =
      let step = allocate_interface n networks live iface news p in
      let goes_on = served_first iface first news p a ok_first in
      let same =
        subst
          (λ (r : PoolManager).
            IsFull (allocate_interfaces n networks live first a.1 step.0).0.mac_pool_map
              (value r.range_start) (value r.range_end))
          keeps.others_same full in
      (
        iface ∷ first,
        rest,
        ap (λ js. iface ∷ js) split,
        (a.0 ∷ served.0, served.1),
        ap (λ r. r.1) goes_on
            ∙ ap (λ (r : Result (List Interface × GoMap Text)). r >>= λ r. ok (a.0 ∷ r.0, r.1))
                is_ok,
        subst (λ m. IsFull m (value p.range_start) (value p.range_end))
            (sym (ap (λ r. r.0.mac_pool_map) goes_on)) same,
      )

  asked_here :
      (iface : Interface) (is : List Interface)
      → text_eq iface.mac_address [] ≡ false
      → parse_mac iface.mac_address ≡ none
      → ¬ All Parses (asked_macs (iface ∷ is))
  asked_here iface is given fails all = (rw (fails, Parses) at (rw given at all).0)

  Parses-later :
      (iface : Interface) (is : List Interface)
      → All Parses (asked_macs (iface ∷ is))
      → All Parses (asked_macs is)
  Parses-later iface is all = elim (Bool-cases (text_eq iface.mac_address [])) [
    | inl empty ↦ rw empty at all
    | inr given ↦ (rw given at all).1
  ]

  requested-Refused :
      (iface : Interface) (is : List Interface) (news : GoMap Text) (p : PoolManager)
      → text_eq iface.mac_address [] ≡ false
      → Refused
          (Stops n networks live (iface ∷ is) news p)
          (allocate_requested_virtual_machine_interface_mac n iface live p).1
  unfolding allocate_requested_virtual_machine_interface_mac
  requested-Refused iface is news p given = go (parse_mac iface.mac_address) refl
    where
      go :
          (o : Option HardwareAddr)
          → parse_mac iface.mac_address ≡ o
          → Refused
              (Stops n networks live (iface ∷ is) news p)
              (elim o as (λ _. PoolManager × Result (Unit {0})) [
                | none ↦ (p, err Error.invalid_mac)
                | some hw ↦ (record_entry live iface.mac_address n iface.name p, ok tt)
              ]).1
      go none fails = asked_here iface is given fails
      go (some hw) parses = tt

  from_pool-Refused :
      (iface : Interface) (is : List Interface) (news : GoMap Text) (p : PoolManager)
      → IsRanged p
      → Refused
          (Stops n networks live is news p)
          (allocate_from_pool_for_virtual_machine n iface live p).1
  unfolding allocate_from_pool_for_virtual_machine allocate_interfaces
  from_pool-Refused iface is news p ranged =
      Refused-step (Stops n networks live is news p) (get_free_mac p).1 _ (λ _. (get_free_mac p).0)
        (full (get_free_mac p) (get_free_mac-Freed p ranged)) (λ mac _. tt)
    where
      full :
          (r : PoolManager × Result HardwareAddr)
          → Freed p r
          → Refused (Stops n networks live is news p) r.1
      full (p', ok mac) h = tt
      full (p', err e) (is_full, all, kept) =
          subst (Stops n networks live is news p) (sym is_full)
            ([], is, refl, ([], news), refl, all)

  allocate_interface-Refused :
      (iface : Interface) (is : List Interface) (news : GoMap Text) (p : PoolManager)
      → IsRanged p
      → Refused
          (Stops n networks live (iface ∷ is) news p)
          (allocate_interface n networks live iface news p).1
  unfolding allocate_interface
  allocate_interface-Refused iface is news p ranged =
      let E = Stops n networks live (iface ∷ is) news p in
      let P = λ (r : PoolManager × Result (Interface × GoMap Text)). Refused E r.1 in
      if_intro P (not (is_interface_supported iface networks)) tt (
        if_split P (not (text_eq iface.mac_address []))
          (λ asked.
            Refused-step E (allocate_requested_virtual_machine_interface_mac n iface live p).1 _ _
              (requested-Refused iface is news p (ground arith)) (λ _ _. tt))
          (λ drawn.
            Refused-step E (allocate_from_pool_for_virtual_machine n iface live p).1 _ _
              (from_pool-Refused iface (iface ∷ is) news p ranged) (λ _ _. tt)))

  later-Stops :
      (iface : Interface) (is : List Interface) (news : GoMap Text) (p : PoolManager)
      (a : Interface × GoMap Text)
      → (allocate_interface n networks live iface news p).1 ≡ ok a
      → Keeps Own p (allocate_interface n networks live iface news p).0
      → (e : Error)
      → Stops n networks live is a.1 (allocate_interface n networks live iface news p).0 e
      → Stops n networks live (iface ∷ is) news p e
  later-Stops iface is news p a ok_first keeps Error.invalid_mac h =
      λ all. h (Parses-later iface is all)
  later-Stops iface is news p a ok_first keeps Error.range_full full =
      IsFullAfter-earlier iface is news p a ok_first keeps full
  later-Stops iface is news p a ok_first keeps _ h = absurd h

  allocate_interfaces-Refused :
      (ifaces : List Interface) (news : GoMap Text) (p : PoolManager)
      → IsRanged p
      → Refused
          (Stops n networks live ifaces news p)
          (allocate_interfaces n networks live ifaces news p).1
  unfolding allocate_interfaces
  allocate_interfaces-Refused [] news p ranged = tt
  allocate_interfaces-Refused (iface ∷ ifaces) news p ranged =
      let E = Stops n networks live (iface ∷ ifaces) news p in
      let step = allocate_interface n networks live iface news p in
      let keeps =
        allocate_interface-Keeps {Mine = Own} n live (λ runs. (runs, refl)) networks iface news p
          ranged in
      Refused-step E step.1 _ _ (allocate_interface-Refused iface ifaces news p ranged)
        (λ (a : Interface × GoMap Text) ok_first.
          let rest = allocate_interfaces n networks live ifaces a.1 step.0 in
          Refused->>= E rest.1 _
            (Refused-map (Stops n networks live ifaces a.1 step.0) E rest.1
              (λ e _. later-Stops iface ifaces news p a ok_first keeps e)
              (allocate_interfaces-Refused ifaces a.1 step.0 keeps.ranged))
            (λ _. tt))

  fault-IsRefusal :
      (is : List Interface) (p : PoolManager) (e : Error)
      → IsAtFault is e
      → IsRefusal n networks live is p e
  fault-IsRefusal is p Error.invalid_mac h = h
  fault-IsRefusal is p Error.duplicate_mac h = h
  fault-IsRefusal is p Error.duplicate_interface h = h
  fault-IsRefusal is p _ h = absurd h

  stop-IsRefusal :
      (is : List Interface) (p : PoolManager) (e : Error)
      → Stops n networks live is [] p e
      → IsRefusal n networks live is p e
  stop-IsRefusal is p Error.invalid_mac h = h
  stop-IsRefusal is p Error.range_full h = h
  stop-IsRefusal is p _ h = absurd h

-- In a pool with a proper range, and for a machine with a template, AllocateVirtualMachineMac fails
-- with the error of an address that does not parse only where an address that the machine asks for
-- does not, with that of a duplicate only where two of these have one key or two interfaces one
-- name, with that of a full range only where every address of it is held once the first interfaces
-- of the machine, none or more, have been served, and with no other error; it does not panic, and
-- the fuel of the model suffices.
pub allocate_virtual_machine_mac-Refused :
    (vm : VirtualMachine) (timestamp : ℕ) (live : Bool) (p : PoolManager)
    → vm.has_template ≡ true
    → IsRanged p
    → Refused
        (IsRefusal
          (vm_namespaced vm.namespace vm.name)
          (network_map vm.networks [])
          live
          vm.interfaces
          p)
        (allocate_virtual_machine_mac vm timestamp live p).1
unfolding allocate_virtual_machine_mac
allocate_virtual_machine_mac-Refused vm timestamp live p template ranged =
    let n = vm_namespaced vm.namespace vm.name in
    let networks = network_map vm.networks [] in
    let E = IsRefusal n networks live vm.interfaces p in
    let P = λ (r : PoolManager × Result VirtualMachine). Refused E r.1 in
    let run = allocate_interfaces n networks live vm.interfaces [] p in
    if_split P (not vm.has_template) (λ missing. absurd (ground arith))
      (λ _. if_intro P (length vm.interfaces == 0) tt (
        Refused-step E (check_interfaces live vm.interfaces) _ _
          (Refused-map (IsAtFault vm.interfaces) E (check_interfaces live vm.interfaces)
            (λ e _. fault-IsRefusal n networks live vm.interfaces p e)
            (check_interfaces-Refused live vm.interfaces))
          (λ _ _. if_intro P (length vm.networks == 0) tt (
            Refused-step E run.1 _ _
              (Refused-map (Stops n networks live vm.interfaces [] p) E run.1
                (λ e _. stop-IsRefusal n networks live vm.interfaces p e)
                (allocate_interfaces-Refused n networks live vm.interfaces [] p ranged))
              (λ _ _. tt)))))
