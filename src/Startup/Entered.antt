-- ===== src/Startup/Entered.antt =====
-- What the start-up of pkg/pool-manager enters for one virtual machine.
use kubemacpool.Prelude.{
  none, ◌⊎◌, All-empty, All-map, ℕ, ◌≡◌, inl, inr, refl, ap, Bool, true, false, not, ◌||◌, List, [],
  ◌∷◌, Text, text_eq, GoMap, length, keep_if, All, arith, ◌==◌, Bool-cases, Option-cases, if_split,
  Result, ok, err, Error,
}
use kubemacpool.Kubevirt.{Interface, Network, VirtualMachine}
use kubemacpool.Paging.{each_item}
use kubemacpool.Paging.Each.{Done, Done-map, FailsAt, each_item-All}
use kubemacpool.MacMap.{MacMap}
use kubemacpool.MacMap.View.{holds}
use kubemacpool.Pool.{PoolManager}
use kubemacpool.Pool.Keeps.{Grows}
use kubemacpool.Vm.Served.{OnOk}
use kubemacpool.Vm.Held.{Asked, requested-Entered}
use kubemacpool.Net.{parse_mac, new_mac_key}
use kubemacpool.Vm.{
  network_map, allocate_requested_virtual_machine_interface_mac, is_interface_supported,
  vm_namespaced,
}
use kubemacpool.Startup.{
  init_interface, init_vm, count_duplicate, check_requested_virtual_machine_interface_mac,
}

-- A supported interface that asks for an address holds it.
abbrev pub recorded : MacMap → Text → GoMap Network → Interface → Bool
recorded m n networks iface =
    not (is_interface_supported iface networks)
    || (text_eq iface.mac_address [] || holds m (new_mac_key iface.mac_address) n iface.name)

-- Nothing is asked where the test holds.
abbrev pub Unless : Bool → Type 0 → Type 0
Unless true T = Unit
Unless false T = T

-- The interfaces of a machine with networks.
abbrev pub IsRecorded : VirtualMachine → PoolManager × ℕ → Type 0
IsRecorded vm s = Unless (length vm.networks == 0) (
    All
      (λ iface.
        recorded s.0.mac_pool_map (vm_namespaced vm.namespace vm.name) (network_map vm.networks [])
          iface
        ≡ true)
      vm.interfaces)

abbrev pub Later : PoolManager × ℕ → PoolManager × ℕ → Type 0
Later s t = Grows s.0.mac_pool_map t.0.mac_pool_map

-- The address of the interface does not parse.
abbrev pub DoesNotParse : Interface → Error → Type 0
DoesNotParse iface e = (e ≡ Error.invalid_mac) × (parse_mac iface.mac_address ≡ none)

-- The machine has no template, or an address of it does not parse.
abbrev pub StopsAt : VirtualMachine → Error → Type 0
StopsAt vm e =
    ((e ≡ Error.panic) × (vm.has_template ≡ false)) ⊎ FailsAt DoesNotParse vm.interfaces e

pub Later-trans : (s t u : PoolManager × ℕ) → Later s t → Later t u → Later s u
Later-trans s t u f g k n i h = g k n i (f k n i h)

recorded-Grows :
    (m m' : MacMap) (n : Text) (networks : GoMap Network) (iface : Interface)
    → Grows m m'
    → recorded m n networks iface ≡ true
    → recorded m' n networks iface ≡ true
recorded-Grows m m' n networks iface grows h =
    ground (arith, grows (new_mac_key iface.mac_address) n iface.name)

asked-parses :
    (n : Text) (iface : Interface) (p : PoolManager) (e : Error)
    → (allocate_requested_virtual_machine_interface_mac n iface true p).1 ≡ err e
    → DoesNotParse iface e
unfolding allocate_requested_virtual_machine_interface_mac
asked-parses n iface p e h = elim (Option-cases (parse_mac iface.mac_address)) [
  | inl none_e ↦ (cc (rw (none_e, allocate_requested_virtual_machine_interface_mac) at h), none_e)
  | inr (hw, some_e) ↦ cc (rw (some_e, allocate_requested_virtual_machine_interface_mac) at h)
]

module _ (n : Text) (networks : GoMap Network) where
  abbrev Entering : Interface → PoolManager × ℕ → PoolManager × ℕ → Type 0
  Entering iface s t = Later s t × (recorded t.0.mac_pool_map n networks iface ≡ true)

  init_interface-Done :
      (iface : Interface) (s : PoolManager × ℕ)
      → Done (DoesNotParse iface) (λ t. Entering iface s t) (init_interface n networks iface s)
  unfolding init_interface
  init_interface-Done iface (p, duplicates) =
      if_split (Done (DoesNotParse iface) (Entering iface (p, duplicates)))
        (not (is_interface_supported iface networks)) (λ unsupported. (λ k n' i h. h, ground arith))
        (λ supported.
          if_split (Done (DoesNotParse iface) (Entering iface (p, duplicates)))
            (text_eq iface.mac_address []) (λ empty. (λ k n' i h. h, ground arith))
            (λ given.
              go (allocate_requested_virtual_machine_interface_mac n iface true p) refl
                (requested-Entered n iface p)
                (count_duplicate (check_requested_virtual_machine_interface_mac n iface p)
                  duplicates)))
    where
      go :
          (r : PoolManager × Result (Unit {0}))
          → allocate_requested_virtual_machine_interface_mac n iface true p ≡ r
          → OnOk (Asked n iface p) r
          → (counted : ℕ)
          → Done (DoesNotParse iface) (Entering iface (p, duplicates)) ((r.0, counted), r.1)
      go (p', ok u) e (grows, held) counted = (grows, ground arith)
      go (p', err e') e h counted = asked-parses n iface p e' (ap (λ r. r.1) e)

Unless_intro : (b : Bool) {T : Type 0} → (b ≡ false → T) → Unless b T
Unless_intro true f = tt
Unless_intro false f = f refl

pub Unless-map : (b : Bool) {T T' : Type 0} → (T → T') → Unless b T → Unless b T'
Unless-map true f h = tt
Unless-map false f h = f h

pub All-keep_if :
    {A : Type 0} (P : A → Type 0) (test : A → Bool) (xs : List A)
    → All P (keep_if test xs)
    → All (λ x. Unless (not (test x)) (P x)) xs
All-keep_if P test [] h = tt
All-keep_if P test (x ∷ xs) h = elim (Bool-cases (test x)) [
  | inl kept ↦ let h' = rw kept at h in (rw kept h'.0, All-keep_if P test xs h'.1)
  | inr dropped ↦ let h' = rw dropped at h in (rw dropped tt, All-keep_if P test xs h')
]

pub IsRecorded-Later :
    (vm : VirtualMachine) (s t : PoolManager × ℕ) → Later s t → IsRecorded vm s → IsRecorded vm t
IsRecorded-Later vm s t later = Unless-map (length vm.networks == 0) (
    All-map vm.interfaces (λ iface.
      recorded-Grows s.0.mac_pool_map t.0.mac_pool_map (vm_namespaced vm.namespace vm.name)
        (network_map vm.networks []) iface later))

stops :
    (vm : VirtualMachine) (Q : PoolManager × ℕ → Type 0) (r : (PoolManager × ℕ) × Result (Unit {0}))
    → Done (FailsAt DoesNotParse vm.interfaces) Q r
    → Done (StopsAt vm) Q r
stops vm Q r =
    Done-map (FailsAt DoesNotParse vm.interfaces) (StopsAt vm) Q Q r (λ e h. inr h) (λ t h. h)

pub init_vm-Done :
    (vm : VirtualMachine) (s : PoolManager × ℕ)
    → Done (StopsAt vm) (λ t. Later s t × IsRecorded vm t) (init_vm vm s)
unfolding init_vm
init_vm-Done vm s =
    if_split (Done (StopsAt vm) (λ t. Later s t × IsRecorded vm t)) (not vm.has_template)
      (λ missing. inl (refl, ground arith))
      (λ _.
        if_split (Done (StopsAt vm) (λ t. Later s t × IsRecorded vm t)) (length vm.interfaces == 0)
          (λ none_asked. (
            λ k n i h. h,
            Unless_intro (length vm.networks == 0)
                (λ some_networks. All-empty _ vm.interfaces (ground arith)),
          ))
          (λ asked.
            if_split (Done (StopsAt vm) (λ t. Later s t × IsRecorded vm t))
              (length vm.networks == 0) (λ empty. (λ k n i h. h, rw empty tt))
              (λ some_networks. rw some_networks (
                stops vm
                  (λ t.
                    Later s t
                    × All
                        (λ iface.
                          recorded t.0.mac_pool_map (vm_namespaced vm.namespace vm.name)
                            (network_map vm.networks []) iface
                          ≡ true)
                        vm.interfaces)
                  (each_item
                    (init_interface (vm_namespaced vm.namespace vm.name)
                      (network_map vm.networks []))
                    vm.interfaces s)
                  (each_item-All DoesNotParse Later
                    (λ iface t.
                      recorded t.0.mac_pool_map (vm_namespaced vm.namespace vm.name)
                        (network_map vm.networks []) iface
                      ≡ true)
                    (init_interface (vm_namespaced vm.namespace vm.name)
                      (network_map vm.networks []))
                    (λ s k n i h. h) Later-trans
                    (λ iface t u later.
                      recorded-Grows t.0.mac_pool_map u.0.mac_pool_map
                        (vm_namespaced vm.namespace vm.name) (network_map vm.networks []) iface
                        later)
                    (init_interface-Done (vm_namespaced vm.namespace vm.name)
                      (network_map vm.networks []))
                    vm.interfaces s)))))
