-- ===== src/Vm/Held.antt =====
-- What AllocateVirtualMachineMac of pkg/pool-manager/virtualmachine_pool.go gives to a virtual
-- machine where it succeeds.
use kubemacpool.Prelude.{
  ◌∙◌, ℕ, ◌≡◌, refl, ap, subst, true, false, not, some, List, [], ◌∷◌, Text, text_eq, text_eq_refl,
  GoMap, arith, length, if_split, Result, ok, err, ◌>>=◌, Option-cases, ◌==◌, inl, inr,
}
use kubemacpool.Net.{HardwareAddr, new_mac_key, mac_string, parse_mac}
use kubemacpool.Kubevirt.{Interface, Network, VirtualMachine}
use kubemacpool.MacMap.{MacMap, create_or_update_entry}
use kubemacpool.MacMap.View.{holds}
use kubemacpool.MacMap.Update.{holds-create_or_update_entry}
use kubemacpool.Pool.{PoolManager, get_free_mac, is_allocated}
use kubemacpool.Pool.FreeMac.{IsRanged, Freed, get_free_mac-Freed}
use kubemacpool.Pool.Keeps.{Grows, create-Grows, stamps-SameHolds}
use kubemacpool.Vm.{
  vm_namespaced, is_interface_supported, network_map, check_interfaces, record_entry,
  allocate_from_pool_for_virtual_machine, allocate_requested_virtual_machine_interface_mac,
  allocate_interface, allocate_interfaces, stamp_allocations, allocate_virtual_machine_mac,
}
use kubemacpool.Vm.Allocation.{allocate_interface-Keeps}
use kubemacpool.Vm.Served.{
  IsFresh, Served, AllServed, OnOk, OnOk-step, OnOk-get, missing-IsFresh, Served-Grows,
  AllServed-Grows, Grows-refl,
}

created :
    (mac n i : Text) (m : MacMap)
    → holds (create_or_update_entry mac n i m) (new_mac_key mac) n i ≡ true
created mac n i m =
    rw
      (holds-create_or_update_entry, text_eq_refl (new_mac_key mac), text_eq_refl n, text_eq_refl i)

-- The address `mac` has been entered for the interface.
abbrev pub Entered : Text → Interface → MacMap → MacMap → Text → Type 0
Entered n iface m m' mac = Grows m m' × (holds m' (new_mac_key mac) n iface.name ≡ true)

record_entry-Entered :
    (mac n : Text) (iface : Interface) (p : PoolManager)
    → Entered n iface p.mac_pool_map (record_entry true mac n iface.name p).mac_pool_map mac
unfolding record_entry
record_entry-Entered mac n iface p =
    (create-Grows mac n iface.name p.mac_pool_map, created mac n iface.name p.mac_pool_map)

-- The pool after an address that is asked for, and after one that is drawn.
abbrev pub Asked : Text → Interface → PoolManager → PoolManager → Unit {0} → Type 0
Asked n iface p q _ = Entered n iface p.mac_pool_map q.mac_pool_map iface.mac_address

abbrev Drawn : Text → Interface → PoolManager → PoolManager → Text → Type 0
Drawn n iface p q mac =
    IsFresh p.mac_pool_map (new_mac_key mac) × Entered n iface p.mac_pool_map q.mac_pool_map mac

pub requested-Entered :
    (n : Text) (iface : Interface) (p : PoolManager)
    → OnOk (Asked n iface p) (allocate_requested_virtual_machine_interface_mac n iface true p)
unfolding allocate_requested_virtual_machine_interface_mac
requested-Entered n iface p = elim (Option-cases (parse_mac iface.mac_address)) [
  | inl e ↦ rw (e, allocate_requested_virtual_machine_interface_mac) tt
  | inr (hw, e) ↦
      rw (e, allocate_requested_virtual_machine_interface_mac)
        (record_entry-Entered iface.mac_address n iface p)
]

from_pool-Entered :
    (n : Text) (iface : Interface) (p : PoolManager)
    → IsRanged p
    → OnOk (Drawn n iface p) (allocate_from_pool_for_virtual_machine n iface true p)
unfolding allocate_from_pool_for_virtual_machine is_allocated
from_pool-Entered n iface p ranged = go (get_free_mac p) (get_free_mac-Freed p ranged)
  where
    go :
        (r : PoolManager × Result HardwareAddr)
        → Freed p r
        → OnOk (Drawn n iface p) (elim r.1 as (λ _. PoolManager × Result Text) [
          | err e ↦ (r.0, err e)
          | ok mac ↦ (record_entry true (mac_string mac) n iface.name r.0, ok (mac_string mac))
        ])
    go (q, err e) h = tt
    go (q, ok mac) (hm, lo, hi, unused, kept, ranged', moved) =
        let same = ap (λ q. q.mac_pool_map) kept in
        (
          missing-IsFresh (new_mac_key (mac_string mac)) p.mac_pool_map unused,
          subst
              (λ m.
                Entered n iface m (record_entry true (mac_string mac) n iface.name q).mac_pool_map
                  (mac_string mac))
              same (record_entry-Entered (mac_string mac) n iface q),
        )

module _ (n : Text) (networks : GoMap Network) where
  -- One round of the loop.
  abbrev ServedOne : Interface → PoolManager → PoolManager → Interface × GoMap Text → Type 0
  ServedOne i p q (j, news) =
      Grows p.mac_pool_map q.mac_pool_map
      × Served (is_interface_supported i networks) (text_eq i.mac_address []) n p.mac_pool_map
          q.mac_pool_map i j

  allocate_interface-Served :
      (i : Interface) (news : GoMap Text) (p : PoolManager)
      → IsRanged p
      → OnOk (ServedOne i p) (allocate_interface n networks true i news p)
  unfolding allocate_interface
  allocate_interface-Served i news p ranged =
      if_split (OnOk (ServedOne i p)) (not (is_interface_supported i networks))
        (λ unsupported.
          let no : is_interface_supported i networks ≡ false = ground arith in
          (λ k n' i' held. held, rw no refl))
        (λ served.
          let yes : is_interface_supported i networks ≡ true = ground arith in
          if_split (OnOk (ServedOne i p)) (not (text_eq i.mac_address []))
            (λ asked.
              let given : text_eq i.mac_address [] ≡ false = ground arith in
              OnOk-step (ServedOne i p) _ _ _ (λ a e.
                let (grows, held) =
                  OnOk-get (Asked n i p)
                    (allocate_requested_virtual_machine_interface_mac n i true p)
                    (requested-Entered n i p) e in
                (grows, rw (yes, given) (refl, held))))
            (λ drawn.
              let empty : text_eq i.mac_address [] ≡ true = ground arith in
              OnOk-step (ServedOne i p) _ _ _ (λ a e.
                let (fresh, entered) =
                  OnOk-get (Drawn n i p) (allocate_from_pool_for_virtual_machine n i true p)
                    (from_pool-Entered n i p ranged) e in
                (entered.0, rw (yes, empty) (refl, fresh, entered.1)))))

  abbrev ServedAll :
      List Interface → PoolManager → PoolManager → List Interface × GoMap Text → Type 0
  ServedAll is p q (js, news) =
      Grows p.mac_pool_map q.mac_pool_map × AllServed n networks p.mac_pool_map q.mac_pool_map is js

  with_rest :
      (i : Interface) (is : List Interface) (p q : PoolManager) (j : Interface) (news : GoMap Text)
      (r : PoolManager × Result (List Interface × GoMap Text))
      → ServedOne i p q (j, news)
      → OnOk (ServedAll is q) r
      → OnOk (ServedAll (i ∷ is) p) (r.0, r.1 >>= λ r. ok (j ∷ r.0, r.1))
  with_rest i is p q j news (p', err e) one rest = tt
  with_rest i is p q j news (p', ok (js, news')) (grows, one) (grows', rest) = (
    λ k n' i' held. grows' k n' i' (grows k n' i' held),
    (
      Served-Grows (is_interface_supported i networks) (text_eq i.mac_address []) n p.mac_pool_map
          p.mac_pool_map q.mac_pool_map p'.mac_pool_map i j (Grows-refl p.mac_pool_map) grows' one,
      AllServed-Grows n networks p.mac_pool_map q.mac_pool_map p'.mac_pool_map p'.mac_pool_map is js
          grows (Grows-refl p'.mac_pool_map) rest,
    ),
  )

  allocate_interfaces-Served :
      (is : List Interface) (news : GoMap Text) (p : PoolManager)
      → IsRanged p
      → OnOk (ServedAll is p) (allocate_interfaces n networks true is news p)
  unfolding allocate_interfaces
  allocate_interfaces-Served [] news p ranged = (λ k n' i' held. held, tt)
  allocate_interfaces-Served (i ∷ is) news p ranged =
      let step = allocate_interface n networks true i news p in
      let keeps =
        allocate_interface-Keeps {Mine = λ m. m ≡ n} n true (λ _. refl) networks i news p ranged in
      OnOk-step (ServedAll (i ∷ is) p) step.1 _ (λ _. step.0)
        (λ (a : Interface × GoMap Text) e.
          with_rest i is p step.0 a.0 a.1 (allocate_interfaces n networks true is a.1 step.0)
            (OnOk-get (ServedOne i p) step (allocate_interface-Served i news p ranged) e)
            (allocate_interfaces-Served is a.1 step.0 keeps.ranged))

nothing-Served :
    (n : Text) (networks : GoMap Network) (m : MacMap) (is : List Interface)
    → (length is == 0) ≡ true
    → AllServed n networks m m is is
nothing-Served n networks m [] h = tt
nothing-Served n networks m (i ∷ is) h = absurd (ground arith)

-- The outcome for the machine: its interfaces are served, and nothing else of it has changed.
abbrev pub Allocated : VirtualMachine → PoolManager → PoolManager → VirtualMachine → Type 0
Allocated vm p p' vm' =
    Grows p.mac_pool_map p'.mac_pool_map
    × (vm' ≡ record vm { interfaces = vm'.interfaces })
    × AllServed (vm_namespaced vm.namespace vm.name) (network_map vm.networks []) p.mac_pool_map
        p'.mac_pool_map vm.interfaces vm'.interfaces

stamped-Allocated :
    (vm : VirtualMachine) (timestamp : ℕ) (p q : PoolManager) (js : List Interface)
    (news : GoMap Text)
    → let n = vm_namespaced vm.namespace vm.name in
      ServedAll n (network_map vm.networks []) vm.interfaces p q (js, news)
      → Allocated vm p (stamp_allocations n timestamp news true q) (record vm { interfaces = js })
unfolding stamp_allocations
stamped-Allocated vm timestamp p q js news (grows, served) =
    let n = vm_namespaced vm.namespace vm.name in
    let same = stamps-SameHolds n (some timestamp) news q.mac_pool_map in
    let stamps = λ (k : Text) (n' : Text) (i' : Text) (held : holds q.mac_pool_map k n' i' ≡ true).
      same k n' i' ∙ held in
    (
      λ k n' i' held. stamps k n' i' (grows k n' i' held),
      refl,
      AllServed-Grows n (network_map vm.networks []) p.mac_pool_map p.mac_pool_map q.mac_pool_map _
          vm.interfaces js (Grows-refl p.mac_pool_map) stamps served,
    )

-- In a pool with a proper range, a call of AllocateVirtualMachineMac that is not a dry run, for a
-- machine with networks, and that succeeds, leaves every address held that was held before, gives
-- each supported interface the address that it asks for or else one that nobody held, with an entry
-- for it, and changes nothing else of the machine.
pub allocate_virtual_machine_mac-Allocated :
    (vm : VirtualMachine) (timestamp : ℕ) (p : PoolManager)
    → IsRanged p
    → (length vm.networks == 0) ≡ false
    → OnOk (Allocated vm p) (allocate_virtual_machine_mac vm timestamp true p)
unfolding allocate_virtual_machine_mac
allocate_virtual_machine_mac-Allocated vm timestamp p ranged networked =
    let n = vm_namespaced vm.namespace vm.name in
    let networks = network_map vm.networks [] in
    let m = p.mac_pool_map in
    let run = allocate_interfaces n networks true vm.interfaces [] p in
    if_split (OnOk (Allocated vm p)) (not vm.has_template) (λ _. tt)
      (λ _.
        if_split (OnOk (Allocated vm p)) (length vm.interfaces == 0)
          (λ none_at_all.
            (Grows-refl m, refl, nothing-Served n networks m vm.interfaces none_at_all))
          (λ some_interfaces.
            OnOk-step (Allocated vm p) (check_interfaces true vm.interfaces) _ (λ _. p)
              (λ _ checked.
                if_split (OnOk (Allocated vm p)) (length vm.networks == 0)
                  (λ without. cc (without, networked))
                  (λ with_networks.
                    OnOk-step (Allocated vm p) run.1 _ (λ _. run.0)
                      (λ (a : List Interface × GoMap Text) e.
                        stamped-Allocated vm timestamp p run.0 a.0 a.1 (
                          OnOk-get (ServedAll n networks vm.interfaces p) run
                            (allocate_interfaces-Served n networks vm.interfaces [] p ranged)
                            e))))))
