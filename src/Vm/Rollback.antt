-- ===== src/Vm/Rollback.antt =====
-- A failed AllocateVirtualMachineMac of pkg/pool-manager/virtualmachine_pool.go takes back all that
-- it has entered.
use kubemacpool.Prelude.{
  not, >>=-eq-ok, ℕ, ◌≤◌, ◌≡◌, ◌↔◌, inl, inr, refl, sym, ◌∙◌, true, false, List, [], ◌∷◌, Text,
  text_eq, text_eq_iff, text_eq_refl, GoMap, lookup, get_or_zero, length, any_of, arith,
  if◌then◌else◌, ◌==◌, Bool-cases, if_intro, Result, ok, err, Error,
}
use kubemacpool.Kubevirt.{Interface, VirtualMachine}
use kubemacpool.MacMap.{MacEntry, belongs_to}
use kubemacpool.MacMap.View.{holds-entries_of, entries_at, is_of, holds, holds_any}
use kubemacpool.MacMap.Count.{count_of, IsCovered}
use kubemacpool.Pool.{PoolManager}
use kubemacpool.Pool.FreeMac.{IsRanged}
use kubemacpool.Pool.Keeps.{Keeps}
use kubemacpool.Vm.{
  vm_namespaced, network_map, check_intra_vm_duplicate_macs, check_vm_for_interface_duplication,
  check_interfaces, allocate_interfaces, stamp_allocations, allocate_virtual_machine_mac,
}
use kubemacpool.Vm.Allocation.{allocate_interfaces-Keeps}
use kubemacpool.Vm.Checks.{IsDistinct, interface_names, check_vm_for_interface_duplication_iff}
use kubemacpool.Vm.Covered.{AllRolled, AreMissing, allocate_interfaces-AllRolled}

none_counted : (n : Text) (es : List MacEntry) → (any_of (is_of n) es ≡ false) ↔ (count_of n es ≤ 0)
none_counted n [] = (λ h. omega arith, λ h. refl)
none_counted n (e ∷ es) = ground (arith, none_counted n es)

-- Who holds what is as it was.
abbrev pub SameHolders : PoolManager → PoolManager → Type 0
SameHolders p p' = (k n i : Text) → holds p'.mac_pool_map k n i ≡ holds p.mac_pool_map k n i

-- The instance holds no address.
abbrev pub IsNew : Text → PoolManager → Type 0
IsNew n p = (k : Text) → holds_any p.mac_pool_map k n ≡ false

-- What a failure leaves.
abbrev Restored {ℓ} : {A : Type ℓ} → PoolManager → PoolManager × Result A → Type 0
Restored p (p', err e) = SameHolders p p'
Restored p (p', ok a) = Unit

any_of_mono :
    (n i : Text) (es : List MacEntry)
    → any_of (is_of n) es ≡ false
    → any_of (belongs_to n i) es ≡ false
unfolding is_of belongs_to
any_of_mono n i [] h = refl
any_of_mono n i (e ∷ es) h = ground (arith, any_of_mono n i es)

same_holders :
    (n : Text) (p p' : PoolManager)
    → Keeps (λ m. m ≡ n) p p'
    → IsNew n p
    → IsCovered n [] p'.mac_pool_map
    → SameHolders p p'
unfolding holds holds_any
same_holders n p p' keeps new covered k m i = elim (Bool-cases (text_eq m n)) [
  | inl same ↦
      let e = (text_eq_iff m n).0 same in
      let after = (none_counted n (entries_at k p'.mac_pool_map)).1 (covered k) in
      rw e (
        any_of_mono n i (entries_at k p'.mac_pool_map) after
        ∙ sym (any_of_mono n i (entries_at k p.mac_pool_map) (new k)))
  | inr other ↦
      holds-entries_of k m i p.mac_pool_map p'.mac_pool_map
        (keeps.entries.others k m (λ e. cc (rw (e, text_eq_refl) at other)))
]

check_interfaces-IsDistinct :
    (ifaces : List Interface)
    → check_interfaces true ifaces ≡ ok tt
    → IsDistinct (interface_names ifaces)
unfolding check_interfaces
check_interfaces-IsDistinct ifaces h =
    let (u, first, second) =
      >>=-eq-ok (check_intra_vm_duplicate_macs ifaces)
        (λ _. check_vm_for_interface_duplication ifaces) h in
    (check_vm_for_interface_duplication_iff ifaces).0 second

allocate-Restored :
    (vm : VirtualMachine) (timestamp : ℕ) (p : PoolManager)
    → IsRanged p
    → IsNew (vm_namespaced vm.namespace vm.name) p
    → Restored p (allocate_virtual_machine_mac vm timestamp true p)
unfolding allocate_virtual_machine_mac lookup get_or_zero holds_any
allocate-Restored vm timestamp p ranged new =
    if_intro (λ (r : PoolManager × Result VirtualMachine). Restored p r) (not vm.has_template)
      (λ k n i. refl)
      (if_intro (λ (r : PoolManager × Result VirtualMachine). Restored p r)
        (length vm.interfaces == 0) tt (checked (check_interfaces true vm.interfaces) refl))
  where
    name : Text
    name = vm_namespaced vm.namespace vm.name

    run : PoolManager × Result (List Interface × GoMap Text)
    run = allocate_interfaces name (network_map vm.networks []) true vm.interfaces [] p

    finished : PoolManager × Result VirtualMachine
    finished = elim run.1 [
      | err e ↦ (run.0, err e)
      | ok (ifaces, news) ↦
          (stamp_allocations name timestamp news true run.0, ok (record vm { interfaces = ifaces }))
    ]

    missing : (ifaces : List Interface) → AreMissing name (network_map vm.networks []) [] ifaces
    missing [] = tt
    missing (iface ∷ ifaces) = (refl, missing ifaces)

    done :
        (r : PoolManager × Result (List Interface × GoMap Text))
        → Keeps (λ m. m ≡ name) p r.0
        → AllRolled name (network_map vm.networks []) r
        → Restored p (elim r.1 as (λ _. PoolManager × Result VirtualMachine) [
          | err e ↦ (r.0, err e)
          | ok (ifaces, news) ↦ (
            stamp_allocations name timestamp news true r.0,
            ok (record vm { interfaces = ifaces }),
          )
        ])
    done (q, err e) keeps rolled = same_holders name p q keeps new rolled
    done (q, ok a) keeps rolled = tt

    checked :
        (c : Result (Unit {0}))
        → check_interfaces true vm.interfaces ≡ c
        → Restored p (elim c as (λ _. PoolManager × Result VirtualMachine) [
          | err e ↦ (p, err e)
          | ok _ ↦ if length vm.networks == 0 then (p, ok vm) else finished
        ])
    checked (err e) h = λ k n i. refl
    checked (ok u) h =
        if_intro (λ (r : PoolManager × Result VirtualMachine). Restored p r)
          (length vm.networks == 0) tt
          (done run
            (allocate_interfaces-Keeps name true (λ _. refl) (network_map vm.networks [])
              vm.interfaces [] p ranged)
            (allocate_interfaces-AllRolled name (network_map vm.networks []) vm.interfaces [] p
              ranged (check_interfaces-IsDistinct vm.interfaces h) (missing vm.interfaces)
              (λ k. (none_counted name (entries_at k p.mac_pool_map)).0 (new k))))

-- In a pool with a proper range, a call of AllocateVirtualMachineMac that is not a dry run, for a
-- machine that holds no address yet, and that fails, leaves every instance holding just what it
-- held, the machine itself nothing.
pub allocate_virtual_machine_mac-SameHolders :
    (vm : VirtualMachine) (timestamp : ℕ) (p : PoolManager) (e : Error)
    → IsRanged p
    → IsNew (vm_namespaced vm.namespace vm.name) p
    → (allocate_virtual_machine_mac vm timestamp true p).1 ≡ err e
    → SameHolders p (allocate_virtual_machine_mac vm timestamp true p).0
allocate_virtual_machine_mac-SameHolders vm timestamp p e ranged new =
    go (allocate_virtual_machine_mac vm timestamp true p)
      (allocate-Restored vm timestamp p ranged new)
  where
    go : (r : PoolManager × Result VirtualMachine) → Restored p r → r.1 ≡ err e → SameHolders p r.0
    go (q, err e') h failed = h
    go (q, ok a) h failed = absurd cc
