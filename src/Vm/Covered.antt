-- ===== src/Vm/Covered.antt =====
-- The loop of AllocateVirtualMachineMac of pkg/pool-manager/virtualmachine_pool.go accounts for every
-- entry that it makes, and takes it back on an error.
use kubemacpool.Prelude.{
  lookup-insert, ◌≡◌, refl, sym, subst, true, false, not, Option, none, some, List, [], ◌∷◌, Text,
  text_eq, GoMap, lookup, insert, any_of, All, arith, if_intro, Result, ok, err, Error, ◌>>=◌,
}
use kubemacpool.Net.{HardwareAddr, parse_mac, mac_string}
use kubemacpool.Kubevirt.{Interface, Network}
use kubemacpool.MacMap.{MacMap}
use kubemacpool.MacMap.Count.{IsCovered, create-IsCovered, remove-IsCovered}
use kubemacpool.Pool.{PoolManager, get_free_mac}
use kubemacpool.Pool.FreeMac.{IsRanged}
use kubemacpool.Pool.Keeps.{get_free_mac-Keeps}
use kubemacpool.Vm.{
  is_interface_supported, record_entry, allocate_from_pool_for_virtual_machine,
  allocate_requested_virtual_machine_interface_mac, revert_macs, revert_allocation,
  allocate_interface, allocate_interfaces,
}
use kubemacpool.Vm.Allocation.{allocate_interface-Keeps}
use kubemacpool.Vm.Checks.{IsDistinct, interface_names}

revert-IsCovered :
    (n : Text) (news : GoMap Text) (m : MacMap)
    → IsCovered n news m
    → IsCovered n [] (revert_macs n news m)
unfolding revert_macs
revert-IsCovered n [] m covered = covered
revert-IsCovered n ((i, mac) ∷ news) m covered =
    revert-IsCovered n news _ (remove-IsCovered mac n i news m covered)

module _ (n : Text) (networks : GoMap Network) where
  -- An error leaves nothing; else what is held is accounted for, under no new name but that of the
  -- interface.
  abbrev Rolled : Interface → GoMap Text → PoolManager × Result (Interface × GoMap Text) → Type 0
  Rolled iface news (p', err e) = IsCovered n [] p'.mac_pool_map
  Rolled iface news (p', ok (iface', news')) =
      IsCovered n news' p'.mac_pool_map
      × ((j : Text) → text_eq iface.name j ≡ false → lookup j news ≡ none → lookup j news' ≡ none)

  inserted_missing :
      (i mac : Text) (news : GoMap Text) (j : Text)
      → text_eq i j ≡ false
      → lookup j news ≡ none
      → lookup j (insert i mac news) ≡ none
  inserted_missing i mac news j other missing = ground (arith, lookup-insert i j mac news)

  requested-Rolled :
      (iface : Interface) (news : GoMap Text) (p : PoolManager)
      → lookup iface.name news ≡ none
      → IsCovered n news p.mac_pool_map
      → Rolled iface news (
          let (p', done) = allocate_requested_virtual_machine_interface_mac n iface true p in
          elim done [
            | err e ↦ (revert_allocation n news true p', err e)
            | ok _ ↦ (p', ok (iface, insert iface.name iface.mac_address news))
          ])
  unfolding allocate_requested_virtual_machine_interface_mac record_entry revert_allocation
  requested-Rolled iface news p missing covered = go (parse_mac iface.mac_address)
    where
      go :
          (o : Option HardwareAddr)
          → Rolled iface news (
              let given : PoolManager × Result (Unit {0}) = elim o [
                | none ↦ (p, err Error.invalid_mac)
                | some hw ↦ (record_entry true iface.mac_address n iface.name p, ok tt)
              ] in
              elim given.1 [
                | err e ↦ (revert_allocation n news true given.0, err e)
                | ok _ ↦ (given.0, ok (iface, insert iface.name iface.mac_address news))
              ])
      go none = revert-IsCovered n news p.mac_pool_map covered
      go (some hw) = (
        create-IsCovered iface.mac_address n iface.name news p.mac_pool_map missing covered,
        inserted_missing iface.name iface.mac_address news,
      )

  drawn-Rolled :
      (iface : Interface) (news : GoMap Text) (p : PoolManager)
      → IsRanged p
      → lookup iface.name news ≡ none
      → IsCovered n news p.mac_pool_map
      → Rolled iface news (
          let (p', done) = allocate_from_pool_for_virtual_machine n iface true p in
          elim done [
            | err e ↦ (revert_allocation n news true p', err e)
            | ok mac ↦ (p', ok (record iface { mac_address = mac }, insert iface.name mac news))
          ])
  unfolding allocate_from_pool_for_virtual_machine record_entry revert_allocation
  drawn-Rolled iface news p ranged missing covered =
      let (keeps, same) = get_free_mac-Keeps {Mine = λ m. m ≡ n} p ranged in
      go (get_free_mac p) (subst (IsCovered n news) (sym same) covered)
    where
      go :
          (r : PoolManager × Result HardwareAddr)
          → IsCovered n news r.0.mac_pool_map
          → Rolled iface news (
              let given : PoolManager × Result Text = elim r.1 [
                | err e ↦ (r.0, err e)
                | ok mac ↦
                    (record_entry true (mac_string mac) n iface.name r.0, ok (mac_string mac))
              ] in
              elim given.1 [
                | err e ↦ (revert_allocation n news true given.0, err e)
                | ok mac ↦
                    (given.0, ok (record iface { mac_address = mac }, insert iface.name mac news))
              ])
      go (q, err e) c = revert-IsCovered n news q.mac_pool_map c
      go (q, ok mac) c = (
        create-IsCovered (mac_string mac) n iface.name news q.mac_pool_map missing c,
        inserted_missing iface.name (mac_string mac) news,
      )

  allocate_interface-Rolled :
      (iface : Interface) (news : GoMap Text) (p : PoolManager)
      → IsRanged p
      → lookup iface.name news ≡ none
      → IsCovered n news p.mac_pool_map
      → Rolled iface news (allocate_interface n networks true iface news p)
  unfolding allocate_interface
  allocate_interface-Rolled iface news p ranged missing covered =
      if_intro (Rolled iface news) (not (is_interface_supported iface networks))
        (covered, λ j other h. h)
        (if_intro (Rolled iface news) (not (text_eq iface.mac_address []))
          (requested-Rolled iface news p missing covered)
          (drawn-Rolled iface news p ranged missing covered))

  -- An error leaves nothing.
  abbrev pub AllRolled {ℓ} : {A : Type ℓ} → PoolManager × Result A → Type 0
  AllRolled (p', err e) = IsCovered n [] p'.mac_pool_map
  AllRolled (p', ok a) = Unit

  abbrev pub AreMissing : GoMap Text → List Interface → Type 0
  AreMissing news ifaces = All (λ iface. lookup iface.name news ≡ none) ifaces

  still_missing :
      (iface : Interface) (news news' : GoMap Text) (ifaces : List Interface)
      → any_of (text_eq iface.name) (interface_names ifaces) ≡ false
      → ((j : Text) → text_eq iface.name j ≡ false → lookup j news ≡ none → lookup j news' ≡ none)
      → AreMissing news ifaces
      → AreMissing news' ifaces
  still_missing iface news news' [] apart keeps h = tt
  still_missing iface news news' (next ∷ ifaces) apart keeps (h, hs) = (
    keeps next.name (ground arith) h,
    still_missing iface news news' ifaces (ground arith) keeps hs,
  )

  pub allocate_interfaces-AllRolled :
      (ifaces : List Interface) (news : GoMap Text) (p : PoolManager)
      → IsRanged p
      → IsDistinct (interface_names ifaces)
      → AreMissing news ifaces
      → IsCovered n news p.mac_pool_map
      → AllRolled (allocate_interfaces n networks true ifaces news p)
  unfolding allocate_interfaces
  allocate_interfaces-AllRolled [] news p ranged distinct missing covered = tt
  allocate_interfaces-AllRolled (iface ∷ ifaces) news p ranged (apart, distinct) (here, later)
        covered =
      go (allocate_interface n networks true iface news p)
        (allocate_interface-Keeps {Mine = λ m. m ≡ n} n true (λ _. refl) networks iface news p
          ranged).ranged
        (allocate_interface-Rolled iface news p ranged here covered)
        (λ news' q h missing c. allocate_interfaces-AllRolled ifaces news' q h distinct missing c)
    where
      bound :
          (iface' : Interface) (r : PoolManager × Result (List Interface × GoMap Text))
          → AllRolled r
          → AllRolled {A = List Interface × GoMap Text} (r.0, r.1 >>= λ a. ok (iface' ∷ a.0, a.1))
      bound iface' (q, err e) h = h
      bound iface' (q, ok a) h = tt

      go :
          (r : PoolManager × Result (Interface × GoMap Text))
          → IsRanged r.0
          → Rolled iface news r
          → ((news' : GoMap Text) (q : PoolManager)
              → IsRanged q
              → AreMissing news' ifaces
              → IsCovered n news' q.mac_pool_map
              → AllRolled (allocate_interfaces n networks true ifaces news' q))
          → AllRolled (elim r.1 as (λ _. PoolManager × Result (List Interface × GoMap Text)) [
            | err e ↦ (r.0, err e)
            | ok (iface', news') ↦
                let rest = allocate_interfaces n networks true ifaces news' r.0 in
                (rest.0, rest.1 >>= λ a. ok (iface' ∷ a.0, a.1))
          ])
      go (q, err e) h rolled more = rolled
      go (q, ok (iface', news')) h (c, keeps) more =
          bound iface' (allocate_interfaces n networks true ifaces news' q)
            (more news' q h (still_missing iface news news' ifaces apart keeps later) c)
