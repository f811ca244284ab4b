-- ===== src/Vm.antt =====
-- pkg/pool-manager/virtualmachine_pool.go: the checks on a virtual machine's interfaces, and the
-- allocation and release of its addresses. Children: Update (the update of a machine), Ready (the
-- commit and the healing of entries), and the theorems.
pub mod Update
pub mod Ready
pub mod Allocation
pub mod Checks
pub mod Names
pub mod Served
pub mod Held
pub mod Release
pub mod Refused
pub mod Covered
pub mod Rollback
use kubemacpool.Prelude.{
  ℕ, Bool, true, false, not, ◌&&◌, ◌||◌, Option, none, some, List, [], ◌∷◌, ◌++◌, Text, codes,
  text_eq, GoMap, lookup, insert, delete, has_key, length, ◌==◌, if◌then◌else◌, Result, ok, err,
  Error, ◌>>=◌, ◌>>◌,
}
use kubemacpool.Net.{parse_mac, mac_string, new_mac_key}
use kubemacpool.Kubevirt.{Interface, Network, VirtualMachine}
use kubemacpool.MacMap.{
  MacMap, create_or_update_entry, remove_instance_from_mac, filter_in_by_instance_name,
  update_mac_transaction_timestamp_for_updated_macs,
}
use kubemacpool.Pool.{PoolManager, get_free_mac}

unfoldable pub vm_namespaced : Text → Text → Text
vm_namespaced namespace name = codes "vm/" ++ (namespace ++ b'/' ∷ name)

-- The zero value of a network that is missing has no Multus.
unfoldable pub is_interface_supported : Interface → GoMap Network → Bool
is_interface_supported iface networks =
    iface.masquerade || (elim (lookup iface.name networks) [ none ↦ false | some n ↦ n.multus ])

unfoldable pub network_map : List Network → GoMap Network → GoMap Network
network_map [] acc = acc
network_map (n ∷ ns) acc = network_map ns (insert n.name n acc)

unfoldable pub interface_names_loop : List Interface → GoMap (Unit {0}) → Result (Unit {0})
interface_names_loop [] seen = ok tt
interface_names_loop (iface ∷ ifaces) seen =
    let rest = interface_names_loop ifaces (insert iface.name tt seen) in
    if has_key iface.name seen then err Error.duplicate_interface else rest

unfoldable pub check_vm_for_interface_duplication : List Interface → Result (Unit {0})
unfolding interface_names_loop
check_vm_for_interface_duplication ifaces = interface_names_loop ifaces []

unfoldable pub duplicate_macs_loop : List Interface → GoMap Text → Result (Unit {0})
duplicate_macs_loop [] seen = ok tt
duplicate_macs_loop (iface ∷ ifaces) seen =
    let skipped = duplicate_macs_loop ifaces seen in
    let key = new_mac_key iface.mac_address in
    let rest = duplicate_macs_loop ifaces (insert key iface.name seen) in
    let checked = if has_key key seen then err Error.duplicate_mac else rest in
    let parsed : Result (Unit {0}) = elim (parse_mac iface.mac_address) [
      | none ↦ err Error.invalid_mac
      | some hw ↦ checked
    ] in
    if text_eq iface.mac_address [] then skipped else parsed

unfoldable pub check_intra_vm_duplicate_macs : List Interface → Result (Unit {0})
unfolding duplicate_macs_loop
check_intra_vm_duplicate_macs ifaces = duplicate_macs_loop ifaces []

-- The checks that a request passes first, unless it is a dry run.
unfoldable pub check_interfaces : Bool → List Interface → Result (Unit {0})
check_interfaces is_not_dry_run ifaces =
    if is_not_dry_run
    then check_intra_vm_duplicate_macs ifaces >> check_vm_for_interface_duplication ifaces
    else ok tt

-- An entry is made in the map of the pool, unless in a dry run.
unfoldable pub record_entry : Bool → Text → Text → Text → PoolManager → PoolManager
record_entry is_not_dry_run mac instance key p =
    if is_not_dry_run
    then record p { mac_pool_map = create_or_update_entry mac instance key p.mac_pool_map }
    else p

unfoldable pub allocate_from_pool_for_virtual_machine :
    Text → Interface → Bool → PoolManager → PoolManager × Result Text
allocate_from_pool_for_virtual_machine vm_full_name iface is_not_dry_run p =
    let (p', freed) = get_free_mac p in
    elim freed [
      | err e ↦ (p', err e)
      | ok mac ↦ (
        record_entry is_not_dry_run (mac_string mac) vm_full_name iface.name p',
        ok (mac_string mac),
      )
    ]

unfoldable pub allocate_requested_virtual_machine_interface_mac :
    Text → Interface → Bool → PoolManager → PoolManager × Result (Unit {0})
allocate_requested_virtual_machine_interface_mac vm_full_name iface is_not_dry_run p =
    elim (parse_mac iface.mac_address) [
      | none ↦ (p, err Error.invalid_mac)
      | some hw ↦ (record_entry is_not_dry_run iface.mac_address vm_full_name iface.name p, ok tt)
    ]

unfoldable pub revert_macs : Text → GoMap Text → MacMap → MacMap
revert_macs instance [] m = m
revert_macs instance ((iface, mac) ∷ macs) m =
    revert_macs instance macs (remove_instance_from_mac mac instance m)

unfoldable pub revert_allocation : Text → GoMap Text → Bool → PoolManager → PoolManager
revert_allocation instance allocations is_not_dry_run p =
    if is_not_dry_run
    then record p { mac_pool_map = revert_macs instance allocations p.mac_pool_map }
    else p

-- One round of the loop of AllocateVirtualMachineMac: the interface as it is afterwards, and the
-- new allocations so far; on an error these are taken back.
unfoldable pub allocate_interface :
    Text
    → GoMap Network
    → Bool
    → Interface
    → GoMap Text
    → PoolManager
    → PoolManager × Result (Interface × GoMap Text)
allocate_interface vm networks live iface news p =
    if not (is_interface_supported iface networks)
    then (p, ok (iface, news))
    else if not (text_eq iface.mac_address [])
    then (let (p', done) = allocate_requested_virtual_machine_interface_mac vm iface live p in
        elim done [
          | err e ↦ (revert_allocation vm news live p', err e)
          | ok _ ↦ (p', ok (iface, insert iface.name iface.mac_address news))
        ])
    else (let (p', done) = allocate_from_pool_for_virtual_machine vm iface live p in
        elim done [
          | err e ↦ (revert_allocation vm news live p', err e)
          | ok mac ↦ (p', ok (record iface { mac_address = mac }, insert iface.name mac news))
        ])

unfoldable pub allocate_interfaces :
    Text
    → GoMap Network
    → Bool
    → List Interface
    → GoMap Text
    → PoolManager
    → PoolManager × Result (List Interface × GoMap Text)
allocate_interfaces vm networks live [] news p = (p, ok ([], news))
allocate_interfaces vm networks live (iface ∷ ifaces) news p =
    let step = allocate_interface vm networks live iface news p in
    elim step.1 [
      | err e ↦ (step.0, err e)
      | ok (iface', news') ↦
          let rest = allocate_interfaces vm networks live ifaces news' step.0 in
          (rest.0, rest.1 >>= λ r. ok (iface' ∷ r.0, r.1))
    ]

-- The stamps of the new entries; the error of the call is dropped, as in the source.
unfoldable pub stamp_allocations : Text → ℕ → GoMap Text → Bool → PoolManager → PoolManager
stamp_allocations vm timestamp news live p =
    if live
    then record p {
      mac_pool_map =
          (update_mac_transaction_timestamp_for_updated_macs vm (some timestamp) news
            p.mac_pool_map).0;
    }
    else p

-- A machine without a template is a nil dereference.
unfoldable pub allocate_virtual_machine_mac :
    VirtualMachine → ℕ → Bool → PoolManager → PoolManager × Result VirtualMachine
allocate_virtual_machine_mac vm timestamp live p =
    let name = vm_namespaced vm.namespace vm.name in
    let run = allocate_interfaces name (network_map vm.networks []) live vm.interfaces [] p in
    let finished : PoolManager × Result VirtualMachine = elim run.1 [
      | err e ↦ (run.0, err e)
      | ok (ifaces, news) ↦
          (stamp_allocations name timestamp news live run.0, ok (record vm { interfaces = ifaces }))
    ] in
    if not vm.has_template
    then (p, err Error.panic)
    else if length vm.interfaces == 0
    then (p, ok vm)
    else elim (check_interfaces live vm.interfaces) [
      | err e ↦ (p, err e)
      | ok _ ↦ if length vm.networks == 0 then (p, ok vm) else finished
    ]

-- `delete(p.macPoolMap, macAddress)` for each key of the filtered map.
unfoldable pub delete_keys : MacMap → MacMap → MacMap
delete_keys [] m = m
delete_keys ((key, entries) ∷ keys) m = delete_keys keys (delete key m)

unfoldable pub release_all_macs : Text → PoolManager → PoolManager
release_all_macs instance p = record p {
  mac_pool_map = delete_keys (filter_in_by_instance_name instance p.mac_pool_map) p.mac_pool_map;
}
