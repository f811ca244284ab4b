-- ===== src/Vm/Update.antt =====
-- UpdateMacAddressesForVirtualMachine of pkg/pool-manager/virtualmachine_pool.go.
pub mod Keeps
use kubemacpool.Prelude.{
  Error, ℕ, Bool, not, Option, none, some, List, [], ◌∷◌, Text, text_eq, GoMap, lookup, insert,
  delete, if◌then◌else◌, Result, ok, err, ◌>>=◌,
}
use kubemacpool.Net.{new_mac_key}
use kubemacpool.Kubevirt.{Interface, VirtualMachine}
use kubemacpool.Pool.{PoolManager}
use kubemacpool.Vm.{
  vm_namespaced, check_interfaces, allocate_from_pool_for_virtual_machine,
  allocate_requested_virtual_machine_interface_mac, revert_allocation, stamp_allocations,
  allocate_virtual_machine_mac,
}

-- `newAllocations`, `releaseOldAllocations` and `deltaInterfacesMap`.
pub record Changes : Type 0 where
  pub news : GoMap Text
  pub released : GoMap Text
  pub delta : GoMap Text

unfoldable pub interface_map : List Interface → GoMap Text → GoMap Text
interface_map [] acc = acc
interface_map (iface ∷ ifaces) acc = interface_map ifaces (insert iface.name iface.mac_address acc)

-- An interface that the machine had before, with the address that it had.
unfoldable pub update_existing_interface :
    Text
    → Bool
    → Interface
    → Text
    → Changes
    → PoolManager
    → PoolManager × Result (Interface × Changes)
update_existing_interface vm live iface current ch p =
    let delta' = delete iface.name ch.delta in
    if text_eq iface.mac_address []
    then (
      p,
      ok (
        record iface { mac_address = current },
        record ch { news = insert iface.name current ch.news; delta = delta' },
      ),
    )
    else if not (text_eq (new_mac_key iface.mac_address) current)
    then (let (p', done) = allocate_requested_virtual_machine_interface_mac vm iface live p in
        elim done [
          | err e ↦ (revert_allocation vm ch.news live p', err e)
          | ok _ ↦ (
            p',
            ok (
              iface,
              record {
                news = insert iface.name iface.mac_address ch.news;
                released = insert iface.name current ch.released;
                delta = delta';
              },
            ),
          )
        ])
    else (p, ok (iface, record ch { delta = delta' }))

-- An interface that is new.
unfoldable pub update_new_interface :
    Text → Bool → Interface → Changes → PoolManager → PoolManager × Result (Interface × Changes)
update_new_interface vm live iface ch p =
    if not (text_eq iface.mac_address [])
    then (let (p', done) = allocate_requested_virtual_machine_interface_mac vm iface live p in
        elim done [
          | err e ↦ (revert_allocation vm ch.news live p', err e)
          | ok _ ↦
              (p', ok (iface, record ch { news = insert iface.name iface.mac_address ch.news }))
        ])
    else (let (p', done) = allocate_from_pool_for_virtual_machine vm iface live p in
        elim done [
          | err e ↦ (revert_allocation vm ch.news live p', err e)
          | ok mac ↦ (
            p',
            ok (
              record iface { mac_address = mac },
              record ch { news = insert iface.name mac ch.news },
            ),
          )
        ])

unfoldable pub update_interface :
    Text
    → Bool
    → GoMap Text
    → Interface
    → Changes
    → PoolManager
    → PoolManager × Result (Interface × Changes)
update_interface vm live currents iface ch p = elim (lookup iface.name currents) [
  | some current ↦ update_existing_interface vm live iface current ch p
  | none ↦ update_new_interface vm live iface ch p
]

unfoldable pub update_interfaces :
    Text
    → Bool
    → GoMap Text
    → List Interface
    → Changes
    → PoolManager
    → PoolManager × Result (List Interface × Changes)
update_interfaces vm live currents [] ch p = (p, ok ([], ch))
update_interfaces vm live currents (iface ∷ ifaces) ch p =
    let step = update_interface vm live currents iface ch p in
    elim step.1 [
      | err e ↦ (step.0, err e)
      | ok (iface', ch') ↦
          let rest = update_interfaces vm live currents ifaces ch' step.0 in
          (rest.0, rest.1 >>= λ r. ok (iface' ∷ r.0, r.1))
    ]

unfoldable pub stamp_changes : Text → ℕ → Changes → Bool → PoolManager → PoolManager
stamp_changes vm timestamp ch live p =
    let stamp =
      λ (macs : GoMap Text) (q : PoolManager). stamp_allocations vm timestamp macs live q in
    stamp ch.released (stamp ch.delta (stamp ch.news p))

-- A machine without a template, old or new, is a nil dereference.
unfoldable pub update_mac_addresses_for_virtual_machine :
    Option VirtualMachine
    → VirtualMachine
    → ℕ
    → Bool
    → PoolManager
    → PoolManager × Result VirtualMachine
update_mac_addresses_for_virtual_machine none vm timestamp live p =
    allocate_virtual_machine_mac vm timestamp live p
update_mac_addresses_for_virtual_machine (some previous) vm timestamp live p =
    if not vm.has_template
    then (p, err Error.panic)
    else elim (check_interfaces live vm.interfaces) [
      | err e ↦ (p, err e)
      | ok _ ↦
          let name = vm_namespaced vm.namespace vm.name in
          let currents = interface_map previous.interfaces [] in
          let start : Changes = record { news = []; released = []; delta = currents } in
          let run = update_interfaces name live currents vm.interfaces start p in
          if not previous.has_template then (p, err Error.panic) else elim run.1 [
            | err e ↦ (run.0, err e)
            | ok (ifaces, ch) ↦
                (stamp_changes name timestamp ch live run.0, ok (record vm { interfaces = ifaces }))
          ]
    ]
