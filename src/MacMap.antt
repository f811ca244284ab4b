-- ===== src/MacMap.antt =====
-- pkg/pool-manager/macentry.go and pkg/pool-manager/macpoolmap.go: the entries of a MAC address
-- and the map from keys of addresses to entries. A write through a slice that the map holds is
-- written back to the map. Times are numbers of nanoseconds; `now` is an argument.
pub mod View
pub mod Update
pub mod Find
pub mod Remove
pub mod Filter
pub mod Count
use kubemacpool.Prelude.{
  ℕ, zero, suc, ◌+◌, ◌*◌, ◌^◌, Bool, true, false, not, ◌&&◌, Option, none, some, List, [], ◌∷◌,
  ◌++◌, Text, text_eq, GoMap, lookup, insert, delete, get_or_zero, length, set, take, drop, ltb,
  leb, ◌==◌, if◌then◌else◌, Result, ok, err, Error,
}
use kubemacpool.Net.{new_mac_key}
use kubemacpool.Kubevirt.{Interface}

pub record MacEntry : Type 0 where
  pub instance_name : Text
  pub mac_instance_key : Text
  pub transaction_timestamp : Option ℕ

unfoldable pub has_pending_transaction : MacEntry → Bool
has_pending_transaction m = elim m.transaction_timestamp [ none ↦ false | some t ↦ true ]

-- The recorded time is not after the persisted one.
unfoldable pub has_ready_transaction : MacEntry → ℕ → Bool
has_ready_transaction m last_persistent_time = elim m.transaction_timestamp [
  | none ↦ false
  | some t ↦ not (ltb last_persistent_time t)
]

unfoldable pub reset_transaction : MacEntry → MacEntry
reset_transaction m = record {
  instance_name = m.instance_name;
  mac_instance_key = m.mac_instance_key;
  transaction_timestamp = none;
}

unfoldable pub set_transaction : MacEntry → Option ℕ → MacEntry
set_transaction m timestamp = record {
  instance_name = m.instance_name;
  mac_instance_key = m.mac_instance_key;
  transaction_timestamp = timestamp;
}

-- A number of seconds, as a `time.Duration`.
abbrev pub seconds : ℕ → ℕ
seconds n = n * 10 ^ 9

unfoldable pub has_expired_transaction : ℕ → ℕ → MacEntry → Bool
has_expired_transaction now wait_time m = elim m.transaction_timestamp [
  | none ↦ false
  | some t ↦ ltb (t + seconds wait_time) now
]

abbrev pub MacMap : Type 0
MacMap = GoMap (List MacEntry)

unfoldable pub find_by_mac_address : Text → MacMap → Option (List MacEntry)
find_by_mac_address mac_address m = lookup (new_mac_key mac_address) m

-- The first entry of the instance, with its index counted from `i`.
unfoldable pub find_instance : Text → ℕ → List MacEntry → Option (MacEntry × ℕ)
find_instance instance i [] = none
find_instance instance i (e ∷ es) =
    let rest = find_instance instance (i + 1) es in
    if text_eq e.instance_name instance then some (e, i) else rest

unfoldable pub find_by_mac_address_and_instance_name : Text → Text → MacMap → Result (MacEntry × ℕ)
find_by_mac_address_and_instance_name mac_address instance m =
    elim (find_by_mac_address mac_address m) [
      | none ↦ err Error.entry_not_found
      | some entries ↦ elim (find_instance instance 0 entries) [
        | none ↦ err Error.entry_not_found
        | some found ↦ ok found
      ]
    ]

unfoldable pub clear_mac_transaction_from_mac_entry : Text → Text → MacMap → MacMap
clear_mac_transaction_from_mac_entry mac_address instance m =
    elim (find_by_mac_address_and_instance_name mac_address instance m) [
      | err e ↦ m
      | ok (entry, index) ↦
          let entries = get_or_zero [] (new_mac_key mac_address) m in
          insert (new_mac_key mac_address) (set entries index (reset_transaction entry)) m
    ]

unfoldable pub remove_instance_from_mac : Text → Text → MacMap → MacMap
remove_instance_from_mac mac_address instance m =
    elim (find_by_mac_address_and_instance_name mac_address instance m) [
      | err e ↦ m
      | ok (entry, index) ↦
          let entries = get_or_zero [] (new_mac_key mac_address) m in
          let entries' = take index entries ++ drop (index + 1) entries in
          if length entries' == 0
          then delete (new_mac_key mac_address) m
          else insert (new_mac_key mac_address) entries' m
    ]

-- The inner loop of filterInByInstanceName: each entry of the instance is appended under `key`.
filter_in_entries : Text → Text → List MacEntry → MacMap → MacMap
filter_in_entries instance key [] acc = acc
filter_in_entries instance key (e ∷ es) acc = filter_in_entries instance key es (
    if text_eq e.instance_name instance
    then insert key (get_or_zero [] key acc ++ e ∷ []) acc
    else acc)

filter_in_loop : Text → MacMap → MacMap → MacMap
filter_in_loop instance [] acc = acc
filter_in_loop instance ((key, entries) ∷ m) acc =
    filter_in_loop instance m (filter_in_entries instance key entries acc)

unfoldable pub filter_in_by_instance_name : Text → MacMap → MacMap
unfolding filter_in_entries filter_in_loop
filter_in_by_instance_name instance m = filter_in_loop instance m []

-- The entry belongs to this interface (or network) of this instance.
unfoldable pub belongs_to : Text → Text → MacEntry → Bool
belongs_to instance key e = text_eq e.instance_name instance && text_eq e.mac_instance_key key

-- The loop of createOrUpdateEntry: the first entry of the interface is replaced, and a new one is
-- appended where there is none.
unfoldable pub upsert_entry : MacEntry → List MacEntry → List MacEntry
unfolding belongs_to
upsert_entry new_entry [] = new_entry ∷ []
upsert_entry new_entry (e ∷ es) =
    let rest = upsert_entry new_entry es in
    if belongs_to new_entry.instance_name new_entry.mac_instance_key e
    then new_entry ∷ es
    else e ∷ rest

unfoldable pub create_or_update_entry : Text → Text → Text → MacMap → MacMap
create_or_update_entry mac_address instance mac_instance_key m =
    let new_entry : MacEntry = record {
      instance_name = instance;
      mac_instance_key = mac_instance_key;
      transaction_timestamp = none;
    } in
    insert (new_mac_key mac_address)
      (upsert_entry new_entry (get_or_zero [] (new_mac_key mac_address) m)) m

-- One address of the loop of updateMacTransactionTimestampForUpdatedMacs.
unfoldable pub stamp_mac : Text → Option ℕ → Text → MacMap → Result MacMap
stamp_mac instance timestamp mac_address m =
    elim (find_by_mac_address_and_instance_name mac_address instance m) [
      | err e ↦ err e
      | ok (entry, index) ↦
          let entries = get_or_zero [] (new_mac_key mac_address) m in
          ok (
            insert (new_mac_key mac_address) (set entries index (set_transaction entry timestamp))
              m)
    ]

-- The loop ends at the first address that the instance does not hold; what it has stamped stays.
unfoldable pub update_mac_transaction_timestamp_for_updated_macs :
    Text → Option ℕ → GoMap Text → MacMap → MacMap × Result (Unit {0})
update_mac_transaction_timestamp_for_updated_macs instance timestamp [] m = (m, ok tt)
update_mac_transaction_timestamp_for_updated_macs instance timestamp ((iface, mac_address) ∷ macs)
      m =
    elim (stamp_mac instance timestamp mac_address m) [
      | err e ↦ (m, err e)
      | ok m' ↦ update_mac_transaction_timestamp_for_updated_macs instance timestamp macs m'
    ]

-- The entries of one address that wait for a commit which has been persisted.
unfoldable pub ready_entries : ℕ → List MacEntry → List MacEntry
ready_entries latest [] = []
ready_entries latest (e ∷ es) =
    let rest = ready_entries latest es in
    if has_pending_transaction e && has_ready_transaction e latest then e ∷ rest else rest

unfoldable pub filter_macs_that_require_commit : ℕ → MacMap → MacMap
filter_macs_that_require_commit latest [] = []
filter_macs_that_require_commit latest ((key, entries) ∷ m) =
    let rest = filter_macs_that_require_commit latest m in
    let ready = ready_entries latest entries in
    if length ready == 0 then rest else insert key ready rest

-- Does an interface of the VM still have the address, under the entry's name?
unfoldable pub still_attached : Text → Text → List Interface → Bool
still_attached mac_address interface_name [] = false
still_attached mac_address interface_name (iface ∷ ifaces) =
    let rest = still_attached mac_address interface_name ifaces in
    if text_eq (new_mac_key iface.mac_address) mac_address && text_eq iface.name interface_name
    then true
    else rest

unfoldable pub align_mac_entry_according_to_vm_interface :
    Text → Text → List Interface → MacMap → MacMap
align_mac_entry_according_to_vm_interface mac_address instance vm_interfaces m =
    elim (find_by_mac_address_and_instance_name mac_address instance m) [
      | err e ↦ m
      | ok (vm_entry, index) ↦
          if still_attached mac_address vm_entry.mac_instance_key vm_interfaces
          then clear_mac_transaction_from_mac_entry mac_address instance m
          else remove_instance_from_mac mac_address instance m
    ]
