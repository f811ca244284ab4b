-- ===== src/Tests.antt =====
-- Concrete inputs on which the theorems apply, and runs of the definitions.
mod Vms
mod Clusters
mod Requests
mod Collisions
mod Launchers
use kubemacpool.Prelude.{
  ℕ, ◌+◌, ◌^◌, ◌%◌, ◌<◌, ◌≤◌, ◌≡◌, ◌≢◌, ◌↔◌, refl, true, false, Option, none, some, [], ◌∷◌, Text,
  codes, text_eq, lookup, arith, ◌&&◌, ok, ◌==◌, if◌then◌else◌, sub_ℕ, inl,
}
use kubemacpool.Net.{HardwareAddr, parse_mac, mac_string, new_mac_key, octet, hex_val, hex_digit}
use kubemacpool.Net.RoundTrip.{IsMac, new_mac_key-eq_iff, new_mac_key_idem, parse_mac-mac_string}
use kubemacpool.Mac.{
  get_next_mac, check_range, check_cast, get_mac_pool_size, generate_random_mac,
  convert_hw_addr_to_int64, put_uint64, random_offset, check_range_loop, octet_below,
}
use kubemacpool.Mac.Value.{value, convert_hw_addr_to_int64-mac}
use kubemacpool.Mac.Next.{Denotes, get_next_mac-Denotes}
use kubemacpool.Mac.Range.{get_mac_pool_size-value}
use kubemacpool.Mac.Random.{IsRandom, generate_random_mac_bounds, generate_random_mac_total}
use kubemacpool.MacMap.{
  MacMap, MacEntry, create_or_update_entry, remove_instance_from_mac,
  update_mac_transaction_timestamp_for_updated_macs,
}
use kubemacpool.MacMap.View.{holds, holds_any, entries_at, nonempty, IsCompact}
use kubemacpool.MacMap.Update.{holds-create_or_update_entry}
use kubemacpool.MacMap.Find.{erase_first}
use kubemacpool.MacMap.Remove.{entries_at-remove, holds-remove_ne, remove-IsCompact}
use kubemacpool.Kubevirt.{VirtualMachine}
use kubemacpool.Pool.{PoolManager, new_pool_manager, get_free_mac, update_ranges}
use kubemacpool.Pool.FreeMac.{IsRanged, Freed, get_free_mac-Freed}
use kubemacpool.Pool.Ranges.{
  new_pool_manager-IsRanged, check_cast_iff, IsUnicast, Updated, update_ranges-Updated,
  update_ranges_accepts,
}
use kubemacpool.Pool.Keeps.{Keeps, KeepsMap, stamps-KeepsMap}
use kubemacpool.Vm.{vm_namespaced, allocate_virtual_machine_mac, release_all_macs}
use kubemacpool.Vm.Allocation.{allocate_virtual_machine_mac-Keeps}
use kubemacpool.Vm.Release.{lookup-release_all_macs}

-- 02:00:00:00:00:00 to 02:00:00:00:00:ff.
abbrev pub first_mac : HardwareAddr
first_mac = 2 ∷ 0 ∷ 0 ∷ 0 ∷ 0 ∷ 0 ∷ []

abbrev pub last_mac : HardwareAddr
last_mac = 2 ∷ 0 ∷ 0 ∷ 0 ∷ 0 ∷ 255 ∷ []

abbrev pub first_text : Text
first_text = codes "02:00:00:00:00:00"

abbrev pub vm_a : Text
vm_a = codes "vm/default/a"

abbrev pub vm_b : Text
vm_b = codes "vm/default/b"

abbrev pub eth0 : Text
eth0 = codes "eth0"

abbrev pub entry_of : Text → MacEntry
entry_of n = record { instance_name = n; mac_instance_key = eth0; transaction_timestamp = none }

-- Two machines collide on the first address.
abbrev pub shared_map : MacMap
shared_map = (first_text, entry_of vm_a ∷ entry_of vm_b ∷ []) ∷ []

abbrev pub demo_pool : PoolManager
demo_pool = record {
  range_start = first_mac;
  range_end = last_mac;
  current_mac = first_mac;
  manager_namespace = [];
  mac_pool_map = shared_map;
  tracker = record { colliding_objects_per_mac = []; collision_gauge = [] };
  is_kubevirt = true;
  wait_time = 600;
  is_pool_ready = true;
}

abbrev pub always_zero : ℕ → Option ℕ
always_zero n = if n == 0 then none else some 0

pub always_zero-IsRandom : IsRandom always_zero
always_zero-IsRandom n r h = ground arith

pub demo_pool-IsRanged : IsRanged demo_pool
demo_pool-IsRanged = omega arith

abbrev pub demo_vm : VirtualMachine
demo_vm = record {
  namespace = codes "default";
  name = codes "c";
  annotations = [];
  labels = [];
  finalizers = [];
  deletion_timestamp = none;
  has_template = true;
  interfaces = record { name = eth0; mac_address = []; masquerade = true; others = [] } ∷ [];
  networks = record { name = eth0; multus = false } ∷ [];
  spec_others = [];
  has_annotations = false;
  has_labels = false;
  has_interfaces = true;
}

get_free_mac-Freed_example : Freed demo_pool (get_free_mac demo_pool)
get_free_mac-Freed_example = get_free_mac-Freed demo_pool demo_pool-IsRanged

update_ranges-Updated_example :
    Updated demo_pool first_mac last_mac (update_ranges always_zero first_mac last_mac demo_pool)
update_ranges-Updated_example =
    update_ranges-Updated always_zero first_mac last_mac (omega arith) (omega arith) demo_pool
      always_zero-IsRandom

update_ranges_accepts_example : (update_ranges always_zero first_mac last_mac demo_pool).1 ≡ ok tt
update_ranges_accepts_example =
    update_ranges_accepts always_zero first_mac last_mac (omega arith) (omega arith) demo_pool 0
      (omega arith) (omega arith) (omega arith) refl

get_next_mac-Denotes_example : Denotes ((value last_mac + 1) % 2 ^ 48) (get_next_mac last_mac)
get_next_mac-Denotes_example = get_next_mac-Denotes last_mac (omega arith)

lookup-release_all_macs_example :
    lookup first_text (release_all_macs vm_a demo_pool).mac_pool_map
    ≡ (if holds_any shared_map first_text vm_a then none else lookup first_text shared_map)
unfolding lookup
lookup-release_all_macs_example = lookup-release_all_macs vm_a demo_pool first_text (refl, tt)

allocate_virtual_machine_mac-Keeps_example :
    Keeps
      (λ n. (true ≡ true) × (n ≡ vm_namespaced (codes "default") (codes "c")))
      demo_pool
      (allocate_virtual_machine_mac demo_vm 5 true demo_pool).0
allocate_virtual_machine_mac-Keeps_example =
    allocate_virtual_machine_mac-Keeps demo_vm 5 true demo_pool demo_pool-IsRanged

new_mac_key-eq_iff_example :
    (new_mac_key (codes "02:00:00:00:00:FF") ≡ new_mac_key (codes "0200.0000.00ff"))
    ↔ (last_mac ≡ last_mac)
unfolding parse_mac octet hex_val
new_mac_key-eq_iff_example =
    new_mac_key-eq_iff (codes "02:00:00:00:00:FF") (codes "0200.0000.00ff") last_mac last_mac refl
      refl

parse_mac-mac_string_example : parse_mac (mac_string last_mac) ≡ some last_mac
parse_mac-mac_string_example = parse_mac-mac_string last_mac (inl refl) (omega arith)

generate_random_mac_bounds_example :
    IsMac first_mac
    × (value first_mac ≤ value first_mac)
    × (value first_mac ≤ value last_mac)
    × (value first_mac < value last_mac)
unfolding generate_random_mac get_mac_pool_size check_range check_range_loop octet_below
    convert_hw_addr_to_int64 put_uint64 random_offset hex_val hex_digit
generate_random_mac_bounds_example =
    generate_random_mac_bounds always_zero first_mac last_mac (omega arith) (omega arith) first_mac
      always_zero-IsRandom refl

holds-create_or_update_entry_example :
    holds
      (create_or_update_entry first_text (codes "vm/default/c") eth0 shared_map)
      first_text
      vm_a
      eth0
    ≡ (if text_eq (new_mac_key first_text) first_text
          && (text_eq (codes "vm/default/c") vm_a && text_eq eth0 eth0)
        then true
        else holds shared_map first_text vm_a eth0)
holds-create_or_update_entry_example =
    holds-create_or_update_entry first_text (codes "vm/default/c") eth0 shared_map first_text vm_a
      eth0

entries_at-remove_example :
    entries_at first_text (remove_instance_from_mac first_text vm_a shared_map) ≡ (
      if text_eq (new_mac_key first_text) first_text
      then erase_first vm_a (entries_at first_text shared_map)
      else entries_at first_text shared_map)
entries_at-remove_example = entries_at-remove first_text vm_a shared_map first_text

vm_a-vm_b : vm_a ≢ vm_b
vm_a-vm_b e = ground arith

shared_map-IsCompact : IsCompact shared_map
unfolding lookup nonempty
shared_map-IsCompact k es h = ground arith

abbrev pub fresh_pool : PoolManager
fresh_pool = record demo_pool {
  manager_namespace = codes "system";
  mac_pool_map = [];
  is_pool_ready = false;
}

pub fresh_pool-created :
    new_pool_manager [] always_zero first_mac last_mac (codes "system") true 600 ≡ ok fresh_pool
unfolding new_pool_manager update_ranges check_cast generate_random_mac get_mac_pool_size
    check_range check_range_loop octet_below convert_hw_addr_to_int64 put_uint64 random_offset
    hex_val hex_digit
fresh_pool-created = refl
