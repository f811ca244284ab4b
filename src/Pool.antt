-- ===== src/Pool.antt =====
-- The state of the pool manager, and the operations of pkg/pool-manager/pool.go on its range:
-- getFreeMac, UpdateRanges, NewPoolManager, GetCurrentRanges. Every operation runs under the
-- pool's mutex, or, for UpdateRanges, under the range's, so it is one step from state to state.
pub mod Scanning
pub mod FreeMac
pub mod Ranges
pub mod Keeps
use kubemacpool.Prelude.{
  ℕ, zero, suc, ◌+◌, ◌^◌, Bool, true, false, not, Option, none, some, List, [], ◌∷◌, ◌++◌, Text,
  text_eq, has_key, length, take, drop, if◌then◌else◌, Result, ok, err, Error, ◌>>=◌, ◌>>◌,
}
use kubemacpool.Net.{HardwareAddr, mac_string, new_mac_key}
use kubemacpool.Mac.{check_range, check_cast, generate_random_mac, get_next_mac}
use kubemacpool.MacMap.{MacMap}
use kubemacpool.Collision.{Gauge, Tracker}

pub record PoolManager : Type 0 where
  pub range_start : HardwareAddr
  pub range_end : HardwareAddr
  pub current_mac : HardwareAddr
  pub manager_namespace : Text
  pub mac_pool_map : MacMap
  pub tracker : Tracker
  pub is_kubevirt : Bool
  pub wait_time : ℕ
  pub is_pool_ready : Bool

-- Go's `copy(dst, src)`: the length of `dst` stays.
unfoldable pub copy_bytes : HardwareAddr → HardwareAddr → HardwareAddr
copy_bytes dst src = take (length dst) src ++ drop (length src) dst

-- The address is a key of the map.
unfoldable pub is_allocated : MacMap → HardwareAddr → Bool
is_allocated m mac = has_key (new_mac_key (mac_string mac)) m

-- How one run of the inner loop of getFreeMac ends: at a free address, behind the last one of the
-- range, at a panic, or out of fuel.
pub data Scan : Type 0 where
  free : HardwareAddr → Scan
  wrapped : HardwareAddr → Scan
  broken : Error → Scan
  unfinished : Scan

unfoldable pub scan : ℕ → MacMap → HardwareAddr → HardwareAddr → Scan
scan zero m range_end current = unfinished
scan (suc fuel) m range_end current =
    let more : Scan = elim (get_next_mac current) [
      | ok next ↦ scan fuel m range_end next
      | err e ↦ broken e
    ] in
    if not (is_allocated m current)
    then free current
    else if text_eq (mac_string current) (mac_string range_end)
    then wrapped current
    else more

-- The current address moves on, behind a free one that has been found.
unfoldable pub hand_out : HardwareAddr → PoolManager → PoolManager × Result HardwareAddr
hand_out mac p =
    if text_eq (mac_string mac) (mac_string p.range_end)
    then (record p { current_mac = copy_bytes mac p.range_start }, ok mac)
    else elim (get_next_mac mac) [
      | ok next ↦ (record p { current_mac = next }, ok mac)
      | err e ↦ (p, err e)
    ]

-- The outer loop, with the passes left.
unfoldable pub free_mac_pass : ℕ → ℕ → PoolManager → PoolManager × Result HardwareAddr
free_mac_pass zero fuel p = (p, err Error.range_full)
free_mac_pass (suc left) fuel p = elim (scan fuel p.mac_pool_map p.range_end p.current_mac) [
  | free mac ↦ hand_out mac (record p { current_mac = mac })
  | wrapped mac ↦ free_mac_pass left fuel (record p { current_mac = copy_bytes mac p.range_start })
  | broken e ↦ (p, err e)
  | unfinished ↦ (p, err Error.out_of_fuel)
]

-- The number of MAC-48 addresses: enough fuel for any range of them.
unfoldable pub mac_space : ℕ
mac_space = 2 ^ 48

unfoldable pub get_free_mac : PoolManager → PoolManager × Result HardwareAddr
get_free_mac p = free_mac_pass 2 mac_space p

-- `random` answers the call of crypto/rand. On an error the old range is put back.
unfoldable pub update_ranges :
    (ℕ → Option ℕ) → HardwareAddr → HardwareAddr → PoolManager → PoolManager × Result (Unit {0})
update_ranges random new_start new_end p =
    elim (check_range new_start new_end >> check_cast new_start >> check_cast new_end) [
      | err e ↦ (p, err e)
      | ok _ ↦
          let p' = record p { range_start = new_start; range_end = new_end } in
          elim (generate_random_mac random new_start new_end) [
            | err e ↦ (record p' { range_start = p.range_start; range_end = p.range_end }, err e)
            | ok mac ↦ (record p' { current_mac = mac }, ok tt)
          ]
    ]

-- `gauge` is what the gauge of the process holds already; a new pool manager does not clear it.
unfoldable pub new_pool_manager :
    Gauge → (ℕ → Option ℕ) → HardwareAddr → HardwareAddr → Text → Bool → ℕ → Result PoolManager
new_pool_manager gauge random range_start range_end manager_namespace kubevirt_exist wait_time =
    let empty : PoolManager = record {
      range_start = [];
      range_end = [];
      current_mac = [];
      manager_namespace = manager_namespace;
      mac_pool_map = [];
      tracker = record { colliding_objects_per_mac = []; collision_gauge = gauge };
      is_kubevirt = kubevirt_exist;
      wait_time = wait_time;
      is_pool_ready = false;
    } in
    let (p, outcome) = update_ranges random range_start range_end empty in
    elim outcome [ err e ↦ err e | ok _ ↦ ok p ]

unfoldable pub get_current_ranges : PoolManager → Text × Text
get_current_ranges p = (mac_string p.range_start, mac_string p.range_end)
