-- ===== src/Vm/Release.antt =====
-- ReleaseAllVirtualMachineMacs and ReleaseAllPodMacs of pkg/pool-manager: the keys that an
-- instance holds are deleted, with the entries that other instances have under them.
use kubemacpool.Prelude.{
  ◌≡◌, refl, none, [], ◌∷◌, Text, IsMap, lookup, delete, has_key, arith, lookup-delete,
  if◌then◌else◌,
}
use kubemacpool.MacMap.{MacMap}
use kubemacpool.MacMap.View.{holds_any}
use kubemacpool.MacMap.Filter.{has_key-filter_in}
use kubemacpool.Pool.{PoolManager}
use kubemacpool.Vm.{delete_keys, release_all_macs}

lookup-delete_keys :
    (keys m : MacMap) (k : Text)
    → lookup k (delete_keys keys m) ≡ (if has_key k keys then none else lookup k m)
unfolding delete_keys has_key lookup
lookup-delete_keys [] m k = refl
lookup-delete_keys ((key, es) ∷ keys) m k =
    rw (lookup-delete_keys keys (delete key m) k) (ground (arith, lookup-delete key k m))

-- For a map in which each key stands once, ReleaseAllVirtualMachineMacs deletes every key that the
-- instance holds, the entries of other instances under it included, and leaves every other key as
-- it was.
pub lookup-release_all_macs :
    (n : Text) (p : PoolManager) (k : Text)
    → IsMap p.mac_pool_map
    → lookup k (release_all_macs n p).mac_pool_map
      ≡ (if holds_any p.mac_pool_map k n then none else lookup k p.mac_pool_map)
unfolding release_all_macs
lookup-release_all_macs n p k h = rw (lookup-delete_keys, has_key-filter_in n p.mac_pool_map k h)
