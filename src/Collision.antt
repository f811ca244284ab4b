-- ===== src/Collision.antt =====
-- pkg/pool-manager/vmi_collision.go: which objects share a MAC address, and the gauge that reports
-- it. The gauge is the registry of the metric: `Set` and `Delete` write to a map.
pub mod Tracking
pub mod Gauge
use kubemacpool.Prelude.{
  ℕ, List, [], ◌∷◌, ◌++◌, Text, codes, text_eq, GoMap, insert, delete, has_key, length, leb,
  if◌then◌else◌,
}

pub data ObjectType : Type 0 where
  vmi pod : ObjectType

pub record ObjectReference : Type 0 where
  pub type : ObjectType
  pub namespace : Text
  pub name : Text

unfoldable pub type_text : ObjectType → Text
type_text vmi = codes "vmi"
type_text pod = codes "pod"

unfoldable pub object_key : ObjectReference → Text
unfolding type_text
object_key o = type_text o.type ++ b'/' ∷ (o.namespace ++ b'/' ∷ o.name)

abbrev pub CollisionMap : Type 0
CollisionMap = GoMap (List ObjectReference)

abbrev pub Gauge : Type 0
Gauge = GoMap ℕ

unfoldable pub drop_object : Text → List ObjectReference → List ObjectReference
drop_object key [] = []
drop_object key (o ∷ os) =
    let rest = drop_object key os in if text_eq (object_key o) key then rest else o ∷ rest

-- A range over the map that deletes or rewrites the entry at hand.
unfoldable pub remove_object_from_all_macs : Text → CollisionMap → CollisionMap
remove_object_from_all_macs key [] = []
remove_object_from_all_macs key ((mac, objects) ∷ m) =
    let rest = remove_object_from_all_macs key m in
    let objects' = drop_object key objects in
    if leb (length objects') 1 then rest else (mac, objects') ∷ rest

-- The colliders of each address of the object, with the object itself in front.
unfoldable pub add_collisions : ObjectReference → CollisionMap → CollisionMap → CollisionMap
add_collisions o [] m = m
add_collisions o ((mac, colliding) ∷ collisions) m =
    add_collisions o collisions (insert mac (o ∷ colliding) m)

unfoldable pub copy_mac_set : CollisionMap → List Text
copy_mac_set [] = []
copy_mac_set ((mac, objects) ∷ m) = mac ∷ copy_mac_set m

unfoldable pub set_gauges : CollisionMap → Gauge → Gauge
set_gauges [] g = g
set_gauges ((mac, objects) ∷ m) g = set_gauges m (insert mac (length objects) g)

unfoldable pub delete_gauges : List Text → CollisionMap → Gauge → Gauge
delete_gauges [] m g = g
delete_gauges (mac ∷ macs) m g = delete_gauges macs m (if has_key mac m then g else delete mac g)

unfoldable pub update_collision_gauge : List Text → CollisionMap → Gauge → Gauge
unfolding set_gauges delete_gauges
update_collision_gauge macs_before m g = delete_gauges macs_before m (set_gauges m g)

-- The part of the pool manager that tracks collisions.
pub record Tracker : Type 0 where
  pub colliding_objects_per_mac : CollisionMap
  pub collision_gauge : Gauge

unfoldable pub update_collisions_map : ObjectReference → CollisionMap → Tracker → Tracker
update_collisions_map object_ref collisions t =
    let macs_before = copy_mac_set t.colliding_objects_per_mac in
    let removed = remove_object_from_all_macs (object_key object_ref) t.colliding_objects_per_mac in
    let colliding = add_collisions object_ref collisions removed in
    record {
      colliding_objects_per_mac = colliding;
      collision_gauge = update_collision_gauge macs_before colliding t.collision_gauge;
    }
