-- ===== src/Tests/Collisions.antt =====
-- The theorems on collisions, at a cluster in which a machine instance and a pod share an address.
use kubemacpool.Prelude.{
  List, any_of, false, ◌≡◌, ◌↔◌, refl, Bool, true, Option, none, some, [], ◌∷◌, Text, codes, arith,
  keep_if, lookup, IsMap, Result, ok,
}
use kubemacpool.Kubevirt.{NetworkSelection, Vmi, found, Pod}
use kubemacpool.Collision.{
  ObjectReference, object_key, CollisionMap, Tracker, update_collisions_map,
}
use kubemacpool.Collision.Tracking.{joined, without, lookup-update_collisions_map}
use kubemacpool.Collision.Gauge.{Mirrors, update_collisions_map-Mirrors}
use kubemacpool.Maccollision.{
  supported_macs_from_vmi, filter_managed_vmis, extract_migration_uids,
  filter_out_decentralized_migrations,
}
use kubemacpool.Maccollision.Candidates.{counts, filter_managed_vmis_lem}
use kubemacpool.Maccollision.Migration.{SharesMigration, filter_out_decentralized_migrations_lem}
use kubemacpool.Maccollision.Predicates.{collision_relevant_changes}
use kubemacpool.Maccollision.Predicates.Relevant.{SameTexts, collision_relevant_changes_iff}
use kubemacpool.Maccollision.Controllers.{
  Cluster, Colliders, vmi_object_ref, pod_object_ref, collect_collisions, reconcile_vmi,
  reconcile_pod,
}
use kubemacpool.Maccollision.Controllers.Outcome.{
  IsSound, Settled, Collected, collect_collisions-Collected, reconcile_vmi-Settled,
  reconcile_pod-Settled,
}
use kubemacpool.Maccollision.{index_pod_by_mac}
use kubemacpool.Maccollision.Mapping.{
  NamespacedName, same_name, IsDistinct, vmi_names, listed, lists_name, map_pod_to_vmis,
  map_pod_to_vmis_lem,
}
use kubemacpool.Tests.{first_text, eth0}

abbrev vmi_x : ObjectReference
vmi_x = vmi_object_ref (codes "default") (codes "x")

abbrev pod_y : ObjectReference
pod_y = pod_object_ref (codes "default") (codes "y")

abbrev quiet : Tracker
quiet = record { colliding_objects_per_mac = []; collision_gauge = [] }

abbrev busy : Tracker
busy = record {
  colliding_objects_per_mac = (first_text, pod_y ∷ vmi_x ∷ []) ∷ [];
  collision_gauge = (first_text, 2) ∷ [];
}

abbrev seen_y : CollisionMap
seen_y = (first_text, pod_y ∷ []) ∷ []

abbrev instance_x : Vmi
instance_x = record {
  namespace = codes "default";
  name = codes "x";
  uid = codes "1";
  phase = codes "Running";
  interfaces =
      record { name = eth0; mac_address = first_text; masquerade = true; others = [] } ∷ [];
  networks = [];
  status_interfaces = record { name = eth0; mac = first_text } ∷ [];
  migration_state = some (record { source_state = some (codes "m"); target_state = none });
}

abbrev pod_object : Pod
pod_object = record {
  namespace = codes "default";
  name = codes "y";
  uid = codes "2";
  annotations = [];
  labels = [];
  owner_references = [];
  phase = codes "Running";
  has_annotations = false;
}

abbrev all_managed : Text → Option Bool
all_managed namespace = some true

abbrev cluster : Cluster
cluster = record {
  get_vmi = λ namespace name. found instance_x;
  get_pod = λ namespace name. found pod_object;
  vmis_by_mac = λ mac. some (instance_x ∷ []);
  pods_by_mac = λ mac. some (pod_object ∷ []);
  parse_networks = λ p. none;
  is_vm_managed = all_managed;
  is_pod_managed = all_managed;
  is_kubevirt_enabled = true;
}

abbrev y_collides : Text → Result Colliders
y_collides mac = ok (record { same_kind = []; all = pod_y ∷ [] })

busy-Mirrors : Mirrors busy
unfolding lookup
busy-Mirrors k = ground arith

busy-IsSound : IsSound busy
unfolding lookup
busy-IsSound = ((refl, tt), (omega arith, tt), busy-Mirrors)

lookup-update_collisions_map_example :
    lookup first_text (update_collisions_map vmi_x seen_y busy).colliding_objects_per_mac
    ≡ joined vmi_x
        (lookup first_text seen_y)
        (without (object_key vmi_x) (lookup first_text busy.colliding_objects_per_mac))
unfolding lookup
lookup-update_collisions_map_example =
    lookup-update_collisions_map vmi_x seen_y busy first_text (refl, tt) (refl, tt)

update_collisions_map-Mirrors_example :
    IsMap (update_collisions_map vmi_x seen_y busy).colliding_objects_per_mac
    × Mirrors (update_collisions_map vmi_x seen_y busy)
unfolding lookup
update_collisions_map-Mirrors_example =
    update_collisions_map-Mirrors vmi_x seen_y busy (refl, tt) busy-Mirrors

collect_collisions-Collected_example :
    Collected y_collides
      (first_text ∷ [])
      []
      (collect_collisions vmi_x y_collides (first_text ∷ []) [] [])
collect_collisions-Collected_example =
    collect_collisions-Collected vmi_x y_collides (first_text ∷ []) [] []

reconcile_vmi-Settled_example :
    Settled busy (reconcile_vmi cluster (codes "default") (codes "x") busy)
reconcile_vmi-Settled_example =
    reconcile_vmi-Settled cluster busy busy-IsSound (codes "default") (codes "x")

reconcile_pod-Settled_example :
    Settled busy (reconcile_pod cluster (codes "default") (codes "y") busy)
reconcile_pod-Settled_example =
    reconcile_pod-Settled cluster busy busy-IsSound (codes "default") (codes "y")

filter_out_decentralized_migrations_lem_example :
    (keep : Vmi → Bool) × ((w : Vmi) → (keep w ≡ true) ↔ ¬ SharesMigration instance_x w)
    × (filter_out_decentralized_migrations instance_x (instance_x ∷ [])
        ≡ keep_if keep (instance_x ∷ []))
filter_out_decentralized_migrations_lem_example =
    filter_out_decentralized_migrations_lem instance_x (instance_x ∷ [])

filter_managed_vmis_lem_example :
    filter_managed_vmis all_managed (instance_x ∷ instance_x ∷ []) []
    ≡ keep_if (λ v. counts all_managed [] v.namespace) (instance_x ∷ instance_x ∷ [])
filter_managed_vmis_lem_example =
    filter_managed_vmis_lem all_managed (instance_x ∷ instance_x ∷ []) []

-- The same instance without addresses.
abbrev bare_x : Vmi
bare_x = record instance_x { status_interfaces = [] }

collision_relevant_changes_iff_example : (collision_relevant_changes instance_x bare_x ≡ false) ↔ (
    (instance_x.phase ≡ bare_x.phase)
    × SameTexts (supported_macs_from_vmi instance_x) (supported_macs_from_vmi bare_x)
    × ((extract_migration_uids instance_x).0 ≡ (extract_migration_uids bare_x).0)
    × ((extract_migration_uids instance_x).1 ≡ (extract_migration_uids bare_x).1))
collision_relevant_changes_iff_example = collision_relevant_changes_iff instance_x bare_x

abbrev pod_networks : Pod → Option (List NetworkSelection)
pod_networks pod =
    some (record { name = eth0; namespace = []; mac_request = first_text; others = [] } ∷ [])

abbrev all_vmis : Text → Option (List Vmi)
all_vmis mac = some (instance_x ∷ instance_x ∷ [])

map_pod_to_vmis_lem_example :
    IsDistinct (map_pod_to_vmis pod_networks all_vmis pod_object)
    × ((key : NamespacedName)
        → any_of (same_name key) (map_pod_to_vmis pod_networks all_vmis pod_object)
          ≡ any_of
              (lists_name (listed vmi_names all_vmis) key)
              (index_pod_by_mac pod_networks pod_object))
map_pod_to_vmis_lem_example = map_pod_to_vmis_lem pod_networks all_vmis pod_object
