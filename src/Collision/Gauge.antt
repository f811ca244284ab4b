-- ===== src/Collision/Gauge.antt =====
-- updateCollisionGauge of pkg/pool-manager/vmi_collision.go: the gauge shows what is tracked.
use kubemacpool.Prelude.{
  ℕ, ◌≡◌, refl, Bool, true, false, Option, none, some, List, [], ◌∷◌, Text, text_eq, text_eq_iff,
  lookup, insert, delete, has_key, any_of, IsMap, lookup-insert, lookup-delete, length, arith,
  if◌then◌else◌, not, ◌&&◌,
}
use kubemacpool.Collision.{
  ObjectReference, object_key, CollisionMap, Gauge, Tracker, copy_mac_set, set_gauges,
  delete_gauges, update_collision_gauge, update_collisions_map,
}
use kubemacpool.Collision.Tracking.{remove_object-IsMap, add_collisions-IsMap}

abbrev pub count_of : Option (List ObjectReference) → Option ℕ
count_of none = none
count_of (some os) = some (length os)

abbrev or_else : Option ℕ → Option ℕ → Option ℕ
or_else none y = y
or_else (some x) y = some x

-- The gauge has a count for the tracked addresses only, and it is the number of objects.
abbrev pub Mirrors : Tracker → Type 0
Mirrors t =
    (k : Text) → lookup k t.collision_gauge ≡ count_of (lookup k t.colliding_objects_per_mac)

lookup-set_gauges :
    (m : CollisionMap) (g : Gauge) (k : Text)
    → IsMap m
    → lookup k (set_gauges m g) ≡ or_else (count_of (lookup k m)) (lookup k g)
unfolding set_gauges lookup
lookup-set_gauges [] g k h = refl
lookup-set_gauges ((mac, os) ∷ m) g k (new, h) = ground (
  arith,
  lookup-set_gauges m (insert mac (length os) g) k h,
  lookup-insert mac k (length os) g,
  text_eq_iff mac k,
)

lookup-delete_gauges :
    (macs : List Text) (m : CollisionMap) (g : Gauge) (k : Text)
    → lookup k (delete_gauges macs m g)
      ≡ (if any_of (λ mac. text_eq mac k) macs && not (has_key k m) then none else lookup k g)
unfolding delete_gauges
lookup-delete_gauges [] m g k = refl
lookup-delete_gauges (mac ∷ macs) m g k = ground (
  arith,
  lookup-delete_gauges macs m (if has_key mac m then g else delete mac g) k,
  lookup-delete mac k g,
  text_eq_iff mac k,
)

copy_mac_set_lem :
    (m : CollisionMap) (k : Text) → any_of (λ mac. text_eq mac k) (copy_mac_set m) ≡ has_key k m
unfolding copy_mac_set has_key lookup
copy_mac_set_lem [] k = refl
copy_mac_set_lem ((mac, os) ∷ m) k = ground (arith, copy_mac_set_lem m k)

-- One update of the gauge, whose keys were those tracked before.
mirror_step :
    (before now : CollisionMap) (g : Gauge) (k : Text)
    → IsMap now
    → lookup k g ≡ count_of (lookup k before)
    → lookup k (update_collision_gauge (copy_mac_set before) now g) ≡ count_of (lookup k now)
unfolding update_collision_gauge has_key
mirror_step before now g k h e =
    rw (lookup-delete_gauges, copy_mac_set_lem before k, lookup-set_gauges now g k h)
      (cases (lookup k before) (lookup k now) (lookup k g) e)
  where
    has : Option (List ObjectReference) → Bool
    has o = elim o [ none ↦ false | some os ↦ true ]

    cases :
        (b n : Option (List ObjectReference)) (c : Option ℕ)
        → c ≡ count_of b
        → (if has b && not (has n) then none else or_else (count_of n) c) ≡ count_of n
    cases none none c e = e
    cases none (some os) c e = refl
    cases (some bs) none c e = refl
    cases (some bs) (some os) c e = refl

-- Where the addresses of the tracker stand once and the gauge has the number of objects for each
-- tracked address and no other entry, the same is true after UpdateCollisionsMap.
pub update_collisions_map-Mirrors :
    (o : ObjectReference) (collisions : CollisionMap) (t : Tracker)
    → IsMap t.colliding_objects_per_mac
    → Mirrors t
    → IsMap (update_collisions_map o collisions t).colliding_objects_per_mac
      × Mirrors (update_collisions_map o collisions t)
unfolding update_collisions_map
update_collisions_map-Mirrors o collisions t h mirrors =
    let kept = remove_object-IsMap (object_key o) t.colliding_objects_per_mac h in
    let now = add_collisions-IsMap o collisions _ kept in
    (now, λ k. mirror_step t.colliding_objects_per_mac _ t.collision_gauge k now (mirrors k))
