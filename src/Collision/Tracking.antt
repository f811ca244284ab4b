-- ===== src/Collision/Tracking.antt =====
-- UpdateCollisionsMap of pkg/pool-manager/vmi_collision.go: what is tracked for each address.
use kubemacpool.Prelude.{
  keep_if, not, text_eq, ◌≤◌, ◌≡◌, refl, Option, none, some, List, [], ◌∷◌, Text, text_eq_iff,
  lookup, insert, IsMap, insert-IsMap, lookup-insert, length, leb, arith, if◌then◌else◌,
}
use kubemacpool.Collision.{
  ObjectReference, object_key, CollisionMap, Tracker, drop_object, remove_object_from_all_macs,
  add_collisions, update_collisions_map,
}

-- The references to objects with another key, in order.
abbrev pub others : Text → List ObjectReference → List ObjectReference
others key os = keep_if (λ o. not (text_eq (object_key o) key)) os

drop_object_lem : (key : Text) (os : List ObjectReference) → drop_object key os ≡ others key os
unfolding drop_object
drop_object_lem key [] = refl
drop_object_lem key (o ∷ os) = ground (arith, drop_object_lem key os)

-- What is tracked without the object: nothing if fewer than two others are left.
abbrev pub without : Text → Option (List ObjectReference) → Option (List ObjectReference)
without key none = none
without key (some os) = if leb (length (others key os)) 1 then none else some (others key os)

pub lookup-remove_object :
    (key : Text) (m : CollisionMap) (k : Text)
    → IsMap m
    → lookup k (remove_object_from_all_macs key m) ≡ without key (lookup k m)
unfolding remove_object_from_all_macs lookup
lookup-remove_object key [] k h = refl
lookup-remove_object key ((mac, os) ∷ m) k (new, h) =
    rw (drop_object_lem key os) (ground (arith, lookup-remove_object key m k h, text_eq_iff mac k))

pub remove_object-IsMap :
    (key : Text) (m : CollisionMap) → IsMap m → IsMap (remove_object_from_all_macs key m)
unfolding remove_object_from_all_macs lookup
remove_object-IsMap key [] h = tt
remove_object-IsMap key ((mac, os) ∷ m) (new, h) =
    ground (arith, remove_object-IsMap key m h, lookup-remove_object key m mac h)

-- The object before the others, or what was there.
abbrev pub joined :
    ObjectReference
    → Option (List ObjectReference)
    → Option (List ObjectReference)
    → Option (List ObjectReference)
joined o none before = before
joined o (some os) before = some (o ∷ os)

pub lookup-add_collisions :
    (o : ObjectReference) (collisions m : CollisionMap) (k : Text)
    → IsMap collisions
    → lookup k (add_collisions o collisions m) ≡ joined o (lookup k collisions) (lookup k m)
unfolding add_collisions lookup
lookup-add_collisions o [] m k h = refl
lookup-add_collisions o ((mac, os) ∷ collisions) m k (new, h) = ground (
  arith,
  lookup-add_collisions o collisions (insert mac (o ∷ os) m) k h,
  lookup-insert mac k (o ∷ os) m,
  text_eq_iff mac k,
)

pub add_collisions-IsMap :
    (o : ObjectReference) (collisions m : CollisionMap)
    → IsMap m
    → IsMap (add_collisions o collisions m)
unfolding add_collisions
add_collisions-IsMap o [] m h = h
add_collisions-IsMap o ((mac, os) ∷ collisions) m h =
    add_collisions-IsMap o collisions _ (insert-IsMap mac (o ∷ os) m h)

-- Where the addresses of the tracker and of the collisions stand once, UpdateCollisionsMap tracks
-- each address of the collisions with the object in front of its colliders, and takes the object
-- out of every other address, and the address out of the tracker if fewer than two objects are
-- left.
pub lookup-update_collisions_map :
    (o : ObjectReference) (collisions : CollisionMap) (t : Tracker) (k : Text)
    → IsMap collisions
    → IsMap t.colliding_objects_per_mac
    → lookup k (update_collisions_map o collisions t).colliding_objects_per_mac
      ≡ joined o
          (lookup k collisions)
          (without (object_key o) (lookup k t.colliding_objects_per_mac))
unfolding update_collisions_map
lookup-update_collisions_map o collisions t k hc ht =
    rw (lookup-add_collisions o collisions _ k hc, lookup-remove_object (object_key o) _ k ht)

-- Every tracked address has two objects or more.
abbrev pub IsShared : CollisionMap → Type 0
IsShared [] = Unit
IsShared ((mac, os) ∷ m) = (2 ≤ length os) × IsShared m

-- Every address has a collider.
abbrev pub HasColliders : CollisionMap → Type 0
HasColliders [] = Unit
HasColliders ((mac, os) ∷ m) = (1 ≤ length os) × HasColliders m

remove_object-IsShared :
    (key : Text) (m : CollisionMap) → IsShared (remove_object_from_all_macs key m)
unfolding remove_object_from_all_macs
remove_object-IsShared key [] = tt
remove_object-IsShared key ((mac, os) ∷ m) = ground (arith, remove_object-IsShared key m)

insert-IsShared :
    (mac : Text) (os : List ObjectReference) (m : CollisionMap)
    → 2 ≤ length os
    → IsShared m
    → IsShared (insert mac os m)
unfolding insert
insert-IsShared mac os [] two h = (two, tt)
insert-IsShared mac os ((mac', os') ∷ m) two (head, tail) =
    ground (arith, insert-IsShared mac os m two tail)

add_collisions-IsShared :
    (o : ObjectReference) (collisions m : CollisionMap)
    → HasColliders collisions
    → IsShared m
    → IsShared (add_collisions o collisions m)
unfolding add_collisions
add_collisions-IsShared o [] m hc h = h
add_collisions-IsShared o ((mac, os) ∷ collisions) m (one, hc) h =
    add_collisions-IsShared o collisions _ hc (insert-IsShared mac (o ∷ os) m (omega arith) h)

-- Where each address of the collisions has a collider, every address that is tracked after
-- UpdateCollisionsMap has two objects or more.
pub update_collisions_map-IsShared :
    (o : ObjectReference) (collisions : CollisionMap) (t : Tracker)
    → HasColliders collisions
    → IsShared (update_collisions_map o collisions t).colliding_objects_per_mac
unfolding update_collisions_map
update_collisions_map-IsShared o collisions t h =
    add_collisions-IsShared o collisions _ h (remove_object-IsShared (object_key o) _)
