-- ===== src/Maccollision/Controllers/Outcome.antt =====
-- What the reconcilers of pkg/controller/maccollision leave in the tracker of the pool manager.
use kubemacpool.Prelude.{
  ◌≤◌, ◌≡◌, refl, Bool, true, not, Option, none, some, List, [], ◌∷◌, ◌++◌, Text, text_eq,
  text_eq_iff, lookup, insert, IsMap, lookup-insert, length, any_of, ◌==◌, arith, if◌then◌else◌,
  if_intro, Result, ok, err, Error, Result-cases, inl, inr, sym, ap, ◌∙◌,
}
use kubemacpool.Kubevirt.{Vmi, Pod, Answer, found, not_found, failed, is_running}
use kubemacpool.Collision.{ObjectReference, CollisionMap, Tracker, update_collisions_map}
use kubemacpool.Collision.Tracking.{IsShared, HasColliders, update_collisions_map-IsShared}
use kubemacpool.Collision.Gauge.{Mirrors, update_collisions_map-Mirrors}
use kubemacpool.Maccollision.{supported_macs_from_vmi, index_pod_by_mac, is_kubevirt_owned}
use kubemacpool.Maccollision.Controllers.{
  Cluster, Event, Colliders, vmi_ref, pod_ref, vmi_object_ref, pod_object_ref, text_set,
  emit_collision_events, collect_collisions, record_collisions, remove_from_all_collisions,
  vmi_colliders, check_vmi_mac_collisions, reconcile_vmi, pod_colliders, check_pod_mac_collisions,
  reconcile_pod,
}

-- A tracker in order: its addresses stand once, each with two objects or more, and the gauge
-- shows them.
abbrev pub IsSound : Tracker → Type 0
IsSound t = IsMap t.colliding_objects_per_mac × IsShared t.colliding_objects_per_mac × Mirrors t

-- After an error the tracker is as it was, else it is in order.
abbrev pub Settled : Tracker → (Tracker × List Event) × Result (Unit {0}) → Type 0
Settled t ((t', events), err e) = t' ≡ t
Settled t ((t', events), ok _) = IsSound t'

update-IsSound :
    (o : ObjectReference) (cs : CollisionMap) (t : Tracker)
    → HasColliders cs
    → IsSound t
    → IsSound (update_collisions_map o cs t)
update-IsSound o cs t h (once, shared, mirrors) =
    let (once', mirrors') = update_collisions_map-Mirrors o cs t once mirrors in
    (once', update_collisions_map-IsShared o cs t h, mirrors')

remove-Settled :
    (o : ObjectReference) (t : Tracker) → IsSound t → Settled t (remove_from_all_collisions o t)
unfolding remove_from_all_collisions
remove-Settled o t sound = update-IsSound o [] t tt sound

insert-HasColliders :
    (mac : Text) (os : List ObjectReference) (m : CollisionMap)
    → 1 ≤ length os
    → HasColliders m
    → HasColliders (insert mac os m)
unfolding insert
insert-HasColliders mac os [] one h = (one, tt)
insert-HasColliders mac os ((mac', os') ∷ m) one (head, tail) =
    ground (arith, insert-HasColliders mac os m one tail)

-- The collisions that a look-up of an address gives.
abbrev pub collisions_of :
    Result Colliders → Option (List ObjectReference) → Option (List ObjectReference)
collisions_of (err e) before = before
collisions_of (ok c) before = if length c.all == 0 then before else some c.all

-- A run of the loop over the addresses, which began with the collisions `acc`.
abbrev pub Collected :
    (Text → Result Colliders) → List Text → CollisionMap → List Event × Result CollisionMap → Type 0
Collected colliders macs acc (events, err e) = Unit
Collected colliders macs acc (events, ok cs) =
    (k : Text)
    → lookup k cs ≡ (
        if any_of (λ mac. text_eq mac k) macs
        then collisions_of (colliders k) (lookup k acc)
        else lookup k acc)

module _ (o : ObjectReference) (colliders : Text → Result Colliders) where
  step-Collected :
      (mac : Text) (macs : List Text) (acc : CollisionMap) (c : Colliders)
      (r : List Event × Result CollisionMap)
      → colliders mac ≡ ok c
      → Collected colliders macs (if length c.all == 0 then acc else insert mac c.all acc) r
      → Collected colliders (mac ∷ macs) acc r
  step-Collected mac macs acc c (events, err e) answers h = tt
  step-Collected mac macs acc c (events, ok cs) answers h = λ k.
      let same : text_eq mac k ≡ true → colliders k ≡ ok c =
        λ e. ap colliders (sym ((text_eq_iff mac k).0 e)) ∙ answers in
      ground (arith, h k, lookup-insert mac k c.all acc, same)

  -- Where checkMACCollisions could look up every address of an object, it has collected those of
  -- them that have colliders, with these, and all other addresses are as they were.
  pub collect_collisions-Collected :
      (macs : List Text) (acc : CollisionMap) (events : List Event)
      → Collected colliders macs acc (collect_collisions o colliders macs acc events)
  unfolding collect_collisions
  collect_collisions-Collected [] acc events = λ k. refl
  collect_collisions-Collected (mac ∷ macs) acc events = elim (Result-cases (colliders mac)) [
    | inr (e, fails) ↦ rw (fails, collect_collisions) tt
    | inl (c, answers) ↦
        let acc' = if length c.all == 0 then acc else insert mac c.all acc in
        let events' =
          if length c.all == 0
          then events
          else events ++ emit_collision_events o mac c.same_kind c.all in
        rw (answers, collect_collisions)
          (step-Collected mac macs acc c (collect_collisions o colliders macs acc' events') answers
            (collect_collisions-Collected macs acc' events'))
  ]

  colliders_step :
      (mac : Text) (acc : CollisionMap) (c : Colliders)
      → HasColliders acc
      → HasColliders (if length c.all == 0 then acc else insert mac c.all acc)
  colliders_step mac acc c h = ground (arith, insert-HasColliders mac c.all acc)

  collect-HasColliders :
      (macs : List Text) (acc : CollisionMap) (events : List Event)
      → HasColliders acc
      → (cs : CollisionMap) → (collect_collisions o colliders macs acc events).1 ≡ ok cs
      → HasColliders cs
  unfolding collect_collisions
  collect-HasColliders [] acc events h cs e = ground arith
  collect-HasColliders (mac ∷ macs) acc events h cs e = elim (Result-cases (colliders mac)) [
    | inr (e', fails) ↦ cc (rw (fails, collect_collisions) at e)
    | inl (c, answers) ↦
        collect-HasColliders macs _ _ (colliders_step mac acc c h) cs
          (rw (answers, collect_collisions) at e)
  ]

  record-Settled :
      (macs : List Text) (t : Tracker)
      → IsSound t
      → Settled t (record_collisions o (collect_collisions o colliders macs [] []) t)
  unfolding record_collisions
  record-Settled macs t sound =
      go (collect_collisions o colliders macs [] []) (collect-HasColliders macs [] [] tt)
    where
      go :
          (run : List Event × Result CollisionMap)
          → ((cs : CollisionMap) → run.1 ≡ ok cs → HasColliders cs)
          → Settled t (elim run.1 as (λ _. (Tracker × List Event) × Result (Unit {0})) [
            | err e ↦ ((t, run.0), err e)
            | ok collisions ↦ ((update_collisions_map o collisions t, run.0), ok tt)
          ])
      go (events, err e) h = refl
      go (events, ok cs) h = update-IsSound o cs t (h cs refl) sound

module _ (c : Cluster) (t : Tracker) (sound : IsSound t) where
  check_vmi-Settled : (v : Vmi) → Settled t (check_vmi_mac_collisions c v t)
  unfolding check_vmi_mac_collisions
  check_vmi-Settled v =
      let gone = remove-Settled (vmi_ref v) t sound in
      if_intro (Settled t) (not (is_running v.phase)) gone (
        if_intro (Settled t) (length (text_set (supported_macs_from_vmi v)) == 0) gone
          (record-Settled (vmi_ref v) (vmi_colliders c v) _ t sound))

  -- From a tracker in order (addresses stand once, each with two objects or more, and the gauge
  -- shows them), the reconciler of virtual machine instances leaves a tracker in order where it
  -- succeeds, and the same tracker where it fails.
  pub reconcile_vmi-Settled : (namespace name : Text) → Settled t (reconcile_vmi c namespace name t)
  unfolding reconcile_vmi
  reconcile_vmi-Settled namespace name = go (c.get_vmi namespace name)
    where
      managed :
          (v : Vmi) (o : Option Bool)
          → Settled t (elim o as (λ _. (Tracker × List Event) × Result (Unit {0})) [
            | none ↦ ((t, []), err Error.client_failed)
            | some b ↦ if b then check_vmi_mac_collisions c v t else ((t, []), ok tt)
          ])
      managed v none = refl
      managed v (some b) = if_intro (Settled t) b (check_vmi-Settled v) sound

      go :
          (answer : Answer Vmi)
          → Settled t (elim answer as (λ _. (Tracker × List Event) × Result (Unit {0})) [
            | not_found ↦ remove_from_all_collisions (vmi_object_ref namespace name) t
            | failed ↦ ((t, []), err Error.client_failed)
            | found v ↦ elim (c.is_vm_managed v.namespace) [
              | none ↦ ((t, []), err Error.client_failed)
              | some b ↦ if b then check_vmi_mac_collisions c v t else ((t, []), ok tt)
            ]
          ])
      go not_found = remove-Settled (vmi_object_ref namespace name) t sound
      go failed = refl
      go (found v) = managed v (c.is_vm_managed v.namespace)

  check_pod-Settled : (p : Pod) → Settled t (check_pod_mac_collisions c p t)
  unfolding check_pod_mac_collisions
  check_pod-Settled p =
      if_intro (Settled t) (not (is_running p.phase)) (remove-Settled (pod_ref p) t sound) (
        if_intro (Settled t) (length (text_set (index_pod_by_mac c.parse_networks p)) == 0) sound
          (record-Settled (pod_ref p) (pod_colliders c p) _ t sound))

  -- From a tracker in order (addresses stand once, each with two objects or more, and the gauge
  -- shows them), the reconciler of pods leaves a tracker in order where it succeeds, and the same
  -- tracker where it fails.
  pub reconcile_pod-Settled : (namespace name : Text) → Settled t (reconcile_pod c namespace name t)
  unfolding reconcile_pod
  reconcile_pod-Settled namespace name = go (c.get_pod namespace name)
    where
      managed :
          (p : Pod) (o : Option Bool)
          → Settled t (elim o as (λ _. (Tracker × List Event) × Result (Unit {0})) [
            | none ↦ ((t, []), err Error.client_failed)
            | some b ↦ if b then check_pod_mac_collisions c p t else ((t, []), ok tt)
          ])
      managed p none = refl
      managed p (some b) = if_intro (Settled t) b (check_pod-Settled p) sound

      go :
          (answer : Answer Pod)
          → Settled t (elim answer as (λ _. (Tracker × List Event) × Result (Unit {0})) [
            | not_found ↦ remove_from_all_collisions (pod_object_ref namespace name) t
            | failed ↦ ((t, []), err Error.client_failed)
            | found p ↦
                if is_kubevirt_owned p
                then ((t, []), ok tt)
                else elim (c.is_pod_managed p.namespace) [
                  | none ↦ ((t, []), err Error.client_failed)
                  | some b ↦ if b then check_pod_mac_collisions c p t else ((t, []), ok tt)
                ]
          ])
      go not_found = remove-Settled (pod_object_ref namespace name) t sound
      go failed = refl
      go (found p) =
          if_intro (Settled t) (is_kubevirt_owned p) sound
            (managed p (c.is_pod_managed p.namespace))
