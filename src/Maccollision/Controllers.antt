-- ===== src/Maccollision/Controllers.antt =====
-- The reconcilers of pkg/controller/maccollision (vmi_controller.go and pod_controller.go). What
-- they call of the cluster is one record of answers; events are collected in a list.
pub mod Outcome
use kubemacpool.Prelude.{
  Bool, true, false, not, Option, none, some, List, [], ◌∷◌, ◌++◌, map, Text, codes, insert, length,
  ltb, ◌==◌, if◌then◌else◌, Result, ok, err, Error, ◌>>=◌,
}
use kubemacpool.Kubevirt.{Vmi, Pod, NetworkSelection, Answer, found, not_found, failed, is_running}
use kubemacpool.Collision.{
  ObjectReference, vmi, pod, object_key, CollisionMap, Tracker, update_collisions_map,
}
use kubemacpool.Maccollision.{
  has_text, supported_macs_from_vmi, index_pod_by_mac, is_kubevirt_owned, list_running_vmis_by_mac,
  list_running_vmis_by_mac_with_exclude_uid, filter_managed_vmis, list_running_pods_with_mac,
  exclude_pod_uid, filter_collision_candidate_pods, filter_out_decentralized_migrations,
}

-- The client's Get and indexed List, the annotation parser, and the pool manager's answers.
pub record Cluster : Type 0 where
  pub get_vmi : Text → Text → Answer Vmi
  pub get_pod : Text → Text → Answer Pod
  pub vmis_by_mac : Text → Option (List Vmi)
  pub pods_by_mac : Text → Option (List Pod)
  pub parse_networks : Pod → Option (List NetworkSelection)
  pub is_vm_managed : Text → Option Bool
  pub is_pod_managed : Text → Option Bool
  pub is_kubevirt_enabled : Bool

pub record Event : Type 0 where
  pub object : ObjectReference
  pub message : Text

unfoldable pub vmi_object_ref : Text → Text → ObjectReference
vmi_object_ref namespace name = record { type = vmi; namespace = namespace; name = name }

unfoldable pub pod_object_ref : Text → Text → ObjectReference
pod_object_ref namespace name = record { type = pod; namespace = namespace; name = name }

unfoldable pub vmi_ref : Vmi → ObjectReference
vmi_ref v = vmi_object_ref v.namespace v.name

unfoldable pub pod_ref : Pod → ObjectReference
pod_ref p = pod_object_ref p.namespace p.name

-- The set of a list of texts, which a range visits in some order.
unfoldable pub text_set : List Text → List Text
text_set [] = []
text_set (t ∷ ts) = let rest = text_set ts in if has_text t rest then rest else t ∷ rest

text_below : Text → Text → Bool
text_below [] [] = false
text_below [] (d ∷ ds) = true
text_below (c ∷ cs) [] = false
text_below (c ∷ cs) (d ∷ ds) = let rest = text_below cs ds in if c == d then rest else ltb c d

insert_sorted : Text → List Text → List Text
unfolding text_below
insert_sorted t [] = t ∷ []
insert_sorted t (u ∷ us) =
    let rest = insert_sorted t us in if text_below u t then u ∷ rest else t ∷ u ∷ us

-- `sort.Strings`
sort_texts : List Text → List Text
unfolding insert_sorted
sort_texts [] = []
sort_texts (t ∷ ts) = insert_sorted t (sort_texts ts)

join_texts : List Text → Text
join_texts [] = []
join_texts (t ∷ []) = t
join_texts (t ∷ u ∷ us) = t ++ (codes ", " ++ join_texts (u ∷ us))

unfoldable pub collision_message : ObjectReference → Text → List ObjectReference → Text
unfolding sort_texts join_texts
collision_message self mac colliders =
    codes "MAC "
    ++ (mac
        ++ (codes ": Collision between "
            ++ join_texts (sort_texts (object_key self ∷ map object_key colliders))))

-- One event for the object itself, and one for each collider of its own kind.
unfoldable pub emit_collision_events :
    ObjectReference → Text → List ObjectReference → List ObjectReference → List Event
emit_collision_events self mac same_kind colliders =
    map (λ o. record { object = o; message = collision_message self mac colliders })
      (self ∷ same_kind)

-- The colliders of one address: those of the object's own kind, and all.
pub record Colliders : Type 0 where
  pub same_kind : List ObjectReference
  pub all : List ObjectReference

-- The loop over the addresses of an object: the events so far, and the collisions or an error.
unfoldable pub collect_collisions :
    ObjectReference
    → (Text → Result Colliders)
    → List Text
    → CollisionMap
    → List Event
    → List Event × Result CollisionMap
collect_collisions self colliders [] acc events = (events, ok acc)
collect_collisions self colliders (mac ∷ macs) acc events = elim (colliders mac) [
  | err e ↦ (events, err e)
  | ok c ↦
      let nothing = length c.all == 0 in
      collect_collisions self colliders macs (if nothing then acc else insert mac c.all acc)
        (if nothing then events else events ++ emit_collision_events self mac c.same_kind c.all)
]

-- The collisions are recorded only if all addresses could be looked up.
unfoldable pub record_collisions :
    ObjectReference
    → List Event × Result CollisionMap
    → Tracker
    → (Tracker × List Event) × Result (Unit {0})
record_collisions self run t = elim run.1 [
  | err e ↦ ((t, run.0), err e)
  | ok collisions ↦ ((update_collisions_map self collisions t, run.0), ok tt)
]

unfoldable pub remove_from_all_collisions :
    ObjectReference → Tracker → (Tracker × List Event) × Result (Unit {0})
remove_from_all_collisions self t = ((update_collisions_map self [] t, []), ok tt)

module _ (c : Cluster) where
  unfoldable pub vmi_colliders : Vmi → Text → Result Colliders
  vmi_colliders v mac =
      list_running_vmis_by_mac_with_exclude_uid c.vmis_by_mac mac v.uid >>= λ found.
      let unrelated = filter_out_decentralized_migrations v found in
      let vmis = map vmi_ref (filter_managed_vmis c.is_vm_managed unrelated (v.namespace ∷ [])) in
      list_running_pods_with_mac c.pods_by_mac mac >>= λ running.
      let pods = filter_collision_candidate_pods c.is_pod_managed running [] in
      ok (record { same_kind = vmis; all = vmis ++ map pod_ref pods })

  unfoldable pub check_vmi_mac_collisions :
      Vmi → Tracker → (Tracker × List Event) × Result (Unit {0})
  check_vmi_mac_collisions v t =
      let macs = text_set (supported_macs_from_vmi v) in
      if not (is_running v.phase)
      then remove_from_all_collisions (vmi_ref v) t
      else if length macs == 0
      then remove_from_all_collisions (vmi_ref v) t
      else record_collisions (vmi_ref v)
          (collect_collisions (vmi_ref v) (vmi_colliders v) macs [] []) t

  unfoldable pub reconcile_vmi : Text → Text → Tracker → (Tracker × List Event) × Result (Unit {0})
  reconcile_vmi namespace name t = elim (c.get_vmi namespace name) [
    | not_found ↦ remove_from_all_collisions (vmi_object_ref namespace name) t
    | failed ↦ ((t, []), err Error.client_failed)
    | found v ↦ elim (c.is_vm_managed v.namespace) [
      | none ↦ ((t, []), err Error.client_failed)
      | some managed ↦ if managed then check_vmi_mac_collisions v t else ((t, []), ok tt)
    ]
  ]

  -- The machines are asked for only where KubeVirt is enabled.
  unfoldable pub pod_vmi_colliders : Text → Result (List ObjectReference)
  pod_vmi_colliders mac =
      if c.is_kubevirt_enabled
      then (list_running_vmis_by_mac c.vmis_by_mac mac >>= λ running.
          ok (map vmi_ref (filter_managed_vmis c.is_vm_managed running [])))
      else ok []

  unfoldable pub pod_colliders : Pod → Text → Result Colliders
  pod_colliders p mac = list_running_pods_with_mac c.pods_by_mac mac >>= λ running.
      let others = exclude_pod_uid running p.uid in
      let pods =
        map pod_ref (filter_collision_candidate_pods c.is_pod_managed others p.namespace) in
      pod_vmi_colliders mac >>= λ vmis. ok (record { same_kind = pods; all = pods ++ vmis })

  -- A pod without addresses is left as it is tracked.
  unfoldable pub check_pod_mac_collisions :
      Pod → Tracker → (Tracker × List Event) × Result (Unit {0})
  check_pod_mac_collisions p t =
      let macs = text_set (index_pod_by_mac c.parse_networks p) in
      if not (is_running p.phase)
      then remove_from_all_collisions (pod_ref p) t
      else if length macs == 0
      then ((t, []), ok tt)
      else record_collisions (pod_ref p)
          (collect_collisions (pod_ref p) (pod_colliders p) macs [] []) t

  unfoldable pub reconcile_pod : Text → Text → Tracker → (Tracker × List Event) × Result (Unit {0})
  reconcile_pod namespace name t = elim (c.get_pod namespace name) [
    | not_found ↦ remove_from_all_collisions (pod_object_ref namespace name) t
    | failed ↦ ((t, []), err Error.client_failed)
    | found p ↦
        if is_kubevirt_owned p then ((t, []), ok tt) else elim (c.is_pod_managed p.namespace) [
          | none ↦ ((t, []), err Error.client_failed)
          | some managed ↦ if managed then check_pod_mac_collisions p t else ((t, []), ok tt)
        ]
  ]
