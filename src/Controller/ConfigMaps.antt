-- ===== src/Controller/ConfigMaps.antt =====
-- pkg/controller/configmap/configmap_controller.go: the range of the pool follows a config map.
pub mod Range
pub mod Reading
use kubemacpool.Prelude.{
  ℕ, zero, suc, ◌+◌, ◌-◌, ◌*◌, ◌<◌, ◌≤◌, ◌≡◌, ◌≢◌, ◌⊎◌, ◌↔◌, inl, inr, refl, sym, ap, ◌∙◌, subst,
  Bool, true, false, not, ◌&&◌, ◌||◌, Option, none, some, List, [], ◌∷◌, ◌++◌, Text, codes, text_eq,
  text_eq_iff, text_eq_refl, GoMap, lookup, insert, delete, has_key, get_or_zero, IsMap, length,
  any_of, keep_if, All, arith, if◌then◌else◌, ◌==◌, Bool-cases, Option-cases, Result-cases,
  if_intro, if_split, Result, ok, err, Error, ◌>>=◌, ◌>>◌,
}
use kubemacpool.Net.{HardwareAddr, parse_mac, mac_string}
use kubemacpool.Kubevirt.{Pod, is_running, Answer, found, not_found, failed}

-- The interface PoolManager of the source. A refused update changes nothing; one that is accepted
-- sets the range.
pub record RangePool {ℓ} (S : Type ℓ) : Type ℓ where
  pub get_current_ranges : S → Text × Text
  pub update_ranges : HardwareAddr → HardwareAddr → S → S × Result (Unit {0})
  pub refused :
      (start end : HardwareAddr) (s : S) (e : Error)
      → (update_ranges start end s).1 ≡ err e
      → (update_ranges start end s).0 ≡ s
  pub accepted :
      (start end : HardwareAddr) (s : S)
      → (update_ranges start end s).1 ≡ ok tt
      → get_current_ranges (update_ranges start end s).0 ≡ (mac_string start, mac_string end)

pub record RangeConfig : Type 0 where
  pub start : HardwareAddr
  pub end : HardwareAddr

-- The pod that the event is recorded on, the type of the event and its reason.
pub record Event : Type 0 where
  pub object : Pod
  pub event_type : Text
  pub reason : Text

unfoldable pub new_range_config : HardwareAddr → HardwareAddr → RangeConfig
new_range_config start end = record { start = start; end = end }

unfoldable pub extract_ranges_from_config_map : GoMap Text → Result RangeConfig
extract_ranges_from_config_map values = elim (lookup (codes "RANGE_START") values) [
  | none ↦ err Error.range_key_missing
  | some start_str ↦ elim (lookup (codes "RANGE_END") values) [
    | none ↦ err Error.range_key_missing
    | some end_str ↦ elim (parse_mac start_str) [
      | none ↦ err Error.invalid_mac
      | some start ↦ elim (parse_mac end_str) [
        | none ↦ err Error.invalid_mac
        | some end ↦ ok (new_range_config start end)
      ]
    ]
  ]
]

unfoldable pub first_running : List Pod → Option Pod
first_running [] = none
first_running (pod ∷ pods) =
    let rest = first_running pods in if is_running pod.phase then some pod else rest

-- `pods` is the answer to the list of the pods with the labels of the manager.
unfoldable pub get_manager_pod : Option (List Pod) → Result Pod
get_manager_pod none = err Error.client_failed
get_manager_pod (some []) = err Error.no_manager_pod
get_manager_pod (some (pod ∷ pods)) = elim (first_running (pod ∷ pods)) [
  | some running_pod ↦ ok running_pod
  | none ↦ ok pod
]

unfoldable pub record_event : Bool → Option (List Pod) → Text → Text → List Event
record_event has_recorder pods event_type reason =
    if has_recorder
    then elim (get_manager_pod pods) [
      | err e ↦ []
      | ok pod ↦ record { object = pod; event_type = event_type; reason = reason } ∷ []
    ]
    else []

module _ {ℓ} {S : Type ℓ} (pool : RangePool S) (has_recorder : Bool)
    (pods : Option (List Pod)) where
  -- The range of a config map that could be read.
  unfoldable pub apply_ranges : RangeConfig → S → (S × List Event) × Result (Unit {0})
  apply_ranges config s =
      let current = pool.get_current_ranges s in
      let updated = pool.update_ranges config.start config.end s in
      if text_eq (mac_string config.start) current.0 && text_eq (mac_string config.end) current.1
      then ((s, []), ok tt)
      else elim updated.1 [
        | err e ↦ (
          (updated.0, record_event has_recorder pods (codes "Warning") (codes "UpdateFailed")),
          err e,
        )
        | ok _ ↦ ((updated.0, []), ok tt)
      ]

  -- `answer` is the client's Get of the config map: its data.
  unfoldable pub reconcile : Answer (GoMap Text) → S → (S × List Event) × Result (Unit {0})
  reconcile not_found s = ((s, []), ok tt)
  reconcile failed s = ((s, []), err Error.client_failed)
  reconcile (found values) s = elim (extract_ranges_from_config_map values) [
    | err e ↦ ((s, record_event has_recorder pods (codes "Warning") (codes "InvalidRange")), err e)
    | ok config ↦ apply_ranges config s
  ]
