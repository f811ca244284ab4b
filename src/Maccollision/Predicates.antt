-- ===== src/Maccollision/Predicates.antt =====
-- The event filters of pkg/controller/maccollision/predicates.go: which new pods, and which updates
-- of machine instances and of pods, are reconciled.
pub mod Relevant
use kubemacpool.Prelude.{
  ℕ, ◌≡◌, ◌↔◌, refl, sym, ap, ◌∙◌, Bool, true, false, not, ◌&&◌, ◌||◌, Option, none, some, List, [],
  ◌∷◌, Text, text_eq, text_eq_iff, text_eq_refl, get_or_zero, ◌==◌, arith, if◌then◌else◌,
}
use kubemacpool.Kubevirt.{Vmi, MigrationState, Pod}
use kubemacpool.Pod.{network_attachment_annot, network_status_annot}
use kubemacpool.Maccollision.{
  has_key, has_text, supported_macs_from_vmi, uid_or_empty, extract_migration_uids,
}

-- Every text of the second list is in the first.
unfoldable pub includes : List Text → List Text → Bool
includes ts [] = true
includes ts (u ∷ us) = has_text u ts && includes ts us

-- The sets of addresses differ.
unfoldable pub mac_addresses_changed : Vmi → Vmi → Bool
mac_addresses_changed old new =
    let before = supported_macs_from_vmi old in
    let after = supported_macs_from_vmi new in not (includes before after && includes after before)

unfoldable pub get_source_migration_uid : Vmi → Text
get_source_migration_uid v = elim v.migration_state [
  | none ↦ []
  | some s ↦ uid_or_empty s.source_state
]

unfoldable pub get_target_migration_uid : Vmi → Text
get_target_migration_uid v = elim v.migration_state [
  | none ↦ []
  | some s ↦ uid_or_empty s.target_state
]

unfoldable pub migration_state_changed : Vmi → Vmi → Bool
migration_state_changed old new =
    not (text_eq (get_source_migration_uid old) (get_source_migration_uid new))
    || not (text_eq (get_target_migration_uid old) (get_target_migration_uid new))

unfoldable pub collision_relevant_changes : Vmi → Vmi → Bool
collision_relevant_changes old new =
    if not (text_eq old.phase new.phase)
    then true
    else if mac_addresses_changed old new
    then true
    else migration_state_changed old new

-- The filter of new pods; the one of new machine instances and those of deletions pass all.
unfoldable pub pod_created : Pod → Bool
pod_created pod = has_key network_attachment_annot pod.annotations

unfoldable pub pod_collision_relevant_changes : Pod → Pod → Bool
pod_collision_relevant_changes old new =
    let annotation = λ (key : Text) (p : Pod). get_or_zero [] key p.annotations in
    if not (text_eq old.phase new.phase)
    then true
    else if not (
        text_eq (annotation network_attachment_annot old) (annotation network_attachment_annot new))
    then true
    else not (text_eq (annotation network_status_annot old) (annotation network_status_annot new))
