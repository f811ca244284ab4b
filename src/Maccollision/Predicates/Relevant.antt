-- ===== src/Maccollision/Predicates/Relevant.antt =====
-- What the filters of updates in pkg/controller/maccollision/predicates.go look at.
use kubemacpool.Prelude.{
  ◌≡◌, ◌↔◌, refl, sym, ap, ◌∙◌, true, false, Option, none, some, List, [], ◌∷◌, Text, text_eq,
  text_eq_iff, text_eq_refl, get_or_zero, arith,
}
use kubemacpool.Kubevirt.{Vmi, MigrationState, Pod}
use kubemacpool.Pod.{network_attachment_annot, network_status_annot}
use kubemacpool.Maccollision.{
  has_text, supported_macs_from_vmi, uid_or_empty, extract_migration_uids,
}
use kubemacpool.Maccollision.Predicates.{
  includes, mac_addresses_changed, get_source_migration_uid, get_target_migration_uid,
  migration_state_changed, collision_relevant_changes, pod_collision_relevant_changes,
}

includes→has_text :
    (ts us : List Text) (m : Text)
    → includes ts us ≡ true
    → has_text m us ≡ true
    → has_text m ts ≡ true
unfolding includes has_text
includes→has_text ts [] m h k = cc
includes→has_text ts (u ∷ us) m h k =
    let here : text_eq u m ≡ true → has_text u ts ≡ has_text m ts =
      λ e. ap (λ u. has_text u ts) ((text_eq_iff u m).0 e) in
    ground (arith, includes→has_text ts us m, here)

has_text→includes :
    (ts us : List Text)
    → ((m : Text) → has_text m us ≡ true → has_text m ts ≡ true)
    → includes ts us ≡ true
unfolding includes has_text
has_text→includes ts [] h = refl
has_text→includes ts (u ∷ us) h =
    let first : has_text u ts ≡ true = h u (ground (arith, text_eq_refl u)) in
    let rest = has_text→includes ts us (λ m k. h m (ground (arith, k))) in
    ground (arith, first, rest)

-- Two lists with the same texts.
abbrev pub SameTexts : List Text → List Text → Type 0
SameTexts ts us = (m : Text) → has_text m ts ≡ has_text m us

has_text-eq :
    (ts us : List Text) (m : Text)
    → (has_text m us ≡ true → has_text m ts ≡ true)
    → (has_text m ts ≡ true → has_text m us ≡ true)
    → has_text m ts ≡ has_text m us
has_text-eq ts us m f g = ground (arith, f, g)

mac_addresses_changed_iff :
    (old new : Vmi)
    → (mac_addresses_changed old new ≡ false)
      ↔ SameTexts (supported_macs_from_vmi old) (supported_macs_from_vmi new)
unfolding mac_addresses_changed
mac_addresses_changed_iff old new =
    let before = supported_macs_from_vmi old in
    let after = supported_macs_from_vmi new in
    (
      λ h m.
          has_text-eq before after m (includes→has_text before after m (ground arith))
            (includes→has_text after before m (ground arith)),
      λ same.
          let one = has_text→includes before after (λ m h. same m ∙ h) in
          let two = has_text→includes after before (λ m h. sym (same m) ∙ h) in
          ground (arith, one, two),
    )

-- The identifiers that the filter reads are those of the migration filter.
uids_lem :
    (v : Vmi)
    → (get_source_migration_uid v ≡ (extract_migration_uids v).0)
      × (get_target_migration_uid v ≡ (extract_migration_uids v).1)
unfolding get_source_migration_uid get_target_migration_uid extract_migration_uids
uids_lem v = go v.migration_state
  where
    go :
        (o : Option MigrationState)
        → (elim o as (λ _. Text) [ none ↦ [] | some s ↦ uid_or_empty s.source_state ]
            ≡ (elim o as (λ _. Text × Text) [
              | none ↦ ([], [])
              | some s ↦ (uid_or_empty s.source_state, uid_or_empty s.target_state)
            ]).0)
          × (elim o as (λ _. Text) [ none ↦ [] | some s ↦ uid_or_empty s.target_state ]
              ≡ (elim o as (λ _. Text × Text) [
                | none ↦ ([], [])
                | some s ↦ (uid_or_empty s.source_state, uid_or_empty s.target_state)
              ]).1)
    go none = (refl, refl)
    go (some s) = (refl, refl)

-- The filter of updates passes an instance over exactly if the phase, the set of the addresses and
-- both identifiers of the migration are as they were.
pub collision_relevant_changes_iff :
    (old new : Vmi)
    → (collision_relevant_changes old new ≡ false) ↔ (
        (old.phase ≡ new.phase)
        × SameTexts (supported_macs_from_vmi old) (supported_macs_from_vmi new)
        × ((extract_migration_uids old).0 ≡ (extract_migration_uids new).0)
        × ((extract_migration_uids old).1 ≡ (extract_migration_uids new).1))
unfolding collision_relevant_changes migration_state_changed
collision_relevant_changes_iff old new =
    let phase = text_eq_iff old.phase new.phase in
    let macs = mac_addresses_changed_iff old new in
    let (source_old, target_old) = uids_lem old in
    let (source_new, target_new) = uids_lem new in
    let source = text_eq_iff (get_source_migration_uid old) (get_source_migration_uid new) in
    let target = text_eq_iff (get_target_migration_uid old) (get_target_migration_uid new) in
    (
      λ h. (
        phase.0 (ground arith),
        macs.0 (ground arith),
        sym source_old ∙ source.0 (ground arith) ∙ source_new,
        sym target_old ∙ target.0 (ground arith) ∙ target_new,
      ),
      λ h.
          let (one, two, three, four) = h in
          let a = phase.1 one in
          let b = macs.1 two in
          let c = source.1 (source_old ∙ three ∙ sym source_new) in
          let d = target.1 (target_old ∙ four ∙ sym target_new) in ground (arith, a, b, c, d),
    )

-- What an annotation is, a missing one being empty.
abbrev pub annotation : Text → Pod → Text
annotation key p = get_or_zero [] key p.annotations

-- The filter of updates passes a pod over exactly if the phase and the two annotations on networks
-- are as they were, a missing annotation counting as an empty one.
pub pod_collision_relevant_changes_iff :
    (old new : Pod)
    → (pod_collision_relevant_changes old new ≡ false) ↔ (
        (old.phase ≡ new.phase)
        × (annotation network_attachment_annot old ≡ annotation network_attachment_annot new)
        × (annotation network_status_annot old ≡ annotation network_status_annot new))
unfolding pod_collision_relevant_changes
pod_collision_relevant_changes_iff old new =
    let phase = text_eq_iff old.phase new.phase in
    let networks =
      text_eq_iff (annotation network_attachment_annot old)
        (annotation network_attachment_annot new) in
    let status =
      text_eq_iff (annotation network_status_annot old) (annotation network_status_annot new) in
    (
      λ h. (phase.0 (ground arith), networks.0 (ground arith), status.0 (ground arith)),
      λ h.
          let (one, two, three) = h in
          let a = phase.1 one in
          let b = networks.1 two in let c = status.1 three in ground (arith, a, b, c),
    )
