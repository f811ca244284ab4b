-- ===== src/Maccollision/Migration.antt =====
-- The migration filter of pkg/controller/maccollision/migration.go against a description by the
-- identifiers of migrations.
use kubemacpool.Prelude.{
  Bool, Bool-cases, ◌≡◌, ◌↔◌, ◌⊎◌, ◌≢◌, refl, sym, ap, ◌∙◌, true, false, not, ◌&&◌, Option, none,
  some, List, [], ◌∷◌, Text, text_eq, text_eq_iff, keep_if, arith, if◌then◌else◌, if_split, inl,
  inr,
}
use kubemacpool.Kubevirt.{Vmi, MigrationState}
use kubemacpool.Maccollision.{
  Bool, uid_or_empty, extract_migration_uids, shares_active_migration,
  filter_out_decentralized_migrations,
}

-- Two machine instances belong to one migration: its source or its target is known for both, and
-- is the same.
abbrev pub IsOneMigration : Vmi → Vmi → Type 0
IsOneMigration v w =
    let a = extract_migration_uids v in
    let b = extract_migration_uids w in ((a.0 ≢ []) × (a.0 ≡ b.0)) ⊎ ((a.1 ≢ []) × (a.1 ≡ b.1))

decided :
    (a a' b b' : Text)
    → ((if not (text_eq a []) && text_eq a b then true else not (text_eq a' []) && text_eq a' b')
        ≡ true)
      ↔ (((a ≢ []) × (a ≡ b)) ⊎ ((a' ≢ []) × (a' ≡ b')))
decided a a' b b' =
    let ea = text_eq_iff a [] in
    let ea' = text_eq_iff a' [] in
    let eb = text_eq_iff a b in
    let eb' = text_eq_iff a' b' in
    (ground (arith, ea, ea', eb, eb'), ground (arith, ea, ea', eb, eb'))

-- sharesActiveMigration holds exactly of two instances whose source or whose target migration is
-- known and the same.
pub shares_active_migration_iff :
    (v w : Vmi)
    → (shares_active_migration (extract_migration_uids v).0 (extract_migration_uids v).1 w ≡ true)
      ↔ IsOneMigration v w
unfolding shares_active_migration extract_migration_uids
shares_active_migration_iff v w =
    go (extract_migration_uids v).0 (extract_migration_uids v).1 w.migration_state
      (uids w.migration_state) refl
  where
    uids : Option MigrationState → Text × Text
    uids o = elim o [
      | none ↦ ([], [])
      | some s ↦ (uid_or_empty s.source_state, uid_or_empty s.target_state)
    ]

    go :
        (a a' : Text) (o : Option MigrationState) (u : Text × Text)
        → uids o ≡ u
        → ((elim o [
          | none ↦ false
          | some s ↦
              if not (text_eq a []) && text_eq a u.0
              then true
              else not (text_eq a' []) && text_eq a' u.1
        ])
            ≡ true)
          ↔ (((a ≢ []) × (a ≡ u.0)) ⊎ ((a' ≢ []) × (a' ≡ u.1)))
    go a a' none u e =
        let first : u.0 ≡ [] = sym (ap (λ u. u.0) e) in
        let second : u.1 ≡ [] = sym (ap (λ u. u.1) e) in (λ h. cc h, λ h. absurd (ground arith))
    go a a' (some s) u e = decided a a' u.0 u.1

-- Being in one migration goes both ways.
pub shares_active_migration_comm :
    (v w : Vmi)
    → shares_active_migration (extract_migration_uids v).0 (extract_migration_uids v).1 w ≡ true
    → shares_active_migration (extract_migration_uids w).0 (extract_migration_uids w).1 v ≡ true
shares_active_migration_comm v w h =
    (shares_active_migration_iff w v).1 (turned ((shares_active_migration_iff v w).0 h))
  where
    turned : IsOneMigration v w → IsOneMigration w v
    turned (inl (ne, e)) = inl (λ e'. ne (e ∙ e'), sym e)
    turned (inr (ne, e)) = inr (λ e'. ne (e ∙ e'), sym e)

no_uids :
    (v w : Vmi)
    → (extract_migration_uids v).0 ≡ []
    → (extract_migration_uids v).1 ≡ []
    → shares_active_migration (extract_migration_uids v).0 (extract_migration_uids v).1 w ≡ false
no_uids v w source target = ground (arith, shares_active_migration_iff v w)

keep_all :
    (v : Vmi) (ws : List Vmi)
    → ((w : Vmi)
        → shares_active_migration (extract_migration_uids v).0 (extract_migration_uids v).1 w
          ≡ false)
    → ws
      ≡ keep_if
          (λ w.
            not
              (shares_active_migration (extract_migration_uids v).0 (extract_migration_uids v).1 w))
          ws
keep_all v [] h = refl
keep_all v (w ∷ ws) h = ground (arith, h w, keep_all v ws h)

-- The migration of the source, or of the target, that the status of an instance names.
abbrev pub SourceIs : Option MigrationState → Text → Type 0
SourceIs none uid = ⊥
SourceIs (some s) uid = s.source_state ≡ some uid

abbrev pub TargetIs : Option MigrationState → Text → Type 0
TargetIs none uid = ⊥
TargetIs (some s) uid = s.target_state ≡ some uid

-- The statuses of two instances name the same migration, both as source or both as target.
abbrev pub SharesMigration : Vmi → Vmi → Type 0
SharesMigration v w =
    (uid : Text) × (uid ≢ [])
    × ((SourceIs v.migration_state uid × SourceIs w.migration_state uid)
        ⊎ (TargetIs v.migration_state uid × TargetIs w.migration_state uid))

uid_or_empty_iff :
    (o : Option Text) (uid : Text) → uid ≢ [] → (uid_or_empty o ≡ uid) ↔ (o ≡ some uid)
uid_or_empty_iff none uid ne = (λ h. absurd (ne (sym h)), λ h. absurd cc)
uid_or_empty_iff (some u) uid ne = (λ h. ap some h, λ h. cc h)

source_iff :
    (v : Vmi) (uid : Text)
    → uid ≢ []
    → ((extract_migration_uids v).0 ≡ uid) ↔ SourceIs v.migration_state uid
unfolding extract_migration_uids
source_iff v uid ne = go v.migration_state
  where
    go :
        (o : Option MigrationState)
        → ((elim o as (λ _. Text × Text) [
          | none ↦ ([], [])
          | some s ↦ (uid_or_empty s.source_state, uid_or_empty s.target_state)
        ]).0
            ≡ uid)
          ↔ SourceIs o uid
    go none = (λ h. ne (sym h), λ h. absurd h)
    go (some s) = uid_or_empty_iff s.source_state uid ne

target_iff :
    (v : Vmi) (uid : Text)
    → uid ≢ []
    → ((extract_migration_uids v).1 ≡ uid) ↔ TargetIs v.migration_state uid
unfolding extract_migration_uids
target_iff v uid ne = go v.migration_state
  where
    go :
        (o : Option MigrationState)
        → ((elim o as (λ _. Text × Text) [
          | none ↦ ([], [])
          | some s ↦ (uid_or_empty s.source_state, uid_or_empty s.target_state)
        ]).1
            ≡ uid)
          ↔ TargetIs o uid
    go none = (λ h. ne (sym h), λ h. absurd h)
    go (some s) = uid_or_empty_iff s.target_state uid ne

IsOneMigration-iff : (v w : Vmi) → IsOneMigration v w ↔ SharesMigration v w
IsOneMigration-iff v w = (there, back)
  where
    there : IsOneMigration v w → SharesMigration v w
    there (inl (ne, e)) = (
      (extract_migration_uids v).0,
      ne,
      inl (
        (source_iff v (extract_migration_uids v).0 ne).0 refl,
        (source_iff w (extract_migration_uids v).0 ne).0 (sym e),
      ),
    )
    there (inr (ne, e)) = (
      (extract_migration_uids v).1,
      ne,
      inr (
        (target_iff v (extract_migration_uids v).1 ne).0 refl,
        (target_iff w (extract_migration_uids v).1 ne).0 (sym e),
      ),
    )

    back : SharesMigration v w → IsOneMigration v w
    back (uid, ne, inl (sv, sw)) =
        let ev = (source_iff v uid ne).1 sv in
        let ew = (source_iff w uid ne).1 sw in inl (λ z. ne (sym ev ∙ z), ev ∙ sym ew)
    back (uid, ne, inr (tv, tw)) =
        let ev = (target_iff v uid ne).1 tv in
        let ew = (target_iff w uid ne).1 tw in inr (λ z. ne (sym ev ∙ z), ev ∙ sym ew)

-- The list that filterOutDecentralizedMigrations returns has, in order, the candidates that share
-- no active migration with the instance that is reconciled; its early return for an instance
-- without a migration gives the same.
filtered :
    (v : Vmi) (ws : List Vmi)
    → filter_out_decentralized_migrations v ws
      ≡ keep_if
          (λ w.
            not
              (shares_active_migration (extract_migration_uids v).0 (extract_migration_uids v).1 w))
          ws
unfolding filter_out_decentralized_migrations
filtered v ws =
    if_split
      (λ l.
        l
        ≡ keep_if
            (λ w.
              not (
                shares_active_migration (extract_migration_uids v).0 (extract_migration_uids v).1
                  w))
            ws)
      (text_eq (extract_migration_uids v).0 [] && text_eq (extract_migration_uids v).1 [])
      (λ no_migration. keep_all v ws (λ w.
        no_uids v w (ground (arith, text_eq_iff (extract_migration_uids v).0 []))
          (ground (arith, text_eq_iff (extract_migration_uids v).1 []))))
      (λ migration. refl)

-- The list that filterOutDecentralizedMigrations returns has, in order, exactly the candidates
-- whose status names no migration that the status of the instance which is reconciled names too,
-- both as source or both as target; its early return for an instance without a migration gives the
-- same.
pub filter_out_decentralized_migrations_lem :
    (v : Vmi) (ws : List Vmi)
    → (keep : Vmi → Bool) × ((w : Vmi) → (keep w ≡ true) ↔ ¬ SharesMigration v w)
      × (filter_out_decentralized_migrations v ws ≡ keep_if keep ws)
filter_out_decentralized_migrations_lem v ws = (keeps, exact, filtered v ws)
  where
    keeps : Vmi → Bool
    keeps w =
        not (shares_active_migration (extract_migration_uids v).0 (extract_migration_uids v).1 w)

    exact : (w : Vmi) → (keeps w ≡ true) ↔ ¬ SharesMigration v w
    exact w =
        let one = shares_active_migration_iff v w in
        let shares = IsOneMigration-iff v w in
        (
          λ h s. cc (one.1 (shares.1 s), h),
          λ no_migration.
              elim (Bool-cases (
                shares_active_migration (extract_migration_uids v).0 (extract_migration_uids v).1
                  w)) [
                    | inl one_migration ↦ absurd (no_migration (shares.0 (one.0 one_migration)))
                    | inr other ↦ ap not other
                  ],
        )
