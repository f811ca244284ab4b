-- ===== src/Controller/ConfigMaps/Range.antt =====
-- The reconciler of pkg/controller/configmap: the range afterwards, and that it settles.
use kubemacpool.Prelude.{
  subst, ap, ◌∙◌, ℕ, ◌≡◌, inl, inr, refl, sym, Bool, true, ◌&&◌, Option, List, [], Text, codes,
  text_eq, text_eq_iff, text_eq_refl, GoMap, arith, Result-cases, if_split, Result, ok, err, Error,
  ◌>>◌,
}
use kubemacpool.Net.{HardwareAddr, mac_string}
use kubemacpool.Kubevirt.{Pod, Answer, found, not_found, failed}
use kubemacpool.Pool.{PoolManager, update_ranges, get_current_ranges}
use kubemacpool.Mac.{check_range, check_cast, generate_random_mac}
use kubemacpool.Controller.ConfigMaps.{
  record_event, RangePool, RangeConfig, Event, extract_ranges_from_config_map, apply_ranges,
  reconcile,
}
use kubemacpool.Controller.ConfigMaps.Reading.{SaysRange, Read, extract-Read, only}

-- The pool after UpdateRanges: on an error the same, else with the new range.
abbrev Served : HardwareAddr → HardwareAddr → PoolManager → PoolManager × Result (Unit {0}) → Type 0
Served start end p (p', err e) = p' ≡ p
Served start end p (p', ok _) = get_current_ranges p' ≡ (mac_string start, mac_string end)

update_ranges-Served :
    (random : ℕ → Option ℕ) (start end : HardwareAddr) (p : PoolManager)
    → Served start end p (update_ranges random start end p)
unfolding update_ranges get_current_ranges
update_ranges-Served random start end p =
    elim (Result-cases (check_range start end >> check_cast start >> check_cast end)) [
      | inr (e, refused) ↦ rw (refused, update_ranges) refl
      | inl (u, passed) ↦ elim (Result-cases (generate_random_mac random start end)) [
        | inr (e, unlucky) ↦ rw (passed, update_ranges) (rw unlucky refl)
        | inl (mac, drawn) ↦ rw (passed, update_ranges) (rw drawn refl)
      ]
    ]

pub refusal :
    (random : ℕ → Option ℕ) (start end : HardwareAddr) (p : PoolManager) (e : Error)
    → (update_ranges random start end p).1 ≡ err e
    → (update_ranges random start end p).0 ≡ p
refusal random start end p e =
    go (update_ranges random start end p) (update_ranges-Served random start end p)
  where
    go : (r : PoolManager × Result (Unit {0})) → Served start end p r → r.1 ≡ err e → r.0 ≡ p
    go (p', err e') h is_err = h
    go (p', ok u) h is_err = absurd cc

pub acceptance :
    (random : ℕ → Option ℕ) (start end : HardwareAddr) (p : PoolManager)
    → (update_ranges random start end p).1 ≡ ok tt
    → get_current_ranges (update_ranges random start end p).0 ≡ (mac_string start, mac_string end)
acceptance random start end p =
    go (update_ranges random start end p) (update_ranges-Served random start end p)
  where
    go :
        (r : PoolManager × Result (Unit {0}))
        → Served start end p r
        → r.1 ≡ ok tt
        → get_current_ranges r.0 ≡ (mac_string start, mac_string end)
    go (p', ok u) h is_ok = h
    go (p', err e) h is_ok = absurd cc

-- The pool manager serves the controller.
unfoldable pub pool_ranges : (ℕ → Option ℕ) → RangePool PoolManager
pool_ranges random = record {
  get_current_ranges = get_current_ranges;
  update_ranges = update_ranges random;
  refused = refusal random;
  accepted = acceptance random;
}

module _ {S : Type 0} (pool : RangePool S) (has_recorder : Bool) (pods : Option (List Pod)) where
  -- The pool refuses the range that the config map says, or that says none.
  abbrev IsRefused : S → GoMap Text → Type 0
  IsRefused s values =
      (start end : HardwareAddr)
      → SaysRange values start end
      → (e : Error) × ((pool.update_ranges start end s).1 ≡ err e)

  -- An error leaves the pool as it is, and comes of a failed look-up or of a range that is missing
  -- or refused; without one, the range is that of the config map.
  abbrev pub InRange : S → Answer (GoMap Text) → (S × List Event) × Result (Unit {0}) → Type 0
  InRange s not_found ((s', events), err e) = ⊥
  InRange s failed ((s', events), err e) = s' ≡ s
  InRange s (found values) ((s', events), err e) = (s' ≡ s) × IsRefused s values
  InRange s not_found ((s', events), ok _) = s' ≡ s
  InRange s failed ((s', events), ok _) = ⊥
  InRange s (found values) ((s', events), ok _) =
      (start : HardwareAddr) × (end : HardwareAddr) × SaysRange values start end
      × (pool.get_current_ranges s' ≡ (mac_string start, mac_string end))

  apply_ranges-InRange :
      (values : GoMap Text) (config : RangeConfig) (s : S)
      → extract_ranges_from_config_map values ≡ ok config
      → InRange s (found values) (apply_ranges pool has_recorder pods config s)
  unfolding apply_ranges
  apply_ranges-InRange values config s read =
      let current = pool.get_current_ranges s in
      if_split (InRange s (found values))
        (text_eq (mac_string config.start) current.0 && text_eq (mac_string config.end) current.1)
        (λ same.
          let (starts, ends) = both same in
          (
            config.start,
            config.end,
            said,
            pair (sym ((text_eq_iff (mac_string config.start) current.0).0 starts))
                (sym ((text_eq_iff (mac_string config.end) current.1).0 ends)),
          ))
        (λ other. go (pool.update_ranges config.start config.end s).1 refl)
    where
      said : SaysRange values config.start config.end
      said = subst (Read values) read (extract-Read values)

      both : {a b : Bool} → (a && b) ≡ true → (a ≡ true) × (b ≡ true)
      both h = ground arith

      pair : {a b : Text × Text} → a.0 ≡ b.0 → a.1 ≡ b.1 → a ≡ b
      pair e f = λ i. (e i, f i)

      updated : S
      updated = (pool.update_ranges config.start config.end s).0

      go :
          (r : Result (Unit {0}))
          → (pool.update_ranges config.start config.end s).1 ≡ r
          → InRange s (found values) (elim r as (λ _. (S × List Event) × Result (Unit {0})) [
            | err e ↦ (
              (updated, record_event has_recorder pods (codes "Warning") (codes "UpdateFailed")),
              err e,
            )
            | ok _ ↦ ((updated, []), ok tt)
          ])
      go (err e) h = (
        pool.refused config.start config.end s e h,
        λ start end says.
            let (first, last) = only values start end config.start config.end says said in
            (
              e,
              ap (λ a. (pool.update_ranges a end s).1) first
                  ∙ (ap (λ b. (pool.update_ranges config.start b s).1) last ∙ h),
            ),
      )
      go (ok u) h = (config.start, config.end, said, pool.accepted config.start config.end s h)

  -- Over any pool that refuses an update of its range without a change or else sets it, a
  -- reconciliation of the config map fails only where the config map could not be read, or does not
  -- say two addresses under RANGE_START and RANGE_END that parse, or the pool refuses these, and
  -- then leaves the pool as it was; one that succeeds leaves the pool as it was where there is no
  -- config map, and else in the range from the address under RANGE_START to the one under
  -- RANGE_END.
  pub reconcile-InRange :
      (answer : Answer (GoMap Text)) (s : S)
      → InRange s answer (reconcile pool has_recorder pods answer s)
  unfolding reconcile
  reconcile-InRange not_found s = refl
  reconcile-InRange failed s = refl
  reconcile-InRange (found values) s = go (extract_ranges_from_config_map values) refl
    where
      go :
          (r : Result RangeConfig)
          → extract_ranges_from_config_map values ≡ r
          → InRange s (found values) (elim r as (λ _. (S × List Event) × Result (Unit {0})) [
            | err e ↦ (
              (s, record_event has_recorder pods (codes "Warning") (codes "InvalidRange")),
              err e,
            )
            | ok config ↦ apply_ranges pool has_recorder pods config s
          ])
      go (err e) h = (
        refl,
        λ start end says. absurd (subst (Read values) h (extract-Read values) start end says),
      )
      go (ok config) h = apply_ranges-InRange values config s h

  unchanged :
      (values : GoMap Text) (config : RangeConfig) (s : S)
      → extract_ranges_from_config_map values ≡ ok config
      → pool.get_current_ranges s ≡ (mac_string config.start, mac_string config.end)
      → reconcile pool has_recorder pods (found values) s ≡ ((s, []), ok tt)
  unfolding reconcile apply_ranges
  unchanged values config s read current =
      rw (read, reconcile)
        (rw
          (
            current,
            text_eq_refl (mac_string config.start),
            text_eq_refl (mac_string config.end),
            apply_ranges,
          )
          refl)

  again :
      (answer : Answer (GoMap Text)) (s : S) (r : (S × List Event) × Result (Unit {0}))
      → reconcile pool has_recorder pods answer s ≡ r
      → InRange s answer r
      → r.1 ≡ ok tt
      → reconcile pool has_recorder pods answer r.0.0 ≡ ((r.0.0, []), ok tt)
  unfolding reconcile
  again not_found s ((s', events), err e) h in_range is_ok = absurd in_range
  again failed s ((s', events), err e) h in_range is_ok = absurd cc
  again (found values) s ((s', events), err e) h in_range is_ok = absurd cc
  again not_found s ((s', events), ok u) h in_range is_ok = refl
  again failed s ((s', events), ok u) h in_range is_ok = absurd in_range
  again (found values) s ((s', events), ok u) h (start, end, says, current) is_ok =
      settled (extract_ranges_from_config_map values) refl
    where
      settled :
          (r : Result RangeConfig)
          → extract_ranges_from_config_map values ≡ r
          → reconcile pool has_recorder pods (found values) s' ≡ ((s', []), ok tt)
      settled (err e) read = absurd (subst (Read values) read (extract-Read values) start end says)
      settled (ok config) read =
          let same =
            only values start end config.start config.end says
              (subst (Read values) read (extract-Read values)) in
          unchanged values config s' read (
            current
            ∙ (ap (λ a. (mac_string a, mac_string end)) same.0
                ∙ ap (λ b. (mac_string config.start, mac_string b)) same.1))

  -- Over any pool that refuses an update of its range without a change or else sets it, after a
  -- reconciliation of the config map that succeeds, another one with the same answer succeeds,
  -- changes nothing and records no event.
  pub reconcile_again :
      (answer : Answer (GoMap Text)) (s : S)
      → (reconcile pool has_recorder pods answer s).1 ≡ ok tt
      → let s' = (reconcile pool has_recorder pods answer s).0.0 in
        reconcile pool has_recorder pods answer s' ≡ ((s', []), ok tt)
  reconcile_again answer s =
      again answer s (reconcile pool has_recorder pods answer s) refl (reconcile-InRange answer s)
