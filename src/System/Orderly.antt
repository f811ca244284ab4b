-- ===== src/System/Orderly.antt =====
-- When the one pool manager is in order, and that the start-up and the controller of config maps
-- keep it so.
use kubemacpool.Prelude.{
  ℕ, ◌≡◌, refl, sym, ap, subst, Bool, true, ◌&&◌, Option, List, [], Text, codes, text_eq, GoMap,
  IsMap, if_intro, Result, ok, err,
}
use kubemacpool.Net.RoundTrip.{IsMac}
use kubemacpool.Net.{mac_string, HardwareAddr}
use kubemacpool.Mac.Random.{IsRandom}
use kubemacpool.Kubevirt.{NetworkSelection, Pod, Answer, found, not_found, failed}
use kubemacpool.Client.{Client}
use kubemacpool.MacMap.View.{IsCompact}
use kubemacpool.Collision.{Tracker}
use kubemacpool.Pool.{get_current_ranges, PoolManager, update_ranges}
use kubemacpool.Pool.FreeMac.{IsRanged}
use kubemacpool.Pool.Ranges.{Updated, update_ranges-Updated}
use kubemacpool.Pool.Keeps.{Keeps, Keeps-refl}
use kubemacpool.Maccollision.Controllers.{Event}
use kubemacpool.Maccollision.Controllers.Outcome.{IsSound, Settled}
use kubemacpool.Startup.{init_maps, start}
use kubemacpool.Startup.Kept.{init_maps-From}
use kubemacpool.Controller.ConfigMaps as RangeController
use kubemacpool.Controller.ConfigMaps.{
  extract_ranges_from_config_map, RangeConfig, apply_ranges, record_event,
}
use kubemacpool.Controller.ConfigMaps.Range.{pool_ranges}
use kubemacpool.System.{HasMac48}

-- The range is one of MAC-48 addresses with the current address inside it, each key of the map
-- stands once and with an entry, and the tracker of the collisions is in order.
pub record IsOrderly (p : PoolManager) : Type 0 where
  pub ranged : IsRanged p
  pub compact : IsCompact p.mac_pool_map
  pub once : IsMap p.mac_pool_map
  pub tracked : IsSound p.tracker

pub Keeps-IsOrderly :
    {Mine : Text → Type 0} {p p' : PoolManager} → Keeps Mine p p' → IsOrderly p → IsOrderly p'
Keeps-IsOrderly keeps h = record {
  ranged = keeps.ranged;
  compact = keeps.entries.compact h.compact;
  once = keeps.entries.once h.once;
  tracked = subst IsSound (sym (ap (λ q. q.tracker) keeps.others_same)) h.tracked;
}

-- Only the tracker or the readiness differ.
pub tracker-IsOrderly :
    (p : PoolManager) (t : Tracker) → IsOrderly p → IsSound t → IsOrderly (record p { tracker = t })
tracker-IsOrderly p t h sound = record {
  ranged = record {
    start_mac = h.ranged.start_mac;
    end_mac = h.ranged.end_mac;
    current = h.ranged.current;
    low = h.ranged.low;
    high = h.ranged.high;
  };
  compact = h.compact;
  once = h.once;
  tracked = sound;
}

ready-IsOrderly : (p : PoolManager) → IsOrderly p → IsOrderly (record p { is_pool_ready = true })
ready-IsOrderly p h = record {
  ranged = record {
    start_mac = h.ranged.start_mac;
    end_mac = h.ranged.end_mac;
    current = h.ranged.current;
    low = h.ranged.low;
    high = h.ranged.high;
  };
  compact = h.compact;
  once = h.once;
  tracked = h.tracked;
}

pub Settled-IsSound :
    (t : Tracker) (r : (Tracker × List Event) × Result (Unit {0}))
    → IsSound t
    → Settled t r
    → IsSound r.0.0
Settled-IsSound t ((t', events), err e) sound same = subst IsSound (sym same) sound
Settled-IsSound t ((t', events), ok u) sound settled = settled

pub start-IsOrderly :
    (unmarshal : Text → Option (List (Option NetworkSelection))) (fuel : ℕ) (client : Client)
    (p : PoolManager) (duplicates : ℕ)
    → IsOrderly p
    → IsOrderly (start unmarshal fuel client (p, duplicates)).0.0
unfolding start
start-IsOrderly unmarshal fuel client p duplicates h =
    go (init_maps unmarshal fuel client (p, duplicates)).1 (
      Keeps-IsOrderly (init_maps-From unmarshal fuel client p (p, duplicates) (Keeps-refl h.ranged))
        h)
  where
    s : PoolManager × ℕ
    s = (init_maps unmarshal fuel client (p, duplicates)).0

    go :
        (r : Result (Unit {0}))
        → IsOrderly s.0
        → IsOrderly
            (elim r as (λ _. (PoolManager × ℕ) × Result (Unit {0})) [
              | err e ↦ (s, err e)
              | ok _ ↦ ((record s.0 { is_pool_ready = true }, s.1), ok tt)
            ]).0.0
    go (err e) k = k
    go (ok u) k = ready-IsOrderly s.0 k

Updated-IsOrderly :
    (p : PoolManager) (s t : HardwareAddr) (r : PoolManager × Result (Unit {0}))
    → IsOrderly p
    → Updated p s t r
    → IsOrderly r.0
Updated-IsOrderly p s t (p', err e) h same = subst IsOrderly (sym same) h
Updated-IsOrderly p s t (p', ok u) h (ranged, same, below, low_end, high_end) = record {
  ranged = ranged;
  compact = subst IsCompact (sym (ap (λ q. q.mac_pool_map) same)) h.compact;
  once = subst IsMap (sym (ap (λ q. q.mac_pool_map) same)) h.once;
  tracked = subst IsSound (sym (ap (λ q. q.tracker) same)) h.tracked;
}

module _ (random : ℕ → Option ℕ) (fair : IsRandom random) (has_recorder : Bool)
    (pods : Option (List Pod)) (p : PoolManager) (h : IsOrderly p) where
  apply-IsOrderly :
      (config : RangeConfig)
      → IsMac config.start × IsMac config.end
      → IsOrderly (apply_ranges (pool_ranges random) has_recorder pods config p).0.0
  unfolding apply_ranges pool_ranges
  apply-IsOrderly config (start_mac, end_mac) =
      if_intro
        (λ (r : (PoolManager × List RangeController.Event) × Result (Unit {0})). IsOrderly r.0.0)
        (text_eq (mac_string config.start) (get_current_ranges p).0
          && text_eq (mac_string config.end) (get_current_ranges p).1)
        h
        (go (update_ranges random config.start config.end p) (
          Updated-IsOrderly p config.start config.end _ h
            (update_ranges-Updated random config.start config.end start_mac end_mac p fair)))
    where
      go :
          (r : PoolManager × Result (Unit {0}))
          → IsOrderly r.0
          → IsOrderly
              (elim r.1 as (λ _. (PoolManager × List RangeController.Event) × Result (Unit {0})) [
                | err e ↦ (
                  (r.0, record_event has_recorder pods (codes "Warning") (codes "UpdateFailed")),
                  err e,
                )
                | ok _ ↦ ((r.0, []), ok tt)
              ]).0.0
      go (q, err e) k = k
      go (q, ok u) k = k

  pub config_map-IsOrderly :
      (answer : Answer (GoMap Text))
      → HasMac48 answer
      → IsOrderly (RangeController.reconcile (pool_ranges random) has_recorder pods answer p).0.0
  unfolding RangeController.reconcile
  config_map-IsOrderly not_found mac48 = h
  config_map-IsOrderly failed mac48 = h
  config_map-IsOrderly (found values) mac48 = go (extract_ranges_from_config_map values) refl
    where
      go :
          (r : Result RangeConfig)
          → extract_ranges_from_config_map values ≡ r
          → IsOrderly
              (elim r as (λ _. (PoolManager × List RangeController.Event) × Result (Unit {0})) [
                | err e ↦ (
                  (p, record_event has_recorder pods (codes "Warning") (codes "InvalidRange")),
                  err e,
                )
                | ok config ↦ apply_ranges (pool_ranges random) has_recorder pods config p
              ]).0.0
      go (err e) k = h
      go (ok config) k = apply-IsOrderly config (mac48 values config refl k)
