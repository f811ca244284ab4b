-- ===== src/System/Reachable.antt =====
-- The invariants of the one pool manager, in every state that the program can reach.
use kubemacpool.System.Orderly.{
  IsOrderly, Keeps-IsOrderly, tracker-IsOrderly, Settled-IsSound, start-IsOrderly,
  config_map-IsOrderly,
}
use kubemacpool.Prelude.{
  ok_inj, [], ℕ, ◌≡◌, refl, sym, ap, subst, Bool, Option, Text, lookup, IsMap, Result, ok, err,
}
use kubemacpool.Net.RoundTrip.{IsMac}
use kubemacpool.Net.{HardwareAddr}
use kubemacpool.Mac.Random.{IsRandom}
use kubemacpool.MacMap.View.{IsCompact}
use kubemacpool.Pool.{PoolManager, new_pool_manager, get_free_mac}
use kubemacpool.Pool.FreeMac.{Freed, get_free_mac-Freed}
use kubemacpool.Pool.Ranges.{Updated, update_ranges-Updated}
use kubemacpool.Maccollision.Controllers.{reconcile_vmi, reconcile_pod}
use kubemacpool.Maccollision.Controllers.Outcome.{
  IsSound, reconcile_vmi-Settled, reconcile_pod-Settled,
}
use kubemacpool.Webhook.VirtualMachines.Keeps as VmWebhook
use kubemacpool.Webhook.Pods.Keeps as PodWebhook
use kubemacpool.System.{
  pod_collisions, vmi_collisions, healing, config_map_event, pod_event, vm_event, pod_request,
  vm_request, start_up, next, Step, Reach, here,
}
use kubemacpool.System.Steps.{heal-Keeps, vm_event-Keeps, pod_event-Keeps}

pub Step-IsOrderly : {p q : PoolManager} → Step p q → IsOrderly p → IsOrderly q
Step-IsOrderly (start_up unmarshal fuel client p duplicates) h =
    start-IsOrderly unmarshal fuel client p duplicates h
Step-IsOrderly (vm_request format get now diff request p) h =
    Keeps-IsOrderly (VmWebhook.vm_request-Keeps format get now diff request p h.ranged) h
Step-IsOrderly (pod_request unmarshal marshal get request p) h =
    Keeps-IsOrderly (PodWebhook.pod_request-Keeps unmarshal marshal get request p h.ranged) h
Step-IsOrderly (vm_event client parse update refreshed namespace name p) h =
    Keeps-IsOrderly (vm_event-Keeps client parse update refreshed namespace name p h.ranged) h
Step-IsOrderly (pod_event unmarshal marshal client namespace name p) h =
    Keeps-IsOrderly (pod_event-Keeps unmarshal marshal client namespace name p h.ranged) h
Step-IsOrderly (config_map_event random has_recorder pods answer p fair mac48) h =
    config_map-IsOrderly random fair has_recorder pods p h answer mac48
Step-IsOrderly (healing get now p) h = Keeps-IsOrderly (heal-Keeps get now p h.ranged) h
Step-IsOrderly (vmi_collisions c namespace name p) h = tracker-IsOrderly p _ h (
    Settled-IsSound p.tracker (reconcile_vmi c namespace name p.tracker) h.tracked
      (reconcile_vmi-Settled c p.tracker h.tracked namespace name))
Step-IsOrderly (pod_collisions c namespace name p) h = tracker-IsOrderly p _ h (
    Settled-IsSound p.tracker (reconcile_pod c namespace name p.tracker) h.tracked
      (reconcile_pod-Settled c p.tracker h.tracked namespace name))

pub Reach-IsOrderly : {p q : PoolManager} → IsOrderly p → Reach p q → IsOrderly q
Reach-IsOrderly h here = h
Reach-IsOrderly h (next before step) = Step-IsOrderly step (Reach-IsOrderly h before)

created-IsOrderly :
    (s t : HardwareAddr) (p q : PoolManager) (r : PoolManager × Result (Unit {0}))
    → IsCompact q.mac_pool_map
    → IsMap q.mac_pool_map
    → IsSound q.tracker
    → Updated q s t r
    → elim r.1 [ err e ↦ err e | ok _ ↦ ok r.0 ] ≡ ok p
    → IsOrderly p
created-IsOrderly s t p q (p', err e) compact once sound u h = cc
created-IsOrderly s t p q (p', ok u) compact once sound (ranged, same, below, low_end, high_end) h =
    subst IsOrderly (ok_inj h) (record {
      ranged = ranged;
      compact = subst IsCompact (sym (ap (λ q. q.mac_pool_map) same)) compact;
      once = subst IsMap (sym (ap (λ q. q.mac_pool_map) same)) once;
      tracked = subst IsSound (sym (ap (λ q. q.tracker) same)) sound;
    })

module _ (random : ℕ → Option ℕ) (s t : HardwareAddr) (namespace : Text) (kubevirt : Bool)
    (wait : ℕ) where
  new_pool_manager-IsOrderly :
      IsRandom random
      → IsMac s
      → IsMac t
      → (p : PoolManager) → new_pool_manager [] random s t namespace kubevirt wait ≡ ok p
      → IsOrderly p
  unfolding new_pool_manager lookup
  new_pool_manager-IsOrderly fair hs ht p h =
      created-IsOrderly s t p _ _ (λ k es missing. absurd cc) tt (tt, tt, λ k. refl)
        (update_ranges-Updated random s t hs ht _ fair) h

  -- From a pool that NewPoolManager returns for MAC-48 bounds and a fair source of randomness,
  -- after any sequence of requests to the webhooks, reconciliations of machines, pods, collisions
  -- and config maps with six-octet addresses, healings and start-ups, the range is one of MAC-48
  -- addresses with the current address inside it, each key of the map stands once and with an
  -- entry, the tracker of the collisions is in order, and getFreeMac gives out a free address of
  -- the range or reports that the whole range is taken.
  pub reachable-Freed :
      IsRandom random
      → IsMac s
      → IsMac t
      → (p q : PoolManager) → new_pool_manager [] random s t namespace kubevirt wait ≡ ok p
      → Reach p q
      → IsOrderly q × Freed q (get_free_mac q)
  reachable-Freed fair hs ht p q h reached =
      let orderly = Reach-IsOrderly (new_pool_manager-IsOrderly fair hs ht p h) reached in
      (orderly, get_free_mac-Freed q orderly.ranged)
