-- ===== src/System.antt =====
-- The program as a whole: the handlers and reconcilers of pkg/webhook and pkg/controller, the
-- healing of stale entries and the start-up, each one step on the state of the one pool manager
-- that they share. What the cluster, the clock and the source of randomness answer is free in every
-- step.
pub mod Steps
pub mod Orderly
pub mod Reachable
use kubemacpool.Prelude.{
  ℕ, zero, suc, ◌+◌, ◌-◌, ◌*◌, ◌<◌, ◌≤◌, ◌≡◌, ◌≢◌, ◌⊎◌, ◌↔◌, inl, inr, refl, sym, ap, ◌∙◌, subst,
  Bool, true, false, not, ◌&&◌, ◌||◌, Option, none, some, List, [], ◌∷◌, ◌++◌, Text, codes, text_eq,
  text_eq_iff, text_eq_refl, GoMap, lookup, insert, delete, has_key, get_or_zero, IsMap, length,
  any_of, keep_if, All, arith, if◌then◌else◌, ◌==◌, Bool-cases, Option-cases, Result-cases,
  if_intro, if_split, Result, ok, err, Error, ◌>>=◌, ◌>>◌,
}
use kubemacpool.Net.{parse_mac}
use kubemacpool.Net.RoundTrip.{IsMac}
use kubemacpool.Mac.Random.{IsRandom}
use kubemacpool.Kubevirt.{VirtualMachine, NetworkSelection, Pod, Answer, found}
use kubemacpool.Client.{Client}
use kubemacpool.Pool.{PoolManager}
use kubemacpool.Vm.Ready.{heal_stale_mac_entries}
use kubemacpool.Startup.{start}
use kubemacpool.Maccollision.Controllers.{Cluster, reconcile_vmi, reconcile_pod}
use kubemacpool.Webhook.{Operation, Request}
use kubemacpool.Webhook.VirtualMachines as VmWebhook
use kubemacpool.Webhook.Pods as PodWebhook
use kubemacpool.Controller.ConfigMaps as RangeController
use kubemacpool.Controller.ConfigMaps.{extract_ranges_from_config_map, RangeConfig}
use kubemacpool.Controller.ConfigMaps.Range.{pool_ranges}
use kubemacpool.Controller.VirtualMachines as VmController
use kubemacpool.Controller.Pods as PodController

-- The config map, if there is one, has addresses of six octets; `net.ParseMAC` takes longer ones too.
abbrev pub HasMac48 : Answer (GoMap Text) → Type 0
HasMac48 answer =
    (values : GoMap Text) (config : RangeConfig)
    → answer ≡ found values
    → extract_ranges_from_config_map values ≡ ok config
    → IsMac config.start × IsMac config.end

pub data Step : PoolManager → PoolManager → Type 0 where
  start_up :
      (unmarshal : Text → Option (List (Option NetworkSelection))) (fuel : ℕ) (client : Client)
      (p : PoolManager) (duplicates : ℕ)
      → Step p (start unmarshal fuel client (p, duplicates)).0.0
  vm_request :
      (format : ℕ → Text) (get : Text → Text → Answer VirtualMachine) (now : ℕ)
      (diff : Text → Text → Option (List Operation)) (request : Request VirtualMachine)
      (p : PoolManager)
      → Step p (VmWebhook.handle format get now diff request p).0
  pod_request :
      (unmarshal : Text → Option (List (Option NetworkSelection)))
      (marshal : List NetworkSelection → Text) (get : Text → Text → Answer VirtualMachine)
      (request : Request Pod) (p : PoolManager)
      → Step p (PodWebhook.handle unmarshal marshal get request p).0
  vm_event :
      (client : Client) (parse : Text → Option ℕ) (update : VirtualMachine → Result (Unit {0}))
      (refreshed : Answer VirtualMachine) (namespace name : Text) (p : PoolManager)
      → Step p (VmController.reconcile client parse update refreshed namespace name p).0.0
  pod_event :
      (unmarshal : Text → Option (List (Option NetworkSelection)))
      (marshal : List NetworkSelection → Text) (client : Client) (namespace name : Text)
      (p : PoolManager)
      → Step p (PodController.reconcile unmarshal marshal client namespace name p).0
  config_map_event :
      (random : ℕ → Option ℕ) (has_recorder : Bool) (pods : Option (List Pod))
      (answer : Answer (GoMap Text)) (p : PoolManager)
      → IsRandom random
      → HasMac48 answer
      → Step p (RangeController.reconcile (pool_ranges random) has_recorder pods answer p).0.0
  healing :
      (get : Text → Text → Answer VirtualMachine) (now : ℕ) (p : PoolManager)
      → Step p (heal_stale_mac_entries get now p).0
  vmi_collisions :
      (c : Cluster) (namespace name : Text) (p : PoolManager)
      → Step p (record p { tracker = (reconcile_vmi c namespace name p.tracker).0.0 })
  pod_collisions :
      (c : Cluster) (namespace name : Text) (p : PoolManager)
      → Step p (record p { tracker = (reconcile_pod c namespace name p.tracker).0.0 })

pub data Reach (p : PoolManager) : PoolManager → Type 0 where
  here : Reach p p
  next : {q r : PoolManager} → Reach p q → Step q r → Reach p r
