-- ===== src/System/Steps.antt =====
-- What the steps of the controllers keep.
use kubemacpool.Prelude.{
  inl, inr, delete-IsMap, ℕ, ◌≡◌, sym, subst, Bool, true, false, not, Option, List, [], ◌∷◌, Text,
  delete, IsMap, All, if◌then◌else◌, if_intro, Result, ok, err, Error,
}
use kubemacpool.Kubevirt.{VirtualMachine, NetworkSelection, Pod, Answer, found, not_found, failed}
use kubemacpool.Client.{Client}
use kubemacpool.MacMap.{has_expired_transaction, MacMap, MacEntry}
use kubemacpool.MacMap.View.{IsCompact, delete-IsCompact}
use kubemacpool.Pool.{PoolManager}
use kubemacpool.Pool.FreeMac.{IsRanged}
use kubemacpool.Pool.Keeps.{KeepsMap, Keeps, Keeps-refl, Keeps-map, Keeps-for}
use kubemacpool.Vm.{vm_namespaced, delete_keys, release_all_macs}
use kubemacpool.Vm.Ready.{mark_vm_as_ready, heal_stale_mac_entries}
use kubemacpool.Vm.Ready.Keeps.{mark_vm_as_ready-Keeps}
use kubemacpool.Vm.Ready.Heal.{Healed, AllEntries, heal_stale_mac_entries-Healed}
use kubemacpool.Pod.{pod_namespaced, allocate_pod_mac}
use kubemacpool.Pod.Allocation.{allocate_pod_mac-Keeps}
use kubemacpool.Startup.Kept.{Anybody}
use kubemacpool.Webhook.VirtualMachines.{is_virtual_machine_deletion_in_progress}
use kubemacpool.Transaction.{get_transaction_timestamp_annotation_from_vm}
use kubemacpool.Namespaces.{is_virtual_machine_managed, is_pod_managed}
use kubemacpool.Controller.VirtualMachines.{is_not_found, free_vm_from_mac_pool, ready_vm}
use kubemacpool.Controller.VirtualMachines as VmController
use kubemacpool.Controller.Pods as PodController

delete_keys-KeepsMap : (keys m : MacMap) → KeepsMap Anybody m (delete_keys keys m)
unfolding delete_keys
delete_keys-KeepsMap keys m = record {
  others = λ k n nobody. absurd (nobody tt);
  compact = compact keys m;
  once = once keys m;
}
  where
    compact : (keys m : MacMap) → IsCompact m → IsCompact (delete_keys keys m)
    compact [] m h = h
    compact ((k, es) ∷ keys) m h = compact keys (delete k m) (delete-IsCompact k m h)

    once : (keys m : MacMap) → IsMap m → IsMap (delete_keys keys m)
    once [] m h = h
    once ((k, es) ∷ keys) m h = once keys (delete k m) (delete-IsMap k m h)

pub release_all_macs-Keeps :
    (n : Text) (p : PoolManager) → IsRanged p → Keeps Anybody p (release_all_macs n p)
unfolding release_all_macs
release_all_macs-Keeps n p ranged = Keeps-map ranged (delete_keys-KeepsMap _ p.mac_pool_map)

pub heal-Keeps :
    (get : Text → Text → Answer VirtualMachine) (now : ℕ) (p : PoolManager)
    → IsRanged p
    → Keeps Anybody p (heal_stale_mac_entries get now p).0
heal-Keeps get now p ranged =
    healed (heal_stale_mac_entries get now p) (
      heal_stale_mac_entries-Healed Anybody get now p (λ n vm h. tt) (entries p.mac_pool_map)
        ranged)
  where
    bucket : {P : MacEntry → Type 0} → ((e : MacEntry) → P e) → (es : List MacEntry) → All P es
    bucket f [] = tt
    bucket f (e ∷ es) = (f e, bucket f es)

    entries :
        (m : MacMap)
        → AllEntries
            (λ e. has_expired_transaction now p.wait_time e ≡ true → Anybody e.instance_name)
            m
    entries [] = tt
    entries ((k, es) ∷ m) = (bucket (λ e h. tt) es, entries m)

    healed : (r : PoolManager × Result (Unit {0})) → Healed Anybody get p r → Keeps Anybody p r.0
    healed (q, err e) (inr (panics, bare, keeps)) = keeps
    healed (q, err e) (inl same) = subst (Keeps Anybody p) (sym same) (Keeps-refl ranged)
    healed (q, ok u) keeps = keeps

module _ (client : Client) (parse : Text → Option ℕ) where
  ready_vm-Keeps :
      (namespace : Text) (vm : VirtualMachine) (p : PoolManager)
      → IsRanged p
      → Keeps Anybody p (ready_vm client parse namespace vm p).0
  unfolding ready_vm
  ready_vm-Keeps namespace vm p ranged = go (is_virtual_machine_managed client namespace)
    where
      stamped :
          (r : Result ℕ)
          → Keeps Anybody p
              (elim r as (λ _. PoolManager × Result (Unit {0})) [
                | err e ↦ if is_not_found e then (p, ok tt) else (p, err e)
                | ok timestamp ↦ mark_vm_as_ready vm timestamp p
              ]).0
      stamped (err e) =
          if_intro (λ (r : PoolManager × Result (Unit {0})). Keeps Anybody p r.0) (is_not_found e)
            (Keeps-refl ranged) (Keeps-refl ranged)
      stamped (ok timestamp) =
          Keeps-for (λ n mine. tt) (mark_vm_as_ready-Keeps vm timestamp p ranged)

      go :
          (r : Result Bool)
          → Keeps Anybody p
              (elim r as (λ _. PoolManager × Result (Unit {0})) [
                | err e ↦ (p, err e)
                | ok managed ↦
                    if not managed
                    then (p, ok tt)
                    else elim (get_transaction_timestamp_annotation_from_vm parse vm) [
                      | err e ↦ if is_not_found e then (p, ok tt) else (p, err e)
                      | ok timestamp ↦ mark_vm_as_ready vm timestamp p
                    ]
              ]).0
      go (err e) = Keeps-refl ranged
      go (ok true) = stamped (get_transaction_timestamp_annotation_from_vm parse vm)
      go (ok false) = Keeps-refl ranged

  free_vm-Keeps :
      (update : VirtualMachine → Result (Unit {0})) (refreshed : Answer VirtualMachine)
      (namespace name : Text) (p : PoolManager)
      → IsRanged p
      → Keeps Anybody p (free_vm_from_mac_pool update refreshed namespace name p).0.0
  unfolding free_vm_from_mac_pool
  free_vm-Keeps update not_found namespace name p ranged = release_all_macs-Keeps _ p ranged
  free_vm-Keeps update failed namespace name p ranged = release_all_macs-Keeps _ p ranged
  free_vm-Keeps update (found vm) namespace name p ranged = release_all_macs-Keeps _ p ranged

  pub vm_event-Keeps :
      (update : VirtualMachine → Result (Unit {0})) (refreshed : Answer VirtualMachine)
      (namespace name : Text) (p : PoolManager)
      → IsRanged p
      → Keeps Anybody p (VmController.reconcile client parse update refreshed namespace name p).0.0
  unfolding VmController.reconcile
  vm_event-Keeps update refreshed namespace name p ranged = go (client.get_vm namespace name)
    where
      go :
          (answer : Answer VirtualMachine)
          → Keeps Anybody p
              (elim answer as (λ _. (PoolManager × List VirtualMachine) × Result (Unit {0})) [
                | not_found ↦ ((release_all_macs (vm_namespaced namespace name) p, []), ok tt)
                | failed ↦ ((p, []), err Error.client_failed)
                | found vm ↦
                    let ready = ready_vm client parse namespace vm p in
                    if not (is_virtual_machine_deletion_in_progress vm)
                    then ((ready.0, []), ready.1)
                    else free_vm_from_mac_pool update refreshed namespace name p
              ]).0.0
      go not_found = release_all_macs-Keeps _ p ranged
      go failed = Keeps-refl ranged
      go (found vm) =
          if_intro
            (λ (r : (PoolManager × List VirtualMachine) × Result (Unit {0})). Keeps Anybody p r.0.0)
            (not (is_virtual_machine_deletion_in_progress vm))
            (ready_vm-Keeps namespace vm p ranged)
            (free_vm-Keeps update refreshed namespace name p ranged)

module _ (unmarshal : Text → Option (List (Option NetworkSelection)))
    (marshal : List NetworkSelection → Text) (client : Client) where
  pub pod_event-Keeps :
      (namespace name : Text) (p : PoolManager)
      → IsRanged p
      → Keeps Anybody p (PodController.reconcile unmarshal marshal client namespace name p).0
  unfolding PodController.reconcile
  pod_event-Keeps namespace name p ranged = go (is_pod_managed client namespace)
    where
      asked :
          (answer : Answer Pod)
          → Keeps Anybody p
              (elim answer as (λ _. PoolManager × Result (Unit {0})) [
                | not_found ↦ (release_all_macs (pod_namespaced namespace name) p, ok tt)
                | failed ↦ (p, err Error.client_failed)
                | found pod ↦
                    if not pod.has_annotations
                    then (p, ok tt)
                    else ((allocate_pod_mac unmarshal marshal client.get_vm pod true p).0, ok tt)
              ]).0
      asked not_found = release_all_macs-Keeps _ p ranged
      asked failed = Keeps-refl ranged
      asked (found pod) =
          if_intro (λ (r : PoolManager × Result (Unit {0})). Keeps Anybody p r.0)
            (not pod.has_annotations) (Keeps-refl ranged)
            (Keeps-for (λ n mine. tt)
              (allocate_pod_mac-Keeps unmarshal marshal client.get_vm pod true p ranged))

      go :
          (r : Result Bool)
          → Keeps Anybody p
              (elim r as (λ _. PoolManager × Result (Unit {0})) [
                | err e ↦ (p, err e)
                | ok managed ↦
                    if not managed then (p, ok tt) else elim (client.get_pod namespace name) [
                      | not_found ↦ (release_all_macs (pod_namespaced namespace name) p, ok tt)
                      | failed ↦ (p, err Error.client_failed)
                      | found pod ↦ if not pod.has_annotations then (p, ok tt) else (
                        (allocate_pod_mac unmarshal marshal client.get_vm pod true p).0,
                        ok tt,
                      )
                    ]
              ]).0
      go (err e) = Keeps-refl ranged
      go (ok true) = asked (client.get_pod namespace name)
      go (ok false) = Keeps-refl ranged
