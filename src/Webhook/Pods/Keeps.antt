-- ===== src/Webhook/Pods/Keeps.antt =====
-- What a request to the webhook of pkg/webhook/pod does to the pool.
use kubemacpool.Prelude.{
  ◌≡◌, refl, true, not, Option, none, some, List, Text, Result, ok, err, Error,
}
use kubemacpool.Kubevirt.{VirtualMachine, Answer, NetworkSelection, Pod}
use kubemacpool.Pool.{PoolManager}
use kubemacpool.Pool.FreeMac.{IsRanged}
use kubemacpool.Pool.Keeps.{Keeps, Keeps-refl, Keeps-for}
use kubemacpool.Pod.{allocate_pod_mac}
use kubemacpool.Pod.Allocation.{IsNameOf, allocate_pod_mac-Keeps}
use kubemacpool.Webhook.{Response, Request}
use kubemacpool.Webhook.Pods.{handle, patch_pod_changes}

-- The names of the pod of a request, unless the request is a dry run.
abbrev pub IsRequested : Request Pod → Text → Type 0
IsRequested request n =
    (pod : Pod) × (request.object ≡ some pod) × IsNameOf pod (not request.dry_run) n

module _ (unmarshal : Text → Option (List (Option NetworkSelection)))
    (marshal : List NetworkSelection → Text) (get : Text → Text → Answer VirtualMachine) where
  -- In a pool with a proper range, a request to the webhook of pods keeps, whatever it answers, the
  -- range invariant and the absence of empty keys, changes nothing of the pool but the current
  -- address and the map, and changes in the map no entry but of the pod of the request and, where
  -- that pod has no name, of the name that stands for such pods, and none at all in a dry run.
  pub pod_request-Keeps :
      (request : Request Pod) (p : PoolManager)
      → IsRanged p
      → Keeps (IsRequested request) p (handle unmarshal marshal get request p).0
  unfolding handle
  pod_request-Keeps request p ranged = go request.object refl
    where
      run : Pod → PoolManager × Result Pod
      run original =
          allocate_pod_mac unmarshal marshal get (record original { has_annotations = true })
            (not request.dry_run) p

      answered :
          (original : Pod) (r : PoolManager × Result Pod)
          → Keeps (IsRequested request) p r.0
          → Keeps
              (IsRequested request)
              p
              (elim r.1 as (λ _. PoolManager × Response) [
                | err e ↦ (r.0, Response.errored 500 e)
                | ok pod ↦ (r.0, patch_pod_changes original pod)
              ]).0
      answered original (q, err e) keeps = keeps
      answered original (q, ok pod) keeps = keeps

      go :
          (o : Option Pod)
          → request.object ≡ o
          → Keeps
              (IsRequested request)
              p
              (elim o as (λ _. PoolManager × Response) [
                | none ↦ (p, Response.errored 400 Error.bad_request)
                | some original ↦ elim (run original).1 [
                  | err e ↦ ((run original).0, Response.errored 500 e)
                  | ok pod ↦ ((run original).0, patch_pod_changes original pod)
                ]
              ]).0
      go none e = Keeps-refl ranged
      go (some original) e = answered original (run original) (
          Keeps-for (λ n mine. (original, e, mine))
            (allocate_pod_mac-Keeps unmarshal marshal get
              (record original { has_annotations = true }) (not request.dry_run) p ranged))
