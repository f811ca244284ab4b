-- ===== src/Controller/Pods.antt =====
-- pkg/controller/pod/pod_controller.go: the addresses of a pod that is there are entered, those of
-- a pod that is gone are released.
use kubemacpool.Prelude.{true, not, Option, List, Text, if◌then◌else◌, Result, ok, err, Error}
use kubemacpool.Kubevirt.{NetworkSelection, found, not_found, failed}
use kubemacpool.Client.{Client}
use kubemacpool.Pool.{PoolManager}
use kubemacpool.Namespaces.{is_pod_managed}
use kubemacpool.Pod.{pod_namespaced, allocate_pod_mac}
use kubemacpool.Maccollision.{strip_pod_for_collision_detection}
use kubemacpool.Vm.{release_all_macs}

-- The client of the manager, which reads pods from its cache.
unfoldable pub cached : Client → Client
cached client = record client {
  get_pod = λ namespace name. elim (client.get_pod namespace name) [
    | found pod ↦ found (strip_pod_for_collision_detection pod)
    | not_found ↦ not_found
    | failed ↦ failed
  ];
}

module _ (unmarshal : Text → Option (List (Option NetworkSelection)))
    (marshal : List NetworkSelection → Text) (client : Client) where
  -- The errors of the allocation are logged only.
  unfoldable pub reconcile : Text → Text → PoolManager → PoolManager × Result (Unit {0})
  reconcile namespace name p = elim (is_pod_managed client namespace) [
    | err e ↦ (p, err e)
    | ok managed ↦ if not managed then (p, ok tt) else elim (client.get_pod namespace name) [
      | not_found ↦ (release_all_macs (pod_namespaced namespace name) p, ok tt)
      | failed ↦ (p, err Error.client_failed)
      | found pod ↦
          if not pod.has_annotations
          then (p, ok tt)
          else ((allocate_pod_mac unmarshal marshal client.get_vm pod true p).0, ok tt)
    ]
  ]
