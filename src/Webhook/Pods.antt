-- ===== src/Webhook/Pods.antt =====
-- pkg/webhook/pod/pod.go: the handler of admission requests for pods.
pub mod Keeps
use kubemacpool.Prelude.{
  ℕ, zero, suc, ◌+◌, ◌-◌, ◌*◌, ◌<◌, ◌≤◌, ◌≡◌, ◌≢◌, ◌⊎◌, ◌↔◌, inl, inr, refl, sym, ap, ◌∙◌, subst,
  Bool, true, false, not, ◌&&◌, ◌||◌, Option, none, some, List, [], ◌∷◌, ◌++◌, Text, codes, text_eq,
  text_eq_iff, text_eq_refl, GoMap, lookup, insert, delete, has_key, get_or_zero, IsMap, length,
  any_of, keep_if, All, arith, if◌then◌else◌, ◌==◌, Bool-cases, Option-cases, Result-cases,
  if_intro, if_split, Result, ok, err, Error, ◌>>=◌, ◌>>◌,
}
use kubemacpool.Kubevirt.{VirtualMachine, Answer, NetworkSelection, Pod}
use kubemacpool.Pool.{PoolManager}
use kubemacpool.Pod.{network_attachment_annot, allocate_pod_mac}
use kubemacpool.Webhook.{Json, Operation, Response, Request}

unfoldable pub patch_pod_changes : Pod → Pod → Response
patch_pod_changes original current =
    let network_annotation : Pod → Text =
      λ pod. get_or_zero [] network_attachment_annot pod.annotations in
    if not (text_eq (network_annotation original) (network_annotation current))
    then Response.patched (
        record {
          operation = codes "replace";
          path = codes "/metadata/annotations";
          value = Json.strings current.annotations;
        }
        ∷ [])
    else Response.patched []

module _ (unmarshal : Text → Option (List (Option NetworkSelection)))
    (marshal : List NetworkSelection → Text) (get : Text → Text → Answer VirtualMachine) where
  -- A pod whose annotations are nil gets an empty map.
  unfoldable pub handle : Request Pod → PoolManager → PoolManager × Response
  handle request p = elim request.object [
    | none ↦ (p, Response.errored 400 Error.bad_request)
    | some original ↦
        let run =
          allocate_pod_mac unmarshal marshal get (record original { has_annotations = true })
            (not request.dry_run) p in
        elim run.1 [
          | err e ↦ (run.0, Response.errored 500 e)
          | ok pod ↦ (run.0, patch_pod_changes original pod)
        ]
  ]
