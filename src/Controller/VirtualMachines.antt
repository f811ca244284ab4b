-- ===== src/Controller/VirtualMachines.antt =====
-- pkg/controller/virtualmachine/virtualmachine_controller.go: a virtual machine that is there is
-- marked as ready, one that is gone or being deleted loses its addresses. `parse` reads a time.
pub mod Released
use kubemacpool.Prelude.{
  ℕ, zero, suc, ◌+◌, ◌-◌, ◌*◌, ◌<◌, ◌≤◌, ◌≡◌, ◌≢◌, ◌⊎◌, ◌↔◌, inl, inr, refl, sym, ap, ◌∙◌, subst,
  Bool, true, false, not, ◌&&◌, ◌||◌, Option, none, some, List, [], ◌∷◌, ◌++◌, Text, codes, text_eq,
  text_eq_iff, text_eq_refl, GoMap, lookup, insert, delete, has_key, get_or_zero, IsMap, length,
  any_of, keep_if, All, arith, if◌then◌else◌, ◌==◌, Bool-cases, Option-cases, Result-cases,
  if_intro, if_split, Result, ok, err, Error, ◌>>=◌, ◌>>◌,
}
use kubemacpool.Kubevirt.{VirtualMachine, Answer, found, not_found, failed}
use kubemacpool.Client.{Client}
use kubemacpool.Pool.{PoolManager}
use kubemacpool.Namespaces.{is_virtual_machine_managed}
use kubemacpool.Transaction.{get_transaction_timestamp_annotation_from_vm}
use kubemacpool.Vm.{vm_namespaced, release_all_macs}
use kubemacpool.Vm.Ready.{mark_vm_as_ready}
use kubemacpool.Webhook.VirtualMachines.{is_virtual_machine_deletion_in_progress}

abbrev pub runtime_object_finalizer_name : Text
runtime_object_finalizer_name = codes "k8s.v1.cni.cncf.io/kubeMacPool"

unfoldable pub contains_string : List Text → Text → Bool
contains_string [] s = false
contains_string (item ∷ items) s =
    let rest = contains_string items s in if text_eq item s then true else rest

unfoldable pub remove_string : List Text → Text → List Text
remove_string [] s = []
remove_string (item ∷ items) s =
    let rest = remove_string items s in if text_eq item s then rest else item ∷ rest

-- `apierrors.IsNotFound`
unfoldable pub is_not_found : Error → Bool
is_not_found Error.not_found = true
is_not_found _ = false

-- `update` is what `retry.RetryOnConflict` returns of the Update of a machine. With the machines
-- that are sent.
unfoldable pub remove_legacy_finalizer_if_present :
    (VirtualMachine → Result (Unit {0})) → VirtualMachine → List VirtualMachine × Result (Unit {0})
remove_legacy_finalizer_if_present update vm =
    let vm' = record vm {
      finalizers = remove_string vm.finalizers runtime_object_finalizer_name;
    } in
    if contains_string vm.finalizers runtime_object_finalizer_name
    then (vm' ∷ [], update vm')
    else ([], ok tt)

-- `refreshed` is the answer to the second Get.
unfoldable pub free_vm_from_mac_pool :
    (VirtualMachine → Result (Unit {0}))
    → Answer VirtualMachine
    → Text
    → Text
    → PoolManager
    → (PoolManager × List VirtualMachine) × Result (Unit {0})
free_vm_from_mac_pool update refreshed namespace name p =
    let p' = release_all_macs (vm_namespaced namespace name) p in
    elim refreshed [
      | not_found ↦ ((p', []), ok tt)
      | failed ↦ ((p', []), err Error.client_failed)
      | found vm ↦ let sent = remove_legacy_finalizer_if_present update vm in ((p', sent.0), sent.1)
    ]

module _ (client : Client) (parse : Text → Option ℕ) where
  -- A machine that is not being deleted.
  unfoldable pub ready_vm : Text → VirtualMachine → PoolManager → PoolManager × Result (Unit {0})
  ready_vm namespace vm p = elim (is_virtual_machine_managed client namespace) [
    | err e ↦ (p, err e)
    | ok managed ↦
        if not managed
        then (p, ok tt)
        else elim (get_transaction_timestamp_annotation_from_vm parse vm) [
          | err e ↦ if is_not_found e then (p, ok tt) else (p, err e)
          | ok timestamp ↦ mark_vm_as_ready vm timestamp p
        ]
  ]

  unfoldable pub reconcile :
      (VirtualMachine → Result (Unit {0}))
      → Answer VirtualMachine
      → Text
      → Text
      → PoolManager
      → (PoolManager × List VirtualMachine) × Result (Unit {0})
  reconcile update refreshed namespace name p = elim (client.get_vm namespace name) [
    | not_found ↦ ((release_all_macs (vm_namespaced namespace name) p, []), ok tt)
    | failed ↦ ((p, []), err Error.client_failed)
    | found vm ↦
        let ready = ready_vm namespace vm p in
        if not (is_virtual_machine_deletion_in_progress vm)
        then ((ready.0, []), ready.1)
        else free_vm_from_mac_pool update refreshed namespace name p
  ]
