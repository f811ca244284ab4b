-- ===== src/Controller/VirtualMachines/Released.antt =====
-- A virtual machine that is gone holds no address after its reconciliation.
use kubemacpool.Prelude.{
  ℕ, ◌≡◌, refl, ap, ◌∙◌, Bool, true, false, not, Option, none, some, List, [], ◌∷◌, Text, text_eq,
  get_or_zero, IsMap, any_of, keep_if, arith, if◌then◌else◌, if_split, Result, ok, err, Error,
}
use kubemacpool.Kubevirt.{VirtualMachine, Answer, found, not_found, failed}
use kubemacpool.Client.{Client}
use kubemacpool.MacMap.{MacEntry}
use kubemacpool.MacMap.View.{holds_any, is_of}
use kubemacpool.Pool.{PoolManager}
use kubemacpool.Vm.{vm_namespaced, release_all_macs}
use kubemacpool.Vm.Release.{lookup-release_all_macs}
use kubemacpool.Webhook.VirtualMachines.{is_virtual_machine_deletion_in_progress}
use kubemacpool.Controller.VirtualMachines.{
  contains_string, remove_string, free_vm_from_mac_pool, ready_vm, reconcile,
}

-- The machine is not there, or is being deleted.
abbrev pub IsGone : Answer VirtualMachine → Type 0
IsGone (found vm) = is_virtual_machine_deletion_in_progress vm ≡ true
IsGone not_found = Unit
IsGone failed = ⊥

abbrev pub HoldsNothing : Text → PoolManager → Type 0
HoldsNothing n p = (k : Text) → holds_any p.mac_pool_map k n ≡ false

pub release_all_macs-HoldsNothing :
    (n : Text) (p : PoolManager) → IsMap p.mac_pool_map → HoldsNothing n (release_all_macs n p)
unfolding holds_any get_or_zero
release_all_macs-HoldsNothing n p once k =
    ap held (lookup-release_all_macs n p k once)
    ∙ if_split (λ o. held o ≡ false) (holds_any p.mac_pool_map k n) (λ held_before. refl)
        (λ free. free)
  where
    held : Option (List MacEntry) → Bool
    held o = any_of (is_of n) (elim o [ none ↦ [] | some es ↦ es ])

free-HoldsNothing :
    (update : VirtualMachine → Result (Unit {0})) (refreshed : Answer VirtualMachine)
    (namespace name : Text) (p : PoolManager)
    → IsMap p.mac_pool_map
    → HoldsNothing
        (vm_namespaced namespace name)
        (free_vm_from_mac_pool update refreshed namespace name p).0.0
unfolding free_vm_from_mac_pool
free-HoldsNothing update not_found namespace name p once =
    release_all_macs-HoldsNothing (vm_namespaced namespace name) p once
free-HoldsNothing update failed namespace name p once =
    release_all_macs-HoldsNothing (vm_namespaced namespace name) p once
free-HoldsNothing update (found vm) namespace name p once =
    release_all_macs-HoldsNothing (vm_namespaced namespace name) p once

module _ (client : Client) (parse : Text → Option ℕ) (update : VirtualMachine → Result (Unit {0}))
    (refreshed : Answer VirtualMachine) (namespace name : Text) (p : PoolManager) where
  -- Where each key of the map stands once, and the machine of the request is not found or is being
  -- deleted, the reconciler of virtual machines leaves the machine holding no address, whatever
  -- becomes of the finalizer.
  pub reconcile-HoldsNothing :
      IsMap p.mac_pool_map
      → IsGone (client.get_vm namespace name)
      → HoldsNothing
          (vm_namespaced namespace name)
          (reconcile client parse update refreshed namespace name p).0.0
  unfolding reconcile
  reconcile-HoldsNothing once gone = go (client.get_vm namespace name) gone
    where
      go :
          (answer : Answer VirtualMachine)
          → IsGone answer
          → HoldsNothing
              (vm_namespaced namespace name)
              (elim answer as (λ _. (PoolManager × List VirtualMachine) × Result (Unit {0})) [
                | not_found ↦ ((release_all_macs (vm_namespaced namespace name) p, []), ok tt)
                | failed ↦ ((p, []), err Error.client_failed)
                | found vm ↦
                    let ready = ready_vm client parse namespace vm p in
                    if not (is_virtual_machine_deletion_in_progress vm)
                    then ((ready.0, []), ready.1)
                    else free_vm_from_mac_pool update refreshed namespace name p
              ]).0.0
      go not_found h = release_all_macs-HoldsNothing (vm_namespaced namespace name) p once
      go failed h = absurd h
      go (found vm) h = rw h (free-HoldsNothing update refreshed namespace name p once)

-- The finalizers that are sent: the others, in order.
pub remove_string_lem :
    (items : List Text) (s : Text) → remove_string items s ≡ keep_if (λ t. not (text_eq t s)) items
unfolding remove_string
remove_string_lem [] s = refl
remove_string_lem (item ∷ items) s = ground (arith, remove_string_lem items s)

pub contains_string-remove_string :
    (items : List Text) (s : Text) → contains_string (remove_string items s) s ≡ false
unfolding remove_string contains_string
contains_string-remove_string [] s = refl
contains_string-remove_string (item ∷ items) s =
    ground (arith, contains_string-remove_string items s)
