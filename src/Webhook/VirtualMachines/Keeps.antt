-- ===== src/Webhook/VirtualMachines/Keeps.antt =====
-- What a request to the webhook of pkg/webhook/virtualmachine does to the pool.
use kubemacpool.Prelude.{
  ℕ, ◌≡◌, refl, sym, subst, Bool, true, false, not, Option, none, some, List, Text, arith,
  if◌then◌else◌, if_intro, Result, ok, err, Error,
}
use kubemacpool.Kubevirt.{VirtualMachine, Answer, found, not_found, failed}
use kubemacpool.Pool.{PoolManager}
use kubemacpool.Pool.FreeMac.{IsRanged}
use kubemacpool.Pool.Keeps.{Keeps, Keeps-refl}
use kubemacpool.Vm.{vm_namespaced, allocate_virtual_machine_mac}
use kubemacpool.Vm.Allocation.{allocate_virtual_machine_mac-For}
use kubemacpool.Vm.Update.{update_mac_addresses_for_virtual_machine}
use kubemacpool.Vm.Update.Keeps.{update_mac_addresses_for_virtual_machine-For}
use kubemacpool.Transaction.{set_transaction_timestamp_annotation_to_vm}
use kubemacpool.Webhook.{Operation, Response, Verb, Request}
use kubemacpool.Webhook.VirtualMachines.{
  maps_equal, is_virtual_machine_spec_changed, get_annotations_without_transaction_timestamp,
  is_virtual_machine_deletion_in_progress, is_virtual_machine_interfaces_changed, patch_vm_changes,
  is_virtual_machine_changed, is_virtual_machine_metadata_changed, mutate_create_virtual_machines,
  mutate_update_virtual_machines, mutate, completed, handle,
}

-- The machine of a request, unless the request is a dry run.
abbrev pub IsRequested : Request VirtualMachine → Text → Type 0
IsRequested request n =
    (request.dry_run ≡ false)
    × ((vm : VirtualMachine) × (request.object ≡ some vm)
        × (n
            ≡ vm_namespaced (completed request.namespace vm).namespace
                (completed request.namespace vm).name))

module _ (format : ℕ → Text) (get : Text → Text → Answer VirtualMachine) (now : ℕ) where
  abbrev After {ℓ} : {A : Type ℓ} → (Text → Type 0) → PoolManager → PoolManager × A → Type 0
  After Mine p r = Keeps Mine p r.0

  create-Keeps :
      {Mine : Text → Type 0} (vm : VirtualMachine) (live : Bool) (p : PoolManager)
      → (live ≡ true → Mine (vm_namespaced vm.namespace vm.name))
      → IsRanged p
      → Keeps Mine p (mutate_create_virtual_machines format get now vm live p).0
  unfolding mutate_create_virtual_machines set_transaction_timestamp_annotation_to_vm
  create-Keeps {Mine} vm live p mine ranged = go (get vm.namespace vm.name)
    where
      stamped : VirtualMachine
      stamped = set_transaction_timestamp_annotation_to_vm format now vm

      go :
          (answer : Answer VirtualMachine)
          → Keeps Mine p
              (elim answer as (λ _. PoolManager × Result VirtualMachine) [
                | found existing ↦ (p, ok stamped)
                | not_found ↦
                    if not (is_virtual_machine_deletion_in_progress stamped)
                    then allocate_virtual_machine_mac stamped now live p
                    else (p, err Error.not_found)
                | failed ↦ (p, err Error.client_failed)
              ]).0
      go (found existing) = Keeps-refl ranged
      go not_found =
          if_intro (λ (r : PoolManager × Result VirtualMachine). Keeps Mine p r.0)
            (not (is_virtual_machine_deletion_in_progress stamped))
            (allocate_virtual_machine_mac-For stamped now live p mine ranged) (Keeps-refl ranged)
      go failed = Keeps-refl ranged

  changed-name :
      (previous vm : VirtualMachine)
      → let vm' = (is_virtual_machine_changed previous vm).1 in
        vm_namespaced vm'.namespace vm'.name ≡ vm_namespaced vm.namespace vm.name
  unfolding is_virtual_machine_changed is_virtual_machine_metadata_changed
      get_annotations_without_transaction_timestamp
  changed-name previous vm =
      let P = λ (r : Bool × VirtualMachine).
        vm_namespaced r.1.namespace r.1.name ≡ vm_namespaced vm.namespace vm.name in
      if_intro P (is_virtual_machine_spec_changed previous vm) refl (
        if_intro P (not (maps_equal previous.has_labels previous.labels vm.has_labels vm.labels))
          refl refl)

  update-Keeps :
      {Mine : Text → Type 0} (vm : VirtualMachine) (live : Bool) (p : PoolManager)
      → (live ≡ true → Mine (vm_namespaced vm.namespace vm.name))
      → IsRanged p
      → Keeps Mine p (mutate_update_virtual_machines format get now vm live p).0
  unfolding mutate_update_virtual_machines set_transaction_timestamp_annotation_to_vm
  update-Keeps {Mine} vm live p mine ranged = go (get vm.namespace vm.name)
    where
      updated : VirtualMachine → PoolManager × Result VirtualMachine
      updated previous =
          let vm' = (is_virtual_machine_changed previous vm).1 in
          let stamped = set_transaction_timestamp_annotation_to_vm format now vm' in
          if not (is_virtual_machine_changed previous vm).0
          then (p, ok vm')
          else if not previous.has_template
          then (p, err Error.panic)
          else if is_virtual_machine_interfaces_changed previous stamped
          then update_mac_addresses_for_virtual_machine (some previous) stamped now live p
          else (p, ok stamped)

      go :
          (answer : Answer VirtualMachine)
          → Keeps Mine p
              (elim answer as (λ _. PoolManager × Result VirtualMachine) [
                | failed ↦ (p, err Error.client_failed)
                | not_found ↦ (p, ok vm)
                | found previous ↦ updated previous
              ]).0
      go failed = Keeps-refl ranged
      go not_found = Keeps-refl ranged
      go (found previous) =
          let P = λ (r : PoolManager × Result VirtualMachine). Keeps Mine p r.0 in
          let vm' = (is_virtual_machine_changed previous vm).1 in
          let stamped = set_transaction_timestamp_annotation_to_vm format now vm' in
          if_intro P (not (is_virtual_machine_changed previous vm).0) (Keeps-refl ranged) (
            if_intro P (not previous.has_template) (Keeps-refl ranged) (
              if_intro P (is_virtual_machine_interfaces_changed previous stamped)
                (update_mac_addresses_for_virtual_machine-For (some previous) stamped now live p
                  (λ runs. subst Mine (sym (changed-name previous vm)) (mine runs)) ranged)
                (Keeps-refl ranged)))

  pub mutate-Keeps :
      {Mine : Text → Type 0} (verb : Verb) (vm : VirtualMachine) (live : Bool) (p : PoolManager)
      → (live ≡ true → Mine (vm_namespaced vm.namespace vm.name))
      → IsRanged p
      → Keeps Mine p (mutate format get now verb vm live p).0
  unfolding mutate
  mutate-Keeps Verb.create vm live p mine ranged = create-Keeps vm live p mine ranged
  mutate-Keeps Verb.update vm live p mine ranged = update-Keeps vm live p mine ranged
  mutate-Keeps Verb.other_verb vm live p mine ranged = Keeps-refl ranged

  -- In a pool with a proper range, a request to the webhook of virtual machines keeps, whatever it
  -- answers, the range invariant and the absence of empty keys, changes nothing of the pool but the
  -- current address and the map, and changes in the map no entry but of the machine of the request,
  -- not even its transaction time, and none at all in a dry run.
  pub vm_request-Keeps :
      (diff : Text → Text → Option (List Operation)) (request : Request VirtualMachine)
      (p : PoolManager)
      → IsRanged p
      → Keeps (IsRequested request) p (handle format get now diff request p).0
  unfolding handle
  vm_request-Keeps diff request p ranged = go request.object refl
    where
      P : PoolManager × Response → Type 0
      P r = Keeps (IsRequested request) p r.0

      answered :
          (original : VirtualMachine) (q : PoolManager) (r : Result VirtualMachine)
          → Keeps (IsRequested request) p q
          → P (elim r as (λ _. PoolManager × Response) [
            | err e ↦ (q, Response.errored 500 e)
            | ok vm ↦ (q, patch_vm_changes diff original vm)
          ])
      answered original q (err e) keeps = keeps
      answered original q (ok vm) keeps = keeps

      run : VirtualMachine → PoolManager × Result VirtualMachine
      run original =
          mutate format get now request.verb (completed request.namespace original)
            (not request.dry_run) p

      go :
          (o : Option VirtualMachine)
          → request.object ≡ o
          → P (elim o as (λ _. PoolManager × Response) [
            | none ↦ (p, Response.errored 400 Error.bad_request)
            | some original ↦
                if not original.has_template then (p, Response.ignored) else elim (run original).1 [
                  | err e ↦ ((run original).0, Response.errored 500 e)
                  | ok vm ↦ ((run original).0, patch_vm_changes diff original vm)
                ]
          ])
      go none e = Keeps-refl ranged
      go (some original) e = if_intro P (not original.has_template) (Keeps-refl ranged) (
          answered original (run original).0 (run original).1 (
            mutate-Keeps request.verb (completed request.namespace original) (not request.dry_run) p
              (λ runs. (ground arith, (original, e, refl))) ranged))
