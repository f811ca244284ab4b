-- ===== src/Webhook/VirtualMachines/Created.antt =====
-- What pkg/webhook/virtualmachine answers to the request to create a virtual machine, and what the
-- pool holds then: the handler, the allocation and the patches together.
use kubemacpool.Prelude.{
  is_some, ℕ, suc, ◌≡◌, refl, sym, ap, ◌∙◌, subst, Bool, true, false, not, Option, none, some, List,
  [], ◌∷◌, Text, text_eq, GoMap, length, if◌then◌else◌, ◌==◌, if_intro, Result, ok, err, Error,
}
use kubemacpool.MacMap.{MacMap}
use kubemacpool.Kubevirt.{Interface, Network, VirtualMachine, Answer, not_found}
use kubemacpool.Pool.{PoolManager}
use kubemacpool.Pool.FreeMac.{IsRanged}
use kubemacpool.Pool.Keeps.{Grows}
use kubemacpool.Vm.{vm_namespaced, network_map, allocate_virtual_machine_mac}
use kubemacpool.Vm.Served.{AllServed, OnOk}
use kubemacpool.Vm.Held.{Allocated, allocate_virtual_machine_mac-Allocated}
use kubemacpool.Vm.Refused.{IsRefusal, allocate_virtual_machine_mac-Refused}
use kubemacpool.Vm.Refused.Faults.{Refused}
use kubemacpool.Vm.Rollback.{SameHolders, IsNew, allocate_virtual_machine_mac-SameHolders}
use kubemacpool.Transaction.{set_transaction_timestamp_annotation_to_vm}
use kubemacpool.Webhook.{Operation, Response, Verb, Request}
use kubemacpool.Webhook.VirtualMachines.{
  is_virtual_machine_deletion_in_progress, patch_vm_changes, mutate_create_virtual_machines, mutate,
  completed, handle,
}
use kubemacpool.Webhook.VirtualMachines.Patches.{
  IsDiff, patched_macs, macs_of, patch_vm_changes-Patches,
}

-- The answer for the new machine `n`: it is refused and nothing is held but what was, or its
-- interfaces are served and the patches carry their addresses.
abbrev pub Created : Text → VirtualMachine → PoolManager → PoolManager × Response → Type 0
Created n vm p (q, Response.errored code e) =
    (code ≡ 500) × IsRefusal n (network_map vm.networks []) true vm.interfaces p e × SameHolders p q
Created n vm p (q, Response.ignored) = ⊥
Created n vm p (q, Response.patched ops) =
    (ifaces : List Interface) × Grows p.mac_pool_map q.mac_pool_map
    × AllServed n (network_map vm.networks []) p.mac_pool_map q.mac_pool_map vm.interfaces ifaces
    × (patched_macs 0 ops vm.interfaces ≡ macs_of ifaces)

AllServed-length :
    (n : Text) (networks : GoMap Network) (m m' : MacMap) (is js : List Interface)
    → AllServed n networks m m' is js
    → length is ≡ length js
AllServed-length n networks m m' [] [] served = refl
AllServed-length n networks m m' (i ∷ is) (j ∷ js) (one, served) =
    ap suc (AllServed-length n networks m m' is js served)
AllServed-length n networks m m' [] (j ∷ js) served = absurd served
AllServed-length n networks m m' (i ∷ is) [] served = absurd served

completed-namespace :
    (namespace : Text) (vm : VirtualMachine)
    → completed namespace vm
      ≡ record vm { namespace = (completed namespace vm).namespace; has_annotations = true }
unfolding completed
completed-namespace namespace vm =
    if_intro
      (λ (named : VirtualMachine).
        record named { has_annotations = true }
        ≡ record vm { namespace = named.namespace; has_annotations = true })
      (text_eq vm.namespace []) refl refl

-- The answer of the handler to what the allocation returns.
abbrev answer_with :
    (Text → Text → Option (List Operation))
    → VirtualMachine
    → PoolManager × Result VirtualMachine
    → PoolManager × Response
answer_with diff original run = elim run.1 [
  | err e ↦ (run.0, Response.errored 500 e)
  | ok vm ↦ (run.0, patch_vm_changes diff original vm)
]

module _ (diff : Text → Text → Option (List Operation)) (is_diff : IsDiff diff) where
  patched-Created :
      (original vm vm' : VirtualMachine) (p q : PoolManager)
      → vm.interfaces ≡ original.interfaces
      → vm.networks ≡ original.networks
      → vm.deletion_timestamp ≡ none
      → Allocated vm p q vm'
      → Created
          (vm_namespaced vm.namespace vm.name)
          original
          p
          (q, patch_vm_changes diff original vm')
  unfolding is_virtual_machine_deletion_in_progress
  patched-Created original vm vm' p q same_interfaces same_networks alive (grows, kept, served) =
      let n = vm_namespaced vm.namespace vm.name in
      let served' : AllServed n (network_map original.networks []) p.mac_pool_map q.mac_pool_map
          original.interfaces vm'.interfaces =
        subst
          (λ is.
            AllServed n (network_map original.networks []) p.mac_pool_map q.mac_pool_map is
              vm'.interfaces)
          same_interfaces
          (subst
            (λ ns.
              AllServed n (network_map ns []) p.mac_pool_map q.mac_pool_map vm.interfaces
                vm'.interfaces)
            same_networks served) in
      let (ops, answer, becomes) =
        patch_vm_changes-Patches diff original vm' is_diff
          (AllServed-length n _ p.mac_pool_map q.mac_pool_map original.interfaces vm'.interfaces
            served')
          (ap is_some (ap (λ (v : VirtualMachine). v.deletion_timestamp) kept ∙ alive)) in
      subst (λ r. Created n original p (q, r)) (sym answer)
        (vm'.interfaces, grows, served', becomes)

  answer_with-Created :
      (original vm : VirtualMachine) (now : ℕ) (p : PoolManager)
      → vm.interfaces ≡ original.interfaces
      → vm.networks ≡ original.networks
      → vm.deletion_timestamp ≡ none
      → vm.has_template ≡ true
      → IsRanged p
      → (length original.networks == 0) ≡ false
      → IsNew (vm_namespaced vm.namespace vm.name) p
      → Created
          (vm_namespaced vm.namespace vm.name)
          original
          p
          (answer_with diff original (allocate_virtual_machine_mac vm now true p))
  answer_with-Created original vm now p same_interfaces same_networks alive template ranged
        networked new =
      go (allocate_virtual_machine_mac vm now true p)
        (allocate_virtual_machine_mac-Allocated vm now p ranged
          (ap (λ ns. length ns == 0) same_networks ∙ networked))
        (allocate_virtual_machine_mac-Refused vm now true p template ranged)
        (λ e. allocate_virtual_machine_mac-SameHolders vm now p e ranged new)
    where
      go :
          (run : PoolManager × Result VirtualMachine)
          → OnOk (Allocated vm p) run
          → Refused
              (IsRefusal
                (vm_namespaced vm.namespace vm.name)
                (network_map vm.networks [])
                true
                vm.interfaces
                p)
              run.1
          → ((e : Error) → run.1 ≡ err e → SameHolders p run.0)
          → Created (vm_namespaced vm.namespace vm.name) original p (answer_with diff original run)
      go (q, err e) allocated refused same = (
        refl,
        subst
            (λ is.
              IsRefusal (vm_namespaced vm.namespace vm.name) (network_map original.networks []) true
                is p e)
            same_interfaces
            (subst
              (λ ns.
                IsRefusal (vm_namespaced vm.namespace vm.name) (network_map ns []) true
                  vm.interfaces p e)
              same_networks refused),
        same e refl,
      )
      go (q, ok vm') allocated refused same =
          patched-Created original vm vm' p q same_interfaces same_networks alive allocated

module _ (format : ℕ → Text) (get : Text → Text → Answer VirtualMachine) (now : ℕ) where
  create-allocates :
      (vm : VirtualMachine) (p : PoolManager)
      → vm.deletion_timestamp ≡ none
      → get vm.namespace vm.name ≡ not_found
      → mutate_create_virtual_machines format get now vm true p
        ≡ allocate_virtual_machine_mac
            (set_transaction_timestamp_annotation_to_vm format now vm)
            now
            true
            p
  unfolding mutate_create_virtual_machines set_transaction_timestamp_annotation_to_vm
      is_virtual_machine_deletion_in_progress
  create-allocates vm p alive missing = rw (missing, mutate_create_virtual_machines) (rw alive refl)

  handle-allocates :
      (diff : Text → Text → Option (List Operation)) (request : Request VirtualMachine)
      (vm : VirtualMachine) (p : PoolManager)
      → let new_vm = completed request.namespace vm in
        request.verb ≡ Verb.create
        → request.dry_run ≡ false
        → request.object ≡ some vm
        → vm.has_template ≡ true
        → new_vm.deletion_timestamp ≡ none
        → get new_vm.namespace new_vm.name ≡ not_found
        → handle format get now diff request p
          ≡ answer_with diff vm (
              allocate_virtual_machine_mac
                (set_transaction_timestamp_annotation_to_vm format now new_vm)
                now
                true
                p)
  unfolding handle mutate
  handle-allocates diff request vm p creates live object template alive missing =
      let new_vm = completed request.namespace vm in
      let answer = λ (verb : Verb) (dry : Bool).
        answer_with diff vm (mutate format get now verb new_vm (not dry) p) in
      rw (object, handle)
        (subst
            (λ (t : Bool).
              (if not t then (p, Response.ignored) else answer request.verb request.dry_run)
              ≡ answer request.verb request.dry_run)
            (sym template) refl
          ∙ (ap (λ v. answer v request.dry_run) creates
              ∙ (ap (λ d. answer Verb.create d) live
                  ∙ ap (answer_with diff vm) (create-allocates new_vm p alive missing))))

  -- For a diff of two strings as its library documents it and a pool with a proper range, a
  -- request, not a dry run, to create a machine that has a template and networks, is not being
  -- deleted, is not found in the cluster and holds no address yet, is answered either with an
  -- internal error, because an address that it asks for does not parse, two of them have one key,
  -- two of its interfaces have one name, or every address of the range is held once its first
  -- interfaces, none or more, have been served, and then every instance holds just what it held; or
  -- with patches, and then every address is still held that was held before, each supported
  -- interface has an entry under the address that it asks for or else under one that nobody held,
  -- and the patches turn the addresses of the interfaces into these.
  pub vm_request-Created :
      (diff : Text → Text → Option (List Operation)) (request : Request VirtualMachine)
      (vm : VirtualMachine) (p : PoolManager)
      → let n = vm_namespaced (completed request.namespace vm).namespace vm.name in
        IsDiff diff
        → IsRanged p
        → request.verb ≡ Verb.create
        → request.dry_run ≡ false
        → request.object ≡ some vm
        → vm.has_template ≡ true
        → vm.deletion_timestamp ≡ none
        → (length vm.networks == 0) ≡ false
        → get (completed request.namespace vm).namespace vm.name ≡ not_found
        → IsNew n p
        → Created n vm p (handle format get now diff request p)
  unfolding set_transaction_timestamp_annotation_to_vm
  vm_request-Created diff request vm p is_diff ranged creates live object template alive networked
        missing new =
      let new_vm = completed request.namespace vm in
      let as_given = completed-namespace request.namespace vm in
      let same_name = ap (λ (v : VirtualMachine). v.name) as_given in
      let named = ap (vm_namespaced new_vm.namespace) same_name in
      subst (λ r. Created (vm_namespaced new_vm.namespace vm.name) vm p r)
        (sym (
          handle-allocates diff request vm p creates live object template
            (ap (λ (v : VirtualMachine). v.deletion_timestamp) as_given ∙ alive)
            (ap (get new_vm.namespace) same_name ∙ missing)))
        (subst
          (λ k. Created k vm p (
            answer_with diff vm (
              allocate_virtual_machine_mac
                (set_transaction_timestamp_annotation_to_vm format now new_vm) now true p)))
          named
          (answer_with-Created diff is_diff vm
            (set_transaction_timestamp_annotation_to_vm format now new_vm) now p
            (ap (λ (v : VirtualMachine). v.interfaces) as_given)
            (ap (λ (v : VirtualMachine). v.networks) as_given)
            (ap (λ (v : VirtualMachine). v.deletion_timestamp) as_given ∙ alive)
            (ap (λ (v : VirtualMachine). v.has_template) as_given ∙ template) ranged networked
            (subst (λ k. IsNew k p) (sym named) new)))
