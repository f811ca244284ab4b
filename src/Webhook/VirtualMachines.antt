-- ===== src/Webhook/VirtualMachines.antt =====
-- pkg/webhook/virtualmachine/virtualmachine.go: the handler of admission requests for virtual
-- machines. `diff` is `jsonpatch.CreatePatch` on two marshalled strings, `format` the printing of a
-- time, `get` the client's Get, `now` the clock. A panic is answered as an internal error, which the
-- server does.
pub mod Created
pub mod Keeps
pub mod Paths
pub mod Patches
use kubemacpool.Prelude.{
  ◌%◌, ltb, map, ◌/◌, ℕ, zero, suc, ◌+◌, ◌-◌, ◌*◌, ◌<◌, ◌≤◌, ◌≡◌, ◌≢◌, ◌⊎◌, ◌↔◌, inl, inr, refl,
  sym, ap, ◌∙◌, subst, Bool, true, false, not, ◌&&◌, ◌||◌, Option, none, some, List, [], ◌∷◌, ◌++◌,
  Text, codes, text_eq, text_eq_iff, text_eq_refl, GoMap, lookup, insert, delete, has_key,
  get_or_zero, IsMap, length, any_of, keep_if, All, arith, if◌then◌else◌, ◌==◌, same_bool, is_some,
  Bool-cases, Option-cases, Result-cases, if_intro, if_split, Result, ok, err, Error, ◌>>=◌, ◌>>◌,
}
use kubemacpool.Kubevirt.{Network, Interface, VirtualMachine, Answer, found, not_found, failed}
use kubemacpool.Pool.{PoolManager}
use kubemacpool.Vm.{allocate_virtual_machine_mac}
use kubemacpool.Vm.Update.{update_mac_addresses_for_virtual_machine}
use kubemacpool.Transaction.{
  transaction_timestamp_annotation, set_transaction_timestamp_annotation_to_vm,
}
use kubemacpool.Webhook.{Json, Operation, Response, Verb, Request}

unfoldable pub is_virtual_machine_deletion_in_progress : VirtualMachine → Bool
is_virtual_machine_deletion_in_progress vm = is_some vm.deletion_timestamp

-- `reflect.DeepEqual` of two maps that are not nil: each has the entries of the other.
unfoldable pub is_submap : GoMap Text → GoMap Text → Bool
is_submap [] n = true
is_submap ((k, v) ∷ m) n =
    let rest = is_submap m n in (elim (lookup k n) [ none ↦ false | some w ↦ text_eq v w ]) && rest

unfoldable pub maps_equal : Bool → GoMap Text → Bool → GoMap Text → Bool
maps_equal given m given' n = same_bool given given' && (is_submap m n && is_submap n m)

unfoldable pub interface_equal : Interface → Interface → Bool
interface_equal a b =
    text_eq a.name b.name
    && (text_eq a.mac_address b.mac_address
        && (same_bool a.masquerade b.masquerade && text_eq a.others b.others))

unfoldable pub lists_equal {ℓ} : {A : Type ℓ} → (A → A → Bool) → List A → List A → Bool
lists_equal same [] [] = true
lists_equal same (x ∷ xs) (y ∷ ys) = same x y && lists_equal same xs ys
lists_equal same _ _ = false

unfoldable pub network_equal : Network → Network → Bool
network_equal a b = text_eq a.name b.name && same_bool a.multus b.multus

-- Both templates are there.
unfoldable pub is_virtual_machine_interfaces_changed : VirtualMachine → VirtualMachine → Bool
is_virtual_machine_interfaces_changed previous vm = not (
    same_bool previous.has_interfaces vm.has_interfaces
    && lists_equal interface_equal previous.interfaces vm.interfaces)

unfoldable pub is_virtual_machine_spec_changed : VirtualMachine → VirtualMachine → Bool
is_virtual_machine_spec_changed previous vm = not (
    same_bool previous.has_template vm.has_template
    && (not (is_virtual_machine_interfaces_changed previous vm)
        && (lists_equal network_equal previous.networks vm.networks
            && text_eq previous.spec_others vm.spec_others)))

-- The map of the annotations is the one of the machine, so the machine loses the annotation.
unfoldable pub get_annotations_without_transaction_timestamp : VirtualMachine → VirtualMachine
get_annotations_without_transaction_timestamp vm = record vm {
  annotations = delete transaction_timestamp_annotation vm.annotations;
}

-- With the machine as it is afterwards.
unfoldable pub is_virtual_machine_metadata_changed :
    VirtualMachine → VirtualMachine → Bool × VirtualMachine
is_virtual_machine_metadata_changed previous vm =
    let vm' = get_annotations_without_transaction_timestamp vm in
    let previous' = get_annotations_without_transaction_timestamp previous in
    if not (maps_equal previous.has_labels previous.labels vm.has_labels vm.labels)
    then (true, vm)
    else (
      not (
          maps_equal previous.has_annotations previous'.annotations vm.has_annotations
            vm'.annotations),
      vm',
    )

unfoldable pub is_virtual_machine_changed : VirtualMachine → VirtualMachine → Bool × VirtualMachine
is_virtual_machine_changed previous vm =
    if is_virtual_machine_spec_changed previous vm
    then (true, vm)
    else is_virtual_machine_metadata_changed previous vm

-- `%d`: the digits of a number, of which `fuel` is at least the count.
unfoldable pub decimal_loop : ℕ → ℕ → Text
decimal_loop zero n = []
decimal_loop (suc fuel) n =
    let high = decimal_loop fuel (n / 10) in
    if ltb n 10 then (48 + n) ∷ [] else high ++ (48 + n % 10) ∷ []

unfoldable pub mac_address_path : ℕ → Text
unfolding decimal_loop
mac_address_path i =
    codes "/spec/template/spec/domain/devices/interfaces/"
    ++ (decimal_loop (suc i) i ++ codes "/macAddress")

-- `strings.ReplaceAll` of one byte.
unfoldable pub replace_all : ℕ → Text → Text → Text
replace_all c replacement [] = []
replace_all c replacement (x ∷ xs) =
    let rest = replace_all c replacement xs in if x == c then replacement ++ rest else x ∷ rest

unfoldable pub timestamp_path : Text
unfolding replace_all
timestamp_path =
    codes "/metadata/annotations/"
    ++ replace_all b'/' (codes "~1")
        (replace_all b'~' (codes "~0") transaction_timestamp_annotation)

-- The patches for the annotation of the transaction.
unfoldable pub timestamp_patches : VirtualMachine → VirtualMachine → List Operation
timestamp_patches original current =
    let before = lookup transaction_timestamp_annotation original.annotations in
    let after = get_or_zero [] transaction_timestamp_annotation current.annotations in
    let init =
      if length original.annotations == 0
      then record {
        operation = codes "add";
        path = codes "/metadata/annotations";
        value = Json.strings [];
      }
        ∷ []
      else [] in
    let op : Text = elim before [ none ↦ codes "add" | some t ↦ codes "replace" ] in
    let patch : Operation = record {
      operation = op;
      path = timestamp_path;
      value = Json.string after;
    } in
    if not (text_eq after [])
      && not (text_eq after (get_or_zero [] transaction_timestamp_annotation original.annotations))
    then init ++ patch ∷ []
    else []

module _ (diff : Text → Text → Option (List Operation)) where
  unfoldable pub patch_change : Text → Text → Text → Result (List Operation)
  patch_change path original current = elim (diff original current) [
    | none ↦ err Error.patch_failed
    | some patches ↦ ok (map (λ (patch : Operation). record patch { path = path }) patches)
  ]

  -- The loop over the interfaces from index `i` on; the original must have as many.
  unfoldable pub interface_patches : ℕ → List Interface → List Interface → Result (List Operation)
  interface_patches i originals [] = ok []
  interface_patches i [] (current ∷ currents) = err Error.panic
  interface_patches i (original ∷ originals) (current ∷ currents) =
      patch_change (mac_address_path i) original.mac_address current.mac_address >>= λ patches.
      interface_patches (suc i) originals currents >>= λ rest. ok (patches ++ rest)

  unfoldable pub patch_vm_changes : VirtualMachine → VirtualMachine → Response
  patch_vm_changes original current =
      if is_virtual_machine_deletion_in_progress current
      then Response.patched []
      else elim (interface_patches 0 original.interfaces current.interfaces) [
        | err e ↦ Response.errored 500 e
        | ok patches ↦ Response.patched (timestamp_patches original current ++ patches)
      ]

-- The machine with annotations that are not nil, in the namespace of the request if it has none.
unfoldable pub completed : Text → VirtualMachine → VirtualMachine
completed namespace vm =
    let named = if text_eq vm.namespace [] then record vm { namespace = namespace } else vm in
    record named { has_annotations = true }

module _ (format : ℕ → Text) (get : Text → Text → Answer VirtualMachine) (now : ℕ) where
  -- A machine that is not found but is being deleted falls through to the unexpected error.
  unfoldable pub mutate_create_virtual_machines :
      VirtualMachine → Bool → PoolManager → PoolManager × Result VirtualMachine
  mutate_create_virtual_machines vm live p =
      let vm' = set_transaction_timestamp_annotation_to_vm format now vm in
      elim (get vm.namespace vm.name) [
        | found existing ↦ (p, ok vm')
        | not_found ↦
            if not (is_virtual_machine_deletion_in_progress vm')
            then allocate_virtual_machine_mac vm' now live p
            else (p, err Error.not_found)
        | failed ↦ (p, err Error.client_failed)
      ]

  -- A previous machine without a template makes the comparison of the interfaces panic.
  unfoldable pub mutate_update_virtual_machines :
      VirtualMachine → Bool → PoolManager → PoolManager × Result VirtualMachine
  mutate_update_virtual_machines vm live p = elim (get vm.namespace vm.name) [
    | failed ↦ (p, err Error.client_failed)
    | not_found ↦ (p, ok vm)
    | found previous ↦
        let (changed, vm') = is_virtual_machine_changed previous vm in
        let stamped = set_transaction_timestamp_annotation_to_vm format now vm' in
        if not changed
        then (p, ok vm')
        else if not previous.has_template
        then (p, err Error.panic)
        else if is_virtual_machine_interfaces_changed previous stamped
        then update_mac_addresses_for_virtual_machine (some previous) stamped now live p
        else (p, ok stamped)
  ]

  unfoldable pub mutate :
      Verb → VirtualMachine → Bool → PoolManager → PoolManager × Result VirtualMachine
  mutate Verb.create vm live p = mutate_create_virtual_machines vm live p
  mutate Verb.update vm live p = mutate_update_virtual_machines vm live p
  mutate Verb.other_verb vm live p = (p, ok vm)

  unfoldable pub handle :
      (Text → Text → Option (List Operation))
      → Request VirtualMachine
      → PoolManager
      → PoolManager × Response
  handle diff request p = elim request.object [
    | none ↦ (p, Response.errored 400 Error.bad_request)
    | some original ↦
        let run =
          mutate request.verb (completed request.namespace original) (not request.dry_run) p in
        if not original.has_template then (p, Response.ignored) else elim run.1 [
          | err e ↦ (run.0, Response.errored 500 e)
          | ok vm ↦ (run.0, patch_vm_changes diff original vm)
        ]
  ]
