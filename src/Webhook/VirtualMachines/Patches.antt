-- ===== src/Webhook/VirtualMachines/Patches.antt =====
-- The patches of pkg/webhook/virtualmachine: what the API server makes of them.
use kubemacpool.Webhook.VirtualMachines.Paths.{other_path}
use kubemacpool.Prelude.{
  map, ℕ, suc, ◌<◌, ◌≤◌, ◌≡◌, refl, ap, ◌∙◌, Bool, true, false, not, ◌&&◌, Option, none, some, List,
  [], ◌∷◌, ◌++◌, Text, codes, text_eq, text_eq_iff, text_eq_refl, lookup, get_or_zero, length,
  arith, if◌then◌else◌, ◌==◌, if_intro, Result, ok, err, ◌>>=◌,
}
use kubemacpool.Kubevirt.{Interface, VirtualMachine}
use kubemacpool.Transaction.{transaction_timestamp_annotation}
use kubemacpool.Webhook.{Json, Operation, Response}
use kubemacpool.Webhook.VirtualMachines.{
  mac_address_path, timestamp_path, timestamp_patches, patch_change, interface_patches,
  patch_vm_changes, is_virtual_machine_deletion_in_progress,
}

-- What `jsonpatch.CreatePatch` documents of two strings: nothing where they are the same, else one
-- replacement of the whole.
abbrev pub IsDiff : (Text → Text → Option (List Operation)) → Type 0
IsDiff diff =
    (a b : Text)
    → diff a b
      ≡ some (
          if text_eq a b
          then []
          else record { operation = codes "replace"; path = []; value = Json.string b } ∷ [])

abbrev text_of : Json → Text
text_of (Json.string t) = t
text_of (Json.strings m) = []

-- The text at a path, after operations that add or replace one each.
abbrev pub apply_at : Text → List Operation → Text → Text
apply_at path [] t = t
apply_at path (op ∷ ops) t =
    apply_at path ops (if text_eq op.path path then text_of op.value else t)

-- The addresses of the interfaces from index `i` on, after the operations.
abbrev pub patched_macs : ℕ → List Operation → List Interface → List Text
patched_macs i ops [] = []
patched_macs i ops (iface ∷ ifaces) =
    apply_at (mac_address_path i) ops iface.mac_address ∷ patched_macs (suc i) ops ifaces

abbrev pub macs_of : List Interface → List Text
macs_of [] = []
macs_of (iface ∷ ifaces) = iface.mac_address ∷ macs_of ifaces

apply_at-append :
    (path : Text) (a b : List Operation) (t : Text)
    → apply_at path (a ++ b) t ≡ apply_at path b (apply_at path a t)
apply_at-append path [] b t = refl
apply_at-append path (op ∷ a) b t =
    apply_at-append path a b (if text_eq op.path path then text_of op.value else t)

-- Operations that do not touch the interfaces from an index on.
abbrev Spares : ℕ → List Operation → Type 0
Spares i ops = (j : ℕ) → i ≤ j → (t : Text) → apply_at (mac_address_path j) ops t ≡ t

patched_macs-spared :
    (i : ℕ) (first rest : List Operation) (ifaces : List Interface)
    → Spares i first
    → patched_macs i (first ++ rest) ifaces ≡ patched_macs i rest ifaces
patched_macs-spared i first rest [] spares = refl
patched_macs-spared i first rest (iface ∷ ifaces) spares =
    rw (apply_at-append (mac_address_path i) first rest iface.mac_address) (
      rw (spares i (omega arith) iface.mac_address) (
        ap (λ ms. apply_at (mac_address_path i) rest iface.mac_address ∷ ms)
          (patched_macs-spared (suc i) first rest ifaces (λ j le. spares j (omega (arith, le))))))

module _ (diff : Text → Text → Option (List Operation)) (is_diff : IsDiff diff) where
  -- The patches of one interface turn its address into the new one, and spare the later ones.
  abbrev Patched : ℕ → Text → Text → Result (List Operation) → Type 0
  Patched i a b (err e) = ⊥
  Patched i a b (ok ops) =
      (apply_at (mac_address_path i) ops a ≡ b)
      × ((j : ℕ) → ¬ (j ≡ i) → (t : Text) → apply_at (mac_address_path j) ops t ≡ t)

  patch_change-Patched :
      (i : ℕ) (a b : Text) → Patched i a b (patch_change diff (mac_address_path i) a b)
  unfolding patch_change
  patch_change-Patched i a b = rw (is_diff a b, patch_change, Patched) (go (text_eq a b) refl)
    where
      go :
          (same : Bool)
          → text_eq a b ≡ same
          → Patched i a b (
              ok (
                map
                  (λ (patch : Operation). record patch { path = mac_address_path i })
                  (if same
                    then []
                    else record { operation = codes "replace"; path = []; value = Json.string b }
                      ∷ [])))
      go true e = ((text_eq_iff a b).0 e, λ j ne t. refl)
      go false e =
          (rw (text_eq_refl (mac_address_path i)) refl, λ j ne t. rw (other_path i j ne) refl)

  abbrev AllPatched : ℕ → List Interface → List Interface → Result (List Operation) → Type 0
  AllPatched i originals currents (err e) = ⊥
  AllPatched i originals currents (ok ops) =
      (patched_macs i ops originals ≡ macs_of currents)
      × ((j : ℕ) → j < i → (t : Text) → apply_at (mac_address_path j) ops t ≡ t)

  interface_patches-AllPatched :
      (i : ℕ) (originals currents : List Interface)
      → length originals ≡ length currents
      → AllPatched i originals currents (interface_patches diff i originals currents)
  unfolding interface_patches
  interface_patches-AllPatched i [] [] same = (refl, λ j less t. refl)
  interface_patches-AllPatched i [] (c ∷ cs) same = absurd (omega arith)
  interface_patches-AllPatched i (o ∷ os) [] same = absurd (omega arith)
  interface_patches-AllPatched i (o ∷ os) (c ∷ cs) same =
      go (patch_change diff (mac_address_path i) o.mac_address c.mac_address)
        (patch_change-Patched i o.mac_address c.mac_address) (interface_patches diff (suc i) os cs)
        (interface_patches-AllPatched (suc i) os cs (omega arith))
    where
      go :
          (first : Result (List Operation))
          → Patched i o.mac_address c.mac_address first
          → (rest : Result (List Operation)) → AllPatched (suc i) os cs rest
          → AllPatched i
              (o ∷ os)
              (c ∷ cs)
              (first >>= λ patches. rest >>= λ more. ok (patches ++ more))
      go (err e) h rest k = h
      go (ok first) h (err e) k = k
      go (ok first) (here, spares) (ok rest) (later, before) = (
        rw (apply_at-append (mac_address_path i) first rest o.mac_address) (
            rw (before i (omega arith) (apply_at (mac_address_path i) first o.mac_address)) (
              rw here (
                ap (λ ms. c.mac_address ∷ ms)
                  (patched_macs-spared (suc i) first rest os
                      (λ j le t. spares j (λ e. absurd (omega (arith, le, e))) t)
                    ∙ later)))),
        λ j less t.
            apply_at-append (mac_address_path j) first rest t
            ∙ (before j (omega (arith, less)) (apply_at (mac_address_path j) first t)
                ∙ spares j (λ e. absurd (omega (arith, less, e))) t),
      )

not_annotations : (j : ℕ) → text_eq (codes "/metadata/annotations") (mac_address_path j) ≡ false
unfolding text_eq mac_address_path
not_annotations j = refl

not_timestamp : (j : ℕ) → text_eq timestamp_path (mac_address_path j) ≡ false
unfolding text_eq mac_address_path timestamp_path
not_timestamp j = refl

annotation-Spares :
    (j : ℕ) (t : Text) (empty : Bool) (op value : Text)
    → apply_at
        (mac_address_path j)
        ((if empty
            then record {
              operation = codes "add";
              path = codes "/metadata/annotations";
              value = Json.strings [];
            }
              ∷ []
            else [])
          ++ record { operation = op; path = timestamp_path; value = Json.string value } ∷ [])
        t
      ≡ t
annotation-Spares j t true op value = rw not_annotations (rw not_timestamp refl)
annotation-Spares j t false op value = rw not_timestamp refl

timestamp_patches-Spares :
    (original current : VirtualMachine) → Spares 0 (timestamp_patches original current)
unfolding timestamp_patches
timestamp_patches-Spares original current j le t =
    let before = lookup transaction_timestamp_annotation original.annotations in
    let after = get_or_zero [] transaction_timestamp_annotation current.annotations in
    let op : Text = elim before [ none ↦ codes "add" | some t ↦ codes "replace" ] in
    let changed =
      not (text_eq after [])
      && not
          (text_eq after (get_or_zero [] transaction_timestamp_annotation original.annotations)) in
    if_intro (λ (ops : List Operation). apply_at (mac_address_path j) ops t ≡ t) changed
      {x = (if length original.annotations == 0
          then record {
            operation = codes "add";
            path = codes "/metadata/annotations";
            value = Json.strings [];
          }
            ∷ []
          else [])
        ++ record { operation = op; path = timestamp_path; value = Json.string after } ∷ []}
      {y = []} (annotation-Spares j t (length original.annotations == 0) op after) refl

-- For a machine that is not being deleted and two lists of interfaces of one length, and a diff of
-- two strings as its library documents it, patchVMChanges allows the request with patches that turn
-- the addresses of the original interfaces into those of the current ones.
pub patch_vm_changes-Patches :
    (diff : Text → Text → Option (List Operation)) (original current : VirtualMachine)
    → IsDiff diff
    → length original.interfaces ≡ length current.interfaces
    → is_virtual_machine_deletion_in_progress current ≡ false
    → (ops : List Operation) × (patch_vm_changes diff original current ≡ Response.patched ops)
      × (patched_macs 0 ops original.interfaces ≡ macs_of current.interfaces)
unfolding patch_vm_changes
patch_vm_changes-Patches diff original current is_diff same alive =
    rw (alive, patch_vm_changes)
      (go (interface_patches diff 0 original.interfaces current.interfaces)
        (interface_patches-AllPatched diff is_diff 0 original.interfaces current.interfaces same))
  where
    go :
        (r : Result (List Operation))
        → AllPatched diff is_diff 0 original.interfaces current.interfaces r
        → (ops : List Operation) × (elim r as (λ _. Response) [
          | err e ↦ Response.errored 500 e
          | ok patches ↦ Response.patched (timestamp_patches original current ++ patches)
        ]
            ≡ Response.patched ops)
          × (patched_macs 0 ops original.interfaces ≡ macs_of current.interfaces)
    go (err e) h = absurd h
    go (ok patches) (becomes, before) = (
      timestamp_patches original current ++ patches,
      refl,
      patched_macs-spared 0 (timestamp_patches original current) patches original.interfaces
            (timestamp_patches-Spares original current)
          ∙ becomes,
    )
