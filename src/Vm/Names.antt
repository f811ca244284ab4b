-- ===== src/Vm/Names.antt =====
-- Instance names of pkg/pool-manager/virtualmachine_pool.go: getvmInstance takes VmNamespaced apart.
use kubemacpool.Prelude.{
  ℕ, ◌≡◌, refl, ap, ◌∙◌, false, Option, none, some, [], ◌∷◌, ◌++◌, Text, codes, text_eq, split_on,
  IsFree, arith, Result, ok, err, Error,
}
use kubemacpool.Kubevirt.{VirtualMachine, Answer, found, not_found, failed}
use kubemacpool.Vm.{vm_namespaced}
use kubemacpool.Vm.Ready.{getvm_instance}
use mathlib.Core.List.{append_assoc, append-nil}

split_on-free :
    (sep : ℕ) (part a b : Text)
    → IsFree sep a
    → split_on sep part (a ++ sep ∷ b) ≡ (part ++ a) ∷ split_on sep [] b
unfolding split_on
split_on-free sep part [] b h = ground (arith, append-nil part)
split_on-free sep part (c ∷ cs) b h =
    ground (arith, split_on-free sep (part ++ c ∷ []) cs b h.1, append_assoc part (c ∷ []) cs)

split_on_last : (sep : ℕ) (part a : Text) → IsFree sep a → split_on sep part a ≡ (part ++ a) ∷ []
unfolding split_on
split_on_last sep part [] h = ground (arith, append-nil part)
split_on_last sep part (c ∷ cs) h =
    ground (arith, split_on_last sep (part ++ c ∷ []) cs h.1, append_assoc part (c ∷ []) cs)

-- What the client answers, as getvmInstance passes it on.
abbrev pub passed_on : Answer VirtualMachine → Result (Option VirtualMachine)
passed_on (found vm) = ok (some vm)
passed_on not_found = ok none
passed_on failed = err Error.client_failed

parts_lem :
    (namespace name : Text)
    → IsFree b'/' namespace
    → IsFree b'/' name
    → split_on b'/' [] (vm_namespaced namespace name) ≡ codes "vm" ∷ namespace ∷ name ∷ []
unfolding vm_namespaced split_on
parts_lem namespace name h h' =
    ap (λ l. codes "vm" ∷ l)
      (split_on-free b'/' [] namespace name h
        ∙ ap (λ l. namespace ∷ l) (split_on_last b'/' [] name h'))

-- For a namespace and a name that are not empty and have no slash, getvmInstance of VmNamespaced
-- asks the client for just that machine and passes its answer on.
pub getvm_instance-vm_namespaced :
    (get : Text → Text → Answer VirtualMachine) (namespace name : Text)
    → IsFree b'/' namespace
    → IsFree b'/' name
    → text_eq namespace [] ≡ false
    → text_eq name [] ≡ false
    → getvm_instance get (vm_namespaced namespace name) ≡ passed_on (get namespace name)
unfolding getvm_instance
getvm_instance-vm_namespaced get namespace name h h' ne ne' =
    rw (parts_lem namespace name h h', getvm_instance, ne, ne') (go (get namespace name))
  where
    go :
        (a : Answer VirtualMachine)
        → elim a as (λ _. Result (Option VirtualMachine)) [
          | found vm ↦ ok (some vm)
          | not_found ↦ ok none
          | failed ↦ err Error.client_failed
        ]
          ≡ passed_on a
    go (found vm) = refl
    go not_found = refl
    go failed = refl
