-- ===== src/Vm/Refused/Faults.antt =====
-- Why the checks that AllocateVirtualMachineMac of pkg/pool-manager/virtualmachine_pool.go makes
-- first fail.
use kubemacpool.Prelude.{
  All, ◌≡◌, refl, sym, subst, Bool, Option, none, some, List, [], ◌∷◌, Text, text_eq, GoMap, insert,
  has_key, if_intro, Result, ok, err, Error, ◌>>=◌,
}
use kubemacpool.Net.{HardwareAddr, parse_mac, new_mac_key}
use kubemacpool.Kubevirt.{Interface}
use kubemacpool.Pool.{PoolManager}
use kubemacpool.Vm.{
  interface_names_loop, check_vm_for_interface_duplication, duplicate_macs_loop,
  check_intra_vm_duplicate_macs, check_interfaces,
}
use kubemacpool.Vm.Checks.{
  IsDistinct, Parses, interface_names, asked_macs, mac_keys, seen_one-nil, duplicate_mac-seen,
  invalid_mac-Parses, check_vm_for_interface_duplication_iff,
}

-- The outcome is no error, or one of which the property holds.
abbrev pub Refused {ℓ} : {A : Type ℓ} → (Error → Type 0) → Result A → Type 0
Refused E (ok a) = Unit
Refused E (err e) = E e

pub Refused-step {ℓ κ} :
    {A : Type ℓ} {B : Type κ} (E : Error → Type 0) (r : Result A) (f : A → PoolManager × Result B)
    (q : Error → PoolManager)
    → Refused E r
    → ((a : A) → r ≡ ok a → Refused E (f a).1)
    → Refused E (elim r as (λ _. PoolManager × Result B) [ ok a ↦ f a | err e ↦ (q e, err e) ]).1
Refused-step E (ok a) f q h k = k a refl
Refused-step E (err e) f q h k = h

pub Refused->>= {ℓ κ} :
    {A : Type ℓ} {B : Type κ} (E : Error → Type 0) (r : Result A) (f : A → Result B)
    → Refused E r
    → ((a : A) → Refused E (f a))
    → Refused E (r >>= f)
Refused->>= E (ok a) f h k = k a
Refused->>= E (err e) f h k = h

pub Refused-map {ℓ} :
    {A : Type ℓ} (E F : Error → Type 0) (r : Result A)
    → ((e : Error) → r ≡ err e → E e → F e)
    → Refused E r
    → Refused F r
Refused-map E F (ok a) f h = tt
Refused-map E F (err e) f h = f e refl h

-- The errors of the two loops.
abbrev IsMacError : Error → Type 0
IsMacError Error.invalid_mac = Unit
IsMacError Error.duplicate_mac = Unit
IsMacError _ = ⊥

abbrev IsNameError : Error → Type 0
IsNameError e = e ≡ Error.duplicate_interface

names_loop-Refused :
    (ifaces : List Interface) (seen : GoMap (Unit {0}))
    → Refused IsNameError (interface_names_loop ifaces seen)
unfolding interface_names_loop
names_loop-Refused [] seen = tt
names_loop-Refused (iface ∷ ifaces) seen =
    if_intro (Refused IsNameError) (has_key iface.name seen) refl
      (names_loop-Refused ifaces (insert iface.name tt seen))

macs_loop-Refused :
    (ifaces : List Interface) (seen : GoMap Text)
    → Refused IsMacError (duplicate_macs_loop ifaces seen)
unfolding duplicate_macs_loop
macs_loop-Refused [] seen = tt
macs_loop-Refused (iface ∷ ifaces) seen =
    let key = new_mac_key iface.mac_address in
    if_intro (Refused IsMacError) (text_eq iface.mac_address []) (macs_loop-Refused ifaces seen) (
      parsed (parse_mac iface.mac_address) _ (
        if_intro (Refused IsMacError) (has_key key seen) tt
          (macs_loop-Refused ifaces (insert key iface.name seen))))
  where
    parsed :
        (o : Option HardwareAddr) (r : Result (Unit {0}))
        → Refused IsMacError r
        → Refused IsMacError
            (elim o as (λ _. Result (Unit {0})) [ none ↦ err Error.invalid_mac | some hw ↦ r ])
    parsed none r h = tt
    parsed (some hw) r h = h

-- What makes the checks of a machine fail.
abbrev pub IsAtFault : List Interface → Error → Type 0
IsAtFault ifaces Error.invalid_mac = ¬ All Parses (asked_macs ifaces)
IsAtFault ifaces Error.duplicate_mac = ¬ IsDistinct (mac_keys (asked_macs ifaces))
IsAtFault ifaces Error.duplicate_interface = ¬ IsDistinct (interface_names ifaces)
IsAtFault ifaces _ = ⊥

macs-IsAtFault :
    (ifaces : List Interface) → Refused (IsAtFault ifaces) (check_intra_vm_duplicate_macs ifaces)
unfolding check_intra_vm_duplicate_macs
macs-IsAtFault ifaces =
    Refused-map IsMacError (IsAtFault ifaces) (duplicate_macs_loop ifaces []) go
      (macs_loop-Refused ifaces [])
  where
    go : (e : Error) → duplicate_macs_loop ifaces [] ≡ err e → IsMacError e → IsAtFault ifaces e
    go Error.invalid_mac fails h = invalid_mac-Parses ifaces [] fails
    go Error.duplicate_mac fails h = λ distinct. cc (
      duplicate_mac-seen ifaces [] fails distinct,
      seen_one-nil Text (mac_keys (asked_macs ifaces)),
    )
    go _ fails h = absurd h

names-IsAtFault :
    (ifaces : List Interface)
    → Refused (IsAtFault ifaces) (check_vm_for_interface_duplication ifaces)
unfolding check_vm_for_interface_duplication
names-IsAtFault ifaces =
    Refused-map IsNameError (IsAtFault ifaces) (interface_names_loop ifaces []) go
      (names_loop-Refused ifaces [])
  where
    go : (e : Error) → interface_names_loop ifaces [] ≡ err e → IsNameError e → IsAtFault ifaces e
    go e fails h =
        subst (IsAtFault ifaces) (sym h)
          (λ distinct. cc (fails, (check_vm_for_interface_duplication_iff ifaces).1 distinct))

pub check_interfaces-Refused :
    (live : Bool) (ifaces : List Interface)
    → Refused (IsAtFault ifaces) (check_interfaces live ifaces)
unfolding check_interfaces
check_interfaces-Refused live ifaces =
    if_intro (Refused (IsAtFault ifaces)) live
      (Refused->>= (IsAtFault ifaces) (check_intra_vm_duplicate_macs ifaces) _
        (macs-IsAtFault ifaces) (λ _. names-IsAtFault ifaces))
      tt
