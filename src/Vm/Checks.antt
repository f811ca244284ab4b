-- ===== src/Vm/Checks.antt =====
-- checkVmForInterfaceDuplication and checkIntraVMDuplicateMACs of
-- pkg/pool-manager/virtualmachine_pool.go: their loops against a description without a map.
use kubemacpool.Prelude.{
  ◌≡◌, ◌↔◌, refl, Bool, true, false, none, some, List, [], ◌∷◌, Text, text_eq, GoMap, has_key, err,
  Error, has_key-insert, lookup, insert, any_of, All, arith, if◌then◌else◌, ok,
}
use kubemacpool.Net.{parse_mac, new_mac_key}
use kubemacpool.Kubevirt.{Interface}
use kubemacpool.Vm.{
  interface_names_loop, duplicate_macs_loop, check_vm_for_interface_duplication,
  check_intra_vm_duplicate_macs,
}

-- No text stands twice.
abbrev pub IsDistinct : List Text → Type 0
IsDistinct [] = Unit
IsDistinct (t ∷ ts) = (any_of (text_eq t) ts ≡ false) × IsDistinct ts

abbrev pub interface_names : List Interface → List Text
interface_names [] = []
interface_names (iface ∷ ifaces) = iface.name ∷ interface_names ifaces

-- The addresses that are asked for.
abbrev pub asked_macs : List Interface → List Text
asked_macs [] = []
asked_macs (iface ∷ ifaces) =
    let rest = asked_macs ifaces in
    if text_eq iface.mac_address [] then rest else iface.mac_address ∷ rest

abbrev pub mac_keys : List Text → List Text
mac_keys [] = []
mac_keys (mac ∷ macs) = new_mac_key mac ∷ mac_keys macs

abbrev pub Parses : Text → Type 0
Parses mac = elim (parse_mac mac) [ none ↦ ⊥ | some hw ↦ Unit ]

abbrev seen_one {ℓ} : {V : Type ℓ} → GoMap V → List Text → Bool
seen_one seen = any_of (λ t. has_key t seen)

seen_one-insert {ℓ} :
    {V : Type ℓ} (k : Text) (v : V) (seen : GoMap V) (ts : List Text)
    → seen_one (insert k v seen) ts ≡ (if any_of (text_eq k) ts then true else seen_one seen ts)
seen_one-insert k v seen [] = refl
seen_one-insert k v seen (t ∷ ts) =
    ground (arith, seen_one-insert k v seen ts, has_key-insert k t v seen)

pub seen_one-nil {ℓ} : (V : Type ℓ) (ts : List Text) → seen_one {V = V} [] ts ≡ false
unfolding has_key lookup
seen_one-nil V [] = refl
seen_one-nil V (t ∷ ts) = seen_one-nil V ts

interface_names_loop_iff :
    (ifaces : List Interface) (seen : GoMap (Unit {0}))
    → (interface_names_loop ifaces seen ≡ ok tt)
      ↔ (IsDistinct (interface_names ifaces) × (seen_one seen (interface_names ifaces) ≡ false))
unfolding interface_names_loop
interface_names_loop_iff [] seen = (λ e. (tt, refl), λ h. refl)
interface_names_loop_iff (iface ∷ ifaces) seen =
    let rest = interface_names_loop_iff ifaces (insert iface.name tt seen) in
    let step = seen_one-insert iface.name tt seen (interface_names ifaces) in
    (ground (arith, rest, step), ground (arith, rest, step))

-- checkVmForInterfaceDuplication passes exactly if no two interfaces have one name.
pub check_vm_for_interface_duplication_iff :
    (ifaces : List Interface)
    → (check_vm_for_interface_duplication ifaces ≡ ok tt) ↔ IsDistinct (interface_names ifaces)
unfolding check_vm_for_interface_duplication
check_vm_for_interface_duplication_iff ifaces =
    let (there, back) = interface_names_loop_iff ifaces [] in
    (λ e. (there e).0, λ h. back (h, seen_one-nil _ (interface_names ifaces)))

duplicate_macs_loop_iff :
    (ifaces : List Interface) (seen : GoMap Text)
    → (duplicate_macs_loop ifaces seen ≡ ok tt) ↔ (
        All Parses (asked_macs ifaces)
        × IsDistinct (mac_keys (asked_macs ifaces))
        × (seen_one seen (mac_keys (asked_macs ifaces)) ≡ false))
unfolding duplicate_macs_loop
duplicate_macs_loop_iff [] seen = (λ e. (tt, tt, refl), λ h. refl)
duplicate_macs_loop_iff (iface ∷ ifaces) seen =
    let key = new_mac_key iface.mac_address in
    let skipped = duplicate_macs_loop_iff ifaces seen in
    let rest = duplicate_macs_loop_iff ifaces (insert key iface.name seen) in
    let step = seen_one-insert key iface.name seen (mac_keys (asked_macs ifaces)) in
    (ground (arith, skipped, rest, step), ground (arith, skipped, rest, step))

-- The loop calls an address a duplicate only where two have one key, and invalid only where one
-- does not parse, and has no other error.
pub duplicate_mac-seen :
    (ifaces : List Interface) (seen : GoMap Text)
    → duplicate_macs_loop ifaces seen ≡ err Error.duplicate_mac
    → IsDistinct (mac_keys (asked_macs ifaces))
    → seen_one seen (mac_keys (asked_macs ifaces)) ≡ true
unfolding duplicate_macs_loop
duplicate_mac-seen [] seen = λ e h. cc
duplicate_mac-seen (iface ∷ ifaces) seen =
    let key = new_mac_key iface.mac_address in
    let skipped = duplicate_mac-seen ifaces seen in
    let rest = duplicate_mac-seen ifaces (insert key iface.name seen) in
    let step = seen_one-insert key iface.name seen (mac_keys (asked_macs ifaces)) in
    ground (arith, skipped, rest, step)

pub invalid_mac-Parses :
    (ifaces : List Interface) (seen : GoMap Text)
    → duplicate_macs_loop ifaces seen ≡ err Error.invalid_mac
    → ¬ All Parses (asked_macs ifaces)
unfolding duplicate_macs_loop
invalid_mac-Parses [] seen = λ e h. cc
invalid_mac-Parses (iface ∷ ifaces) seen =
    let key = new_mac_key iface.mac_address in
    let skipped = invalid_mac-Parses ifaces seen in
    let rest = invalid_mac-Parses ifaces (insert key iface.name seen) in
    ground (arith, skipped, rest)

-- checkIntraVMDuplicateMACs passes exactly if all addresses that the interfaces ask for parse and
-- no two of them have one key.
pub check_intra_vm_duplicate_macs_iff :
    (ifaces : List Interface)
    → (check_intra_vm_duplicate_macs ifaces ≡ ok tt)
      ↔ (All Parses (asked_macs ifaces) × IsDistinct (mac_keys (asked_macs ifaces)))
unfolding check_intra_vm_duplicate_macs
check_intra_vm_duplicate_macs_iff ifaces =
    let (there, back) = duplicate_macs_loop_iff ifaces [] in
    (
      λ e. let (parse, distinct, unseen) = there e in (parse, distinct),
      λ h. back (h.0, h.1, seen_one-nil _ (mac_keys (asked_macs ifaces))),
    )
