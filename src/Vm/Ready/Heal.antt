-- ===== src/Vm/Ready/Heal.antt =====
-- What healStaleMacEntries of pkg/pool-manager/virtualmachine_pool.go keeps.
use kubemacpool.Prelude.{
  arith, ℕ, ◌⊎◌, inl, inr, not, Error, ◌≡◌, refl, Bool, true, false, Option, none, some, List, [],
  ◌∷◌, ◌++◌, Text, text_eq, GoMap, lookup, insert, get_or_zero, All, if_intro, if_split,
  if◌then◌else◌, Result, ok, err, ◌>>=◌, length, ◌==◌, ◌&&◌,
}
use kubemacpool.Kubevirt.{VirtualMachine, Answer}
use kubemacpool.MacMap.{MacEntry, MacMap, has_expired_transaction}
use kubemacpool.Pool.{PoolManager}
use kubemacpool.Pool.FreeMac.{IsRanged}
use kubemacpool.Pool.Keeps.{
  KeepsMap, KeepsMap-refl, KeepsMap-trans, Keeps, Keeps-refl, Keeps-map, remove-KeepsMap,
}
use kubemacpool.Vm.{vm_namespaced}
use kubemacpool.Vm.Ready.{
  getvm_instance, Stale, stale_entry, stale_entries, stale_macs, remove_stale, align_vms,
  align_stale, heal_stale_mac_entries,
}
use kubemacpool.Vm.Ready.Keeps.{align-KeepsMap}

-- Every entry of the map.
abbrev pub AllEntries : (MacEntry → Type 0) → MacMap → Type 0
AllEntries P [] = Unit
AllEntries P ((key, es) ∷ m) = All P es × AllEntries P m

-- Every value of a map.
abbrev AllValues {ℓ} : {V : Type ℓ} → (V → Type 0) → GoMap V → Type 0
AllValues P [] = Unit
AllValues P ((k, v) ∷ m) = P v × AllValues P m

AllValues-insert {ℓ} :
    {V : Type ℓ} (P : V → Type 0) (k : Text) (v : V) (m : GoMap V)
    → P v
    → AllValues P m
    → AllValues P (insert k v m)
unfolding insert
AllValues-insert P k v [] h hs = (h, tt)
AllValues-insert P k v ((j, w) ∷ m) h (hw, hs) =
    if_intro (AllValues P) (text_eq j k) (h, hs) (hw, AllValues-insert P k v m h hs)

chosen {ℓ} :
    {V : Type ℓ} (P : V → Type 0) (z v : V) (o : Option V) (b : Bool)
    → P v
    → P (elim o [ none ↦ z | some w ↦ w ])
    → P (elim (if b then some v else o) [ none ↦ z | some w ↦ w ])
chosen P z v o true h rest = h
chosen P z v o false h rest = rest

AllValues-get {ℓ} :
    {V : Type ℓ} (P : V → Type 0) (z : V) (k : Text) (m : GoMap V)
    → P z
    → AllValues P m
    → P (get_or_zero z k m)
unfolding get_or_zero lookup
AllValues-get P z k [] hz hs = hz
AllValues-get P z k ((j, v) ∷ m) hz (h, hs) =
    chosen P z v (lookup k m) (text_eq j k) h (AllValues-get P z k m hz hs)

All-snoc {ℓ} :
    {A : Type ℓ} (P : A → Type 0) (xs : List A) (x : A) → All P xs → P x → All P (xs ++ x ∷ [])
All-snoc P [] x hs h = (h, tt)
All-snoc P (y ∷ ys) x (hy, hs) h = (hy, All-snoc P ys x hs h)

-- The look-up of some instance finds the machine.
abbrev pub IsFound : (Text → Text → Answer VirtualMachine) → VirtualMachine → Type 0
IsFound get vm = (n : Text) × (getvm_instance get n ≡ ok (some vm))

-- A machine that a look-up finds has no template.
abbrev pub FindsBare : (Text → Text → Answer VirtualMachine) → Type 0
FindsBare get = (vm : VirtualMachine) × IsFound get vm × (vm.has_template ≡ false)

-- What the healing does on each outcome: a failed look-up leaves the pool as it was; a panic at a
-- machine without a template comes when some entries have been healed.
abbrev pub Healed :
    (Text → Type 0)
    → (Text → Text → Answer VirtualMachine)
    → PoolManager
    → PoolManager × Result (Unit {0})
    → Type 0
Healed Mine get p (p', err e) = (p' ≡ p) ⊎ ((e ≡ Error.panic) × FindsBare get × Keeps Mine p p')
Healed Mine get p (p', ok _) = Keeps Mine p p'

module _ (Mine : Text → Type 0) (get : Text → Text → Answer VirtualMachine) (now wait : ℕ)
    (finds : (n : Text) (vm : VirtualMachine)
      → getvm_instance get n ≡ ok (some vm)
      → Mine (vm_namespaced vm.namespace vm.name)) where
  abbrev OfMine : VirtualMachine → Type 0
  OfMine vm = Mine (vm_namespaced vm.namespace vm.name) × IsFound get vm

  abbrev Collects : Result Stale → Type 0
  Collects (err e) = Unit
  Collects (ok s) = AllValues Mine s.to_remove × AllValues (All OfMine) s.to_align

  Collects-bind :
      (r : Result Stale) (f : Stale → Result Stale)
      → Collects r
      → ((s : Stale) → Collects (ok s) → Collects (f s))
      → Collects (r >>= f)
  Collects-bind (err e) f h g = tt
  Collects-bind (ok s) f h g = g s h

  abbrev MineIfExpired : MacEntry → Type 0
  MineIfExpired e = has_expired_transaction now wait e ≡ true → Mine e.instance_name

  stale_entry-Collects :
      (key : Text) (e : MacEntry) (s : Stale)
      → MineIfExpired e
      → Collects (ok s)
      → Collects (stale_entry get now wait key e s)
  unfolding stale_entry
  stale_entry-Collects key e s mine (removes, aligns) =
      if_split Collects (has_expired_transaction now wait e)
        (λ expired. go expired (getvm_instance get e.instance_name) refl)
        (λ fresh. (removes, aligns))
    where
      go :
          has_expired_transaction now wait e ≡ true
          → (r : Result (Option VirtualMachine)) → getvm_instance get e.instance_name ≡ r
          → Collects (
              r >>= λ answer. elim answer [
                | none ↦ ok (record s { to_remove = insert key e.instance_name s.to_remove })
                | some vm ↦ ok (record s {
                  to_align = insert key (get_or_zero [] key s.to_align ++ vm ∷ []) s.to_align;
                })
              ])
      go expired (err e') h = tt
      go expired (ok none) h =
          (AllValues-insert Mine key e.instance_name s.to_remove (mine expired) removes, aligns)
      go expired (ok (some vm)) h =
          let before = AllValues-get (All OfMine) [] key s.to_align tt aligns in
          (
            removes,
            AllValues-insert (All OfMine) key _ s.to_align
                (All-snoc OfMine (get_or_zero [] key s.to_align) vm before
                  (finds e.instance_name vm h, (e.instance_name, h)))
                aligns,
          )

  stale_entries-Collects :
      (key : Text) (es : List MacEntry) (s : Stale)
      → All MineIfExpired es
      → Collects (ok s)
      → Collects (stale_entries get now wait key es s)
  unfolding stale_entries
  stale_entries-Collects key [] s h c = c
  stale_entries-Collects key (e ∷ es) s (h, hs) c =
      Collects-bind (stale_entry get now wait key e s) _ (stale_entry-Collects key e s h c)
        (λ s' c'. stale_entries-Collects key es s' hs c')

  stale_macs-Collects :
      (m : MacMap) (s : Stale)
      → AllEntries MineIfExpired m
      → Collects (ok s)
      → Collects (stale_macs get now wait m s)
  unfolding stale_macs
  stale_macs-Collects [] s h c = c
  stale_macs-Collects ((key, es) ∷ m) s (h, hs) c =
      Collects-bind (stale_entries get now wait key es s) _ (stale_entries-Collects key es s h c)
        (λ s' c'. stale_macs-Collects m s' hs c')

abbrev OnlyPanics : (Text → Text → Answer VirtualMachine) → Result (Unit {0}) → Type 0
OnlyPanics get (err e) = (e ≡ Error.panic) × FindsBare get
OnlyPanics get (ok u) = Unit

-- The map after an alignment, which fails at a machine without a template only.
abbrev AlignedMap :
    (Text → Type 0)
    → (Text → Text → Answer VirtualMachine)
    → MacMap
    → MacMap × Result (Unit {0})
    → Type 0
AlignedMap Mine get m r = KeepsMap Mine m r.0 × OnlyPanics get r.1

module _ {Mine : Text → Type 0} (get : Text → Text → Answer VirtualMachine) where
  remove_stale-KeepsMap :
      (macs : GoMap Text) (m : MacMap) → AllValues Mine macs → KeepsMap Mine m (remove_stale macs m)
  unfolding remove_stale
  remove_stale-KeepsMap [] m h = KeepsMap-refl m
  remove_stale-KeepsMap ((mac, n) ∷ macs) m (h, hs) =
      KeepsMap-trans (remove-KeepsMap mac n m h) (remove_stale-KeepsMap macs _ hs)

  align_vms-KeepsMap :
      (mac : Text) (vms : List VirtualMachine) (m : MacMap)
      → All (λ vm. Mine (vm_namespaced vm.namespace vm.name) × IsFound get vm) vms
      → AlignedMap Mine get m (align_vms mac vms m)
  unfolding align_vms
  align_vms-KeepsMap mac [] m h = (KeepsMap-refl m, tt)
  align_vms-KeepsMap mac (vm ∷ vms) m ((h, found), hs) =
      let first = align-KeepsMap (vm_namespaced vm.namespace vm.name) h vm.interfaces mac m in
      let rest = align_vms-KeepsMap mac vms _ hs in
      if_split (AlignedMap Mine get m) (not vm.has_template)
        (λ bare. (KeepsMap-refl m, (refl, (vm, found, ground arith))))
        (λ _. (KeepsMap-trans first rest.0, rest.1))

  align_stale-KeepsMap :
      (macs : GoMap (List VirtualMachine)) (m : MacMap)
      → AllValues (All (λ vm. Mine (vm_namespaced vm.namespace vm.name) × IsFound get vm)) macs
      → AlignedMap Mine get m (align_stale macs m)
  unfolding align_stale
  align_stale-KeepsMap [] m h = (KeepsMap-refl m, tt)
  align_stale-KeepsMap ((mac, vms) ∷ macs) m (h, hs) =
      go (align_vms mac vms m) (align_vms-KeepsMap mac vms m h)
        (align_stale-KeepsMap macs (align_vms mac vms m).0 hs)
    where
      go :
          (r : MacMap × Result (Unit {0}))
          → AlignedMap Mine get m r
          → AlignedMap Mine get r.0 (align_stale macs r.0)
          → AlignedMap Mine get m (elim r.1 as (λ _. MacMap × Result (Unit {0})) [
            | err e ↦ (r.0, err e)
            | ok _ ↦ align_stale macs r.0
          ])
      go (m', err e) (keeps, panics) rest = (keeps, panics)
      go (m', ok u) (keeps, panics) rest = (KeepsMap-trans keeps rest.0, rest.1)

-- For a set of instance names that covers the machines that getvmInstance finds and the instances
-- with an expired entry, in a pool with a proper range, a round of healStaleMacEntries that fails
-- leaves the pool as it was, unless it panics at a machine without a template that a look-up finds,
-- and one that panics so or succeeds keeps the range invariant and the absence of empty keys, and
-- changes no entry of an instance outside the set, its transaction time included.
pub heal_stale_mac_entries-Healed :
    (Mine : Text → Type 0) (get : Text → Text → Answer VirtualMachine) (now : ℕ) (p : PoolManager)
    → ((n : Text) (vm : VirtualMachine)
        → getvm_instance get n ≡ ok (some vm)
        → Mine (vm_namespaced vm.namespace vm.name))
    → AllEntries
        (λ e. has_expired_transaction now p.wait_time e ≡ true → Mine e.instance_name)
        p.mac_pool_map
    → IsRanged p
    → Healed Mine get p (heal_stale_mac_entries get now p)
unfolding heal_stale_mac_entries
heal_stale_mac_entries-Healed Mine get now p finds expired ranged =
    let none_yet : Stale = record { to_remove = []; to_align = [] } in
    go (stale_macs get now p.wait_time p.mac_pool_map none_yet)
      (stale_macs-Collects Mine get now p.wait_time finds p.mac_pool_map none_yet expired (tt, tt))
  where
    aligned :
        (start : MacMap) (r : MacMap × Result (Unit {0}))
        → KeepsMap Mine p.mac_pool_map start
        → AlignedMap Mine get start r
        → Healed Mine get p (record p { mac_pool_map = r.0 }, r.1)
    aligned start (m', err e) first (keeps, panics) =
        inr (panics.0, panics.1, Keeps-map ranged (KeepsMap-trans first keeps))
    aligned start (m', ok u) first (keeps, panics) = Keeps-map ranged (KeepsMap-trans first keeps)

    go :
        (r : Result Stale)
        → Collects Mine get now p.wait_time finds r
        → Healed Mine get p (elim r as (λ _. PoolManager × Result (Unit {0})) [
          | err e ↦ (p, err e)
          | ok s ↦
              if length s.to_remove == 0 && length s.to_align == 0
              then (p, ok tt)
              else (let aligned =
                    align_stale s.to_align (remove_stale s.to_remove p.mac_pool_map) in
                  (record p { mac_pool_map = aligned.0 }, aligned.1))
        ])
    go (err e) h = inl refl
    go (ok s) (removes, aligns) =
        if_intro (Healed Mine get p) (length s.to_remove == 0 && length s.to_align == 0)
          (Keeps-refl ranged)
          (aligned _ _ (remove_stale-KeepsMap get s.to_remove p.mac_pool_map removes)
            (align_stale-KeepsMap get s.to_align _ aligns))
