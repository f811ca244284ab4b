-- ===== src/Vm/Served.antt =====
-- When an interface of a virtual machine has been served (AllocateVirtualMachineMac of
-- pkg/pool-manager/virtualmachine_pool.go): it has the address that it asked for, or a fresh one.
use kubemacpool.Prelude.{
  ◌≡◌, refl, subst, Bool, true, false, List, [], ◌∷◌, Text, text_eq, GoMap, has_key, lookup, Result,
  ok, err, Error, ok_inj, Bool-cases, Option-cases, get_or_zero_missing, inl, inr,
}
use kubemacpool.Net.{new_mac_key}
use kubemacpool.Kubevirt.{Interface, Network}
use kubemacpool.MacMap.{MacMap}
use kubemacpool.MacMap.View.{holds}
use kubemacpool.Pool.{PoolManager}
use kubemacpool.Pool.Keeps.{Grows}
use kubemacpool.Vm.{is_interface_supported}

-- Nobody holds the address.
abbrev pub IsFresh : MacMap → Text → Type 0
IsFresh m k = (n i : Text) → holds m k n i ≡ false

-- What the interface `i` becomes. The flags say whether it is supported, and whether its address is
-- empty: an address that is asked for is entered; an empty one is filled in with an address that
-- nobody held in `m`; an interface that is not supported is left alone.
abbrev pub Served : Bool → Bool → Text → MacMap → MacMap → Interface → Interface → Type 0
Served false empty n m m' i j = j ≡ i
Served true false n m m' i j = (j ≡ i) × (holds m' (new_mac_key i.mac_address) n i.name ≡ true)
Served true true n m m' i j =
    (j ≡ record i { mac_address = j.mac_address })
    × IsFresh m (new_mac_key j.mac_address)
    × (holds m' (new_mac_key j.mac_address) n i.name ≡ true)

-- The same, interface by interface.
abbrev pub AllServed :
    Text → GoMap Network → MacMap → MacMap → List Interface → List Interface → Type 0
AllServed n networks m m' [] [] = Unit
AllServed n networks m m' (i ∷ is) (j ∷ js) =
    Served (is_interface_supported i networks) (text_eq i.mac_address []) n m m' i j
    × AllServed n networks m m' is js
AllServed n networks m m' _ _ = ⊥

-- A property of a successful outcome.
abbrev pub OnOk {ℓ} : {A : Type ℓ} → (PoolManager → A → Type 0) → PoolManager × Result A → Type 0
OnOk P (p, ok a) = P p a
OnOk P (p, err e) = Unit

pub OnOk-step {ℓ κ} :
    {A : Type ℓ} {B : Type κ} (P : PoolManager → B → Type 0) (r : Result A)
    (f : A → PoolManager × Result B) (q : Error → PoolManager)
    → ((a : A) → r ≡ ok a → OnOk P (f a))
    → OnOk P (elim r as (λ _. PoolManager × Result B) [ ok a ↦ f a | err e ↦ (q e, err e) ])
OnOk-step P (ok a) f q h = h a refl
OnOk-step P (err e) f q h = tt

pub missing-IsFresh : (k : Text) (m : MacMap) → has_key k m ≡ false → IsFresh m k
unfolding holds has_key
missing-IsFresh k m h n i = elim (Option-cases (lookup k m)) [
  | inl e ↦ rw (get_or_zero_missing [] k m e)
  | inr (es, e) ↦ cc (rw (e, has_key) at h)
]

IsFresh-Grows : (k : Text) (m m' : MacMap) → Grows m m' → IsFresh m' k → IsFresh m k
IsFresh-Grows k m m' grows fresh n i = elim (Bool-cases (holds m k n i)) [
  | inl h ↦ cc (grows k n i h, fresh n i)
  | inr h ↦ h
]

-- An earlier start and a later end.
pub Served-Grows :
    (supported empty : Bool) (n : Text) (a b c d : MacMap) (i j : Interface)
    → Grows a b
    → Grows c d
    → Served supported empty n b c i j
    → Served supported empty n a d i j
Served-Grows false empty n a b c d i j before after h = h
Served-Grows true false n a b c d i j before after (e, held) = (e, after _ _ _ held)
Served-Grows true true n a b c d i j before after (e, fresh, held) =
    (e, IsFresh-Grows _ a b before fresh, after _ _ _ held)

pub AllServed-Grows :
    (n : Text) (networks : GoMap Network) (a b c d : MacMap) (is js : List Interface)
    → Grows a b
    → Grows c d
    → AllServed n networks b c is js
    → AllServed n networks a d is js
AllServed-Grows n networks a b c d [] [] before after h = tt
AllServed-Grows n networks a b c d (i ∷ is) (j ∷ js) before after (h, hs) = (
  Served-Grows _ _ n a b c d i j before after h,
  AllServed-Grows n networks a b c d is js before after hs,
)
AllServed-Grows n networks a b c d [] (j ∷ js) before after h = absurd h
AllServed-Grows n networks a b c d (i ∷ is) [] before after h = absurd h

pub Grows-refl : (m : MacMap) → Grows m m
Grows-refl m k n i held = held

pub OnOk-get {ℓ} :
    {A : Type ℓ} (P : PoolManager → A → Type 0) (r : PoolManager × Result A) {a : A}
    → OnOk P r
    → r.1 ≡ ok a
    → P r.0 a
OnOk-get P (p, ok b) h e = subst (P p) (ok_inj e) h
OnOk-get P (p, err b) h e = cc
