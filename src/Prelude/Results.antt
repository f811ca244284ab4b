-- ===== src/Prelude/Results.antt =====
-- What a Go function that returns `(A, error)` gives. `panic` is an index out of range;
-- `out_of_fuel` is the mark of a loop of the model that ran out of fuel.
use Prim.Native.Nat.{ℕ, zero, suc}
use mathlib.Core.List.{List, [], ◌∷◌}
use mathlib.Core.Path.{◌≡◌, refl}
use mathlib.Core.Logic.{◌⊎◌, inl, inr}

pub data Error : Type 0 where
  panic : Error
  invalid_range invalid_cast invalid_hw_addr : Error
  invalid_pool_size random_failed : Error
  range_full out_of_fuel : Error
  invalid_mac duplicate_mac duplicate_interface duplicate_allocation : Error
  entry_not_found : Error
  opt_mode_undefined no_namespace_selector selector_failed : Error
  webhook_not_found not_found client_failed : Error
  bad_instance_name bad_annotation range_key_missing : Error
  bad_timestamp bad_request patch_failed no_manager_pod invalid_tls_version : Error
  variable_missing : Error

pub data Result {ℓ} (A : Type ℓ) : Type ℓ where
  ok : A → Result A
  err : Error → Result A

pub Result-cases {ℓ} :
    {A : Type ℓ} (r : Result A) → ((a : A) × (r ≡ ok a)) ⊎ ((e : Error) × (r ≡ err e))
Result-cases (ok a) = inl (a, refl)
Result-cases (err e) = inr (e, refl)

-- The rest of a function after a call that may fail. It is `abbrev`, so that it computes on `ok`.
infixl 5 ◌>>=◌
abbrev pub ◌>>=◌ {ℓ κ} :
    {Value : Type ℓ} {Next : Type κ} → Result Value → (Value → Result Next) → Result Next
err e >>= next = err e
ok v >>= next = next v

-- Go's `xs[i]`, which panics out of range.
abbrev pub index {ℓ} : {A : Type ℓ} → List A → ℕ → Result A
index [] i = err panic
index (x ∷ xs) zero = ok x
index (x ∷ xs) (suc i) = index xs i

-- `if err := check(); err != nil { return err }`
infixl 5 ◌>>◌
abbrev pub ◌>>◌ {ℓ} : {Next : Type ℓ} → Result (Unit {0}) → Result Next → Result Next
check >> after = check >>= λ _. after

-- Inversion of a successful bind.
pub >>=-eq-ok {ℓ κ} :
    {Value : Type ℓ} {Next : Type κ} (call : Result Value) (next : Value → Result Next) {w : Next}
    → (call >>= next) ≡ ok w
    → (v : Value) × (call ≡ ok v) × (next v ≡ ok w)
>>=-eq-ok (err e) next h = cc
>>=-eq-ok (ok v) next h = (v, refl, h)

pub ok_inj {ℓ} : {A : Type ℓ} {a b : A} → ok a ≡ ok b → a ≡ b
ok_inj e = cc
