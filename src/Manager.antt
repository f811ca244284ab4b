-- ===== src/Manager.antt =====
-- pkg/manager/manager.go and cmd/manager/main.go: what the program reads of its environment, and the
-- pool manager that a round of Run starts with. The environment and the discovery of the API server
-- are arguments; `none` is a variable that is not set, or an error.
pub mod Started
use kubemacpool.Prelude.{
  ℕ, zero, suc, ◌+◌, ◌-◌, ◌*◌, ◌<◌, ◌≤◌, ◌≡◌, ◌≢◌, ◌⊎◌, ◌↔◌, inl, inr, refl, sym, ap, ◌∙◌, subst,
  Bool, true, false, not, ◌&&◌, ◌||◌, Option, none, some, List, [], ◌∷◌, ◌++◌, Text, codes, text_eq,
  text_eq_iff, text_eq_refl, GoMap, lookup, insert, delete, has_key, get_or_zero, IsMap, length,
  any_of, keep_if, All, arith, if◌then◌else◌, ◌==◌, Bool-cases, Option-cases, Result-cases,
  if_intro, if_split, Result, ok, err, Error, ◌>>=◌, ◌>>◌,
}
use kubemacpool.Net.{HardwareAddr, parse_mac}
use kubemacpool.Collision.{Gauge}
use kubemacpool.Pool.{PoolManager, new_pool_manager}
use kubemacpool.Tls.{Config, new_config}

unfoldable pub load_mac_address_from_env_var : (Text → Option Text) → Text → Result HardwareAddr
load_mac_address_from_env_var env env_name = elim (env env_name) [
  | none ↦ err Error.variable_missing
  | some value ↦ elim (parse_mac value) [ none ↦ err Error.invalid_mac | some hw ↦ ok hw ]
]

-- The names of the resources of the group version "kubevirt.io/v1".
unfoldable pub check_for_kubevirt : Option (List Text) → Bool
check_for_kubevirt none = false
check_for_kubevirt (some resources) = any_of (λ r. text_eq r (codes "virtualmachines")) resources

pub record Settings : Type 0 where
  pub pod_namespace : Text
  pub pod_name : Text
  pub range_start : HardwareAddr
  pub range_end : HardwareAddr
  pub tls_config : Config

unfoldable pub lookup_env : (Text → Option Text) → Text → Result Text
lookup_env env name = elim (env name) [ none ↦ err Error.variable_missing | some value ↦ ok value ]

-- `tls` is NewConfig on the flags of the command line. An error ends the process.
unfoldable pub run_kubemacpool_manager : (Text → Option Text) → Result Config → Result Settings
run_kubemacpool_manager env tls = lookup_env env (codes "POD_NAMESPACE") >>= λ pod_namespace.
    lookup_env env (codes "POD_NAME") >>= λ pod_name.
    load_mac_address_from_env_var env (codes "RANGE_START") >>= λ range_start.
    load_mac_address_from_env_var env (codes "RANGE_END") >>= λ range_end. tls >>= λ tls_config.
    ok (record {
      pod_namespace = pod_namespace;
      pod_name = pod_name;
      range_start = range_start;
      range_end = range_end;
      tls_config = tls_config;
    })

-- The pool manager of a round of Run, on the gauge that the rounds before have left.
unfoldable pub round_pool :
    Gauge → (ℕ → Option ℕ) → Settings → Option (List Text) → ℕ → Result PoolManager
round_pool gauge random settings resources waiting_time =
    new_pool_manager gauge random settings.range_start settings.range_end settings.pod_namespace
      (check_for_kubevirt resources) waiting_time
