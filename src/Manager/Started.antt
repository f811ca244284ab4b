-- ===== src/Manager/Started.antt =====
-- The program from its start (cmd/manager/main.go and Run of pkg/manager/manager.go) on: the pool
-- that the range of the environment gives, and the states it reaches.
use kubemacpool.Prelude.{
  ok_inj, >>=-eq-ok, ℕ, ◌≡◌, refl, ap, ◌∙◌, subst, Option, none, some, List, Text, codes, length,
  Result, ok, err, Error,
}
use kubemacpool.Net.{HardwareAddr, parse_mac}
use kubemacpool.Net.RoundTrip.{IsHw, parse_mac-IsHw}
use kubemacpool.Mac.Random.{IsRandom}
use kubemacpool.Pool.{PoolManager, get_free_mac}
use kubemacpool.Pool.FreeMac.{Freed}
use kubemacpool.System.{Reach}
use kubemacpool.System.Orderly.{IsOrderly}
use kubemacpool.System.Reachable.{reachable-Freed}
use kubemacpool.Tls.{Config}
use kubemacpool.Manager.{
  [], Settings, load_mac_address_from_env_var, lookup_env, run_kubemacpool_manager,
  check_for_kubevirt, round_pool,
}

load-IsHw :
    (env : Text → Option Text) (name : Text) (m : HardwareAddr)
    → load_mac_address_from_env_var env name ≡ ok m
    → IsHw m
unfolding load_mac_address_from_env_var
load-IsHw env name m = go (env name)
  where
    parsed :
        (value : Text) (o : Option HardwareAddr)
        → parse_mac value ≡ o
        → (elim o as (λ _. Result HardwareAddr) [ none ↦ err Error.invalid_mac | some hw ↦ ok hw ])
          ≡ ok m
        → IsHw m
    parsed value none e h = absurd cc
    parsed value (some hw) e h = parse_mac-IsHw value m (e ∙ ap some (ok_inj h))

    go :
        (o : Option Text)
        → (elim o as (λ _. Result HardwareAddr) [
          | none ↦ err Error.variable_missing
          | some value ↦ elim (parse_mac value) [ none ↦ err Error.invalid_mac | some hw ↦ ok hw ]
        ])
          ≡ ok m
        → IsHw m
    go none h = absurd cc
    go (some value) h = parsed value (parse_mac value) refl h

-- The bounds of the settings are addresses.
settings-IsHw :
    (env : Text → Option Text) (tls : Result Config) (s : Settings)
    → run_kubemacpool_manager env tls ≡ ok s
    → IsHw s.range_start × IsHw s.range_end
unfolding run_kubemacpool_manager
settings-IsHw env tls s h =
    let (ns, e1, h1) = >>=-eq-ok (lookup_env env (codes "POD_NAMESPACE")) _ h in
    let (name, e2, h2) = >>=-eq-ok (lookup_env env (codes "POD_NAME")) _ h1 in
    let (first, e3, h3) =
      >>=-eq-ok (load_mac_address_from_env_var env (codes "RANGE_START")) _ h2 in
    let (last, e4, h4) = >>=-eq-ok (load_mac_address_from_env_var env (codes "RANGE_END")) _ h3 in
    let (config, e5, h5) = >>=-eq-ok tls _ h4 in
    let same = ok_inj h5 in
    (
      subst (λ (t : Settings). IsHw t.range_start) same (load-IsHw env _ first e3),
      subst (λ (t : Settings). IsHw t.range_end) same (load-IsHw env _ last e4),
    )

-- Where the environment has the names of the pod and bounds that parse as MAC-48 addresses, the TLS
-- settings are valid and the source of randomness is fair, and NewPoolManager accepts the bounds in
-- a round of Run that finds the gauge of the process empty, as the first round does, then after any
-- sequence of requests to the webhooks, reconciliations of machines, pods, collisions and config
-- maps with six-octet addresses, healings and start-ups, the range is one of MAC-48 addresses with
-- the current address inside it, each key of the map stands once and with an entry, the tracker of
-- the collisions is in order, and getFreeMac gives out a free address of the range or reports that
-- the whole range is taken.
pub started-Freed :
    (env : Text → Option Text) (tls : Result Config) (random : ℕ → Option ℕ) (s : Settings)
    (resources : Option (List Text)) (waiting_time : ℕ) (p q : PoolManager)
    → IsRandom random
    → run_kubemacpool_manager env tls ≡ ok s
    → length s.range_start ≡ 6
    → length s.range_end ≡ 6
    → round_pool [] random s resources waiting_time ≡ ok p
    → Reach p q
    → IsOrderly q × Freed q (get_free_mac q)
unfolding round_pool
started-Freed env tls random s resources waiting_time p q fair read first last starts reached =
    let (hs, ht) = settings-IsHw env tls s read in
    reachable-Freed random s.range_start s.range_end s.pod_namespace (check_for_kubevirt resources)
      waiting_time fair (first, hs.1) (last, ht.1) p q starts reached
