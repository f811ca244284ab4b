-- ===== src/Pod/Allocation.antt =====
-- What AllocatePodMac of pkg/pool-manager/pod_pool.go keeps.
use kubemacpool.Prelude.{
  ◌≡◌, ◌⊎◌, inl, inr, refl, Bool, not, Option, none, some, List, [], ◌∷◌, Text, text_eq, GoMap,
  insert, lookup, has_key, length, ◌==◌, if_intro, if_split, text_eq_iff, if◌then◌else◌, Result, ok,
  err, Option-cases, ◌>>=◌,
}
use kubemacpool.Net.{parse_mac, mac_string}
use kubemacpool.Kubevirt.{VirtualMachine, Answer, NetworkSelection, Pod}
use kubemacpool.Pool.{PoolManager, get_free_mac}
use kubemacpool.Pool.FreeMac.{IsRanged}
use kubemacpool.Pool.Keeps.{Keeps, Keeps-refl, Keeps-step, get_free_mac-Keeps}
use kubemacpool.Vm.Allocation.{record_entry-Keeps, revert_allocation-Keeps}
use kubemacpool.Pod.{
  true, temp_pod_name, network_attachment_annot, network_status_annot, pod_namespaced,
  parse_pod_network_annotation, is_related_to_kubevirt, entry_name, allocate_pod_requested_mac,
  allocate_pod_from_pool, allocate_network, allocate_networks, allocate_pod_mac,
}

-- The names under which entries of the pod are made and taken back, unless in a dry run: its own
-- and, where it has no name yet, the one for such pods.
abbrev pub IsNameOf : Pod → Bool → Text → Type 0
IsNameOf pod live n =
    (live ≡ true)
    × ((n ≡ pod_namespaced pod.namespace pod.name) ⊎ ((pod.name ≡ []) × (n ≡ temp_pod_name)))

-- The pool after a step, whatever its outcome.
abbrev After {ℓ} : {A : Type ℓ} → Pod → Bool → PoolManager → PoolManager × A → Type 0
After pod live p r = Keeps (IsNameOf pod live) p r.0

module _ (pod : Pod) (live : Bool) where
  entry_name-IsNameOf : live ≡ true → IsNameOf pod live (entry_name pod)
  unfolding entry_name
  entry_name-IsNameOf runs =
      if_split (IsNameOf pod live) (text_eq pod.name [])
        (λ unnamed. (runs, inr ((text_eq_iff pod.name []).0 unnamed, refl)))
        (λ named. (runs, inl refl))

  pub pod_requested-Keeps :
      (network : NetworkSelection) (p : PoolManager)
      → IsRanged p
      → Keeps (IsNameOf pod live) p (allocate_pod_requested_mac network pod live p).0
  unfolding allocate_pod_requested_mac
  pod_requested-Keeps network p ranged = elim (Option-cases (parse_mac network.mac_request)) [
    | inl e ↦ rw (e, allocate_pod_requested_mac) (Keeps-refl ranged)
    | inr (hw, e) ↦
        rw (e, allocate_pod_requested_mac)
          (record_entry-Keeps (entry_name pod) live entry_name-IsNameOf network.mac_request
            network.name p ranged)
  ]

  pod_drawn-Keeps :
      (network : NetworkSelection) (p : PoolManager)
      → IsRanged p
      → Keeps (IsNameOf pod live) p (allocate_pod_from_pool network pod live p).0
  unfolding allocate_pod_from_pool
  pod_drawn-Keeps network p ranged =
      let (keeps, same) = get_free_mac-Keeps p ranged in
      Keeps-step (get_free_mac p).1 _ _ keeps
        (λ mac e.
          record_entry-Keeps (entry_name pod) live entry_name-IsNameOf (mac_string mac) network.name
            _ keeps.ranged)
        (λ e. Keeps-refl keeps.ranged)

  allocate_network-Keeps :
      (network : NetworkSelection) (news : GoMap Text) (p : PoolManager)
      → IsRanged p
      → Keeps (IsNameOf pod live) p (allocate_network pod live network news p).0
  unfolding allocate_network
  allocate_network-Keeps network news p ranged =
      let n = pod_namespaced pod.namespace pod.name in
      let asked = pod_requested-Keeps network p ranged in
      let drawn = pod_drawn-Keeps network p ranged in
      if_intro (After pod live p) (not (text_eq network.mac_request []))
        (Keeps-step _ _ _ asked (λ a e. Keeps-refl asked.ranged)
          (λ e. revert_allocation-Keeps n live (λ runs. (runs, inl refl)) news _ asked.ranged))
        (Keeps-step _ _ _ drawn (λ a e. Keeps-refl drawn.ranged)
          (λ e. revert_allocation-Keeps n live (λ runs. (runs, inl refl)) news _ drawn.ranged))

  allocate_networks-Keeps :
      (networks : List NetworkSelection) (news : GoMap Text) (p : PoolManager)
      → IsRanged p
      → Keeps (IsNameOf pod live) p (allocate_networks pod live networks news p).0
  unfolding allocate_networks
  allocate_networks-Keeps [] news p ranged = Keeps-refl ranged
  allocate_networks-Keeps (network ∷ networks) news p ranged =
      let first = allocate_network-Keeps network news p ranged in
      Keeps-step _ _ _ first
        (λ (a : NetworkSelection × GoMap Text) e.
          allocate_networks-Keeps networks a.1 _ first.ranged)
        (λ e. Keeps-refl first.ranged)

module _ (unmarshal : Text → Option (List (Option NetworkSelection)))
    (marshal : List NetworkSelection → Text) (get : Text → Text → Answer VirtualMachine) (pod : Pod)
    (live : Bool) (p : PoolManager) where
  -- In a pool with a proper range, AllocatePodMac keeps, whatever it returns, the range invariant
  -- and the absence of empty keys, and changes entries only of the pod and, where it has no
  -- name, of the name that stands for such pods, and no entry in a dry run.
  pub allocate_pod_mac-Keeps :
      IsRanged p → Keeps (IsNameOf pod live) p (allocate_pod_mac unmarshal marshal get pod live p).0
  unfolding allocate_pod_mac
  allocate_pod_mac-Keeps ranged = go (lookup network_attachment_annot pod.annotations)
    where
      allocate : List NetworkSelection → PoolManager × Result Pod
      allocate networks =
          let run = allocate_networks pod live networks [] p in
          (
            run.0,
            run.1 >>= λ ns. ok (record pod {
              annotations = insert network_attachment_annot (marshal ns) pod.annotations;
            }),
          )

      parsed :
          (r : Result (List NetworkSelection))
          → After pod live p (elim r as (λ _. PoolManager × Result Pod) [
            | err e ↦ (p, err e)
            | ok networks ↦
                if length networks == 0
                then (p, ok pod)
                else if is_related_to_kubevirt get pod.namespace pod.owner_references
                then (p, ok pod)
                else allocate networks
          ])
      parsed (err e) = Keeps-refl ranged
      parsed (ok networks) =
          if_intro (After pod live p) (length networks == 0) (Keeps-refl ranged) (
            if_intro (After pod live p)
              (is_related_to_kubevirt get pod.namespace pod.owner_references) (Keeps-refl ranged)
              (allocate_networks-Keeps pod live networks [] p ranged))

      go :
          (o : Option Text)
          → After pod live p (elim o as (λ _. PoolManager × Result Pod) [
            | none ↦ (p, ok pod)
            | some network_value ↦
                if has_key network_status_annot pod.annotations
                then (p, ok pod)
                else elim (parse_pod_network_annotation unmarshal network_value pod.namespace) [
                  | err e ↦ (p, err e)
                  | ok networks ↦
                      if length networks == 0
                      then (p, ok pod)
                      else if is_related_to_kubevirt get pod.namespace pod.owner_references
                      then (p, ok pod)
                      else allocate networks
                ]
          ])
      go none = Keeps-refl ranged
      go (some network_value) =
          if_intro (After pod live p) (has_key network_status_annot pod.annotations)
            (Keeps-refl ranged)
            (parsed (parse_pod_network_annotation unmarshal network_value pod.namespace))
