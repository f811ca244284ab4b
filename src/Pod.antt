-- ===== src/Pod.antt =====
-- pkg/pool-manager/pod_pool.go: the allocation and release of the addresses of pods. The JSON
-- codec of the standard library and the cluster's client are arguments: `unmarshal` gives the
-- elements of a list of networks, of which one may be a nil pointer, and `marshal` prints them.
pub mod Allocation
use kubemacpool.Prelude.{
  Bool, true, false, not, Option, none, some, List, [], ◌∷◌, ◌++◌, Text, codes, text_eq, GoMap,
  lookup, insert, has_key, any_of, length, ◌==◌, ◌||◌, if◌then◌else◌, Result, ok, err, Error, ◌>>=◌,
}
use kubemacpool.Net.{parse_mac, mac_string}
use kubemacpool.Kubevirt.{VirtualMachine, Answer, not_found, NetworkSelection, OwnerReference, Pod}
use kubemacpool.Pool.{PoolManager, get_free_mac}
use kubemacpool.Vm.{record_entry, revert_allocation}

abbrev pub temp_pod_name : Text
temp_pod_name = codes "tempPodName"

abbrev pub network_attachment_annot : Text
network_attachment_annot = codes "k8s.v1.cni.cncf.io/networks"

abbrev pub network_status_annot : Text
network_status_annot = codes "k8s.v1.cni.cncf.io/network-status"

unfoldable pub pod_namespaced : Text → Text → Text
pod_namespaced namespace name = codes "pod/" ++ (namespace ++ b'/' ∷ name)

-- The loop that fills in the namespace; a nil element makes it panic.
unfoldable pub default_namespaces :
    Text → List (Option NetworkSelection) → Result (List NetworkSelection)
default_namespaces namespace [] = ok []
default_namespaces namespace (none ∷ networks) = err Error.panic
default_namespaces namespace (some n ∷ networks) =
    let n' = if text_eq n.namespace [] then record n { namespace = namespace } else n in
    default_namespaces namespace networks >>= λ rest. ok (n' ∷ rest)

-- `strings.IndexAny(podNetworks, "[{\"") >= 0`
unfoldable pub looks_like_json : Text → Bool
looks_like_json = any_of (λ c. c == b'[' || c == b'{' || c == 34)

unfoldable pub parse_pod_network_annotation :
    (Text → Option (List (Option NetworkSelection))) → Text → Text → Result (List NetworkSelection)
parse_pod_network_annotation unmarshal pod_networks default_namespace =
    if text_eq pod_networks []
    then err Error.bad_annotation
    else if looks_like_json pod_networks
    then elim (unmarshal pod_networks) [
      | none ↦ err Error.bad_annotation
      | some networks ↦ default_namespaces default_namespace networks
    ]
    else ok []

-- The first owner that is a virtual machine instance decides: the pod belongs to KubeVirt unless
-- the client says that there is no such machine.
unfoldable pub is_related_to_kubevirt :
    (Text → Text → Answer VirtualMachine) → Text → List OwnerReference → Bool
is_related_to_kubevirt get namespace [] = false
is_related_to_kubevirt get namespace (ref ∷ refs) =
    let rest = is_related_to_kubevirt get namespace refs in
    if text_eq ref.kind (codes "VirtualMachineInstance")
    then (elim (get namespace ref.name) [ not_found ↦ false | _ ↦ true ])
    else rest

-- The name under which an entry of the pod is made.
unfoldable pub entry_name : Pod → Text
entry_name pod =
    if text_eq pod.name [] then temp_pod_name else pod_namespaced pod.namespace pod.name

unfoldable pub allocate_pod_requested_mac :
    NetworkSelection → Pod → Bool → PoolManager → PoolManager × Result (Unit {0})
allocate_pod_requested_mac network pod live p = elim (parse_mac network.mac_request) [
  | none ↦ (p, err Error.invalid_mac)
  | some hw ↦ (record_entry live network.mac_request (entry_name pod) network.name p, ok tt)
]

unfoldable pub allocate_pod_from_pool :
    NetworkSelection → Pod → Bool → PoolManager → PoolManager × Result Text
allocate_pod_from_pool network pod live p =
    let (p', freed) = get_free_mac p in
    elim freed [
      | err e ↦ (p', err e)
      | ok mac ↦
          (record_entry live (mac_string mac) (entry_name pod) network.name p', ok (mac_string mac))
    ]

-- One round of the loop of AllocatePodMac.
unfoldable pub allocate_network :
    Pod
    → Bool
    → NetworkSelection
    → GoMap Text
    → PoolManager
    → PoolManager × Result (NetworkSelection × GoMap Text)
allocate_network pod live network news p =
    let pod_full_name = pod_namespaced pod.namespace pod.name in
    if not (text_eq network.mac_request [])
    then (let (p', done) = allocate_pod_requested_mac network pod live p in
        elim done [
          | err e ↦ (revert_allocation pod_full_name news live p', err e)
          | ok _ ↦ (p', ok (network, insert network.name network.mac_request news))
        ])
    else (let (p', done) = allocate_pod_from_pool network pod live p in
        elim done [
          | err e ↦ (revert_allocation pod_full_name news live p', err e)
          | ok mac ↦ (p', ok (record network { mac_request = mac }, insert network.name mac news))
        ])

unfoldable pub allocate_networks :
    Pod
    → Bool
    → List NetworkSelection
    → GoMap Text
    → PoolManager
    → PoolManager × Result (List NetworkSelection)
allocate_networks pod live [] news p = (p, ok [])
allocate_networks pod live (network ∷ networks) news p =
    let step = allocate_network pod live network news p in
    elim step.1 [
      | err e ↦ (step.0, err e)
      | ok (network', news') ↦
          let rest = allocate_networks pod live networks news' step.0 in
          (rest.0, rest.1 >>= λ ns. ok (network' ∷ ns))
    ]

-- The inner loop of initPodMap: a requested address that does not parse is skipped.
unfoldable pub init_pod_networks : Pod → List NetworkSelection → PoolManager → PoolManager
init_pod_networks pod [] p = p
init_pod_networks pod (network ∷ networks) p = init_pod_networks pod networks (
    if text_eq network.mac_request [] then p else (allocate_pod_requested_mac network pod true p).0)

module _ (unmarshal : Text → Option (List (Option NetworkSelection)))
    (marshal : List NetworkSelection → Text) (get : Text → Text → Answer VirtualMachine) where
  unfoldable pub allocate_pod_mac : Pod → Bool → PoolManager → PoolManager × Result Pod
  allocate_pod_mac pod live p =
      let allocate : List NetworkSelection → PoolManager × Result Pod = λ networks.
        let run = allocate_networks pod live networks [] p in
        (
          run.0,
          run.1 >>= λ ns. ok (record pod {
            annotations = insert network_attachment_annot (marshal ns) pod.annotations;
          }),
        ) in
      elim (lookup network_attachment_annot pod.annotations) [
        | none ↦ (p, ok pod)
        | some network_value ↦
            if has_key network_status_annot pod.annotations
            then (p, ok pod)
            else elim (parse_pod_network_annotation unmarshal network_value pod.namespace) [
              | err e ↦ (p, err e)
              | ok networks ↦
                  if length networks == 0
                  then (p, ok pod)
                  else if is_related_to_kubevirt get pod.namespace pod.owner_references
                  then (p, ok pod)
                  else allocate networks
            ]
      ]

module _ (unmarshal : Text → Option (List (Option NetworkSelection)))
    (get : Text → Text → Answer VirtualMachine) where
  unfoldable pub init_pod : Pod → PoolManager → PoolManager
  init_pod pod p = elim (lookup network_attachment_annot pod.annotations) [
    | none ↦ p
    | some network_value ↦
        elim (parse_pod_network_annotation unmarshal network_value pod.namespace) [
          | err e ↦ p
          | ok networks ↦
              if length networks == 0
              then p
              else if is_related_to_kubevirt get pod.namespace pod.owner_references
              then p
              else init_pod_networks pod networks p
        ]
  ]

  -- The callback of initPodMap on one page of pods.
  unfoldable pub init_pods : List Pod → PoolManager → PoolManager
  init_pods [] p = p
  init_pods (pod ∷ pods) p = init_pods pods (init_pod pod p)
