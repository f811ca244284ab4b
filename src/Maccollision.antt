-- ===== src/Maccollision.antt =====
-- pkg/controller/maccollision: which objects collide with the one that is reconciled. This file
-- holds the indexers (cache.go), the migration filter (migration.go) and the candidates
-- (vmi_candidates.go, pod_candidates.go); Controllers has the reconcilers, Predicates the event
-- filters. The client's indexed List and the namespace checks are arguments; `none` is an error.
pub mod Controllers
pub mod Predicates
pub mod Migration
pub mod Candidates
pub mod Mapping
use kubemacpool.Prelude.{
  Bool, true, false, not, ◌&&◌, ◌||◌, Option, none, some, List, [], ◌∷◌, Text, codes, text_eq,
  GoMap, lookup, insert, has_key, any_of, keep_if, if◌then◌else◌, Result, ok, err, Error, ◌>>=◌,
}
use kubemacpool.Net.{normalize_mac_address}
use kubemacpool.Kubevirt.{
  Interface, Network, Vmi, StatusInterface, MigrationState, Pod, NetworkSelection, is_running,
}
use kubemacpool.Vm.{is_interface_supported, network_map}
use kubemacpool.Pod.{network_status_annot}

-- The names of the interfaces that KubeMacPool allocates for.
unfoldable pub managed_interfaces : List Interface → GoMap Network → List Text
managed_interfaces [] networks = []
managed_interfaces (iface ∷ ifaces) networks =
    let rest = managed_interfaces ifaces networks in
    if is_interface_supported iface networks then iface.name ∷ rest else rest

unfoldable pub has_text : Text → List Text → Bool
has_text t = any_of (λ u. text_eq u t)

unfoldable pub status_macs : List Text → List StatusInterface → List Text
status_macs managed [] = []
status_macs managed (s ∷ ss) =
    let rest = status_macs managed ss in
    let normalized : List Text = elim (normalize_mac_address s.mac) [
      | err e ↦ rest
      | ok mac ↦ mac ∷ rest
    ] in
    if not (has_text s.name managed) || text_eq s.mac [] then rest else normalized

unfoldable pub supported_macs_from_vmi : Vmi → List Text
supported_macs_from_vmi vmi =
    status_macs (managed_interfaces vmi.interfaces (network_map vmi.networks []))
      vmi.status_interfaces

unfoldable pub index_vmi_by_mac : Vmi → List Text
index_vmi_by_mac vmi = supported_macs_from_vmi vmi

unfoldable pub requested_macs : List NetworkSelection → List Text → List Text
requested_macs [] seen = []
requested_macs (n ∷ ns) seen =
    let skipped = requested_macs ns seen in
    let normalized : List Text = elim (normalize_mac_address n.mac_request) [
      | err e ↦ skipped
      | ok mac ↦
          let fresh = mac ∷ requested_macs ns (mac ∷ seen) in
          if has_text mac seen then skipped else fresh
    ] in
    if text_eq n.mac_request [] then skipped else normalized

-- What the cache of the manager keeps of a pod. Of a machine instance it keeps all that the program
-- reads, of the fields of a pod all but the owners.
unfoldable pub strip_pod_for_collision_detection : Pod → Pod
strip_pod_for_collision_detection pod = record {
  namespace = pod.namespace;
  name = pod.name;
  uid = pod.uid;
  annotations = pod.annotations;
  labels = pod.labels;
  owner_references = [];
  phase = pod.phase;
  has_annotations = pod.has_annotations;
}

-- `parse` is the network annotation parser of the network-attachment-definition client.
unfoldable pub index_pod_by_mac : (Pod → Option (List NetworkSelection)) → Pod → List Text
index_pod_by_mac parse pod =
    if has_key network_status_annot pod.annotations
    then (elim (parse pod) [ none ↦ [] | some networks ↦ requested_macs networks [] ])
    else []

abbrev pub app_label : Text
app_label = codes "kubevirt.io"

-- A missing label is the empty text.
unfoldable pub is_kubevirt_owned : Pod → Bool
is_kubevirt_owned pod = elim (lookup app_label pod.labels) [
  | none ↦ false
  | some v ↦ text_eq v (codes "virt-launcher")
]

unfoldable pub list_running_vmis_by_mac : (Text → Option (List Vmi)) → Text → Result (List Vmi)
list_running_vmis_by_mac list mac = elim (list mac) [
  | none ↦ err Error.client_failed
  | some vmis ↦ ok (keep_if (λ v. is_running v.phase) vmis)
]

unfoldable pub list_running_vmis_by_mac_with_exclude_uid :
    (Text → Option (List Vmi)) → Text → Text → Result (List Vmi)
list_running_vmis_by_mac_with_exclude_uid list mac exclude_uid = elim (list mac) [
  | none ↦ err Error.client_failed
  | some vmis ↦ ok (keep_if (λ v. is_running v.phase && not (text_eq v.uid exclude_uid)) vmis)
]

-- The namespaces that are known to be managed are carried along; an error counts as managed.
unfoldable pub filter_managed_vmis : (Text → Option Bool) → List Vmi → List Text → List Vmi
filter_managed_vmis managed [] known = []
filter_managed_vmis managed (v ∷ vs) known =
    let seen = v ∷ filter_managed_vmis managed vs known in
    let learnt = v ∷ filter_managed_vmis managed vs (v.namespace ∷ known) in
    let skipped = filter_managed_vmis managed vs known in
    let asked : List Vmi = elim (managed v.namespace) [
      | none ↦ learnt
      | some true ↦ learnt
      | some false ↦ skipped
    ] in
    if has_text v.namespace known then seen else asked

unfoldable pub list_running_pods_with_mac : (Text → Option (List Pod)) → Text → Result (List Pod)
list_running_pods_with_mac list mac = elim (list mac) [
  | none ↦ err Error.client_failed
  | some pods ↦ ok (keep_if (λ p. is_running p.phase) pods)
]

unfoldable pub exclude_pod_uid : List Pod → Text → List Pod
exclude_pod_uid pods exclude_uid = keep_if (λ p. not (text_eq p.uid exclude_uid)) pods

unfoldable pub filter_managed_pods : (Text → Option Bool) → List Pod → List Text → List Pod
filter_managed_pods managed [] known = []
filter_managed_pods managed (p ∷ ps) known =
    let seen = p ∷ filter_managed_pods managed ps known in
    let learnt = p ∷ filter_managed_pods managed ps (p.namespace ∷ known) in
    let skipped = filter_managed_pods managed ps known in
    let asked : List Pod = elim (managed p.namespace) [
      | none ↦ learnt
      | some true ↦ learnt
      | some false ↦ skipped
    ] in
    if is_kubevirt_owned p then skipped else if has_text p.namespace known then seen else asked

unfoldable pub filter_collision_candidate_pods : (Text → Option Bool) → List Pod → Text → List Pod
filter_collision_candidate_pods managed pods reconciled_namespace =
    filter_managed_pods managed pods (reconciled_namespace ∷ [])

abbrev pub uid_or_empty : Option Text → Text
uid_or_empty none = []
uid_or_empty (some uid) = uid

unfoldable pub extract_migration_uids : Vmi → Text × Text
extract_migration_uids vmi = elim vmi.migration_state [
  | none ↦ ([], [])
  | some s ↦ (uid_or_empty s.source_state, uid_or_empty s.target_state)
]

unfoldable pub shares_active_migration : Text → Text → Vmi → Bool
shares_active_migration source_uid target_uid vmi = elim vmi.migration_state [
  | none ↦ false
  | some s ↦
      let duplicate = extract_migration_uids vmi in
      if not (text_eq source_uid []) && text_eq source_uid duplicate.0
      then true
      else not (text_eq target_uid []) && text_eq target_uid duplicate.1
]

unfoldable pub filter_out_decentralized_migrations : Vmi → List Vmi → List Vmi
filter_out_decentralized_migrations reconciled duplicates =
    let uids = extract_migration_uids reconciled in
    if text_eq uids.0 [] && text_eq uids.1 []
    then duplicates
    else keep_if (λ d. not (shares_active_migration uids.0 uids.1 d)) duplicates
