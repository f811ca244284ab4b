-- ===== src/Maccollision/Mapping.antt =====
-- Which objects of the other kind are reconciled after an event (mapPodToVMIs and mapVMIToPods of
-- pkg/controller/maccollision). A request names its object; `vmis_by_mac` and `pods_by_mac` are the
-- indexed lists of the client.
use kubemacpool.Prelude.{
  any_of-append, ◌≡◌, ◌↔◌, inl, inr, refl, ap, ◌∙◌, Bool, true, false, ◌&&◌, ◌||◌, Option, none,
  some, List, [], ◌∷◌, ◌++◌, Text, text_eq, text_eq_iff, text_eq_refl, any_of, arith, if◌then◌else◌,
  Bool-cases, Option-cases, if_split,
}
use kubemacpool.Kubevirt.{Vmi, Pod, NetworkSelection}
use kubemacpool.Maccollision.{index_vmi_by_mac, index_pod_by_mac}

abbrev pub NamespacedName : Type 0
NamespacedName = Text × Text

abbrev pub same_name : NamespacedName → NamespacedName → Bool
same_name a b = text_eq a.0 b.0 && text_eq a.1 b.1

-- The keys that were seen are those of the requests.
unfoldable pub add_requests : List NamespacedName → List NamespacedName → List NamespacedName
add_requests [] requests = requests
add_requests (key ∷ keys) requests =
    add_requests keys (if any_of (same_name key) requests then requests else requests ++ key ∷ [])

-- A list that fails is passed over.
unfoldable pub enqueue :
    (Text → Option (List NamespacedName)) → List Text → List NamespacedName → List NamespacedName
enqueue by_mac [] requests = requests
enqueue by_mac (mac ∷ macs) requests = elim (by_mac mac) [
  | none ↦ enqueue by_mac macs requests
  | some keys ↦ enqueue by_mac macs (add_requests keys requests)
]

unfoldable pub vmi_names : List Vmi → List NamespacedName
vmi_names [] = []
vmi_names (v ∷ vs) = (v.namespace, v.name) ∷ vmi_names vs

unfoldable pub pod_names : List Pod → List NamespacedName
pod_names [] = []
pod_names (pod ∷ pods) = (pod.namespace, pod.name) ∷ pod_names pods

-- Each request stands once.
abbrev pub IsDistinct : List NamespacedName → Type 0
IsDistinct [] = Unit
IsDistinct (key ∷ keys) = (any_of (same_name key) keys ≡ false) × IsDistinct keys

abbrev pub lists_name : (Text → Option (List NamespacedName)) → NamespacedName → Text → Bool
lists_name by_mac key mac = elim (by_mac mac) [
  | none ↦ false
  | some keys ↦ any_of (same_name key) keys
]

same_name_iff : (a b : NamespacedName) → (same_name a b ≡ true) ↔ (a ≡ b)
same_name_iff a b = (
  λ h. pair ((text_eq_iff a.0 b.0).0 (ground arith)) ((text_eq_iff a.1 b.1).0 (ground arith)),
  λ e. rw e (rw (text_eq_refl b.0) (text_eq_refl b.1)),
)
  where
    pair : {a b : NamespacedName} → a.0 ≡ b.0 → a.1 ≡ b.1 → a ≡ b
    pair e f = λ i. (e i, f i)

same_name_comm : (a b : NamespacedName) → same_name a b ≡ same_name b a
same_name_comm a b =
    ground
      (arith, text_eq_iff a.0 b.0, text_eq_iff b.0 a.0, text_eq_iff a.1 b.1, text_eq_iff b.1 a.1)

any_of-add_requests :
    (key : NamespacedName) (keys requests : List NamespacedName)
    → any_of (same_name key) (add_requests keys requests)
      ≡ (any_of (same_name key) requests || any_of (same_name key) keys)
unfolding add_requests
any_of-add_requests key [] requests = ground arith
any_of-add_requests key (k ∷ keys) requests = elim (Bool-cases (any_of (same_name k) requests)) [
  | inl seen ↦ rw seen (
      any_of-add_requests key keys requests ∙ elim (Bool-cases (same_name key k)) [
        | inl same ↦
            let there : any_of (same_name key) requests ≡ true =
              ap (λ a. any_of (same_name a) requests) ((same_name_iff key k).0 same) ∙ seen in
            rw there refl
        | inr other ↦ rw other refl
      ])
  | inr unseen ↦ rw unseen (
      any_of-add_requests key keys (requests ++ k ∷ [])
      ∙ ground (arith, any_of-append (same_name key) requests (k ∷ [])))
]

append-IsDistinct :
    (key : NamespacedName) (requests : List NamespacedName)
    → any_of (same_name key) requests ≡ false
    → IsDistinct requests
    → IsDistinct (requests ++ key ∷ [])
append-IsDistinct key [] h distinct = (refl, tt)
append-IsDistinct key (r ∷ requests) h (apart, distinct) = (
  ground (arith, any_of-append (same_name r) requests (key ∷ []), same_name_comm key r),
  append-IsDistinct key requests (ground arith) distinct,
)

add_requests-IsDistinct :
    (keys requests : List NamespacedName)
    → IsDistinct requests
    → IsDistinct (add_requests keys requests)
unfolding add_requests
add_requests-IsDistinct [] requests h = h
add_requests-IsDistinct (key ∷ keys) requests h = add_requests-IsDistinct keys _ (
    if_split IsDistinct (any_of (same_name key) requests) (λ seen. h)
      (λ unseen. append-IsDistinct key requests unseen h))

pub enqueue_lem :
    (by_mac : Text → Option (List NamespacedName)) (macs : List Text)
    (requests : List NamespacedName)
    → IsDistinct requests
    → IsDistinct (enqueue by_mac macs requests)
      × ((key : NamespacedName)
          → any_of (same_name key) (enqueue by_mac macs requests)
            ≡ (any_of (same_name key) requests || any_of (lists_name by_mac key) macs))
unfolding enqueue
enqueue_lem by_mac [] requests h = (h, λ key. ground arith)
enqueue_lem by_mac (mac ∷ macs) requests h = elim (Option-cases (by_mac mac)) [
  | inl fails ↦
      let (distinct, has) = enqueue_lem by_mac macs requests h in
      let none_listed : (key : NamespacedName) → lists_name by_mac key mac ≡ false =
        λ key. rw (fails, lists_name) refl in
      (rw (fails, enqueue) distinct, λ key. rw (none_listed key) (rw (fails, enqueue) (has key)))
  | inr (keys, lists) ↦
      let (distinct, has) =
        enqueue_lem by_mac macs (add_requests keys requests)
          (add_requests-IsDistinct keys requests h) in
      let listed_here : (key : NamespacedName)
          → lists_name by_mac key mac ≡ any_of (same_name key) keys =
        λ key. rw (lists, lists_name) refl in
      (
        rw (lists, enqueue) distinct,
        λ key.
            rw (listed_here key) (
              rw (lists, enqueue) (ground (arith, has key, any_of-add_requests key keys requests))),
      )
]

-- The names that the client lists under an address.
unfoldable pub listed {ℓ} :
    {A : Type ℓ}
    → (List A → List NamespacedName)
    → (Text → Option (List A))
    → Text
    → Option (List NamespacedName)
listed names by_mac mac = elim (by_mac mac) [ none ↦ none | some items ↦ some (names items) ]

unfoldable pub map_pod_to_vmis :
    (Pod → Option (List NetworkSelection)) → (Text → Option (List Vmi)) → Pod → List NamespacedName
map_pod_to_vmis parse vmis_by_mac pod =
    enqueue (listed vmi_names vmis_by_mac) (index_pod_by_mac parse pod) []

unfoldable pub map_vmi_to_pods : (Text → Option (List Pod)) → Vmi → List NamespacedName
map_vmi_to_pods pods_by_mac vmi = enqueue (listed pod_names pods_by_mac) (index_vmi_by_mac vmi) []

-- The requests that mapPodToVMIs makes after an event of a pod name each instance once, and just
-- the instances that the client lists under one of the addresses of the pod, a list that fails
-- counting as empty.
pub map_pod_to_vmis_lem :
    (parse : Pod → Option (List NetworkSelection)) (vmis_by_mac : Text → Option (List Vmi))
    (pod : Pod)
    → IsDistinct (map_pod_to_vmis parse vmis_by_mac pod)
      × ((key : NamespacedName)
          → any_of (same_name key) (map_pod_to_vmis parse vmis_by_mac pod)
            ≡ any_of (lists_name (listed vmi_names vmis_by_mac) key) (index_pod_by_mac parse pod))
unfolding map_pod_to_vmis
map_pod_to_vmis_lem parse vmis_by_mac pod =
    enqueue_lem (listed vmi_names vmis_by_mac) (index_pod_by_mac parse pod) [] tt
