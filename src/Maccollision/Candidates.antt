-- ===== src/Maccollision/Candidates.antt =====
-- The candidates of pkg/controller/maccollision (vmi_candidates.go and pod_candidates.go): the cache
-- of namespaces that are known to be managed changes nothing.
use kubemacpool.Prelude.{
  ◌≡◌, refl, ap, Bool, true, not, ◌&&◌, ◌||◌, Option, none, some, List, [], ◌∷◌, Text, text_eq,
  text_eq_iff, keep_if, arith,
}
use kubemacpool.Kubevirt.{Vmi, Pod}
use kubemacpool.Maccollision.{has_text, is_kubevirt_owned, filter_managed_vmis, filter_managed_pods}

-- An object counts where its namespace is known or the answer is not that it is unmanaged.
abbrev pub counts : (Text → Option Bool) → List Text → Text → Bool
counts managed known namespace =
    has_text namespace known || (elim (managed namespace) [ none ↦ true | some b ↦ b ])

keep_if-ext {ℓ} :
    {A : Type ℓ} (p q : A → Bool) (xs : List A)
    → ((x : A) → p x ≡ q x)
    → keep_if p xs ≡ keep_if q xs
keep_if-ext p q [] same = refl
keep_if-ext p q (x ∷ xs) same = ground (arith, same x, keep_if-ext p q xs same)

same_answer :
    (managed : Text → Option Bool) (known : List Text) (namespace other : Text)
    → text_eq namespace other ≡ true
    → counts managed known namespace ≡ counts managed known other
same_answer managed known namespace other same =
    ap (counts managed known) ((text_eq_iff namespace other).0 same)

-- A namespace that counts already may be added to those that are known.
counts-learn :
    (managed : Text → Option Bool) (known : List Text) (namespace other : Text)
    → counts managed known namespace ≡ true
    → counts managed (namespace ∷ known) other ≡ counts managed known other
unfolding has_text
counts-learn managed known namespace other h =
    ground (arith, same_answer managed known namespace other)

-- filterManagedVMIs keeps, in order, the instances whose namespace is known to be managed, or is
-- managed, or could not be asked for; the namespaces that it learns on the way change nothing.
pub filter_managed_vmis_lem :
    (managed : Text → Option Bool) (vs : List Vmi) (known : List Text)
    → filter_managed_vmis managed vs known ≡ keep_if (λ v. counts managed known v.namespace) vs
unfolding filter_managed_vmis
filter_managed_vmis_lem managed [] known = refl
filter_managed_vmis_lem managed (v ∷ vs) known =
    let learnt = filter_managed_vmis_lem managed vs (v.namespace ∷ known) in
    let same : counts managed known v.namespace ≡ true
        → keep_if (λ w. counts managed (v.namespace ∷ known) w.namespace) vs
          ≡ keep_if (λ w. counts managed known w.namespace) vs =
      λ h. keep_if-ext _ _ vs (λ w. counts-learn managed known v.namespace w.namespace h) in
    ground (arith, filter_managed_vmis_lem managed vs known, learnt, same)

-- filterCollisionCandidatePods keeps, in order, the pods that KubeVirt does not own and whose
-- namespace is known to be managed, or is managed, or could not be asked for.
pub filter_managed_pods_lem :
    (managed : Text → Option Bool) (ps : List Pod) (known : List Text)
    → filter_managed_pods managed ps known
      ≡ keep_if (λ p. not (is_kubevirt_owned p) && counts managed known p.namespace) ps
unfolding filter_managed_pods
filter_managed_pods_lem managed [] known = refl
filter_managed_pods_lem managed (p ∷ ps) known =
    let learnt = filter_managed_pods_lem managed ps (p.namespace ∷ known) in
    let keeps =
      λ (k : List Text) (q : Pod). not (is_kubevirt_owned q) && counts managed k q.namespace in
    let same : counts managed known p.namespace ≡ true
        → keep_if (keeps (p.namespace ∷ known)) ps ≡ keep_if (keeps known) ps =
      λ h. keep_if-ext _ _ ps (λ q.
        ap (λ b. not (is_kubevirt_owned q) && b)
          (counts-learn managed known p.namespace q.namespace h)) in
    ground (arith, filter_managed_pods_lem managed ps known, learnt, same)
