-- ===== src/SspWebhook/Accepted.antt =====
-- What holds of the SSP objects that the webhook accepts.
use ssp_operator.Api.{Cluster, SspSpec}
use ssp_operator.Architecture.{
  Arch, arch_string, to_arch, deref, cluster_archs, default_archs, get_ssp_archs,
  concat_without_repetitions, arch_eq,
}
use ssp_operator.Architecture.Archs.{AreKnown, to_archs_known, to_arch_sound}
use ssp_operator.Architecture.Distinct.{
  first_occurrences, app-nil, concat_without_repetitions-first_occurrences,
}
use ssp_operator.Base.{
  String, ◌≡◌, ◌≢◌, refl, Bool, true, false, ◌&&◌, Option, some, none, List, [], ◌∷◌, ◌++◌, arith,
  inl, inr, ◌==◌, string_eq, Sum-cases, Option-cases, Bool-cases, map,
}
use ssp_operator.Base.Dict.{remove}
use ssp_operator.SspWebhook.{
  Ssp, Deployment, check_archs, validate_cluster, validate_ssp_object, is_empty,
}

check_archs-AreKnown : (ss : List String) → check_archs ss ≡ none → AreKnown ss
unfolding check_archs
check_archs-AreKnown [] h = tt
check_archs-AreKnown (s ∷ ss) h = elim (Sum-cases (to_arch s)) [
  | inl (err, e) ↦ ground arith
  | inr (arch, e) ↦ ((arch, e), check_archs-AreKnown ss (ground arith))
]

append-AreKnown : (ss ts : List String) → AreKnown ss → AreKnown ts → AreKnown (ss ++ ts)
append-AreKnown [] ts h k = k
append-AreKnown (s ∷ ss) ts (p, h) k = (p, append-AreKnown ss ts h k)

remove-AreKnown : (s : String) (ss : List String) → AreKnown ss → AreKnown (remove s ss)
unfolding remove
remove-AreKnown s [] h = tt
remove-AreKnown s (t ∷ ss) (p, h) = elim (Bool-cases (s == t)) [
  | inl e ↦ rw e (remove-AreKnown s ss h)
  | inr e ↦ rw e (p, remove-AreKnown s ss h)
]

first_occurrences-AreKnown : (ss : List String) → AreKnown ss → AreKnown (first_occurrences ss)
unfolding first_occurrences
first_occurrences-AreKnown [] h = tt
first_occurrences-AreKnown (s ∷ ss) (p, h) =
    (p, remove-AreKnown s (first_occurrences ss) (first_occurrences-AreKnown ss h))

-- What the webhook checks of a cluster.
abbrev IsChecked : Cluster → Type 0
IsChecked cluster =
    (cluster.control_plane_architectures ++ cluster.workload_architectures ≢ [])
    × AreKnown cluster.control_plane_architectures
    × AreKnown cluster.workload_architectures

append-ne-nil : {A : Type 0} (xs ys : List A) → (is_empty ys && is_empty xs) ≡ false → xs ++ ys ≢ []
append-ne-nil [] [] h e = ground arith
append-ne-nil [] (y ∷ ys) h e = ground arith
append-ne-nil (x ∷ xs) ys h e = ground arith

validate_cluster-IsChecked :
    {P : Type 0} (spec : SspSpec P) (cluster : Cluster)
    → validate_cluster spec ≡ none
    → spec.cluster ≡ some cluster
    → IsChecked cluster
unfolding validate_cluster
validate_cluster-IsChecked spec cluster h e = (
  append-ne-nil cluster.control_plane_architectures cluster.workload_architectures (ground arith),
  check_archs-AreKnown cluster.control_plane_architectures (ground arith),
  check_archs-AreKnown cluster.workload_architectures (ground arith),
)

-- All names where multiple architectures are enabled, and otherwise the first.
abbrev pub selected : Bool → List String → List String
selected true names = names
selected false [] = []
selected false (name ∷ names) = name ∷ []

-- The names of the architectures of a specification, where `host` is that of the operator.
abbrev pub expected_archs : {P : Type 0} → Arch → SspSpec P → List String
expected_archs host spec = elim spec.cluster [
  | none ↦ arch_string host ∷ []
  | some cluster ↦
      selected (deref spec.enable_multiple_architectures)
        (first_occurrences (cluster.control_plane_architectures ++ cluster.workload_architectures))
]

cluster_archs_known :
    (multi : Bool) (ss : List String)
    → ss ≢ []
    → AreKnown ss
    → (archs : List Arch) × (cluster_archs multi ss ≡ inr archs)
      × (archs ≢ [])
      × (map arch_string archs ≡ selected multi ss)
unfolding cluster_archs
cluster_archs_known multi [] n k = absurd (n refl)
cluster_archs_known true (s ∷ ss) n k =
    let (archs, p, q) = to_archs_known (s ∷ ss) k in (archs, p, ground (arith, q), q)
cluster_archs_known false (s ∷ ss) n ((arch, p), k) =
    (arch ∷ [], ground arith, ground arith, ground (arith, to_arch_sound s arch p))

first_occurrences-ne-nil : (ss : List String) → ss ≢ [] → first_occurrences ss ≢ []
unfolding first_occurrences
first_occurrences-ne-nil [] h e = h refl
first_occurrences-ne-nil (s ∷ ss) h e = ground arith

checked_archs :
    (multi : Bool) (cluster : Cluster)
    → IsChecked cluster
    → let c =
        concat_without_repetitions
          (cluster.control_plane_architectures ∷ cluster.workload_architectures ∷ []) in
      let names = cluster.control_plane_architectures ++ cluster.workload_architectures in
      (archs : List Arch) × (cluster_archs multi c ≡ inr archs)
      × (archs ≢ [])
      × (map arch_string archs ≡ selected multi (first_occurrences names))
checked_archs multi cluster (n, p, q) =
    let names = cluster.control_plane_architectures ++ cluster.workload_architectures in
    let k =
      append-AreKnown cluster.control_plane_architectures cluster.workload_architectures p q in
    rw
      (
        concat_without_repetitions-first_occurrences
            (cluster.control_plane_architectures ∷ cluster.workload_architectures ∷ []),
        app-nil cluster.workload_architectures,
      )
      (cluster_archs_known multi (first_occurrences names) (first_occurrences-ne-nil names n)
        (first_occurrences-AreKnown names k))

accepted_cluster :
    {P E : Type 0} (dry_run : Deployment P → Option E) (ssp : Ssp P)
    → validate_ssp_object dry_run ssp ≡ none
    → validate_cluster ssp.spec ≡ none
unfolding validate_ssp_object
accepted_cluster dry_run ssp h = ground arith

-- Where the webhook accepts an SSP object and the operator runs on a known architecture, `GetSSPArchs`
-- succeeds for its specification with at least one architecture. Without a cluster it is that of the
-- operator. With one they are the cluster's, control plane first, each name once where it first stands,
-- and only the first of them unless multiple architectures are enabled.
pub get_ssp_archs-validate_ssp_object :
    {P E : Type 0} (dry_run : Deployment P → Option E) (ssp : Ssp P) (go_arch : String)
    (host : Arch)
    → validate_ssp_object dry_run ssp ≡ none
    → to_arch go_arch ≡ inr host
    → (archs : List Arch) × (get_ssp_archs go_arch ssp.spec ≡ inr archs)
      × (archs ≢ [])
      × (map arch_string archs ≡ expected_archs host ssp.spec)
unfolding get_ssp_archs default_archs validate_cluster
get_ssp_archs-validate_ssp_object dry_run ssp go_arch host h k =
    let v = accepted_cluster dry_run ssp h in
    elim (Option-cases ssp.spec.cluster) [
      | inl e ↦ (host ∷ [], ground arith, ground arith, ground arith)
      | inr (cluster, e) ↦ rw e (
          checked_archs (deref ssp.spec.enable_multiple_architectures) cluster
            (validate_cluster-IsChecked ssp.spec cluster v e))
    ]
