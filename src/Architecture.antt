-- ===== src/Architecture.antt =====
-- internal/architecture/architecture.go: the processor architectures of a cluster. `go_arch` is Go's
-- `runtime.GOARCH`. An error is a value of `ArchError`, and the empty `Arch` of a failed call is absent.
pub mod Distinct
pub mod Archs
mod Tests
use ssp_operator.Api.{Cluster, SspSpec}
use ssp_operator.Base.{
  String, Bool, true, false, Option, none, some, List, [], ◌∷◌, ◌++◌, ◌⊎◌, inl, inr, Eq, ◌==◌, refl,
  contains, string_eq, if◌then◌else◌, arith,
}
use ssp_operator.Base.Dict.{add}

pub data Arch : Type 0 where
  amd64 arm64 s390x : Arch

-- `string(arch)`
abbrev pub arch_string : Arch → String
arch_string amd64 = "amd64"
arch_string arm64 = "arm64"
arch_string s390x = "s390x"

Arch-discrete : Discrete Arch
Arch-discrete amd64 amd64 = yes refl
Arch-discrete amd64 arm64 = no (λ p. ground arith)
Arch-discrete amd64 s390x = no (λ p. ground arith)
Arch-discrete arm64 amd64 = no (λ p. ground arith)
Arch-discrete arm64 arm64 = yes refl
Arch-discrete arm64 s390x = no (λ p. ground arith)
Arch-discrete s390x amd64 = no (λ p. ground arith)
Arch-discrete s390x arm64 = no (λ p. ground arith)
Arch-discrete s390x s390x = yes refl

instance unfoldable pub arch_eq : Eq Arch
unfolding Arch-discrete
arch_eq = record { dec = Arch-discrete }

pub data ArchError : Type 0 where
  unknown_architecture unsupported_default : String → ArchError
  cluster_is_nil no_architectures : ArchError

unfoldable pub to_arch : String → ArchError ⊎ Arch
unfolding string_eq
to_arch arch =
    if arch == "amd64"
    then inr amd64
    else if arch == "arm64"
    then inr arm64
    else if arch == "s390x"
    then inr s390x
    else inl (unknown_architecture arch)

-- The result so far and the set of what it holds.
pub record Seen {ℓ} (T : Type ℓ) : Type ℓ where
  pub result : List T
  pub set : List T

module _ {ℓ} {T : Type ℓ} ⦃e : Eq T⦄ where
  unfoldable pub see : Seen T → T → Seen T
  see s val =
      if contains s.set val
      then s
      else record { result = s.result ++ (val ∷ []); set = add val s.set }

  unfoldable pub see_slice : Seen T → List T → Seen T
  see_slice s [] = s
  see_slice s (val ∷ vals) = see_slice (see s val) vals

  unfoldable pub see_slices : Seen T → List (List T) → Seen T
  see_slices s [] = s
  see_slices s (slice ∷ slices) = see_slices (see_slice s slice) slices

  unfoldable pub concat_without_repetitions : List (List T) → List T
  concat_without_repetitions slices = (see_slices (record { result = []; set = [] }) slices).result

-- The loop over `archStrs`, which stops at the first unknown one.
unfoldable pub to_archs : List String → ArchError ⊎ List Arch
to_archs [] = inr []
to_archs (arch_str ∷ arch_strs) =
    let rest = to_archs arch_strs in
    elim (to_arch arch_str) [
      | inl err ↦ inl err
      | inr arch ↦ elim rest [ inl err ↦ inl err | inr archs ↦ inr (arch ∷ archs) ]
    ]

-- `ptr.Deref(p, false)`
abbrev pub deref : Option Bool → Bool
deref p = elim p [ none ↦ false | some b ↦ b ]

abbrev pub single_arch : String → ArchError ⊎ List Arch
single_arch arch_str = elim (to_arch arch_str) [ inl err ↦ inl err | inr arch ↦ inr (arch ∷ []) ]

unfoldable pub default_archs : String → ArchError ⊎ List Arch
default_archs go_arch = elim (to_arch go_arch) [
  | inl err ↦ inl (unsupported_default go_arch)
  | inr arch ↦ inr (arch ∷ [])
]

-- The architectures in the order of `ControlPlaneArchitectures`, then `WorkloadArchitectures`.
unfoldable pub cluster_archs : Bool → List String → ArchError ⊎ List Arch
cluster_archs multi [] = inl no_architectures
cluster_archs multi (arch_str ∷ arch_strs) =
    if multi then to_archs (arch_str ∷ arch_strs) else single_arch arch_str

unfoldable pub get_ssp_archs : {P : Type 0} → String → SspSpec P → ArchError ⊎ List Arch
unfolding default_archs cluster_archs string_eq
get_ssp_archs go_arch spec = elim spec.cluster [
  | none ↦
      if deref spec.enable_multiple_architectures then inl cluster_is_nil else default_archs go_arch
  | some cluster ↦ cluster_archs (deref spec.enable_multiple_architectures) (
      concat_without_repetitions
        (cluster.control_plane_architectures ∷ cluster.workload_architectures ∷ []))
]
