-- ===== src/SspWebhook/Tests.antt =====
-- An SSP object that the webhook accepts, and one that it refuses.
use ssp_operator.Architecture.{
  Arch, amd64, arm64, s390x, arch_string, to_arch, to_archs, get_ssp_archs,
  concat_without_repetitions, see, see_slice, see_slices, cluster_archs, unknown_architecture,
}
use ssp_operator.Base.{
  String, ◌≡◌, ◌≢◌, refl, true, some, none, List, [], ◌∷◌, inr, map, Option, string_eq,
}
use ssp_operator.Base.Dict.{add}
use ssp_operator.SspWebhook.{
  Ssp, Deployment, cluster_error, invalid_workload_architecture, check_archs, validate_cluster,
  validate_ssp_object, validate_placement, validate_data_import_cron_templates,
}
use ssp_operator.SspWebhook.Accepted.{expected_archs, get_ssp_archs-validate_ssp_object}

abbrev two_archs : List String → Ssp Unit
two_archs workload = record {
  metadata = record { name = "ssp"; namespace = "kubevirt"; labels = []; annotations = [] };
  spec = record {
    enable_multiple_architectures = some true;
    template_validator = none;
    cluster =
        some (record {
          workload_architectures = workload;
          control_plane_architectures = "amd64" ∷ [];
        });
    common_templates = record { namespace = "openshift"; data_import_cron_templates = [] };
  };
}

abbrev mixed : Ssp Unit
mixed = two_archs ("s390x" ∷ "amd64" ∷ "arm64" ∷ [])

abbrev accepts_all : Deployment Unit → Option String
accepts_all deployment = none

refused :
    validate_ssp_object accepts_all (two_archs ("riscv64" ∷ []))
    ≡ some (cluster_error (invalid_workload_architecture (unknown_architecture "riscv64")))
unfolding validate_ssp_object validate_cluster check_archs to_arch string_eq
refused = refl

mixed_accepted : validate_ssp_object accepts_all mixed ≡ none
unfolding validate_ssp_object validate_cluster check_archs to_arch
    validate_data_import_cron_templates validate_placement string_eq
mixed_accepted = refl

amd64_known : to_arch "amd64" ≡ inr amd64
unfolding to_arch string_eq
amd64_known = refl

mixed_archs : get_ssp_archs "amd64" mixed.spec ≡ inr (amd64 ∷ s390x ∷ arm64 ∷ [])
unfolding get_ssp_archs cluster_archs to_archs to_arch concat_without_repetitions see_slices
    see_slice see add string_eq
mixed_archs = refl

get_ssp_archs-validate_ssp_object_example :
    (archs : List Arch) × (get_ssp_archs "amd64" mixed.spec ≡ inr archs)
    × (archs ≢ [])
    × (map arch_string archs ≡ expected_archs amd64 mixed.spec)
get_ssp_archs-validate_ssp_object_example =
    get_ssp_archs-validate_ssp_object accepts_all mixed "amd64" amd64 mixed_accepted amd64_known
