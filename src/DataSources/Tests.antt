-- ===== src/DataSources/Tests.antt =====
-- A cluster of two architectures with a data source that one cron updates.
use ssp_operator.Api.{SspSpec, DataImportCronTemplate}
use ssp_operator.Architecture.{
  amd64, s390x, arch_eq, arch_string, to_arch, to_archs, get_ssp_archs, concat_without_repetitions,
  see, see_slice, see_slices, cluster_archs,
}
use ssp_operator.Base.{◌≡◌, refl, arith, true, false, some, none, [], ◌∷◌, inr, map, string_eq}
use ssp_operator.Base.Dict.{add, lookup}
use ssp_operator.Base.Text.{join}
use ssp_operator.DataSources.{
  DataSource, Request, found, not_found, new_data_source, existing_auto_update,
}
use ssp_operator.DataSources.Annotation.{parse_archs_annotation-join}
use ssp_operator.DataSources.CronMaps.{IsCronMap, get_crons_by_data_source_multi_arch-IsCronMap}
use ssp_operator.DataSources.Crons.{
  CronMap, parse_archs_annotation, get_crons_by_data_source_multi_arch,
}
use ssp_operator.DataSources.Defaults.{Answers, existing_auto_update-found}
use ssp_operator.DataSources.Selected.{
  DataSourcesAndCrons, IsConsistent, get_data_sources_and_crons,
  get_data_sources_and_crons-IsConsistent,
}
use ssp_operator.TemplateBundle.{DataSourceCollection}

abbrev fedora_cron : DataImportCronTemplate
fedora_cron = record {
  metadata = record {
    name = "fedora-cron";
    namespace = "";
    labels = [];
    annotations = ("ssp.kubevirt.io/dict.architectures", "amd64, s390x") ∷ [];
  };
  spec = record { managed_data_source = "fedora"; source = none };
}

abbrev pub two_archs : SspSpec Unit
two_archs = record {
  enable_multiple_architectures = some true;
  template_validator = none;
  cluster = some (record {
    workload_architectures = "s390x" ∷ [];
    control_plane_architectures = "amd64" ∷ [];
  });
  common_templates = record {
    namespace = "openshift";
    data_import_cron_templates = fedora_cron ∷ [];
  };
}

-- A cluster without data sources and persistent volume claims.
abbrev pub empty_cluster : Request Unit
empty_cluster = record {
  spec = two_archs;
  go_arch = "amd64";
  get_data_source = λ k. not_found;
  get_pvc = λ k. not_found;
}

abbrev pub fedora : DataSourceCollection
fedora = ("fedora", amd64 ∷ s390x ∷ []) ∷ []

empty_cluster-Answers : Answers empty_cluster
empty_cluster-Answers = record { data_source = λ k e h. ground arith; pvc = λ k e h. ground arith }

two_archs_known : get_ssp_archs "amd64" two_archs ≡ inr (amd64 ∷ s390x ∷ [])
unfolding get_ssp_archs cluster_archs to_archs to_arch concat_without_repetitions see_slices
    see_slice see add string_eq
two_archs_known = refl

get_data_sources_and_crons-IsConsistent_example :
    (r : DataSourcesAndCrons) × (get_data_sources_and_crons empty_cluster fedora ≡ inr r)
    × IsConsistent r
get_data_sources_and_crons-IsConsistent_example =
    get_data_sources_and_crons-IsConsistent empty_cluster fedora amd64 (s390x ∷ [])
      empty_cluster-Answers two_archs_known

get_crons_by_data_source_multi_arch-IsCronMap_example :
    (m : CronMap) × (get_crons_by_data_source_multi_arch "amd64" two_archs fedora ≡ inr m)
    × IsCronMap m
get_crons_by_data_source_multi_arch-IsCronMap_example =
    get_crons_by_data_source_multi_arch-IsCronMap "amd64" two_archs fedora (amd64 ∷ s390x ∷ []) refl
      two_archs_known

parse_archs_annotation-join_example :
    parse_archs_annotation (join "," (map arch_string (s390x ∷ amd64 ∷ []))) ≡ s390x ∷ amd64 ∷ []
parse_archs_annotation-join_example = parse_archs_annotation-join s390x (amd64 ∷ [])

-- An existing data source that is not ready.
abbrev not_ready : DataSource
not_ready = record (new_data_source "fedora-amd64") {
  conditions = record { type_name = "Ready"; status = "False" } ∷ [];
}

abbrev claim_exists : Request Unit
claim_exists = record empty_cluster { get_pvc = λ k. found tt }

existing_auto_update-found_example :
    existing_auto_update claim_exists (new_data_source "fedora-amd64") (found not_ready)
    ≡ elim (lookup "cdi.kubevirt.io/dataImportCron" not_ready.metadata.labels) [
      | some label ↦ inr true
      | none ↦ inr false
    ]
unfolding new_data_source
existing_auto_update-found_example =
    existing_auto_update-found claim_exists (new_data_source "fedora-amd64") not_ready
      (record { namespace = "kubevirt-os-images"; name = "fedora-amd64" }) refl
