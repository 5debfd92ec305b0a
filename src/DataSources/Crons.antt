-- ===== src/DataSources/Crons.antt =====
-- The `DataImportCron` objects by the data source that each manages.
use ssp_operator.Api.{
  SspSpec, DataImportCron, DataImportCronTemplate, Registry, as_data_import_cron,
}
use ssp_operator.Architecture.{Arch, arch_eq, arch_string, to_arch, deref, get_ssp_archs}
use ssp_operator.Base.{
  String, ◌<>◌, none, some, List, [], ◌∷◌, ◌⊎◌, inl, inr, ◌==◌, contains, string_eq, if◌then◌else◌,
}
use ssp_operator.Base.Dict.{Dict, lookup, lookup_or, insert, delete}
use ssp_operator.Base.Text.{split, trim_space}
use ssp_operator.DataSources.{
  DsError, arch_error, needs_multi_architecture, golden_images_namespace,
  get_default_data_source_arch,
}
use ssp_operator.Kubernetes.{NamespacedName, namespaced_name_eq}
use ssp_operator.TemplateBundle.{DataSourceCollection}

abbrev pub CronMap : Type 0
CronMap = Dict NamespacedName DataImportCron

abbrev pub archs_annotation : String
archs_annotation = "ssp.kubevirt.io/dict.architectures"

-- The known ones of the parts of an annotation; the others are logged and ignored.
unfoldable pub known_archs : List String → List Arch
unfolding trim_space to_arch
known_archs [] = []
known_archs (arch_str ∷ arch_strs) =
    let rest = known_archs arch_strs in
    elim (to_arch (trim_space arch_str)) [ inl err ↦ rest | inr arch ↦ arch ∷ rest ]

unfoldable pub parse_archs_annotation : String → List Arch
unfolding known_archs split
parse_archs_annotation value = known_archs (split "," value)

abbrev pub cron_key : DataImportCron → NamespacedName
cron_key cron = record { namespace = cron.metadata.namespace; name = cron.spec.managed_data_source }

unfoldable pub add_to_cron_map : CronMap → DataImportCron → CronMap
unfolding namespaced_name_eq
add_to_cron_map cron_map cron = insert (cron_key cron) cron cron_map

-- The copy of the cron of a template: in a namespace, and without the annotation of architectures.
unfoldable pub prepared_cron : DataImportCronTemplate → DataImportCron
unfolding as_data_import_cron
prepared_cron template =
    let cron = as_data_import_cron template in
    let m = cron.metadata in
    record cron {
      metadata = record m {
        namespace = if m.namespace == "" then golden_images_namespace else m.namespace;
        annotations = delete archs_annotation m.annotations;
      };
    }

unfoldable pub add_crons : CronMap → List DataImportCronTemplate → CronMap
unfolding add_to_cron_map prepared_cron
add_crons cron_map [] = cron_map
add_crons cron_map (template ∷ templates) =
    add_crons (add_to_cron_map cron_map (prepared_cron template)) templates

unfoldable pub get_crons_by_data_source : {P : Type 0} → SspSpec P → CronMap
unfolding add_crons
get_crons_by_data_source ssp_spec =
    add_crons [] ssp_spec.common_templates.data_import_cron_templates

unfoldable pub set_registry_arch : String → Registry → Registry
set_registry_arch arch_str registry = record registry {
  platform = some (record { architecture = arch_str });
}

unfoldable pub set_data_import_cron_arch_fields : DataImportCron → Arch → DataImportCron
unfolding string_eq set_registry_arch
set_data_import_cron_arch_fields cron arch =
    let arch_str = arch_string arch in
    let managed_source = cron.spec.managed_data_source in
    let m = cron.metadata in
    record {
      metadata = record m {
        labels =
            insert "cdi.kubevirt.io/storage.import.datasource-name" managed_source
              (insert "template.kubevirt.io/architecture" arch_str m.labels);
      };
      spec = record {
        managed_data_source = managed_source <> ("-" <> arch_str);
        source = elim cron.spec.source [
          | none ↦ none
          | some source ↦ some (record {
            registry = elim source.registry [
              | none ↦ none
              | some registry ↦ some (set_registry_arch arch_str registry)
            ];
          })
        ];
      };
    }

-- The copy of a cron for one architecture.
unfoldable pub arch_cron : DataImportCron → Arch → DataImportCron
unfolding set_data_import_cron_arch_fields
arch_cron cron arch =
    let m = cron.metadata in
    set_data_import_cron_arch_fields
      (record cron { metadata = record m { name = m.name <> ("-" <> arch_string arch) } }) arch

-- The loop over the architectures of the annotation.
unfoldable pub add_arch_crons : CronMap → DataImportCron → List Arch → List Arch → CronMap
unfolding arch_cron add_to_cron_map arch_eq
add_arch_crons cron_map cron cluster_archs [] = cron_map
add_arch_crons cron_map cron cluster_archs (arch ∷ archs) =
    let skip = add_arch_crons cron_map cron cluster_archs archs in
    if contains cluster_archs arch
    then add_arch_crons (add_to_cron_map cron_map (arch_cron cron arch)) cron cluster_archs archs
    else skip

-- A cron without the annotation: it manages the data source of the default architecture.
unfoldable pub default_cron : DataSourceCollection → List Arch → DataImportCron → DataImportCron
unfolding get_default_data_source_arch string_eq
default_cron source_collection cluster_archs cron =
    let managed = cron.spec.managed_data_source in
    elim (lookup managed source_collection) [
      | none ↦ cron
      | some ds_archs ↦ elim (get_default_data_source_arch cluster_archs ds_archs) [
        | none ↦ cron
        | some arch ↦
            let spec = cron.spec in
            record cron {
              spec = record spec { managed_data_source = managed <> ("-" <> arch_string arch) };
            }
      ]
    ]

unfoldable pub add_multi_arch :
    CronMap → DataSourceCollection → List Arch → DataImportCronTemplate → CronMap
unfolding prepared_cron default_cron add_arch_crons parse_archs_annotation add_to_cron_map string_eq
add_multi_arch cron_map source_collection cluster_archs template =
    let cron = prepared_cron template in
    let value = lookup_or "" archs_annotation template.metadata.annotations in
    if value == ""
    then add_to_cron_map cron_map (default_cron source_collection cluster_archs cron)
    else add_arch_crons cron_map cron cluster_archs (parse_archs_annotation value)

unfoldable pub add_crons_multi_arch :
    CronMap → DataSourceCollection → List Arch → List DataImportCronTemplate → CronMap
unfolding add_multi_arch
add_crons_multi_arch cron_map source_collection cluster_archs [] = cron_map
add_crons_multi_arch cron_map source_collection cluster_archs (template ∷ templates) =
    add_crons_multi_arch (add_multi_arch cron_map source_collection cluster_archs template)
      source_collection cluster_archs templates

unfoldable pub get_crons_by_data_source_multi_arch :
    {P : Type 0} → String → SspSpec P → DataSourceCollection → DsError ⊎ CronMap
unfolding add_crons_multi_arch get_ssp_archs
get_crons_by_data_source_multi_arch go_arch ssp_spec source_collection =
    if deref ssp_spec.enable_multiple_architectures
    then elim (get_ssp_archs go_arch ssp_spec) [
      | inl err ↦ inl (arch_error err)
      | inr cluster_archs ↦ inr (
          add_crons_multi_arch [] source_collection cluster_archs
            ssp_spec.common_templates.data_import_cron_templates)
    ]
    else inl needs_multi_architecture
