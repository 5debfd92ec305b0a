-- ===== src/DataSources/Infos.antt =====
-- The data sources that the operator creates, and which of them are updated by a cron.
use ssp_operator.Api.{DataImportCronTemplate, as_data_import_cron}
use ssp_operator.Architecture.{Arch, arch_eq, arch_string, deref, get_ssp_archs}
use ssp_operator.Base.{
  String, ◌<>◌, Bool, false, ◌||◌, none, some, List, [], ◌∷◌, ◌++◌, ◌⊎◌, inl, inr, ◌==◌, contains,
  string_eq, if◌then◌else◌,
}
use ssp_operator.Base.Dict.{lookup, lookup_or}
use ssp_operator.DataSources.{
  DataSource, DataSourceInfo, DsError, Request, arch_error, index_out_of_range,
  needs_multi_architecture, needs_single_architecture, new_data_source, new_data_source_reference,
  get_default_data_source_arch, data_source_auto_update_enabled, handle_default_data_source,
}
use ssp_operator.DataSources.Crons.{CronMap, archs_annotation, parse_archs_annotation}
use ssp_operator.Kubernetes.{namespaced_name_eq, object_key}
use ssp_operator.TemplateBundle.{DataSourceCollection, collection_contains}

-- `dic.GetName()` of the cron of a data source, or the empty name.
unfoldable pub cron_name : DataSource → CronMap → String
cron_name data_source crons = elim (lookup (object_key data_source.metadata) crons) [
  | none ↦ ""
  | some dic ↦ dic.metadata.name
]

abbrev pub info : DataSource → Bool → CronMap → DataSourceInfo
info data_source auto_update crons = record {
  data_source = data_source;
  auto_update_enabled = auto_update;
  data_import_cron_name = cron_name data_source crons;
}

abbrev pub reference_info : String → Arch → DataSourceInfo
reference_info name arch = record {
  data_source = new_data_source_reference name (name <> ("-" <> arch_string arch));
  auto_update_enabled = false;
  data_import_cron_name = "";
}

-- The data source of a name and an architecture, with its label.
unfoldable pub arch_data_source : String → Arch → DataSource
unfolding new_data_source
arch_data_source name arch =
    let ds = new_data_source (name <> ("-" <> arch_string arch)) in
    let m = ds.metadata in
    record ds {
      metadata = record m { labels = ("template.kubevirt.io/architecture", arch_string arch) ∷ [] };
    }

module _ {P : Type 0} (request : Request P) (crons : CronMap) where
  -- The loop of `getDataSourceInfos`, where `arch` is the architecture of the cluster.
  unfoldable pub infos_of :
      Arch → DataSourceCollection → DataSourceCollection → DsError ⊎ List DataSourceInfo
  unfolding collection_contains new_data_source data_source_auto_update_enabled cron_name
  infos_of arch source_collection [] = inr []
  infos_of arch source_collection ((name, archs) ∷ names) =
      let rest = infos_of arch source_collection names in
      let data_source = new_data_source name in
      if collection_contains source_collection name arch
      then elim (data_source_auto_update_enabled request data_source crons) [
        | inl err ↦ inl err
        | inr auto_update ↦ elim rest [
          | inl err ↦ inl err
          | inr infos ↦ inr (info data_source auto_update crons ∷ infos)
        ]
      ]
      else rest

  unfoldable pub get_data_source_infos : DataSourceCollection → DsError ⊎ List DataSourceInfo
  unfolding infos_of get_ssp_archs
  get_data_source_infos source_collection =
      if deref request.spec.enable_multiple_architectures
      then inl needs_single_architecture
      else elim (get_ssp_archs request.go_arch request.spec) [
        | inl err ↦ inl (arch_error err)
        | inr [] ↦ inl index_out_of_range
        | inr (arch ∷ archs) ↦ infos_of arch source_collection source_collection
      ]

  -- The data source of a name and an architecture; the default architecture is handled specially.
  unfoldable pub arch_info : String → Arch → Arch → DsError ⊎ DataSourceInfo
  unfolding arch_data_source data_source_auto_update_enabled handle_default_data_source cron_name
      arch_eq
  arch_info name default_arch arch =
      let data_source = arch_data_source name arch in
      elim (data_source_auto_update_enabled request data_source crons) [
        | inl err ↦ inl err
        | inr auto_update ↦
            if arch == default_arch
            then elim (handle_default_data_source request data_source auto_update name) [
              | inl err ↦ inl err
              | inr (ds, enabled) ↦ inr (info ds enabled crons)
            ]
            else inr (info data_source auto_update crons)
      ]

  unfoldable pub arch_infos : String → Arch → List Arch → List Arch → DsError ⊎ List DataSourceInfo
  unfolding arch_info arch_eq
  arch_infos name default_arch cluster_archs [] = inr []
  arch_infos name default_arch cluster_archs (arch ∷ archs) =
      let rest = arch_infos name default_arch cluster_archs archs in
      if contains cluster_archs arch
      then elim (arch_info name default_arch arch) [
        | inl err ↦ inl err
        | inr i ↦ elim rest [ inl err ↦ inl err | inr infos ↦ inr (i ∷ infos) ]
      ]
      else rest

  -- One data source of the collection: the reference to its default architecture, then an object for
  -- each architecture of the cluster; nothing where it has no default architecture.
  unfoldable pub name_infos : List Arch → String → List Arch → DsError ⊎ List DataSourceInfo
  unfolding arch_infos get_default_data_source_arch new_data_source_reference
  name_infos cluster_archs name ds_archs =
      elim (get_default_data_source_arch cluster_archs ds_archs) [
        | none ↦ inr []
        | some default_arch ↦ elim (arch_infos name default_arch cluster_archs ds_archs) [
          | inl err ↦ inl err
          | inr infos ↦ inr (reference_info name default_arch ∷ infos)
        ]
      ]

  unfoldable pub infos_multi_arch : List Arch → DataSourceCollection → DsError ⊎ List DataSourceInfo
  unfolding name_infos
  infos_multi_arch cluster_archs [] = inr []
  infos_multi_arch cluster_archs ((name, ds_archs) ∷ names) =
      let rest = infos_multi_arch cluster_archs names in
      elim (name_infos cluster_archs name ds_archs) [
        | inl err ↦ inl err
        | inr infos ↦ elim rest [ inl err ↦ inl err | inr more ↦ inr (infos ++ more) ]
      ]

  unfoldable pub get_data_source_infos_multi_arch :
      DataSourceCollection → DsError ⊎ List DataSourceInfo
  unfolding infos_multi_arch get_ssp_archs
  get_data_source_infos_multi_arch source_collection =
      if deref request.spec.enable_multiple_architectures
      then elim (get_ssp_archs request.go_arch request.spec) [
        | inl err ↦ inl (arch_error err)
        | inr cluster_archs ↦ infos_multi_arch cluster_archs source_collection
      ]
      else inl needs_multi_architecture

abbrev pub has_name : String → List DataSourceInfo → Bool
has_name name [] = false
has_name name (i ∷ infos) = i.data_source.metadata.name == name || has_name name infos

-- The reference for the data source of one template, where it needs one.
unfoldable pub add_reference :
    List DataSourceInfo → DataImportCronTemplate → List Arch → List DataSourceInfo
unfolding parse_archs_annotation get_default_data_source_arch new_data_source_reference string_eq
    as_data_import_cron
add_reference infos template cluster_archs =
    let cron = as_data_import_cron template in
    let ds_name = cron.spec.managed_data_source in
    let value = lookup_or "" archs_annotation cron.metadata.annotations in
    if has_name ds_name infos
    then infos
    else if value == ""
    then infos
    else elim (get_default_data_source_arch cluster_archs (parse_archs_annotation value)) [
      | none ↦ infos
      | some arch ↦ infos ++ (reference_info ds_name arch ∷ [])
    ]

unfoldable pub add_data_source_reference_for_crons :
    List DataSourceInfo → List DataImportCronTemplate → List Arch → List DataSourceInfo
unfolding add_reference
add_data_source_reference_for_crons infos [] cluster_archs = infos
add_data_source_reference_for_crons infos (template ∷ templates) cluster_archs =
    add_data_source_reference_for_crons (add_reference infos template cluster_archs) templates
      cluster_archs
