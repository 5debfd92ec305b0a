-- ===== src/DataSources.antt =====
-- internal/operands/data-sources: the `DataSource` and `DataImportCron` objects that the operator
-- creates. What the cluster holds is a parameter of a request: the answers to `Get` for data sources and
-- for persistent volume claims. A pointer to a freshly made object is never equal to one that the client
-- decoded, so that the code's comparison of two such pointers is written out by `same_pointer`.
pub mod Crons
pub mod Infos
pub mod Selected
pub mod Writes
pub mod CleanedUp
mod Annotation
pub mod Defaults
mod Updated
mod CronMaps
pub mod Tests
mod CleanupTests
use ssp_operator.Api.{SspSpec}
use ssp_operator.Architecture.{Arch, ArchError, arch_eq}
use ssp_operator.Base.{
  String, ◌<>◌, Bool, true, false, not, Option, none, some, List, [], ◌∷◌, ◌⊎◌, inl, inr, ◌==◌,
  contains, string_eq, if◌then◌else◌,
}
use ssp_operator.Base.Dict.{Dict, lookup}
use ssp_operator.Kubernetes.{ObjectMeta, NamespacedName, namespaced_name_eq, object_key}

abbrev pub golden_images_namespace : String
golden_images_namespace = "kubevirt-os-images"

-- CDI's `DataSourceSource`: at most one of the pointers is set.
pub record DataSourceSource : Type 0 where
  pub pvc : Option NamespacedName
  pub snapshot : Option NamespacedName
  pub data_source : Option NamespacedName

pub record DataSourceCondition : Type 0 where
  pub type_name : String
  pub status : String

pub record DataSource : Type 0 where
  pub metadata : ObjectMeta
  pub source : DataSourceSource
  pub conditions : List DataSourceCondition

-- The answer of a client to `Get`.
pub data Get (A : Type 0) : Type 0 where
  found : A → Get A
  not_found : Get A
  failed : String → Get A

pub record Request (P : Type 0) : Type 0 where
  pub spec : SspSpec P
  pub go_arch : String
  pub get_data_source : NamespacedName → Get DataSource
  pub get_pvc : NamespacedName → Get Unit

pub data DsError : Type 0 where
  needs_multi_architecture needs_single_architecture : DsError
  arch_error : ArchError → DsError
  client_error : String → DsError
  -- the panics: an index into an empty list and a nil pointer
  index_out_of_range nil_pointer : DsError

pub record DataSourceInfo : Type 0 where
  pub data_source : DataSource
  pub auto_update_enabled : Bool
  pub data_import_cron_name : String

unfoldable pub new_data_source : String → DataSource
new_data_source name = record {
  metadata = record {
    name = name;
    namespace = golden_images_namespace;
    labels = [];
    annotations = [];
  };
  source = record {
    pvc = some (record { namespace = golden_images_namespace; name = name });
    snapshot = none;
    data_source = none;
  };
  conditions = [];
}

unfoldable pub new_data_source_reference : String → String → DataSource
new_data_source_reference name reference_name = record {
  metadata = record {
    name = name;
    namespace = golden_images_namespace;
    labels = [];
    annotations = [];
  };
  source = record {
    pvc = none;
    snapshot = none;
    data_source = some (record { namespace = golden_images_namespace; name = reference_name });
  };
  conditions = [];
}

-- The first architecture of the cluster that a data source has.
unfoldable pub get_default_data_source_arch : List Arch → List Arch → Option Arch
unfolding arch_eq
get_default_data_source_arch [] data_source_archs = none
get_default_data_source_arch (arch ∷ archs) data_source_archs =
    let rest = get_default_data_source_arch archs data_source_archs in
    if contains data_source_archs arch then some arch else rest

unfoldable pub get_data_source_ready_condition :
    List DataSourceCondition → Option DataSourceCondition
unfolding string_eq
get_data_source_ready_condition [] = none
get_data_source_ready_condition (condition ∷ conditions) =
    let rest = get_data_source_ready_condition conditions in
    if condition.type_name == "Ready" then some condition else rest

module _ {P : Type 0} (request : Request P) where
  unfoldable pub check_if_pvc_exists : DataSource → DsError ⊎ Bool
  check_if_pvc_exists data_source = elim data_source.source.pvc [
    | none ↦ inr false
    | some pvc ↦ elim (request.get_pvc pvc) [
      | found claim ↦ inr true
      | not_found ↦ inr false
      | failed err ↦ inl (client_error err)
    ]
  ]

  -- `!pvcExists`, where the check does not fail.
  unfoldable pub auto_update_unless_pvc : DataSource → DsError ⊎ Bool
  unfolding check_if_pvc_exists
  auto_update_unless_pvc data_source = elim (check_if_pvc_exists data_source) [
    | inl err ↦ inl err
    | inr pvc_exists ↦ inr (not pvc_exists)
  ]

  -- Go's `==` on pointers to two different objects: only two nil ones are equal.
  unfoldable pub same_pointer : Option NamespacedName → Option NamespacedName → Bool
  same_pointer none none = true
  same_pointer none (some q) = false
  same_pointer (some p) none = false
  same_pointer (some p) (some q) = false

  -- From "Check existing data source" on, for a data source that has a cron.
  unfoldable pub existing_auto_update : DataSource → Get DataSource → DsError ⊎ Bool
  unfolding auto_update_unless_pvc same_pointer string_eq get_data_source_ready_condition
  existing_auto_update data_source not_found = auto_update_unless_pvc data_source
  existing_auto_update data_source (failed err) = inl (client_error err)
  existing_auto_update data_source (found ds) =
      elim (lookup "cdi.kubevirt.io/dataImportCron" ds.metadata.labels) [
        | some label ↦ inr true
        | none ↦ elim (get_data_source_ready_condition ds.conditions) [
          | none ↦ auto_update_unless_pvc data_source
          | some condition ↦
              if same_pointer ds.source.pvc data_source.source.pvc
              then inr (not (condition.status == "True"))
              else auto_update_unless_pvc data_source
        ]
      ]

  unfoldable pub data_source_auto_update_enabled :
      {C : Type 0} → DataSource → Dict NamespacedName C → DsError ⊎ Bool
  unfolding existing_auto_update
  data_source_auto_update_enabled data_source cron_by_data_source =
      elim (lookup (object_key data_source.metadata) cron_by_data_source) [
        | none ↦ inr false
        | some cron ↦
            existing_auto_update data_source
              (request.get_data_source (object_key data_source.metadata))
      ]

  -- `dataSource.Spec.Source.PVC.Name = originalPvcName`. The callers pass data sources with a claim:
  -- on one without, which the model leaves as it is, the assignment is a nil dereference.
  unfoldable pub with_pvc_name : DataSource → String → DataSource
  with_pvc_name ds name = elim ds.source.pvc [
    | none ↦ ds
    | some pvc ↦ record ds { source = record ds.source { pvc = some (record pvc { name = name }) } }
  ]

  -- The claim of the original name, where it is found in the namespace of the data source.
  unfoldable pub points_to_original : DataSource → DataSource → String → Bool
  unfolding string_eq
  points_to_original found_ds data_source original_pvc_name = elim found_ds.source.pvc [
    | none ↦ false
    | some pvc ↦
        if pvc.name == original_pvc_name
        then pvc.namespace == data_source.metadata.namespace
        else false
  ]

  -- A default data source that exists, with the ready condition or without.
  unfoldable pub existing_default :
      DataSource → Bool → String → DataSource → Option DataSourceCondition → DataSource × Bool
  unfolding with_pvc_name points_to_original string_eq
  existing_default data_source auto_update original_pvc_name ds none =
      (record data_source { source = ds.source }, false)
  existing_default data_source auto_update original_pvc_name ds (some condition) =
      if condition.status == "True"
      then if points_to_original ds data_source original_pvc_name
        then (with_pvc_name data_source original_pvc_name, false)
        else (data_source, auto_update)
      else (data_source, auto_update)

  unfoldable pub handle_default_data_source :
      DataSource → Bool → String → DsError ⊎ DataSource × Bool
  unfolding existing_default with_pvc_name get_data_source_ready_condition string_eq
  handle_default_data_source data_source auto_update original_pvc_name =
      elim (request.get_data_source (object_key data_source.metadata)) [
        | failed err ↦ inl (client_error err)
        | not_found ↦ elim data_source.source.pvc [
          | none ↦ inl nil_pointer
          | some pvc ↦
              elim (request.get_pvc
                (record { namespace = pvc.namespace; name = original_pvc_name })) [
                  | failed err ↦ inl (client_error err)
                  | found claim ↦ inr (with_pvc_name data_source original_pvc_name, false)
                  | not_found ↦ inr (data_source, auto_update)
                ]
        ]
        | found ds ↦ elim (lookup "cdi.kubevirt.io/dataImportCron" ds.metadata.labels) [
          | some label ↦ inr (data_source, auto_update)
          | none ↦ inr (
              existing_default data_source auto_update original_pvc_name ds
                (get_data_source_ready_condition ds.conditions))
        ]
      ]
