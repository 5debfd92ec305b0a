-- ===== src/Api.antt =====
-- api/v1beta3/ssp_types.go: the specification of an SSP object, with the fields that the modelled code
-- reads. `P` is `NodePlacement`, a type of controller-lifecycle-operator-sdk that the code only passes on.
-- A pointer is an `Option`.
use ssp_operator.Base.{String, Bool, Option, List}
use ssp_operator.Kubernetes.{ObjectMeta}

pub record Cluster : Type 0 where
  pub workload_architectures : List String
  pub control_plane_architectures : List String

pub record TemplateValidator (P : Type 0) : Type 0 where
  pub placement : Option P

-- The parts of CDI's `DataImportCronSpec` that the code reads or writes.
pub record PlatformOptions : Type 0 where
  pub architecture : String

pub record Registry : Type 0 where
  pub url : Option String
  pub platform : Option PlatformOptions

pub record DataVolumeSource : Type 0 where
  pub registry : Option Registry

pub record DataImportCronSpec : Type 0 where
  pub managed_data_source : String
  pub source : Option DataVolumeSource

pub record DataImportCron : Type 0 where
  pub metadata : ObjectMeta
  pub spec : DataImportCronSpec

pub record DataImportCronTemplate : Type 0 where
  pub metadata : ObjectMeta
  pub spec : DataImportCronSpec

unfoldable pub as_data_import_cron : DataImportCronTemplate → DataImportCron
as_data_import_cron t = record { metadata = t.metadata; spec = t.spec }

pub record CommonTemplates : Type 0 where
  pub namespace : String
  pub data_import_cron_templates : List DataImportCronTemplate

pub record SspSpec (P : Type 0) : Type 0 where
  pub enable_multiple_architectures : Option Bool
  pub template_validator : Option (TemplateValidator P)
  pub cluster : Option Cluster
  pub common_templates : CommonTemplates
