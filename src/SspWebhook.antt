-- ===== src/SspWebhook.antt =====
-- webhooks/ssp_webhook.go: the validation of SSP objects on creation and update. What the API server
-- answers is a parameter: the SSP objects that it lists, or that the listing fails, and whether a dry run
-- of creating a deployment fails.
pub mod Accepted
mod Tests
use ssp_operator.Api.{SspSpec, DataImportCronTemplate}
use ssp_operator.Architecture.{ArchError, to_arch, deref}
use ssp_operator.Base.{
  String, Bool, true, false, ◌&&◌, Option, none, some, List, [], ◌∷◌, ◌⊎◌, inl, inr, ◌==◌,
  string_eq, if◌then◌else◌,
}
use ssp_operator.Base.Dict.{Dict}
use ssp_operator.Kubernetes.{ObjectMeta}

pub record Ssp (P : Type 0) : Type 0 where
  pub metadata : ObjectMeta
  pub spec : SspSpec P

pub data ClusterError : Type 0 where
  multi_architecture_without_cluster at_least_one_architecture : ClusterError
  invalid_workload_architecture invalid_control_plane_architecture : ArchError → ClusterError

-- The deployment of the dry run: the constants of `validateOperandPlacement` with the placement of the
-- SSP object injected.
pub record Deployment (P : Type 0) : Type 0 where
  pub name : String
  pub namespace : String
  pub match_labels : Dict String String
  pub generate_name : String
  pub labels : Dict String String
  pub container_name : String
  pub image : String
  pub placement : P

pub data SspError (E : Type 0) : Type 0 where
  could_not_list : SspError E
  already_exists : String → String → SspError E
  cluster_error : ClusterError → SspError E
  missing_name : SspError E
  placement_error : E → SspError E

-- A loop that converts every architecture: the error of the first that is not known.
unfoldable pub check_archs : List String → Option ArchError
check_archs [] = none
check_archs (arch_str ∷ arch_strs) =
    let rest = check_archs arch_strs in
    elim (to_arch arch_str) [ inl err ↦ some err | inr arch ↦ rest ]

abbrev pub is_empty {ℓ} : {A : Type ℓ} → List A → Bool
is_empty [] = true
is_empty (x ∷ xs) = false

unfoldable pub validate_cluster : {P : Type 0} → SspSpec P → Option ClusterError
validate_cluster spec = elim spec.cluster [
  | none ↦
      if deref spec.enable_multiple_architectures
      then some multi_architecture_without_cluster
      else none
  | some cluster ↦
      if is_empty cluster.workload_architectures && is_empty cluster.control_plane_architectures
      then some at_least_one_architecture
      else elim (check_archs cluster.workload_architectures) [
        | some err ↦ some (invalid_workload_architecture err)
        | none ↦ elim (check_archs cluster.control_plane_architectures) [
          | some err ↦ some (invalid_control_plane_architecture err)
          | none ↦ none
        ]
      ]
]

-- Whether every template has a name.
unfoldable pub validate_data_import_cron_templates : List DataImportCronTemplate → Bool
unfolding string_eq
validate_data_import_cron_templates [] = true
validate_data_import_cron_templates (cron ∷ crons) =
    let rest = validate_data_import_cron_templates crons in
    if cron.metadata.name == "" then false else rest

unfoldable pub placement_deployment : {P : Type 0} → String → P → Deployment P
placement_deployment namespace placement = record {
  name = "ssp-webhook-placement-verification-deployment";
  namespace = namespace;
  match_labels = ("webhook.ssp.kubevirt.io/placement-verification-pod", "") ∷ [];
  generate_name = "ssp-webhook-placement-verification-pod";
  labels = ("webhook.ssp.kubevirt.io/placement-verification-pod", "") ∷ [];
  container_name = "ssp-webhook-placement-verification-pod";
  image = "ssp.kubevirt.io/not-available";
  placement = placement;
}

module _ {P E : Type 0} (dry_run : Deployment P → Option E) where
  unfoldable pub validate_operand_placement : String → Option P → Option E
  unfolding placement_deployment
  validate_operand_placement namespace none = none
  validate_operand_placement namespace (some placement) =
      dry_run (placement_deployment namespace placement)

  unfoldable pub validate_placement : Ssp P → Option E
  unfolding validate_operand_placement
  validate_placement ssp = elim ssp.spec.template_validator [
    | none ↦ none
    | some validator ↦ validate_operand_placement ssp.metadata.namespace validator.placement
  ]

  -- `none` is the acceptance.
  unfoldable pub validate_ssp_object : Ssp P → Option (SspError E)
  unfolding validate_cluster validate_data_import_cron_templates validate_placement string_eq
  validate_ssp_object ssp = elim (validate_cluster ssp.spec) [
    | some err ↦ some (cluster_error err)
    | none ↦
        if validate_data_import_cron_templates ssp.spec.common_templates.data_import_cron_templates
        then elim (validate_placement ssp) [ some err ↦ some (placement_error err) | none ↦ none ]
        else some missing_name
  ]

  unfoldable pub validate_create : Option (List (Ssp P)) → Ssp P → Option (SspError E)
  unfolding validate_ssp_object
  validate_create none obj = some could_not_list
  validate_create (some []) obj = validate_ssp_object obj
  validate_create (some (ssp ∷ ssps)) obj =
      some (already_exists ssp.metadata.namespace ssp.metadata.name)

  unfoldable pub validate_update : Ssp P → Option (SspError E)
  unfolding validate_ssp_object
  validate_update new_obj = validate_ssp_object new_obj
