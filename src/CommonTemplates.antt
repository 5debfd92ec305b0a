-- ===== src/CommonTemplates.antt =====
-- internal/operands/common-templates: the operand that deploys the templates of virtual machines. `Raw` is an
-- undecoded object of a template and `Ref` an owner reference.
pub mod Old
pub mod Updates
pub mod Operand
pub mod Decided
mod NonDeployed
pub mod Updated
pub mod Bundled
pub mod Sources
mod Tests
use Prim.Native.Nat.{ℕ, ◌+◌}
use ssp_operator.Api.{SspSpec}
use ssp_operator.Architecture.{Arch, ArchError, arch_string, arch_eq}
use ssp_operator.Base.{
  String, ◌<>◌, Bool, true, false, ◌&&◌, not, Option, none, some, List, [], ◌∷◌, ◌++◌, ◌⊎◌, inl,
  inr, ◌==◌, string_eq, if◌then◌else◌,
}
use ssp_operator.Base.Dict.{Dict, lookup, lookup_or, insert}
use ssp_operator.Kubernetes.{ObjectMeta}
use ssp_operator.Resources.{Object}
use ssp_operator.Resources.Reconcile.{ReconcileResult, updated, unchanged, created, deleted}
use ssp_operator.TemplateBundle.{Parameter, get_template_arch}

pub record TemplateContent (Raw : Type 0) : Type 0 where
  pub objects : List Raw
  pub parameters : List Parameter

-- `templatev1.Template`, as the objects of Resources.
abbrev pub ClusterTemplate : (Raw Ref : Type 0) → Type 0
ClusterTemplate Raw Ref = Object (TemplateContent Raw) Ref

abbrev pub metadata_of : {S Ref : Type 0} → Object S Ref → ObjectMeta
metadata_of o = record {
  name = o.name;
  namespace = o.namespace;
  labels = o.labels;
  annotations = o.annotations;
}

abbrev pub arch_of : {S Ref : Type 0} → Object S Ref → ArchError ⊎ Arch
arch_of o = get_template_arch (metadata_of o)

-- `commonTemplates`
abbrev pub TemplatesByArch : (Raw Ref : Type 0) → Type 0
TemplatesByArch Raw Ref = Dict Arch (List (ClusterTemplate Raw Ref))

-- `param.Value + "-" + string(arch)` at the first parameter of the name.
unfoldable pub add_arch_suffix_to_parameters : Arch → List Parameter → List Parameter
add_arch_suffix_to_parameters arch [] = []
add_arch_suffix_to_parameters arch (param ∷ parameters) =
    let rest = add_arch_suffix_to_parameters arch parameters in
    if param.name == "DATA_SOURCE_NAME"
    then record param { value = param.value <> ("-" <> arch_string arch) } ∷ parameters
    else param ∷ rest

module _ {Raw Ref : Type 0} where
  -- The loop of `New`; the error names the template.
  unfoldable pub add_templates :
      TemplatesByArch Raw Ref
      → List (ClusterTemplate Raw Ref)
      → (String × ArchError) ⊎ TemplatesByArch Raw Ref
  add_templates by_arch [] = inr by_arch
  add_templates by_arch (template ∷ templates) = elim (arch_of template) [
    | inl err ↦ inl (template.name, err)
    | inr arch ↦
        add_templates (insert arch (lookup_or [] arch by_arch ++ (template ∷ [])) by_arch) templates
  ]

  unfoldable pub new_common_templates :
      List (ClusterTemplate Raw Ref) → (String × ArchError) ⊎ TemplatesByArch Raw Ref
  unfolding add_templates
  new_common_templates templates = add_templates [] templates

  unfoldable pub add_arch_suffix_to_data_source_parameter :
      Arch → ClusterTemplate Raw Ref → ClusterTemplate Raw Ref
  unfolding add_arch_suffix_to_parameters
  add_arch_suffix_to_data_source_parameter arch template =
      let content = template.content in
      record template {
        content = record content {
          parameters = add_arch_suffix_to_parameters arch content.parameters;
        };
      }

  unfoldable pub suffixed : Arch → List (ClusterTemplate Raw Ref) → List (ClusterTemplate Raw Ref)
  unfolding add_arch_suffix_to_data_source_parameter
  suffixed arch [] = []
  suffixed arch (template ∷ templates) =
      add_arch_suffix_to_data_source_parameter arch template ∷ suffixed arch templates

  unfoldable pub get_templates_for_archs :
      {P : Type 0}
      → TemplatesByArch Raw Ref
      → List Arch
      → SspSpec P
      → List (ClusterTemplate Raw Ref)
  unfolding suffixed
  get_templates_for_archs by_arch [] spec = []
  get_templates_for_archs by_arch (arch ∷ cluster_archs) spec =
      let rest = get_templates_for_archs by_arch cluster_archs spec in
      let templates_for_arch = lookup_or [] arch by_arch in
      elim spec.enable_multiple_architectures [
        | none ↦ templates_for_arch ++ rest
        | some false ↦ templates_for_arch ++ rest
        | some true ↦ suffixed arch templates_for_arch ++ rest
      ]

  -- By how much `incrementTemplatesRestoredMetric` increases the metric for one result.
  unfoldable pub is_restored : ReconcileResult (TemplateContent Raw) Ref → Bool
  is_restored result = elim result.initial_resource [
    | none ↦ false
    | some initial ↦ elim result.operation_result [
      | updated ↦
          lookup_or "" "template.kubevirt.io/version" initial.labels
            == lookup_or "" "template.kubevirt.io/version" result.resource.labels
          && lookup_or "" "app.kubernetes.io/version" initial.labels
            == lookup_or "" "app.kubernetes.io/version" result.resource.labels
      | unchanged ↦ false
      | created ↦ false
      | deleted ↦ false
    ]
  ]

  unfoldable pub increment_templates_restored_metric :
      List (ReconcileResult (TemplateContent Raw) Ref) → ℕ → ℕ
  unfolding is_restored
  increment_templates_restored_metric [] metric = metric
  increment_templates_restored_metric (result ∷ results) metric =
      increment_templates_restored_metric results
        (if is_restored result then metric + 1 else metric)
