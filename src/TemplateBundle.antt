-- ===== src/TemplateBundle.antt =====
-- internal/template-bundle/bundle.go and internal/operands/common-templates/architecture.go: the data
-- sources that a bundle of templates refers to. Decoding the object of a template, and reading what it
-- nests, are library functions and parameters here. The file that the bundle is read from is not modelled.
pub mod Collected
pub mod Tests
use ssp_operator.Architecture.{Arch, ArchError, amd64, to_arch, arch_eq}
use ssp_operator.Base.{
  String, Bool, true, false, ◌&&◌, not, Option, none, some, List, [], ◌∷◌, ◌++◌, ◌⊎◌, inl, inr,
  ◌==◌, contains, string_eq, if◌then◌else◌,
}
use ssp_operator.Base.Dict.{Dict, lookup, lookup_or, insert}
use ssp_operator.Kubernetes.{ObjectMeta}

pub record Parameter : Type 0 where
  pub name : String
  pub value : String

-- `Raw` is the undecoded object.
pub record Template (Raw : Type 0) : Type 0 where
  pub metadata : ObjectMeta
  pub objects : List Raw
  pub parameters : List Parameter

pub data BundleError : Type 0 where
  decode_failed nested_failed : BundleError
  unexpected_object : String → String → String → BundleError
  invalid_namespace : String → String → BundleError
  invalid_architecture : String → ArchError → BundleError
  -- the panics: a template without an object, and a volume template that is not a map
  no_object not_a_map : BundleError

-- `DataSourceCollection`
abbrev pub DataSourceCollection : Type 0
DataSourceCollection = Dict String (List Arch)

unfoldable pub add_name_and_arch : String → Arch → DataSourceCollection → DataSourceCollection
unfolding string_eq arch_eq
add_name_and_arch name arch d =
    if contains (lookup_or [] name d) arch
    then d
    else insert name (lookup_or [] name d ++ (arch ∷ [])) d

unfoldable pub collection_contains : DataSourceCollection → String → Arch → Bool
unfolding string_eq arch_eq
collection_contains d name arch = contains (lookup_or [] name d) arch

unfoldable pub find_parameter_value : String → List Parameter → Option String
unfolding string_eq
find_parameter_value name [] = none
find_parameter_value name (parameter ∷ parameters) =
    let rest = find_parameter_value name parameters in
    if parameter.name == name then some parameter.value else rest

unfoldable pub find_data_source_name : List Parameter → Option String
unfolding find_parameter_value
find_data_source_name parameters = elim (find_parameter_value "DATA_SOURCE_NAME" parameters) [
  | some name ↦ some name
  | none ↦ find_parameter_value "SRC_PVC_NAME" parameters
]

unfoldable pub find_data_source_namespace : List Parameter → Option String
unfolding find_parameter_value
find_data_source_namespace parameters =
    elim (find_parameter_value "DATA_SOURCE_NAMESPACE" parameters) [
      | some name ↦ some name
      | none ↦ find_parameter_value "SRC_PVC_NAMESPACE" parameters
    ]

unfoldable pub get_template_arch : ObjectMeta → ArchError ⊎ Arch
unfolding string_eq
get_template_arch metadata =
    let label = lookup_or "" "template.kubevirt.io/architecture" metadata.labels in
    if label == "" then inr amd64 else to_arch label

-- The functions of the YAML decoder and of the package `unstructured`. `nested_slice` and
-- `nested_field` fail where a field on the way is not of the expected type, and yield `none` where it
-- is missing.
pub record Unstructured (Raw U : Type 0) : Type 0 where
  pub decode : Raw → Option U
  pub api_version : U → String
  pub kind : U → String
  pub nested_slice : U → List String → Option (Option (List U))
  pub nested_field : U → List String → Option (Option U)
  pub is_map : U → Bool
  pub is_nil : U → Bool

module _ {Raw U : Type 0} (unstructured : Unstructured Raw U) where
  -- Whether a volume template has a `sourceRef`; the loop stops at the first one that has it.
  unfoldable pub any_source_ref : List U → BundleError ⊎ Bool
  any_source_ref [] = inr false
  any_source_ref (volume ∷ volumes) =
      let rest = any_source_ref volumes in
      if not (unstructured.is_map volume)
      then inl not_a_map
      else elim (unstructured.nested_field volume ("spec" ∷ "sourceRef" ∷ [])) [
        | none ↦ inl nested_failed
        | some none ↦ rest
        | some (some val) ↦ if unstructured.is_nil val then rest else inr true
      ]

  unfoldable pub vm_template_uses_source_ref : Template Raw → BundleError ⊎ Bool
  unfolding any_source_ref string_eq
  vm_template_uses_source_ref template = elim template.objects [
    | [] ↦ inl no_object
    | raw ∷ raws ↦ elim (unstructured.decode raw) [
      | none ↦ inl decode_failed
      | some vm ↦
          if not (
            unstructured.api_version vm == "kubevirt.io/v1"
            && unstructured.kind vm == "VirtualMachine")
          then inl (
              unexpected_object template.metadata.name (unstructured.api_version vm)
                (unstructured.kind vm))
          else elim (unstructured.nested_slice vm ("spec" ∷ "dataVolumeTemplates" ∷ [])) [
            | none ↦ inl nested_failed
            | some none ↦ inr false
            | some (some volumes) ↦ any_source_ref volumes
          ]
    ]
  ]

  -- The end of the body of the loop of `CollectDataSources`, for a template with a data source.
  unfoldable pub named_source : Template Raw → String → BundleError ⊎ Option (String × Arch)
  unfolding get_template_arch
  named_source template name = elim (get_template_arch template.metadata) [
    | inl err ↦ inl (invalid_architecture template.metadata.name err)
    | inr arch ↦ inr (some (name, arch))
  ]

  -- What one template adds to the collection, if anything.
  unfoldable pub template_source : Template Raw → BundleError ⊎ Option (String × Arch)
  unfolding vm_template_uses_source_ref find_data_source_name find_data_source_namespace
      named_source string_eq
  template_source template = elim (vm_template_uses_source_ref template) [
    | inl err ↦ inl err
    | inr false ↦ inr none
    | inr true ↦ elim (find_data_source_name template.parameters) [
      | none ↦ inr none
      | some name ↦ elim (find_data_source_namespace template.parameters) [
        | none ↦ named_source template name
        | some namespace ↦
            if namespace == "kubevirt-os-images"
            then named_source template name
            else inl (invalid_namespace template.metadata.name namespace)
      ]
    ]
  ]

  unfoldable pub collect_from :
      DataSourceCollection → List (Template Raw) → BundleError ⊎ DataSourceCollection
  unfolding template_source add_name_and_arch
  collect_from result [] = inr result
  collect_from result (template ∷ templates) =
      let skip = collect_from result templates in
      elim (template_source template) [
        | inl err ↦ inl err
        | inr none ↦ skip
        | inr (some (name, arch)) ↦ collect_from (add_name_and_arch name arch result) templates
      ]

  unfoldable pub collect_data_sources : List (Template Raw) → BundleError ⊎ DataSourceCollection
  unfolding collect_from
  collect_data_sources templates = collect_from [] templates
