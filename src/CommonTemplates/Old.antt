-- ===== src/CommonTemplates/Old.antt =====
-- internal/operands/common-templates/reconcile.go: `deprecateOrDeleteOldTemplates`, the selectors of labels that it
-- and `Cleanup` list by, and what becomes of a template that is not deployed.
use ssp_operator.Architecture.{Arch, arch_eq}
use ssp_operator.Base.{
  String, Bool, not, Option, none, some, List, [], ◌∷◌, ◌⊎◌, inl, inr, ◌==◌, contains, string_eq,
  if◌then◌else◌,
}
use ssp_operator.Base.Dict.{Dict, lookup_or, insert, delete}
use ssp_operator.CommonTemplates.{ClusterTemplate, arch_of}
use ssp_operator.Resources.{Get, found, not_found, failed}
use ssp_operator.Resources.Owned.{OwnerName, list_owned_resources}

-- `labels.Requirement` with one of the two operators that the code uses.
pub data Requirement : Type 0 where
  equals not_equals : (key value : String) → Requirement

unfoldable pub get_deprecated_templates_label_selector : List Requirement
get_deprecated_templates_label_selector = equals "template.kubevirt.io/deprecated" "true" ∷ []

abbrev pub common_templates_version : String
common_templates_version = "v0.35.0"

unfoldable pub get_old_templates_label_selector : List Requirement
get_old_templates_label_selector =
    equals "template.kubevirt.io/type" "base"
    ∷ not_equals "template.kubevirt.io/version" common_templates_version
    ∷ []

-- semver's `ParseTolerant`, and whether `Compare` yields 1.
pub record Semver (V : Type 0) : Type 0 where
  pub parse_tolerant : String → Option V
  pub is_newer : V → V → Bool

pub data Action : Type 0 where
  keep delete_template deprecate_template : Action

pub data OldError : Type 0 where
  list_failed owned_failed : String → OldError
  invalid_version : OldError

module _ {Raw Ref : Type 0} where
  -- `nonDeployedTemplates[template.Name] = template` for every template
  unfoldable pub insert_all :
      List (ClusterTemplate Raw Ref)
      → Dict String (ClusterTemplate Raw Ref)
      → Dict String (ClusterTemplate Raw Ref)
  insert_all [] d = d
  insert_all (template ∷ templates) d = insert_all templates (insert template.name template d)

  unfoldable pub delete_names :
      List (ClusterTemplate Raw Ref)
      → Dict String (ClusterTemplate Raw Ref)
      → Dict String (ClusterTemplate Raw Ref)
  delete_names [] d = d
  delete_names (template ∷ templates) d = delete_names templates (delete template.name d)

  unfoldable pub non_deployed_templates :
      (old owned deployed : List (ClusterTemplate Raw Ref)) → Dict String (ClusterTemplate Raw Ref)
  unfolding insert_all delete_names
  non_deployed_templates old owned deployed =
      delete_names deployed (insert_all owned (insert_all old []))

  module _ {V : Type 0} (semver : Semver V) where
    -- What the loop does with a template.
    unfoldable pub action_for : V → List Arch → ClusterTemplate Raw Ref → Action
    action_for latest archs template =
        let version_label = lookup_or "" "template.kubevirt.io/version" template.labels in
        if template.deleting then keep else elim (arch_of template) [
          | inl err ↦ delete_template
          | inr template_arch ↦
              if not (contains archs template_arch)
              then delete_template
              else if version_label == ""
              then deprecate_template
              else elim (semver.parse_tolerant version_label) [
                | none ↦ deprecate_template
                | some version ↦ if semver.is_newer latest version then deprecate_template else keep
              ]
        ]

    -- The reconcile functions, as the templates with what they do.
    unfoldable pub old_template_funcs :
        V
        → List Arch
        → Dict String (ClusterTemplate Raw Ref)
        → List (Action × ClusterTemplate Raw Ref)
    unfolding action_for
    old_template_funcs latest archs [] = []
    old_template_funcs latest archs ((name, template) ∷ templates) =
        let rest = old_template_funcs latest archs templates in
        elim (action_for latest archs template) [
          | keep ↦ rest
          | delete_template ↦ (delete_template, template) ∷ rest
          | deprecate_template ↦ (deprecate_template, template) ∷ rest
        ]

    -- `list` answers `client.List` with a selector and a namespace. A missing kind is accepted by the first
    -- request only.
    unfoldable pub deprecate_or_delete_old_templates :
        (List Requirement → String → Get (List (ClusterTemplate Raw Ref)))
        → OwnerName
        → (namespace : String) (deployed : List (ClusterTemplate Raw Ref)) (archs : List Arch)
        → OldError ⊎ List (Action × ClusterTemplate Raw Ref)
    unfolding get_old_templates_label_selector list_owned_resources old_template_funcs
        non_deployed_templates
    deprecate_or_delete_old_templates list owner namespace deployed archs =
        let after : List (ClusterTemplate Raw Ref)
            → OldError ⊎ List (Action × ClusterTemplate Raw Ref) =
          λ old. elim (semver.parse_tolerant common_templates_version) [
            | none ↦ inl invalid_version
            | some latest ↦ elim (list_owned_resources owner (list [] namespace)) [
              | inl err ↦ inl (owned_failed err)
              | inr owned ↦
                  inr (old_template_funcs latest archs (non_deployed_templates old owned deployed))
            ]
          ] in
        elim (list get_old_templates_label_selector namespace) [
          | failed err ↦ inl (list_failed err)
          | not_found ↦ after []
          | found old ↦ after old
        ]
