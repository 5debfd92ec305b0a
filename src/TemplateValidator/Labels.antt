-- ===== src/TemplateValidator/Labels.antt =====
-- internal/template-validator/labels/labels.go: the template that an object refers to.
use ssp_operator.Base.{String, ◌<>◌, Bool, ◌&&◌, ◌||◌, not, [], ◌∷◌, ◌==◌, string_eq, if◌then◌else◌}
use ssp_operator.Base.Dict.{Dict, lookup_or}
use ssp_operator.Kubernetes.{ObjectMeta}

abbrev annotation_template_name_key : String
annotation_template_name_key = "vm.kubevirt.io/template"

abbrev annotation_template_namespace_key : String
annotation_template_namespace_key = "vm.kubevirt.io/template.namespace"

abbrev annotation_template_namespace_old_key : String
annotation_template_namespace_old_key = "vm.kubevirt.io/template-namespace"

abbrev pub annotation_validation_key : String
annotation_validation_key = "validations"

abbrev pub vm_validation_annotation_key : String
vm_validation_annotation_key = "vm.kubevirt.io/validations"

abbrev pub vm_skip_validation_annotation_key : String
vm_skip_validation_annotation_key = "vm.kubevirt.io/skip-validations"

pub record TemplateKey : Type 0 where
  pub name : String
  pub namespace : String
  pub old_namespace : String

unfoldable pub any_namespace : TemplateKey → String
any_namespace t = if not (t.namespace == "") then t.namespace else t.old_namespace

unfoldable pub is_valid : TemplateKey → Bool
unfolding any_namespace
is_valid t = not (t.name == "") && not (any_namespace t == "")

unfoldable pub to_string : TemplateKey → String
unfolding is_valid any_namespace
to_string t = if not (is_valid t) then "" else any_namespace t <> ("/" <> t.name)

pub record TemplateKeys : Type 0 where
  pub label_key : TemplateKey
  pub annotation_key : TemplateKey

unfoldable pub get : TemplateKeys → TemplateKey
unfolding is_valid
get t = if is_valid t.label_key then t.label_key else t.annotation_key

unfoldable pub keys_are_valid : TemplateKeys → Bool
unfolding is_valid
keys_are_valid t = is_valid t.label_key || is_valid t.annotation_key

unfoldable pub get_template_key_from_map : Dict String String → TemplateKey
get_template_key_from_map [] = record { name = ""; namespace = ""; old_namespace = "" }
get_template_key_from_map (entry ∷ rest) = record {
  name = lookup_or "" annotation_template_name_key (entry ∷ rest);
  namespace = lookup_or "" annotation_template_namespace_key (entry ∷ rest);
  old_namespace = lookup_or "" annotation_template_namespace_old_key (entry ∷ rest);
}

unfoldable pub get_template_keys : ObjectMeta → TemplateKeys
unfolding get_template_key_from_map
get_template_keys obj = record {
  label_key = get_template_key_from_map obj.labels;
  annotation_key = get_template_key_from_map obj.annotations;
}
