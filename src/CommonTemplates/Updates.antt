-- ===== src/CommonTemplates/Updates.antt =====
-- internal/operands/common-templates/reconcile.go: what the operand makes of a template that it finds, to update it
-- or to deprecate it.
use Prim.Native.Char.{code}
use ssp_operator.Base.{
  String, Bool, true, false, ◌&&◌, ◌||◌, not, none, some, List, ◌==◌, string_eq, if◌then◌else◌,
}
use ssp_operator.Base.Dict.{Dict, lookup, insert}
use ssp_operator.Base.Equality.{nat_eq}
use ssp_operator.Base.Text.{has_prefix}
use ssp_operator.CommonTemplates.{ClusterTemplate}

-- Whether a dot that is followed by the text comes before any newline.
unfoldable pub has_after_dot : String → String → Bool
unfolding has_prefix nat_eq
has_after_dot text String.[] = false
has_after_dot text (String.◌∷◌ c s) =
    let rest = has_after_dot text s in
    if code c == 10 then false else if code c == 46 && has_prefix s text then true else rest

-- `templateKubevirtIoPattern`: `^(.*\.)?template\.kubevirt\.io/`
unfoldable pub template_kubevirt_io_pattern : String → Bool
unfolding has_prefix has_after_dot
template_kubevirt_io_pattern key =
    has_prefix key "template.kubevirt.io/" || has_after_dot "template.kubevirt.io/" key

unfoldable pub is_predefined_key : String → Bool
unfolding template_kubevirt_io_pattern string_eq
is_predefined_key key =
    key == "description"
    || key == "tags"
    || key == "iconClass"
    || has_prefix key "openshift.io/"
    || template_kubevirt_io_pattern key

abbrev pub has_key : String → Dict String String → Bool
has_key key d = elim (lookup key d) [ none ↦ false | some value ↦ true ]

-- A loop of `syncPredefinedAnnotationsAndLabels`, over the annotations or the labels of the found template.
unfoldable pub sync_predefined : (new found : Dict String String) → Dict String String
unfolding is_predefined_key
sync_predefined new List.[] = List.[]
sync_predefined new (List.◌∷◌ (key, value) found) =
    let rest = sync_predefined new found in
    if is_predefined_key key && not (has_key key new) then rest else List.◌∷◌ (key, value) rest

-- The loop over the labels of `reconcileDeprecateTemplate`.
unfoldable pub without_searchable_labels : Dict String String → Dict String String
unfolding has_prefix
without_searchable_labels List.[] = List.[]
without_searchable_labels (List.◌∷◌ (key, value) labels) =
    let rest = without_searchable_labels labels in
    if has_prefix key "os.template.kubevirt.io/"
      || has_prefix key "flavor.template.kubevirt.io/"
      || has_prefix key "workload.template.kubevirt.io/"
    then rest
    else List.◌∷◌ (key, value) rest

module _ {Raw Ref : Type 0} where
  unfoldable pub sync_predefined_annotations_and_labels :
      (found_template new_template : ClusterTemplate Raw Ref) → ClusterTemplate Raw Ref
  unfolding sync_predefined
  sync_predefined_annotations_and_labels found_template new_template = record found_template {
    annotations = sync_predefined new_template.annotations found_template.annotations;
    labels = sync_predefined new_template.labels found_template.labels;
  }

  -- The update function of `reconcileTemplatesFuncs`.
  unfoldable pub update_template :
      (new_template found_template : ClusterTemplate Raw Ref) → ClusterTemplate Raw Ref
  unfolding sync_predefined_annotations_and_labels
  update_template new_template found_template =
      record (sync_predefined_annotations_and_labels found_template new_template) {
        content = new_template.content;
      }

  -- The update function of `reconcileDeprecateTemplate`. The maps are not nil: labels and annotations of the
  -- operator were added before.
  unfoldable pub deprecated :
      (expected found_template : ClusterTemplate Raw Ref) → ClusterTemplate Raw Ref
  unfolding without_searchable_labels
  deprecated expected found_template = record found_template {
    annotations = insert "template.kubevirt.io/deprecated" "true" found_template.annotations;
    labels =
        insert "template.kubevirt.io/deprecated" "true"
          (without_searchable_labels found_template.labels);
  }
