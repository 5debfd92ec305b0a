-- ===== src/TemplateValidator/Admission/Tests.antt =====
-- Runs of the admission webhooks, and their theorems at concrete data.
use Prim.Native.Nat.{◌+◌}
use ssp_operator.Base.{
  String, ◌≡◌, ◌≢◌, ◌↔◌, inr, refl, true, false, none, some, List, [], ◌∷◌, contains, string_eq,
  if◌then◌else◌,
}
use ssp_operator.Base.Dict.{lookup}
use ssp_operator.Base.Int.{pos}
use ssp_operator.Kubernetes.{ObjectMeta}
use ssp_operator.TemplateValidator.Labels.{
  get_template_keys, get, to_string, keys_are_valid, annotation_validation_key,
  vm_validation_annotation_key,
}
use ssp_operator.TemplateValidator.Validation.Path.{int}
use ssp_operator.TemplateValidator.Validation.Rules.{Rule}
use ssp_operator.TemplateValidator.Validation.Eval.{succeeded, evaluate}
use ssp_operator.TemplateValidator.VmCache.{
  vm_needs_template, new_vm_cache, vm_cache_key, get_vms_for_template,
}
use ssp_operator.TemplateValidator.VmCache.Tracks.{
  Event, added, handle_all, history, empty_world, uses,
}
use ssp_operator.TemplateValidator.Admission.{
  ok, VirtualMachine, Environment, AdmissionReview, delete, create, set_default_values,
  template_type_label, to_admission_response_ok, admit_vm, admit_template,
  get_parent_template_for_vm, get_admission_review_vm, get_admission_review_template,
  get_validation_rules_for_vm, get_validation_rules_from_template,
}
use ssp_operator.TemplateValidator.Admission.VirtualMachines.{
  admit_vm-evaluate, admit_vm_unchecked, vm_needs_template_gap,
}
use ssp_operator.TemplateValidator.Admission.Templates.{admit_template-uses}

abbrev Machine : Type 0
Machine = VirtualMachine (Unit {0})

abbrev machine_of : List (String × String) → Machine
machine_of annotations = record {
  meta = record { name = "a"; namespace = "ns"; labels = []; annotations = annotations };
  deletion_timestamp = none;
  cpu = none;
  rest = tt;
}

abbrev template : ObjectMeta
template = record {
  name = "t";
  namespace = "os";
  labels = (template_type_label, "base") ∷ [];
  annotations = (annotation_validation_key, "[]") ∷ [];
}

-- A rule on a path at which nothing is found.
abbrev cores_rule : Rule
cores_rule = record {
  rule = "integer";
  name = "cores";
  path = record { expr = ".cores"; path = "{.cores}" };
  message = "too few cores";
  valid = none;
  just_warning = false;
  values = [];
  min = some (int (pos 1));
  max = none;
  min_length = none;
  max_length = none;
  regex = "";
}

-- An object decodes to the virtual machine with its annotations, and to the template; the template has
-- one rule.
env : Environment (Unit {0}) (List (String × String))
env = record {
  unmarshal_vm = λ annotations. ok (machine_of annotations);
  unmarshal_template = λ raw. ok template;
  unmarshal_rules = λ s. ok (cores_rule ∷ []);
  get_by_key = λ key. ok (some template);
  library = record {
    find_results = λ p vm. none;
    compiles = λ regex. true;
    match_string = λ regex s. true;
    format_int = λ n. "n";
  };
  default_virtual_machine = machine_of [];
  error_message = λ e. "error";
}

abbrev review_of : List (String × String) → AdmissionReview (List (String × String))
review_of annotations = record {
  resource = "virtualmachines";
  resource_text = "{kubevirt.io v1 virtualmachines}";
  operation = create;
  object = annotations;
  old_object = [];
}

abbrev reference : List (String × String)
reference = ("vm.kubevirt.io/template", "t") ∷ ("vm.kubevirt.io/template-namespace", "os") ∷ []

-- The annotations of an object decode to those of the virtual machine.
decoded :
    (annotations : List (String × String))
    → get_admission_review_vm env (review_of annotations) ≡ ok (machine_of annotations)
unfolding get_admission_review_vm env string_eq
decoded annotations = refl

one_rule : get_validation_rules_for_vm env (machine_of reference) ≡ ok (cores_rule ∷ [])
unfolding get_validation_rules_for_vm get_validation_rules_from_template get_parent_template_for_vm
    env string_eq lookup get_template_keys keys_are_valid
one_rule = refl

admit_vm-evaluate_example :
    let (response, counter) = admit_vm env (review_of reference) 7 in
    let success = succeeded (
      evaluate env.library
        (set_default_values (machine_of reference))
        env.default_virtual_machine
        (cores_rule ∷ [])) in
    (response.allowed ≡ success) × (counter ≡ (if success then 7 else 7 + 1))
admit_vm-evaluate_example =
    admit_vm-evaluate env (review_of reference) 7 (machine_of reference) (cores_rule ∷ [])
      (decoded reference) refl one_rule

no_template : keys_are_valid (get_template_keys (machine_of []).meta) ≡ false
unfolding keys_are_valid get_template_keys string_eq
no_template = refl

no_own_rules : lookup vm_validation_annotation_key (machine_of []).meta.annotations ≡ none
unfolding lookup
no_own_rules = refl

admit_vm_unchecked_example : admit_vm env (review_of []) 7 ≡ (to_admission_response_ok, 7)
admit_vm_unchecked_example =
    admit_vm_unchecked env (review_of []) 7 (machine_of []) (decoded [])
      (inr (inr (no_own_rules, no_template)))

abbrev empty_rules : List (String × String)
empty_rules = (vm_validation_annotation_key, "") ∷ reference

empty_own_rules : lookup vm_validation_annotation_key empty_rules ≡ some ""
unfolding lookup string_eq
empty_own_rules = refl

not_skipped : lookup "vm.kubevirt.io/skip-validations" empty_rules ≡ none
unfolding lookup string_eq
not_skipped = refl

has_template : keys_are_valid (get_template_keys (machine_of empty_rules).meta) ≡ true
unfolding keys_are_valid get_template_keys lookup string_eq
has_template = refl

found_template :
    env.get_by_key (to_string (get (get_template_keys (machine_of empty_rules).meta)))
    ≡ ok (some template)
unfolding env
found_template = refl

vm_needs_template_gap_example :
    (get_validation_rules_for_vm env (machine_of empty_rules)
      ≡ get_validation_rules_from_template env template)
    × (contains
          (get_vms_for_template
            (handle_all (added (machine_of empty_rules).meta ∷ []) (new_vm_cache vm_needs_template))
            "os/t")
          "ns/a"
        ≡ false)
unfolding string_eq vm_cache_key
vm_needs_template_gap_example =
    vm_needs_template_gap env (machine_of empty_rules) template
      (added (machine_of empty_rules).meta ∷ []) "os/t" empty_own_rules not_skipped has_template
      found_template (refl, tt) refl

abbrev deletion : AdmissionReview (List (String × String))
deletion = record (review_of []) { resource = "templates"; operation = delete }

decoded_template : get_admission_review_template env deletion ≡ ok template
unfolding get_admission_review_template env string_eq
decoded_template = refl

abbrev events : List Event
events = added (machine_of reference).meta ∷ []

admit_template-uses_example :
    ((admit_template env (handle_all events (new_vm_cache vm_needs_template)) deletion).allowed
      ≡ false)
    ↔ ((lookup template_type_label template.labels ≢ none)
        × (lookup annotation_validation_key template.annotations ≢ none)
        × ((vm : String) × (uses vm_needs_template
                (vm_cache_key template)
                (history events empty_world vm)
              ≡ true)))
admit_template-uses_example =
    admit_template-uses env events deletion template (refl, tt) refl decoded_template
