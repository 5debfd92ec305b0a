-- ===== src/TemplateValidator/Admission/VirtualMachines.antt =====
-- The admission of virtual machines.
use Prim.Native.Nat.{◌+◌}
use ssp_operator.Base.{
  ℕ, String, ◌≡◌, ◌≢◌, ◌↔◌, ◌⊎◌, refl, Bool, true, false, none, some, List, [], ◌∷◌, arith,
  contains, string_eq, if◌then◌else◌,
}
use ssp_operator.Base.Dict.{lookup}
use ssp_operator.Kubernetes.{ObjectMeta}
use ssp_operator.TemplateValidator.Labels.{
  vm_skip_validation_annotation_key, vm_validation_annotation_key, keys_are_valid,
  get_template_keys, get, to_string,
}
use ssp_operator.TemplateValidator.Validation.Rules.{Rule}
use ssp_operator.TemplateValidator.Validation.Eval.{evaluate, evaluate_loop, succeeded}
use ssp_operator.TemplateValidator.Validation.Eval.Reports.{to_status_causes-evaluate}
use ssp_operator.TemplateValidator.VmCache.{
  vm_cache_key, vm_needs_template, new_vm_cache, get_vms_for_template,
}
use ssp_operator.TemplateValidator.VmCache.Tracks.{
  Event, handle_all, history, AllFit, empty_world, get_vms_for_template-handle_all,
}
use ssp_operator.TemplateValidator.Admission.{
  ok, Environment, VirtualMachine, AdmissionReview, set_default_values, to_admission_response_ok,
  to_admission_response, admit_vm, validate_vm, get_admission_review_vm,
  get_validation_rules_for_vm, get_parent_template_for_vm, get_validation_rules_from_template,
}

module _ {R Raw : Type 0} (env : Environment R Raw) where
  abbrev verdict : VirtualMachine R → List Rule → Bool
  verdict vm rules =
      succeeded (evaluate env.library (set_default_values vm) env.default_virtual_machine rules)

  validate_vm_iff :
      (rules : List Rule) (vm : VirtualMachine R)
      → (validate_vm env rules vm ≡ []) ↔ (verdict vm rules ≡ true)
  unfolding validate_vm
  validate_vm_iff [] vm = (λ h. unfold evaluate evaluate_loop succeeded in refl, λ h. refl)
  validate_vm_iff (rule ∷ rules) vm =
      (to_status_causes-evaluate env.library (set_default_values vm) env.default_virtual_machine
        env.error_message (rule ∷ rules)).0

  -- A virtual machine that is not being deleted, whose rules were found, is admitted exactly if the
  -- evaluation of the rules on it, its CPU counts set to one where they are zero, succeeds. If it is
  -- not, then the counter of rejected virtual machines grows by one.
  pub admit_vm-evaluate :
      (ar : AdmissionReview Raw) (rejected : ℕ) (vm : VirtualMachine R) (rules : List Rule)
      → get_admission_review_vm env ar ≡ ok vm
      → vm.deletion_timestamp ≡ none
      → get_validation_rules_for_vm env vm ≡ ok rules
      → let (response, counter) = admit_vm env ar rejected in
        let success =
          succeeded
            (evaluate env.library (set_default_values vm) env.default_virtual_machine rules) in
        (response.allowed ≡ success) × (counter ≡ (if success then rejected else rejected + 1))
  unfolding admit_vm to_admission_response_ok to_admission_response
  admit_vm-evaluate ar rejected vm rules h1 h2 h3 =
      let v = validate_vm_iff rules vm in (ground (arith, v.0, v.1), ground (arith, v.0, v.1))

  -- A virtual machine is admitted with no look at any rule if it is being deleted, if it carries the
  -- annotation to skip validation, or if it has no rules of its own and refers to no template.
  pub admit_vm_unchecked :
      (ar : AdmissionReview Raw) (rejected : ℕ) (vm : VirtualMachine R)
      → get_admission_review_vm env ar ≡ ok vm
      → (vm.deletion_timestamp ≢ none)
        ⊎ (lookup vm_skip_validation_annotation_key vm.meta.annotations ≢ none)
        ⊎ ((lookup vm_validation_annotation_key vm.meta.annotations ≡ none)
            × (keys_are_valid (get_template_keys vm.meta) ≡ false))
      → admit_vm env ar rejected ≡ (to_admission_response_ok, rejected)
  unfolding admit_vm get_validation_rules_for_vm get_parent_template_for_vm validate_vm
  admit_vm_unchecked ar rejected vm parsed h = ground arith

  -- A virtual machine whose own rules are the empty text, that does not skip validation and refers to
  -- a template that is found, is checked against the rules of that template. But after any history of
  -- watch events into a new cache, from an empty cluster to one that holds the machine, in which an object
  -- is only reported as added while there is none under its key, the cache lists it for no template.
  pub vm_needs_template_gap :
      (vm : VirtualMachine R) (tmpl : ObjectMeta) (es : List Event) (template : String)
      → lookup vm_validation_annotation_key vm.meta.annotations ≡ some ""
      → lookup vm_skip_validation_annotation_key vm.meta.annotations ≡ none
      → keys_are_valid (get_template_keys vm.meta) ≡ true
      → env.get_by_key (to_string (get (get_template_keys vm.meta))) ≡ ok (some tmpl)
      → AllFit es empty_world
      → history es empty_world (vm_cache_key vm.meta) ≡ some vm.meta
      → let cache = handle_all es (new_vm_cache vm_needs_template) in
        (get_validation_rules_for_vm env vm ≡ get_validation_rules_from_template env tmpl)
        × (contains (get_vms_for_template cache template) (vm_cache_key vm.meta) ≡ false)
  unfolding get_validation_rules_for_vm get_parent_template_for_vm vm_needs_template
  vm_needs_template_gap vm tmpl es template h1 h2 h3 h4 h5 h6 = (
    ground arith,
    ground (
      arith,
      h6,
      get_vms_for_template-handle_all vm_needs_template es template (vm_cache_key vm.meta) h5,
    ),
  )
