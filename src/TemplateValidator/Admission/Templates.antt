-- ===== src/TemplateValidator/Admission/Templates.antt =====
-- The admission of template deletions, against the virtual machines of the cluster.
use ssp_operator.Base.{
  String, ◌≡◌, ◌≢◌, ◌↔◌, refl, sym, ◌∙◌, ap, true, false, none, List, [], ◌∷◌, arith, contains,
  string_eq,
}
use ssp_operator.Base.Dict.{lookup}
use ssp_operator.Kubernetes.{ObjectMeta}
use ssp_operator.TemplateValidator.Labels.{annotation_validation_key}
use ssp_operator.TemplateValidator.VmCache.{
  VmCache, new_vm_cache, vm_needs_template, vm_cache_key, get_vms_for_template,
}
use ssp_operator.TemplateValidator.VmCache.Tracks.{
  Event, handle_all, history, empty_world, uses, AllFit, get_vms_for_template-handle_all,
}
use ssp_operator.TemplateValidator.Admission.{
  ok, Environment, AdmissionReview, AdmissionResponse, delete, template_type_label,
  to_admission_response_ok, forbidden, admit_template_deletion, admit_template,
  get_admission_review_template,
}

head_of : (names : List String) → names ≢ [] → (vm : String) × (contains names vm ≡ true)
head_of [] h = absurd (h refl)
head_of (name ∷ names) h = (name, ground arith)

ne_nil_of : (names : List String) (vm : String) → contains names vm ≡ true → names ≢ []
ne_nil_of [] vm h = cc
ne_nil_of (name ∷ names) vm h = λ e. cc

deletion_cases :
    (cache : VmCache) (template : ObjectMeta)
    → ((admit_template_deletion cache template).allowed ≡ false) ↔ (
        (lookup template_type_label template.labels ≢ none)
        × (lookup annotation_validation_key template.annotations ≢ none)
        × (get_vms_for_template cache (vm_cache_key template) ≢ []))
unfolding admit_template_deletion to_admission_response_ok forbidden vm_cache_key
deletion_cases cache template = ground arith

module _ {R Raw : Type 0} (env : Environment R Raw) where
  -- The deletion of a template that the review holds is denied exactly if the template is a common
  -- template with validation rules, and the cluster holds a virtual machine without rules of its own
  -- that refers to it. The cache has followed any history of watch events that fits the cluster.
  pub admit_template-uses :
      (es : List Event) (ar : AdmissionReview Raw) (template : ObjectMeta)
      → AllFit es empty_world
      → ar.operation ≡ delete
      → get_admission_review_template env ar ≡ ok template
      → ((admit_template env (handle_all es (new_vm_cache vm_needs_template)) ar).allowed ≡ false)
        ↔ ((lookup template_type_label template.labels ≢ none)
            × (lookup annotation_validation_key template.annotations ≢ none)
            × ((vm : String) × (uses vm_needs_template
                    (vm_cache_key template)
                    (history es empty_world vm)
                  ≡ true)))
  admit_template-uses es ar template fits op parsed =
      let cache = handle_all es (new_vm_cache vm_needs_template) in
      let key = vm_cache_key template in
      let names = get_vms_for_template cache key in
      let listed =
        λ (vm : String). get_vms_for_template-handle_all vm_needs_template es key vm fits in
      let cases = deletion_cases cache template in
      let run : admit_template env cache ar ≡ admit_template_deletion cache template =
        unfold admit_template in ground (arith) in
      (
        λ h.
            let c = cases.0 (ap (λ (r : AdmissionResponse). r.allowed) (sym run) ∙ h) in
            let (vm, m) = head_of names c.2 in (c.0, c.1, (vm, sym (listed vm) ∙ m)),
        λ c.
            ap (λ (r : AdmissionResponse). r.allowed) run
            ∙ cases.1 (c.0, c.1, ne_nil_of names c.2.0 (listed c.2.0 ∙ c.2.1)),
      )
