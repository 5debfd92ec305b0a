-- ===== src/TemplateValidator/Admission.antt =====
-- internal/template-validator/webhooks: the admission of virtual machines and of template deletions.
-- Logging, HTTP and the encoding of reviews are not modelled. encoding/json, the store of templates and
-- the reference virtual machine, which is built by reflection over the types of kubevirt.io/api, are
-- parameters.
pub mod VirtualMachines
pub mod Templates
mod Tests
use Prim.Native.Nat.{zero, suc, ◌+◌}
use ssp_operator.Base.{
  ℕ, String, ◌<>◌, Bool, true, false, ◌&&◌, not, Option, none, some, List, [], ◌∷◌, ◌==◌, string_eq,
  if◌then◌else◌,
}
use ssp_operator.Base.Dict.{lookup, lookup_or}
use ssp_operator.Base.Text.{join}
use ssp_operator.Kubernetes.{ObjectMeta}
use ssp_operator.TemplateValidator.Labels.{
  get_template_keys, get, to_string, keys_are_valid, annotation_validation_key,
  vm_validation_annotation_key, vm_skip_validation_annotation_key,
}
use ssp_operator.TemplateValidator.Validation.Path.{Error, Library}
use ssp_operator.TemplateValidator.Validation.Rules.{Rule}
use ssp_operator.TemplateValidator.Validation.Eval.{StatusCause, evaluate, to_status_causes}
use ssp_operator.TemplateValidator.VmCache.{VmCache, get_vms_for_template}

-- A value and a nil error, or an error with its text.
pub data Returned {ℓ} (A : Type ℓ) : Type ℓ where
  ok : A → Returned A
  err : String → Returned A

pub record Cpu : Type 0 where
  pub sockets : ℕ
  pub cores : ℕ
  pub threads : ℕ

-- A virtual machine, with its other fields in `rest`. It has a template: the API requires one.
pub record VirtualMachine (Rest : Type 0) : Type 0 where
  pub meta : ObjectMeta
  pub deletion_timestamp : Option String
  pub cpu : Option Cpu
  pub rest : Rest

-- `if n == 0 { n = 1 }`
abbrev pub at_least_one : ℕ → ℕ
at_least_one zero = 1
at_least_one (suc n) = suc n

unfoldable pub set_default_values : {R : Type 0} → VirtualMachine R → VirtualMachine R
set_default_values vm = elim vm.cpu [
  | none ↦ vm
  | some cpu ↦ record vm {
    cpu = some (record {
      sockets = at_least_one cpu.sockets;
      cores = at_least_one cpu.cores;
      threads = at_least_one cpu.threads;
    });
  }
]

pub data Operation : Type 0 where
  create update delete connect : Operation

-- `Raw` stands for the bytes of an object.
pub record AdmissionReview (Raw : Type 0) : Type 0 where
  pub resource : String
  -- the whole `GroupVersionResource`, as `%v` prints it
  pub resource_text : String
  pub operation : Operation
  pub object : Raw
  pub old_object : Raw

pub record Status : Type 0 where
  pub message : String
  pub reason : String
  pub code : ℕ
  pub causes : List StatusCause

pub record AdmissionResponse : Type 0 where
  pub allowed : Bool
  pub result : Option Status

unfoldable pub to_admission_response_ok : AdmissionResponse
to_admission_response_ok = record { allowed = true; result = none }

unfoldable pub to_admission_response_error : String → AdmissionResponse
to_admission_response_error message = record {
  allowed = false;
  result = some (record { message = message; reason = ""; code = 400; causes = [] });
}

-- The loop over the causes, from the message so far.
unfoldable pub global_message : String → List StatusCause → String
global_message message [] = message
global_message message (cause ∷ causes) =
    global_message (if message == "" then cause.message else message <> (", " <> cause.message))
      causes

unfoldable pub to_admission_response : List StatusCause → AdmissionResponse
to_admission_response causes = record {
  allowed = false;
  result = some (record {
    message = global_message "" causes;
    reason = "Invalid";
    code = 422;
    causes = causes;
  });
}

-- What the handlers ask of libraries and of the cluster.
pub record Environment (R Raw : Type 0) : Type 0 where
  -- `json.Unmarshal` into a virtual machine, a template and a list of rules
  pub unmarshal_vm : Raw → Returned (VirtualMachine R)
  pub unmarshal_template : Raw → Returned ObjectMeta
  pub unmarshal_rules : String → Returned (List Rule)
  -- `GetByKey` of the store of templates
  pub get_by_key : String → Returned (Option ObjectMeta)
  pub library : Library (VirtualMachine R)
  pub default_virtual_machine : VirtualMachine R
  pub error_message : Error → String

-- `TemplateTypeLabel` of internal/operands/common-templates.
abbrev pub template_type_label : String
template_type_label = "template.kubevirt.io/type"

unfoldable pub forbidden : List String → AdmissionResponse
forbidden vms = record {
  allowed = false;
  result = some (record {
    message =
        "Template cannot be deleted, because the following VMs are referencing it for validation: "
        <> join ", " vms;
    reason = "Forbidden";
    code = 403;
    causes = [];
  });
}

-- From the decoded template on.
unfoldable pub admit_template_deletion : VmCache → ObjectMeta → AdmissionResponse
admit_template_deletion cache template = elim (lookup template_type_label template.labels) [
  | none ↦ to_admission_response_ok
  | some _ ↦ elim (lookup annotation_validation_key template.annotations) [
    | none ↦ to_admission_response_ok
    | some _ ↦ elim (get_vms_for_template cache (template.namespace <> ("/" <> template.name))) [
      | [] ↦ to_admission_response_ok
      | vm ∷ vms ↦ forbidden (vm ∷ vms)
    ]
  ]
]

module _ {R Raw : Type 0} (env : Environment R Raw) where
  unfoldable pub parse_rules : String → Returned (List Rule)
  parse_rules data' = if data' == "" then ok [] else env.unmarshal_rules data'

  unfoldable pub get_parent_template_for_vm : VirtualMachine R → Returned (Option ObjectMeta)
  get_parent_template_for_vm vm =
      let template_keys = get_template_keys vm.meta in
      if not (keys_are_valid template_keys)
      then ok none
      else env.get_by_key (to_string (get template_keys))

  unfoldable pub get_validation_rules_from_template : ObjectMeta → Returned (List Rule)
  unfolding parse_rules
  get_validation_rules_from_template tmpl =
      parse_rules (lookup_or "" annotation_validation_key tmpl.annotations)

  unfoldable pub get_validation_rules_from_vm : VirtualMachine R → Returned (List Rule)
  unfolding parse_rules
  get_validation_rules_from_vm vm =
      parse_rules (lookup_or "" vm_validation_annotation_key vm.meta.annotations)

  unfoldable pub get_validation_rules_for_vm : VirtualMachine R → Returned (List Rule)
  get_validation_rules_for_vm vm =
      elim (lookup vm_skip_validation_annotation_key vm.meta.annotations) [
        | some _ ↦ ok []
        | none ↦
            if not (lookup_or "" vm_validation_annotation_key vm.meta.annotations == "")
            then get_validation_rules_from_vm vm
            else elim (get_parent_template_for_vm vm) [
              | err e ↦ err e
              | ok none ↦ ok []
              | ok (some tmpl) ↦ get_validation_rules_from_template tmpl
            ]
      ]

  unfoldable pub validate_vm : List Rule → VirtualMachine R → List StatusCause
  validate_vm [] vm = []
  validate_vm (rule ∷ rules) vm =
      to_status_causes env.error_message
        (evaluate env.library (set_default_values vm) env.default_virtual_machine (rule ∷ rules))

  unfoldable pub get_admission_review_vm : AdmissionReview Raw → Returned (VirtualMachine R)
  get_admission_review_vm ar =
      if not (ar.resource == "virtualmachines")
      then err ("expect resource " <> (ar.resource_text <> " to be 'virtualmachines'"))
      else env.unmarshal_vm ar.object

  unfoldable pub get_admission_review_template : AdmissionReview Raw → Returned ObjectMeta
  get_admission_review_template ar =
      if not (ar.resource == "templates")
      then err ("expected resource " <> (ar.resource_text <> " to be 'templates'"))
      else env.unmarshal_template (elim ar.operation [ delete ↦ ar.old_object | _ ↦ ar.object ])

  -- The response, and the counter of rejected virtual machines.
  unfoldable pub admit_vm : AdmissionReview Raw → ℕ → AdmissionResponse × ℕ
  admit_vm ar rejected = elim (get_admission_review_vm ar) [
    | err e ↦ (to_admission_response_error e, rejected)
    | ok vm ↦ elim vm.deletion_timestamp [
      | some t ↦ (to_admission_response_ok, rejected)
      | none ↦ elim (get_validation_rules_for_vm vm) [
        | err e ↦ (to_admission_response_error e, rejected)
        | ok rules ↦ elim (validate_vm rules vm) [
          | [] ↦ (to_admission_response_ok, rejected)
          | cause ∷ causes ↦ (to_admission_response (cause ∷ causes), rejected + 1)
        ]
      ]
    ]
  ]

  unfoldable pub admit_template : VmCache → AdmissionReview Raw → AdmissionResponse
  admit_template cache ar = elim ar.operation [
    | delete ↦ elim (get_admission_review_template ar) [
      | err e ↦ to_admission_response_error e
      | ok template ↦ admit_template_deletion cache template
    ]
    | _ ↦ to_admission_response_ok
  ]
