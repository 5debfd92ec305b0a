-- ===== src/CommonTemplates/Operand.antt =====
-- internal/operands/common-templates/reconcile.go: `Reconcile` and `Cleanup` of the operand. The answers of the API
-- server and the semver library are parameters.
use Prim.Native.Nat.{ℕ}
use ssp_operator.Api.{SspSpec}
use ssp_operator.Architecture.{ArchError, get_ssp_archs}
use ssp_operator.Base.{
  String, Bool, true, false, ◌&&◌, not, Option, none, some, List, [], ◌∷◌, ◌++◌, ◌⊎◌, inl, inr, Eq,
  ◌==◌, string_eq, if◌then◌else◌,
}
use ssp_operator.Base.Dict.{Dict}
use ssp_operator.CommonTemplates.{
  TemplateContent, ClusterTemplate, TemplatesByArch, get_templates_for_archs,
  increment_templates_restored_metric,
}
use ssp_operator.CommonTemplates.Old.{
  Requirement, Semver, Action, keep, delete_template, deprecate_template, OldError,
  deprecate_or_delete_old_templates, get_deprecated_templates_label_selector,
}
use ssp_operator.CommonTemplates.Updates.{update_template, deprecated}
use ssp_operator.Resources.{Get, found, not_found, failed, Owners}
use ssp_operator.Resources.Cleanup.{CleanupError, CleanupResult, delete_all}
use ssp_operator.Resources.Owned.{
  OwnerName, list_owned_resources, ReconcileFunc, collect_resource_status, no_status,
}
use ssp_operator.Resources.Reconcile.{
  ReconcileError, ReconcileResult, ReconcileBuilder, Client, Call, delete_call, unchanged, deleted,
  resource_deleted_result, reconcile,
}
use ssp_operator.Resources.VersionCache.{VersionCache}

pub data TemplatesError : Type 0 where
  architectures_failed : ArchError → TemplatesError
  reconcile_failed : ReconcileError → TemplatesError
  old_templates_failed : OldError → TemplatesError
  delete_failed list_failed owned_failed : String → TemplatesError
  cleanup_failed : CleanupError → TemplatesError

-- What the operand takes of the request: the cluster, the owner, the fields of the instance and of the
-- environment.
pub record TemplatesRequest (P Raw Ref V : Type 0) : Type 0 where
  pub client : Client (TemplateContent Raw) Ref
  pub delete : ClusterTemplate Raw Ref → Get Unit
  pub list : List Requirement → String → Get (List (ClusterTemplate Raw Ref))
  pub owners : Owners (TemplateContent Raw) Ref
  pub owner_name : OwnerName
  pub instance_labels : Option (Dict String String)
  pub instance_changed : Bool
  pub spec : SspSpec P
  pub observed_version : String
  pub operator_version : String
  pub semver : Semver V
  pub semantic_equal : (a b : ClusterTemplate Raw Ref) → Bool
  pub empty : ClusterTemplate Raw Ref
  pub go_arch : String

module _ {P Raw Ref V : Type 0} (request : TemplatesRequest P Raw Ref V) where
  abbrev TemplateFunc : Type 0
  TemplateFunc = ReconcileFunc TemplatesError (TemplateContent Raw) Ref

  -- `common.CreateOrUpdate(request).ClusterResource(template).WithAppLabels(…).UpdateFunc(…)`
  abbrev pub template_builder :
      ClusterTemplate Raw Ref
      → ((expected found_template : ClusterTemplate Raw Ref) → ClusterTemplate Raw Ref)
      → ReconcileBuilder (TemplateContent Raw) Ref
  template_builder template update_func = record {
    resource = template;
    is_cluster_resource = true;
    app_labels = some (record {
      instance_labels = request.instance_labels;
      operand_name = "common-templates";
      operand_component = "templating";
    });
    update_func = update_func;
    status_func = λ found_template. no_status;
    immutable_spec = none;
    always_call_update_func = false;
    semantic_equal = request.semantic_equal;
    empty = request.empty;
  }

  unfoldable reconciled : ReconcileBuilder (TemplateContent Raw) Ref → TemplateFunc
  unfolding reconcile
  reconciled builder cache =
      let (outcome, cache', calls) = reconcile builder request.client request.owners cache in
      elim outcome [
        | inl err ↦ (inl (reconcile_failed err), cache', calls)
        | inr result ↦ (inr result, cache', calls)
      ]

  unfoldable pub reconcile_templates_funcs : List (ClusterTemplate Raw Ref) → List TemplateFunc
  unfolding reconciled update_template
  reconcile_templates_funcs [] = []
  reconcile_templates_funcs (template ∷ templates) =
      let namespaced = record template { namespace = request.spec.common_templates.namespace } in
      reconciled (template_builder namespaced update_template) ∷ reconcile_templates_funcs templates

  unfoldable pub reconcile_deprecate_template : ClusterTemplate Raw Ref → TemplateFunc
  unfolding reconciled deprecated
  reconcile_deprecate_template template = reconciled (template_builder template deprecated)

  -- Where the template is missing, the operation result is Go's zero value, which nothing tells from `unchanged`.
  unfoldable pub reconcile_delete_template : ClusterTemplate Raw Ref → TemplateFunc
  unfolding resource_deleted_result
  reconcile_delete_template template cache = elim (request.delete template) [
    | not_found ↦ (
      inr (record {
        status = no_status;
        initial_resource = none;
        resource = template;
        operation_result = unchanged;
      }),
      cache,
      delete_call template ∷ [],
    )
    | failed err ↦ (inl (delete_failed err), cache, delete_call template ∷ [])
    | found ok ↦ (inr (resource_deleted_result template deleted), cache, delete_call template ∷ [])
  ]

  unfoldable pub old_funcs : List (Action × ClusterTemplate Raw Ref) → List TemplateFunc
  unfolding reconcile_deprecate_template reconcile_delete_template
  old_funcs [] = []
  old_funcs ((keep, template) ∷ actions) = old_funcs actions
  old_funcs ((delete_template, template) ∷ actions) =
      reconcile_delete_template template ∷ old_funcs actions
  old_funcs ((deprecate_template, template) ∷ actions) =
      reconcile_deprecate_template template ∷ old_funcs actions

  unfoldable pub operator_is_upgrading : Bool
  operator_is_upgrading = not (request.observed_version == request.operator_version)

  abbrev pub Outcome : Type 0
  Outcome =
      (TemplatesError ⊎ List (ReconcileResult (TemplateContent Raw) Ref))
      × ℕ
      × VersionCache
      × List (Call (TemplateContent Raw) Ref)

  -- `Reconcile` from the templates of the bundle, the metric of restored templates and the version cache.
  unfoldable pub reconcile_templates : TemplatesByArch Raw Ref → ℕ → VersionCache → Outcome
  unfolding get_ssp_archs get_templates_for_archs collect_resource_status reconcile_templates_funcs
      operator_is_upgrading increment_templates_restored_metric deprecate_or_delete_old_templates
      old_funcs
  reconcile_templates by_arch metric cache = elim (get_ssp_archs request.go_arch request.spec) [
    | inl err ↦ (inl (architectures_failed err), metric, cache, [])
    | inr cluster_archs ↦
        let templates = get_templates_for_archs by_arch cluster_archs request.spec in
        let (outcome, cache1, calls) =
          collect_resource_status (reconcile_templates_funcs templates) cache in
        elim outcome [
          | inl err ↦ (inl err, metric, cache1, calls)
          | inr results ↦
              let metric' =
                if not operator_is_upgrading && not request.instance_changed
                then increment_templates_restored_metric results metric
                else metric in
              elim (deprecate_or_delete_old_templates request.semver request.list request.owner_name
                request.spec.common_templates.namespace templates cluster_archs) [
                  | inl err ↦ (inl (old_templates_failed err), metric', cache1, calls)
                  | inr actions ↦
                      let (old, cache2, more) =
                        collect_resource_status (old_funcs actions) cache1 in
                      elim old [
                        | inl err ↦ (inl err, metric', cache2, calls ++ more)
                        | inr old_results ↦
                            (inr (results ++ old_results), metric', cache2, calls ++ more)
                      ]
                ]
        ]
  ]

  unfoldable pub get_deprecated_templates : String ⊎ List (ClusterTemplate Raw Ref)
  unfolding get_deprecated_templates_label_selector
  get_deprecated_templates =
      elim (request.list get_deprecated_templates_label_selector
        request.spec.common_templates.namespace) [
          | found items ↦ inr items
          | not_found ↦ inr []
          | failed err ↦ inl err
        ]

  unfoldable pub cleanup_templates :
      ⦃e : Eq Ref⦄
      → (TemplatesError ⊎ List (CleanupResult (TemplateContent Raw) Ref))
        × List (ClusterTemplate Raw Ref)
  unfolding get_deprecated_templates list_owned_resources delete_all
  cleanup_templates = elim get_deprecated_templates [
    | inl err ↦ (inl (list_failed err), [])
    | inr deprecated_templates ↦
        elim (list_owned_resources request.owner_name (request.list [] "")) [
          | inl err ↦ (inl (owned_failed err), [])
          | inr owned ↦
              let (outcome, calls) =
                delete_all request.owners request.client.get request.delete
                  (deprecated_templates ++ owned) in
              elim outcome [
                | inl err ↦ (inl (cleanup_failed err), calls)
                | inr results ↦ (inr results, calls)
              ]
        ]
  ]
