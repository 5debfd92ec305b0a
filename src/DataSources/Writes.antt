-- ===== src/DataSources/Writes.antt =====
-- internal/operands/data-sources/reconcile.go: what the operand writes. An object is one of Resources, whose content
-- tells data sources, import crons and other objects apart. The namespace, the roles and the network policies,
-- which are constant, are parameters.
use ssp_operator.Api.{DataImportCron, DataImportCronSpec}
use ssp_operator.Base.{
  String, Bool, true, false, ◌&&◌, ◌||◌, Option, none, some, List, [], ◌∷◌, ◌++◌, ◌⊎◌, inl, inr,
  ◌==◌, string_eq, if◌then◌else◌,
}
use ssp_operator.Base.Dict.{Dict, insert, delete}
use ssp_operator.DataSources.{
  DataSource, DataSourceSource, DataSourceCondition, DataSourceInfo, DsError,
  golden_images_namespace,
}
use ssp_operator.DataSources.Crons.{CronMap}
use ssp_operator.DataSources.Selected.{DataSourcesAndCrons}
use ssp_operator.Kubernetes.{ObjectMeta}
use ssp_operator.Resources.{Object, Get, found, not_found, failed, Owners, add_app_labels}
use ssp_operator.Resources.Cleanup.{CleanupError}
use ssp_operator.Resources.Owned.{
  OwnerName, list_owned_resources, ReconcileFunc, collect_resource_status, no_status,
}
use ssp_operator.Resources.Reconcile.{
  ReconcileError, ReconcileResult, ReconcileBuilder, Client, Call, delete_call, unchanged, deleted,
  resource_deleted_result, reconcile,
}
use ssp_operator.Resources.VersionCache.{VersionCache}

pub data Content (Raw : Type 0) : Type 0 where
  data_source_content : DataSourceSource → List DataSourceCondition → Content Raw
  cron_content : DataImportCronSpec → Content Raw
  raw_content : Raw → Content Raw

abbrev pub ManagedObject : (Raw Ref : Type 0) → Type 0
ManagedObject Raw Ref = Object (Content Raw) Ref

-- `found.Spec = new.Spec` of objects of one kind.
abbrev pub with_spec : {Raw : Type 0} (new found_content : Content Raw) → Content Raw
with_spec (data_source_content source conditions) (data_source_content source' conditions') =
    data_source_content source conditions'
with_spec (cron_content spec) (cron_content spec') = cron_content spec
with_spec new found_content = found_content

abbrev new_object : {Raw Ref : Type 0} → String → ObjectMeta → Content Raw → ManagedObject Raw Ref
new_object kind metadata content = record {
  kind = kind;
  name = metadata.name;
  namespace = metadata.namespace;
  uid = "";
  resource_version = "";
  generation = 0;
  labels = metadata.labels;
  annotations = metadata.annotations;
  owner_references = [];
  deleting = false;
  content = content;
}

abbrev pub data_source_object : {Raw Ref : Type 0} → DataSource → ManagedObject Raw Ref
data_source_object ds =
    new_object "DataSource" ds.metadata (data_source_content ds.source ds.conditions)

abbrev pub cron_object : {Raw Ref : Type 0} → DataImportCron → ManagedObject Raw Ref
cron_object cron = new_object "DataImportCron" cron.metadata (cron_content cron.spec)

pub data WritesError : Type 0 where
  selection_failed : DsError → WritesError
  list_failed delete_failed : String → WritesError
  reconcile_failed : ReconcileError → WritesError
  cleanup_failed : CleanupError → WritesError

-- What the operand takes of the request and of its own fields.
pub record WritesRequest (Raw Ref : Type 0) : Type 0 where
  pub client : Client (Content Raw) Ref
  pub delete : ManagedObject Raw Ref → Get Unit
  pub list_data_sources : Get (List (ManagedObject Raw Ref))
  pub list_data_import_crons : Get (List (ManagedObject Raw Ref))
  pub owners : Owners (Content Raw) Ref
  pub owner_name : OwnerName
  pub instance_labels : Option (Dict String String)
  pub crd_exists : String → Bool
  pub namespace_and_roles : List (ManagedObject Raw Ref)
  pub network_policies : List (ManagedObject Raw Ref)
  pub semantic_equal : (a b : ManagedObject Raw Ref) → Bool
  pub same_cron_spec : (a b : ManagedObject Raw Ref) → Bool
  -- the update and status functions of a builder that are not given
  pub default_update : (new found_object : ManagedObject Raw Ref) → ManagedObject Raw Ref
  pub empty : ManagedObject Raw Ref

-- `maps.Values`
abbrev pub crons_of : CronMap → List DataImportCron
crons_of [] = []
crons_of ((key, cron) ∷ crons) = cron ∷ crons_of crons

module _ {Raw Ref : Type 0} where
  abbrev pub named : String → List (ManagedObject Raw Ref) → Bool
  named name [] = false
  named name (o ∷ os) = name == o.name || named name os

  -- Whether an object of the name and the namespace is in the list.
  abbrev pub keyed : ManagedObject Raw Ref → List (ManagedObject Raw Ref) → Bool
  keyed obj [] = false
  keyed obj (o ∷ os) = (obj.name == o.name && obj.namespace == o.namespace) || keyed obj os

  -- `dsNames`, as the objects of the names.
  abbrev pub objects_of : List DataSourceInfo → List (ManagedObject Raw Ref)
  objects_of [] = []
  objects_of (i ∷ infos) = data_source_object i.data_source ∷ objects_of infos

  abbrev pub cron_objects : List DataImportCron → List (ManagedObject Raw Ref)
  cron_objects [] = []
  cron_objects (cron ∷ crons) = cron_object cron ∷ cron_objects crons

  -- The update function of `reconcileDataSource`.
  unfoldable pub update_data_source :
      Option (Dict String String)
      → DataSourceInfo
      → (new found_object : ManagedObject Raw Ref) → ManagedObject Raw Ref
  unfolding add_app_labels
  update_data_source instance_labels info new found_object =
      if info.auto_update_enabled
      then record found_object {
        labels =
            insert "cdi.kubevirt.io/dataImportCron" info.data_import_cron_name found_object.labels;
      }
      else (let labelled =
            add_app_labels instance_labels "data-sources" "templating" found_object in
          record labelled {
            labels = delete "cdi.kubevirt.io/dataImportCron" labelled.labels;
            content = with_spec new.content found_object.content;
          })

  -- The owned data sources that none of the objects needs, as they are deleted.
  unfoldable pub unused_data_sources :
      (needed owned : List (ManagedObject Raw Ref)) → List (ManagedObject Raw Ref)
  unused_data_sources needed [] = []
  unused_data_sources needed (o ∷ owned) =
      let rest = unused_data_sources needed owned in
      if named o.name needed then rest else record o { namespace = golden_images_namespace } ∷ rest

  unfoldable pub unused_crons :
      (needed owned : List (ManagedObject Raw Ref)) → List (ManagedObject Raw Ref)
  unused_crons needed [] = []
  unused_crons needed (o ∷ owned) =
      let rest = unused_crons needed owned in if keyed o needed then rest else o ∷ rest

module _ {Raw Ref : Type 0} (request : WritesRequest Raw Ref) where
  abbrev pub WriteFunc : Type 0
  WriteFunc = ReconcileFunc WritesError (Content Raw) Ref

  abbrev builder : ManagedObject Raw Ref → ReconcileBuilder (Content Raw) Ref
  builder obj = record {
    resource = obj;
    is_cluster_resource = true;
    app_labels = some (record {
      instance_labels = request.instance_labels;
      operand_name = "data-sources";
      operand_component = "templating";
    });
    update_func = request.default_update;
    status_func = λ o. no_status;
    immutable_spec = none;
    always_call_update_func = false;
    semantic_equal = request.semantic_equal;
    empty = request.empty;
  }

  unfoldable reconciled_object : ReconcileBuilder (Content Raw) Ref → WriteFunc
  unfolding reconcile
  reconciled_object b cache =
      let (outcome, cache', calls) = reconcile b request.client request.owners cache in
      elim outcome [
        | inl err ↦ (inl (reconcile_failed err), cache', calls)
        | inr result ↦ (inr result, cache', calls)
      ]

  -- `reconcileGoldenImagesNS`, `reconcileViewRole`, `reconcileViewRoleBinding`, `reconcileEditRole` and
  -- `reconcileNetworkPolicies`, which differ in the object.
  unfoldable pub reconcile_objects : List (ManagedObject Raw Ref) → List WriteFunc
  unfolding reconciled_object
  reconcile_objects [] = []
  reconcile_objects (o ∷ os) = reconciled_object (builder o) ∷ reconcile_objects os

  unfoldable pub reconcile_data_source : DataSourceInfo → WriteFunc
  unfolding reconciled_object update_data_source
  reconcile_data_source info =
      reconciled_object (record (builder (data_source_object info.data_source)) {
        app_labels = none;
        always_call_update_func = true;
        update_func = update_data_source request.instance_labels info;
      })

  unfoldable pub reconcile_data_import_cron : DataImportCron → WriteFunc
  unfolding reconciled_object
  reconcile_data_import_cron cron = reconciled_object (record (builder (cron_object cron)) {
    update_func = λ new found_object. record found_object {
      content = with_spec new.content found_object.content;
    };
    immutable_spec = some request.same_cron_spec;
  })

  abbrev missing_result : ManagedObject Raw Ref → ReconcileResult (Content Raw) Ref
  missing_result obj = record {
    status = no_status;
    initial_resource = none;
    resource = obj;
    operation_result = unchanged;
  }

  -- Where the object is missing, the operation result is Go's zero value, which nothing tells from `unchanged`.
  unfoldable pub delete_data_source : ManagedObject Raw Ref → WriteFunc
  unfolding resource_deleted_result
  delete_data_source obj cache =
      if obj.deleting
      then (inr (resource_deleted_result obj deleted), cache, [])
      else elim (request.delete obj) [
        | not_found ↦ (inr (missing_result obj), cache, delete_call obj ∷ [])
        | failed err ↦ (inl (delete_failed err), cache, delete_call obj ∷ [])
        | found ok ↦ (inr (resource_deleted_result obj deleted), cache, delete_call obj ∷ [])
      ]

  -- The result is the same whether the cron was there or not, with the zero value as above.
  unfoldable pub delete_data_import_cron : ManagedObject Raw Ref → WriteFunc
  delete_data_import_cron obj cache = elim (request.delete obj) [
    | not_found ↦ (inr (missing_result obj), cache, delete_call obj ∷ [])
    | failed err ↦ (inl (delete_failed err), cache, delete_call obj ∷ [])
    | found ok ↦ (inr (missing_result obj), cache, delete_call obj ∷ [])
  ]

  unfoldable pub data_source_funcs : List DataSourceInfo → List WriteFunc
  unfolding reconcile_data_source
  data_source_funcs [] = []
  data_source_funcs (i ∷ infos) = reconcile_data_source i ∷ data_source_funcs infos

  unfoldable pub cron_funcs : List DataImportCron → List WriteFunc
  unfolding reconcile_data_import_cron
  cron_funcs [] = []
  cron_funcs (cron ∷ crons) = reconcile_data_import_cron cron ∷ cron_funcs crons

  unfoldable pub delete_all_with :
      (ManagedObject Raw Ref → WriteFunc) → List (ManagedObject Raw Ref) → List WriteFunc
  delete_all_with f [] = []
  delete_all_with f (o ∷ os) = f o ∷ delete_all_with f os

  unfoldable pub reconcile_data_sources : List DataSourceInfo → WritesError ⊎ List WriteFunc
  unfolding list_owned_resources data_source_funcs delete_all_with delete_data_source
      unused_data_sources
  reconcile_data_sources infos =
      elim (list_owned_resources request.owner_name request.list_data_sources) [
        | inl err ↦ inl (list_failed err)
        | inr owned ↦ inr (
            data_source_funcs infos
            ++ delete_all_with delete_data_source (unused_data_sources (objects_of infos) owned))
      ]

  unfoldable pub reconcile_data_import_crons : List DataImportCron → WritesError ⊎ List WriteFunc
  unfolding list_owned_resources cron_funcs delete_all_with delete_data_import_cron unused_crons
  reconcile_data_import_crons crons =
      elim (list_owned_resources request.owner_name request.list_data_import_crons) [
        | inl err ↦ inl (list_failed err)
        | inr owned ↦ inr (
            cron_funcs crons
            ++ delete_all_with delete_data_import_cron (unused_crons (cron_objects crons) owned))
      ]

  abbrev WritesOutcome : Type 0
  WritesOutcome =
      (WritesError ⊎ List (ReconcileResult (Content Raw) Ref))
      × VersionCache
      × List (Call (Content Raw) Ref)

  -- `Reconcile`, from the outcome of `getDataSourcesAndCrons`.
  unfoldable pub reconcile_ds_operand : DsError ⊎ DataSourcesAndCrons → VersionCache → WritesOutcome
  unfolding reconcile_data_sources reconcile_data_import_crons reconcile_objects
      collect_resource_status
  reconcile_ds_operand selection cache = elim selection [
    | inl err ↦ (inl (selection_failed err), cache, [])
    | inr selected ↦ elim (reconcile_data_sources selected.data_source_infos) [
      | inl err ↦ (inl err, cache, [])
      | inr ds_funcs ↦ elim (reconcile_data_import_crons (crons_of selected.cron_by_data_source)) [
        | inl err ↦ (inl err, cache, [])
        | inr dic_funcs ↦
            collect_resource_status
              (reconcile_objects request.namespace_and_roles
                ++ (ds_funcs ++ (reconcile_objects request.network_policies ++ dic_funcs)))
              cache
      ]
    ]
  ]
