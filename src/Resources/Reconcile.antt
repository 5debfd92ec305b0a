-- ===== src/Resources/Reconcile.antt =====
-- internal/common/resource.go: the reconcile builder. The answers of the API server are parameters; the
-- requests that change the cluster are a result. A successful create or update answers with the object as
-- the server has it, which the client writes into the object sent.
use ssp_operator.Base.{
  String, Bool, true, false, ◌&&◌, ◌||◌, not, Option, none, some, List, [], ◌∷◌, ◌⊎◌, inl, inr,
  ◌==◌, string_eq, if◌then◌else◌,
}
use ssp_operator.Base.Dict.{Dict, insert}
use ssp_operator.Resources.{
  Object, Get, found, not_found, failed, Owners, set_owner, add_app_labels,
}
use ssp_operator.Resources.VersionCache.{
  VersionCache, version_cache_contains, version_cache_add, version_cache_remove,
}

pub data OperationResult : Type 0 where
  unchanged created updated deleted : OperationResult

pub record ResourceStatus : Type 0 where
  pub progressing : Option String
  pub not_available : Option String
  pub degraded : Option String

pub record ReconcileResult (S Ref : Type 0) : Type 0 where
  pub status : ResourceStatus
  pub initial_resource : Option (Object S Ref)
  pub resource : Object S Ref
  pub operation_result : OperationResult

pub data ReconcileError : Type 0 where
  owner_failed get_failed create_failed delete_failed update_failed : String → ReconcileError
  key_mutated : ReconcileError

pub data Call (S Ref : Type 0) : Type 0 where
  create_call update_call delete_call : Object S Ref → Call S Ref

pub record Client (S Ref : Type 0) : Type 0 where
  pub get : Object S Ref → Get (Object S Ref)
  pub create : Object S Ref → String ⊎ Object S Ref
  pub update : Object S Ref → String ⊎ Object S Ref
  pub delete : Object S Ref → Option String

pub record AppLabels : Type 0 where
  pub instance_labels : Option (Dict String String)
  pub operand_name : String
  pub operand_component : String

-- `semantic_equal` is `equality.Semantic.DeepEqual` on objects. `immutable_spec` compares what the spec getter
-- yields by it, and is absent where the specification is not immutable. `empty` is a new object of the type.
pub record ReconcileBuilder (S Ref : Type 0) : Type 0 where
  pub resource : Object S Ref
  pub is_cluster_resource : Bool
  pub app_labels : Option AppLabels
  -- from the expected and the found object, the found one as it is left
  pub update_func : Object S Ref → Object S Ref → Object S Ref
  pub status_func : Object S Ref → ResourceStatus
  pub immutable_spec : Option (Object S Ref → Object S Ref → Bool)
  pub always_call_update_func : Bool
  pub semantic_equal : Object S Ref → Object S Ref → Bool
  pub empty : Object S Ref

unfoldable pub update_string_map : Dict String String → Dict String String → Dict String String
update_string_map [] found_map = found_map
update_string_map ((key, val) ∷ expected) found_map =
    update_string_map expected (insert key val found_map)

-- `UpdateLabels` and `updateAnnotations`, for the maps that they handle alike.
unfoldable pub update_map : Dict String String → Dict String String → Dict String String
unfolding update_string_map
update_map expected [] = expected
update_map expected (entry ∷ entries) = update_string_map expected (entry ∷ entries)

module _ {S Ref : Type 0} where
  unfoldable pub resource_deleted_result : Object S Ref → OperationResult → ReconcileResult S Ref
  resource_deleted_result resource res = record {
    status = record {
      progressing = some "Resource is being deleted.";
      not_available = some "Resource is being deleted.";
      degraded = some "Resource is being deleted.";
    };
    initial_resource = none;
    resource = resource;
    operation_result = res;
  }

  -- `IsSuccess`
  unfoldable pub is_success : ReconcileResult S Ref → Bool
  is_success r = elim r.status.progressing [
    | some message ↦ false
    | none ↦ elim r.status.not_available [
      | some message ↦ false
      | none ↦ elim r.status.degraded [ some message ↦ false | none ↦ true ]
    ]
  ]

  module _ (b : ReconcileBuilder S Ref) (client : Client S Ref) where
    -- `mutateFn` of `Reconcile`, where `resource` is the expected object with its labels and its owner.
    unfoldable pub mutate_fn : VersionCache → Object S Ref → Object S Ref → Object S Ref
    unfolding update_map
    mutate_fn cache resource found_obj =
        let changed = record found_obj {
          owner_references = resource.owner_references;
          labels = update_map resource.labels found_obj.labels;
          annotations = update_map resource.annotations found_obj.annotations;
        } in
        if found_obj.deleting
        then found_obj
        else if b.always_call_update_func || not (version_cache_contains cache changed)
        then b.update_func resource changed
        else changed

    unfoldable pub same_key : Object S Ref → Object S Ref → Bool
    same_key obj obj' = obj.name == obj'.name && obj.namespace == obj'.namespace

    -- `mutate`: `none` is the error of a mutated key.
    unfoldable pub mutate : VersionCache → Object S Ref → Object S Ref → Option (Object S Ref)
    unfolding mutate_fn same_key
    mutate cache resource obj =
        let obj' = mutate_fn cache resource obj in if same_key obj obj' then some obj' else none

    abbrev pub Operation : Type 0
    Operation = OperationResult × Object S Ref × Option (Object S Ref)

    -- `!equality.Semantic.DeepEqual(r.specGetter(existing), r.specGetter(obj))` of an immutable specification
    unfoldable pub spec_changed : Object S Ref → Object S Ref → Bool
    spec_changed existing obj = elim b.immutable_spec [
      | none ↦ false
      | some same_spec ↦ not (same_spec existing obj)
    ]

    -- From the found object and its mutation on.
    unfoldable pub write_existing :
        Object S Ref → Object S Ref → (ReconcileError ⊎ Operation) × List (Call S Ref)
    unfolding spec_changed
    write_existing existing obj =
        if b.semantic_equal existing obj
        then (inr (unchanged, obj, some existing), [])
        else if spec_changed existing obj
        then elim (client.delete obj) [
          | some err ↦ (inl (delete_failed err), delete_call obj ∷ [])
          | none ↦ (inr (deleted, obj, some existing), delete_call obj ∷ [])
        ]
        else elim (client.update obj) [
          | inl err ↦ (inl (update_failed err), update_call obj ∷ [])
          | inr obj' ↦ (inr (updated, obj', some existing), update_call obj ∷ [])
        ]

    unfoldable pub create_or_update_with_immutable_spec :
        VersionCache → Object S Ref → (ReconcileError ⊎ Operation) × List (Call S Ref)
    unfolding mutate write_existing
    create_or_update_with_immutable_spec cache resource =
        let key = record b.empty { name = resource.name; namespace = resource.namespace } in
        elim (client.get key) [
          | failed err ↦ (inl (get_failed err), [])
          | not_found ↦ elim (mutate cache resource key) [
            | none ↦ (inl key_mutated, [])
            | some obj ↦ elim (client.create obj) [
              | inl err ↦ (inl (create_failed err), create_call obj ∷ [])
              | inr obj' ↦ (inr (created, obj', none), create_call obj ∷ [])
            ]
          ]
          | found existing ↦ elim (mutate cache resource existing) [
            | none ↦ (inl key_mutated, [])
            | some obj ↦ write_existing existing obj
          ]
        ]

    -- The end of `Reconcile`: the cache and the result of an operation.
    unfoldable pub finish :
        VersionCache → Object S Ref → Operation → ReconcileResult S Ref × VersionCache
    unfolding resource_deleted_result version_cache_add version_cache_remove
    finish cache resource (deleted, obj, existing) =
        (resource_deleted_result resource deleted, version_cache_remove cache obj)
    finish cache resource (res, obj, existing) =
        if obj.deleting
        then (resource_deleted_result resource res, version_cache_remove cache obj)
        else (
          record {
            status = b.status_func obj;
            initial_resource = existing;
            resource = resource;
            operation_result = res;
          },
          version_cache_add cache obj,
        )

    unfoldable pub labelled : Object S Ref → Object S Ref
    unfolding add_app_labels
    labelled resource = elim b.app_labels [
      | none ↦ resource
      | some l ↦ add_app_labels l.instance_labels l.operand_name l.operand_component resource
    ]

    -- The result, the cache afterwards and the requests that change the cluster.
    unfoldable pub reconcile :
        Owners S Ref
        → VersionCache
        → (ReconcileError ⊎ ReconcileResult S Ref) × VersionCache × List (Call S Ref)
    unfolding labelled set_owner create_or_update_with_immutable_spec finish
    reconcile owners cache = elim (set_owner owners (labelled b.resource) b.is_cluster_resource) [
      | inl err ↦ (inl (owner_failed err), cache, [])
      | inr resource ↦
          let (outcome, calls) = create_or_update_with_immutable_spec cache resource in
          elim outcome [
            | inl err ↦ (inl err, cache, calls)
            | inr operation ↦
                let (result, cache') = finish cache resource operation in
                (inr result, cache', calls)
          ]
    ]
