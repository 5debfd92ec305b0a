-- ===== src/Resources/Tests.antt =====
-- A role of the operator whose content is a text, in a cluster that holds an older one.
use ssp_operator.Base.{
  String, ◌≡◌, refl, Bool, true, false, none, some, List, [], ◌∷◌, ◌⊎◌, inl, inr, ◌==◌, All,
  string_eq,
}
use ssp_operator.Base.Dict.{lookup, insert}
use ssp_operator.Resources.{Object, Get, found, not_found, Owners, set_owner}
use ssp_operator.Resources.Cleanup.{
  CleanupResult, index_out_of_range, is_resource_owned, marked, references_own, annotations_own,
  cleanup, cleanup_found, delete_all, MayDelete, delete_all-MayDelete, cleanup_deleted,
  cleanup_panics,
}
use ssp_operator.Resources.Reconcile.{
  Client, ReconcileBuilder, ResourceStatus, unchanged, labelled, mutate_fn, update_map,
  update_string_map, resource_deleted_result, reconcile,
}
use ssp_operator.Resources.Reconciled.{IsContentUpdate, reconcile_twice, reconcile_deleting}
use ssp_operator.Resources.VersionCache.{
  version_cache_add, version_cache_remove, version_cache_contains, cache_key_eq,
}

abbrev role : String → Bool → List String → Object String String
role content deleting references = record {
  kind = "Role";
  name = "view";
  namespace = "images";
  uid = "1";
  resource_version = "7";
  generation = 2;
  labels = ("a", "b") ∷ [];
  annotations = [];
  owner_references = references;
  deleting = deleting;
  content = content;
}

abbrev unmarked : Owners String String
unmarked = record {
  instance_namespace = "kubevirt";
  set_owner_annotations = λ o. inr o;
  set_controller_reference = λ o. inr o;
}

abbrev fine : ResourceStatus
fine = record { progressing = none; not_available = none; degraded = none }

abbrev builder : ReconcileBuilder String String
builder = record {
  resource = role "new" false [];
  is_cluster_resource = true;
  app_labels = none;
  update_func = λ expected o. record o { content = expected.content };
  status_func = λ o. fine;
  immutable_spec = none;
  always_call_update_func = false;
  semantic_equal = λ o o'. o.content == o'.content;
  empty = role "" false [];
}

abbrev holds : Object String String → Client String String
holds o = record {
  get = λ k. found o;
  create = λ k. inr k;
  update = λ k. inr k;
  delete = λ k. none;
}

abbrev updated_role : Object String String
updated_role = record (role "new" false []) { resource_version = "8"; generation = 3 }

builder-IsContentUpdate : IsContentUpdate builder (holds updated_role)
builder-IsContentUpdate = record {
  content_update = λ s t. s;
  only_content = λ e o. refl;
  twice = λ s t. refl;
}

reconcile_twice_example : reconcile builder (holds updated_role) unmarked [] ≡ (
  inr (record {
    status = fine;
    initial_resource = some updated_role;
    resource = role "new" false [];
    operation_result = unchanged;
  }),
  version_cache_add [] updated_role,
  [],
)
unfolding set_owner labelled mutate_fn update_map update_string_map insert lookup string_eq
    version_cache_contains
reconcile_twice_example =
    reconcile_twice builder (holds updated_role) unmarked [] [] (role "new" false [])
      (role "old" false []) "1" "8" 3 builder-IsContentUpdate refl (refl, tt) tt refl refl refl refl

reconcile_deleting_example : reconcile builder (holds (role "old" true [])) unmarked [] ≡ (
  inr (resource_deleted_result (role "new" false []) unchanged),
  version_cache_remove [] (role "old" true []),
  [],
)
unfolding set_owner labelled string_eq
reconcile_deleting_example =
    reconcile_deleting builder (holds (role "old" true [])) unmarked [] (role "new" false [])
      (role "old" true []) refl refl refl refl

abbrev deletes : Object String String → Get Unit
deletes o = found tt

delete_all-MayDelete_example :
    All
      (MayDelete unmarked (λ k. found (role "old" false ("owner" ∷ []))) deletes)
      (delete_all unmarked
        (λ k. found (role "old" false ("owner" ∷ [])))
        deletes
        (role "new" false ("owner" ∷ []) ∷ [])).1
delete_all-MayDelete_example =
    delete_all-MayDelete unmarked (λ k. found (role "old" false ("owner" ∷ []))) deletes
      (role "new" false ("owner" ∷ []) ∷ [])

abbrev reported : CleanupResult String String
reported = record { resource = role "new" false []; deleted = true }

not_ours :
    (cleanup unmarked (λ k. found (role "old" false [])) deletes (role "new" false [])).0
    ≡ inr reported
unfolding cleanup cleanup_found is_resource_owned marked references_own annotations_own string_eq
not_ours = refl

cleanup_deleted_example :
    (◌≡◌ {A = Get (Object String String)} (found (role "old" false [])) not_found)
    ⊎ ((f : Object String String) × (◌≡◌ {A = Get (Object String String)}
          (found (role "old" false []))
          (found f))
        × ((is_resource_owned unmarked (role "new" false []) f ≡ inr false)
            ⊎ (deletes f ≡ not_found)))
cleanup_deleted_example =
    cleanup_deleted unmarked (λ k. found (role "old" false [])) deletes (role "new" false [])
      reported not_ours refl

cleanup_panics_example :
    cleanup unmarked (λ k. found (role "old" false ("owner" ∷ []))) deletes (role "new" false [])
    ≡ (inl index_out_of_range, [])
unfolding string_eq
cleanup_panics_example =
    cleanup_panics unmarked (λ k. found (role "old" false ("owner" ∷ []))) deletes
      (role "new" false []) (role "new" false []) (role "old" false ("owner" ∷ [])) "owner" [] refl
      refl refl refl refl
