-- ===== src/Resources/Owned.antt =====
-- internal/common/owner.go and resource.go: lists of resources, `ListOwnedResources`, `CollectResourceStatus` and
-- `CleanupResources`, and `defaultStatusFunc`.
use Prim.Native.Nat.{ℕ}
use ssp_operator.Base.{
  String, ◌<>◌, ◌&&◌, not, Option, none, some, List, [], ◌∷◌, ◌++◌, ◌⊎◌, inl, inr, Eq, ◌==◌,
  if◌then◌else◌,
}
use ssp_operator.Base.Equality.{nat_eq}
use ssp_operator.Resources.{Object, Get, found, not_found, failed, Owners, check_owner_annotation}
use ssp_operator.Resources.Cleanup.{CleanupError, CleanupResult, delete_all}
use ssp_operator.Resources.Reconcile.{ReconcileResult, ResourceStatus, Call}
use ssp_operator.Resources.VersionCache.{VersionCache}

-- The owner that annotations name: the SSP object's group and kind, and its namespaced name.
pub record OwnerName : Type 0 where
  pub group_kind : String
  pub namespaced_name : String

pub data ListError : Type 0 where
  list_failed : String → ListError
  cleanup_failed : CleanupError → ListError

module _ {S Ref : Type 0} (owner : OwnerName) where
  -- The loop over the items.
  unfoldable pub owned_items : List (Object S Ref) → List (Object S Ref)
  unfolding check_owner_annotation
  owned_items [] = []
  owned_items (item ∷ items) =
      let rest = owned_items items in
      if check_owner_annotation item owner.group_kind owner.namespaced_name
      then item ∷ rest
      else rest

  -- From the answer to the request to list, where a missing kind is an error as any other.
  unfoldable pub list_owned_resources : Get (List (Object S Ref)) → String ⊎ List (Object S Ref)
  unfolding owned_items
  list_owned_resources (found items) = inr (owned_items items)
  list_owned_resources not_found = inl "not found"
  list_owned_resources (failed err) = inl err

  unfoldable pub cleanup_resources :
      ⦃e : Eq Ref⦄
      → Owners S Ref
      → (Object S Ref → Get (Object S Ref))
      → (Object S Ref → Get Unit)
      → Get (List (Object S Ref))
      → (ListError ⊎ List (CleanupResult S Ref)) × List (Object S Ref)
  unfolding list_owned_resources delete_all
  cleanup_resources owners get delete answer = elim (list_owned_resources answer) [
    | inl err ↦ (inl (list_failed err), [])
    | inr resources ↦
        let (outcome, calls) = delete_all owners get delete resources in
        elim outcome [
          | inl err ↦ (inl (cleanup_failed err), calls)
          | inr results ↦ (inr results, calls)
        ]
  ]

-- `ReconcileFunc`, from the version cache of the request.
abbrev pub ReconcileFunc : (E S Ref : Type 0) → Type 0
ReconcileFunc E S Ref =
    VersionCache → (E ⊎ ReconcileResult S Ref) × VersionCache × List (Call S Ref)

unfoldable pub collect_resource_status :
    {E S Ref : Type 0}
    → List (ReconcileFunc E S Ref)
    → VersionCache
    → (E ⊎ List (ReconcileResult S Ref)) × VersionCache × List (Call S Ref)
collect_resource_status [] cache = (inr [], cache, [])
collect_resource_status (f ∷ funcs) cache =
    let (status, cache1, calls) = f cache in
    let (rest, cache2, more) = collect_resource_status funcs cache1 in
    elim status [
      | inl err ↦ (inl err, cache1, calls)
      | inr result ↦ elim rest [
        | inl err ↦ (inl err, cache2, calls ++ more)
        | inr results ↦ (inr (result ∷ results), cache2, calls ++ more)
      ]
    ]

-- The kinds of object that `defaultStatusFunc` tells apart. The numbers are never negative; the replicas of a
-- deployment are a pointer.
pub data Workload : Type 0 where
  daemon_set : (number_ready desired_number_scheduled : ℕ) → Workload
  deployment : (spec_replicas : Option ℕ) (replicas available_replicas : ℕ) → Workload
  other : Workload

abbrev pub no_status : ResourceStatus
no_status = record { progressing = none; not_available = none; degraded = none }

-- `none` is the panic of a nil pointer.
unfoldable pub default_status_func :
    (show : ℕ → String) (namespace name : String) → Workload → Option ResourceStatus
default_status_func show namespace name (daemon_set number_ready desired) =
    if number_ready == desired
    then some no_status
    else (let msg =
          "Not all pods for daemonset "
          <> (namespace
              <> ("/"
                  <> (name
                      <> (" are ready. (ready pods: "
                          <> (show number_ready
                              <> (", desired pods: " <> (show desired <> ")"))))))) in
        some (record { progressing = some msg; not_available = some msg; degraded = some msg }))
default_status_func show namespace name (deployment none replicas available) = none
default_status_func show namespace name (deployment (some number) replicas available) =
    let running =
      "No pods for deployment "
      <> (namespace <> ("/" <> (name <> (" are running. Expected: " <> show replicas)))) in
    let all_running =
      "Not all pods for deployment "
      <> (namespace
          <> ("/"
              <> (name
                  <> (" are running. Expected: "
                      <> (show number <> (", running: " <> show available)))))) in
    let missing = if available == number then none else some all_running in
    some (record {
      not_available = if not (number == 0) && available == 0 then some running else none;
      progressing = missing;
      degraded = missing;
    })
default_status_func show namespace name other = some no_status
