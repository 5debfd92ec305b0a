-- ===== src/SspController/Reconcile.antt =====
-- internal/controllers/ssp_controller.go: `Reconcile`. The API server is a parameter, `Server`, with a state of its
-- own; an operand is what it does to the resources that it manages. `O` is the state of the server with
-- respect to the SSP object, `I` names the operands and `R` is the state of the resources of one of them.
use Prim.Native.Nat.{◌+◌}
use ssp_operator.Base.{
  String, ℕ, Bool, false, Option, none, some, List, [], ◌∷◌, ◌++◌, ◌⊎◌, inl, inr, string_eq,
  if◌then◌else◌,
}
use ssp_operator.Base.Equality.{nat_eq}
use ssp_operator.Resources.Cleanup.{CleanupResult}
use ssp_operator.Resources.Reconcile.{ReconcileResult}
use ssp_operator.Resources.VersionCache.{VersionCache}
use ssp_operator.SspController.Instance.{
  SspObject, add_finalizer, remove_finalizer, contains_finalizer, finalizer_name,
  old_finalizer_name, deploying, deleted_status,
}

pub data ApiError : Type 0 where
  conflict not_found : ApiError
  other : String → ApiError

-- `client.Get`, `client.Update` and `client.Status().Update` of the SSP object. An update answers with the object as
-- the server has it, which the client writes into the object sent.
pub record Server (C S O : Type 0) : Type 0 where
  pub get : O → ApiError ⊎ SspObject C S
  pub update : O → SspObject C S → (ApiError ⊎ SspObject C S) × O
  pub update_status : O → SspObject C S → (ApiError ⊎ SspObject C S) × O

-- `common.Request`, without what does not change.
pub record Request (C S : Type 0) : Type 0 where
  pub instance_object : SspObject C S
  pub instance_changed : Bool
  pub version_cache : VersionCache

-- What the operands do to their resources, and, on reconciliation, to the version cache of the request.
pub record Operands (C S T Ref I R : Type 0) : Type 0 where
  pub reconcile_operand :
      I → Request C S → R → (ApiError ⊎ List (ReconcileResult T Ref)) × R × VersionCache
  pub cleanup_operand : I → Request C S → R → (ApiError ⊎ List (CleanupResult T Ref)) × R

-- The fields of `sspController` that `Reconcile` reads or writes, besides the operands.
pub record Controller (S : Type 0) : Type 0 where
  pub last_ssp_spec : S
  pub subresource_cache : VersionCache
  pub are_crds_missing : Bool

-- The result of a `Reconcile`: `succeeded` is what the metric is set to, if it is.
pub record Result : Type 0 where
  pub requeue : Bool
  pub error : Option ApiError
  pub succeeded : Option Bool

pub record World (S O I R : Type 0) : Type 0 where
  pub controller : Controller S
  pub server : O
  pub managed : List (I × R)

abbrev pub done : Result
done = record { requeue = false; error = none; succeeded = none }

-- A return with an error or nil; the deferred function sets the metric.
abbrev pub returned : Option ApiError → Result
returned none = done
returned (some err) = record { requeue = false; error = some err; succeeded = some false }

module _ {T Ref : Type 0} where
  unfoldable pub pending_count : List (CleanupResult T Ref) → ℕ
  pending_count [] = 0
  pending_count (result ∷ results) =
      let rest = pending_count results in if result.deleted then rest else rest + 1

module _ {C S O : Type 0} (server : Server C S O) where
  unfoldable pub set_ssp_resource_deploying : O → SspObject C S → Option ApiError × O
  unfolding deploying
  set_ssp_resource_deploying o obj =
      let (answer, o') = server.update_status o (deploying obj) in
      elim answer [ inl err ↦ (some err, o') | inr obj' ↦ (none, o') ]

  unfoldable pub update_ssp_resource : O → SspObject C S → Option ApiError × O
  unfolding set_ssp_resource_deploying
  update_ssp_resource o obj =
      let (answer, o') = server.update o obj in
      elim answer [ inl err ↦ (some err, o') | inr obj' ↦ set_ssp_resource_deploying o' obj' ]

  unfoldable pub initialize : O → SspObject C S → Option ApiError × O
  unfolding update_ssp_resource add_finalizer
  initialize o obj = update_ssp_resource o (add_finalizer finalizer_name obj)

  -- `none` where nothing is to be updated.
  unfoldable pub update_ssp : O → SspObject C S → Option (Option ApiError × O)
  unfolding update_ssp_resource add_finalizer remove_finalizer
  update_ssp o obj =
      if contains_finalizer obj old_finalizer_name
      then some (
          update_ssp_resource o
            (add_finalizer finalizer_name (remove_finalizer old_finalizer_name obj)))
      else none

  -- The end of `cleanup`.
  unfoldable pub set_deleted : O → SspObject C S → Option ApiError × O
  unfolding deleted_status
  set_deleted o obj =
      let (answer, o') = server.update_status o (deleted_status obj) in
      elim answer [
        | inr obj' ↦ (none, o')
        | inl conflict ↦ (none, o')
        | inl not_found ↦ (none, o')
        | inl (other text) ↦ (some (other text), o')
      ]

  module _ {T Ref I R : Type 0} (operands : Operands C S T Ref I R) where
    -- The loop of `cleanup` over the operands: the count of resources that are not deleted yet.
    unfoldable pub cleanup_operands : Request C S → List (I × R) → (ApiError ⊎ ℕ) × List (I × R)
    unfolding pending_count
    cleanup_operands request [] = (inr 0, [])
    cleanup_operands request ((i, r) ∷ managed) =
        let (answer, r') = operands.cleanup_operand i request r in
        let (rest, managed') = cleanup_operands request managed in
        elim answer [
          | inl err ↦ (inl err, (i, r') ∷ managed)
          | inr results ↦ elim rest [
            | inl err ↦ (inl err, (i, r') ∷ managed')
            | inr count ↦ (inr (pending_count results + count), (i, r') ∷ managed')
          ]
        ]

    unfoldable pub reconcile_operands :
        Request C S
        → List (I × R)
        → (ApiError ⊎ List (ReconcileResult T Ref)) × List (I × R) × VersionCache
    reconcile_operands request [] = (inr [], [], request.version_cache)
    reconcile_operands request ((i, r) ∷ managed) =
        let (answer, r', cache) = operands.reconcile_operand i request r in
        let (rest, managed', cache') =
          reconcile_operands (record request { version_cache = cache }) managed in
        elim answer [
          | inl err ↦ (inl err, (i, r') ∷ managed, cache)
          | inr results ↦ elim rest [
            | inl err ↦ (inl err, (i, r') ∷ managed', cache')
            | inr more ↦ (inr (results ++ more), (i, r') ∷ managed', cache')
          ]
        ]
