-- ===== src/SspController/Loop.antt =====
-- internal/controllers/ssp_controller.go: `cleanup`, `handleError` and `Reconcile`.
use ssp_operator.Base.{
  String, ℕ, Bool, true, false, ◌||◌, not, Option, none, some, List, [], inl, inr, Eq, ◌==◌,
  string_eq, if◌then◌else◌,
}
use ssp_operator.Base.Equality.{nat_eq}
use ssp_operator.Resources.VersionCache.{VersionCache}
use ssp_operator.SspController.{Conditions, update_status}
use ssp_operator.SspController.Instance.{
  SspObject, remove_finalizer, contains_finalizer, finalizer_name, old_finalizer_name, is_paused,
  is_initialized, pre_update_status, update_status_missing_crds, error_status, deleting_status,
}
use ssp_operator.SspController.Reconcile.{
  ApiError, conflict, not_found, other, Server, Request, Operands, Controller, Result, World, done,
  returned, initialize, update_ssp, set_deleted, cleanup_operands, reconcile_operands,
}

-- What `Reconcile` takes from elsewhere: the library of conditions, the text of a number and of an error,
-- `env.GetOperatorVersion()`, the empty specification and the definitions that the CRD watch misses.
pub record Environment (C S : Type 0) : Type 0 where
  pub conditions : Conditions C
  pub show : ℕ → String
  pub error_text : ApiError → String
  pub operator_version : String
  pub empty_spec : S
  pub missing_crds : List String

module _ {C S O : Type 0} (env : Environment C S) (server : Server C S O) where
  -- From the object that is sent to the server and the outcome of that.
  unfoldable pub handle_error : O → SspObject C S → ApiError → Result × O
  unfolding error_status
  handle_error o obj conflict = (record { requeue = true; error = none; succeeded = none }, o)
  handle_error o obj not_found =
      let (answer, o') =
        server.update_status o (error_status env.conditions (env.error_text not_found) obj) in
      (returned (some not_found), o')
  handle_error o obj (other text) =
      let (answer, o') =
        server.update_status o (error_status env.conditions (env.error_text (other text)) obj) in
      (returned (some (other text)), o')

  -- `Status().Update` at the end of a branch.
  unfoldable pub finish_with : O → SspObject C S → Result × O
  finish_with o obj =
      let (answer, o') = server.update_status o obj in
      elim answer [ inl err ↦ (returned (some err), o') | inr obj' ↦ (done, o') ]

  -- The pause: from the object that was read.
  unfoldable pub pause : O → SspObject C S → Result × O
  unfolding finish_with
  pause o obj =
      let status = obj.status in
      if status.paused
      then (done, o)
      else finish_with o (record obj { status = record status { paused = true } })

  module _ {T Ref I R : Type 0} (operands : Operands C S T Ref I R) where
    -- After the finalizers were found: the first status, the operands, and the removal of the finalizers.
    unfoldable pub cleanup_finalized :
        O → SspObject C S → Request C S → List (I × R) → Option ApiError × O × List (I × R)
    unfolding deleting_status cleanup_operands remove_finalizer set_deleted
    cleanup_finalized o obj request managed =
        let (answer, o1) = server.update_status o (deleting_status env.conditions obj) in
        elim answer [
          | inl err ↦ (some err, o1, managed)
          | inr obj1 ↦
              let (outcome, managed') =
                cleanup_operands server operands (record request { instance_object = obj1 })
                  managed in
              elim outcome [
                | inl err ↦ (some err, o1, managed')
                | inr count ↦
                    if not (count == 0)
                    then (none, o1, managed')
                    else (let (answer', o2) = server.update o1 (
                          remove_finalizer old_finalizer_name
                            (remove_finalizer finalizer_name obj1)) in
                        elim answer' [
                          | inl err ↦ (some err, o2, managed')
                          | inr obj2 ↦
                              let (err, o3) = set_deleted server o2 obj2 in (err, o3, managed')
                        ])
              ]
        ]

    unfoldable pub cleanup :
        O → SspObject C S → Request C S → List (I × R) → Option ApiError × O × List (I × R)
    unfolding cleanup_finalized set_deleted
    cleanup o obj request managed =
        if contains_finalizer obj finalizer_name || contains_finalizer obj old_finalizer_name
        then cleanup_finalized o obj request managed
        else (let (err, o') = set_deleted server o obj in (err, o', managed))

    -- The operands, and the status after them; the last component is the version cache.
    unfoldable pub run_operands :
        O → SspObject C S → Request C S → List (I × R) → Result × O × List (I × R) × VersionCache
    unfolding reconcile_operands handle_error update_status
    run_operands o obj request managed =
        let (outcome, managed', cache) =
          reconcile_operands server operands (record request { instance_object = obj }) managed in
        elim outcome [
          | inl err ↦ let (result, o') = handle_error o obj err in (result, o', managed', cache)
          | inr results ↦
              let status =
                update_status env.conditions env.show env.operator_version obj.generation obj.status
                  results in
              let (answer, o') = server.update_status o (record obj { status = status }) in
              elim answer [
                | inl err ↦ (returned (some err), o', managed', cache)
                | inr obj' ↦ (
                  record {
                    requeue = false;
                    error = none;
                    succeeded = some (obj'.status.phase == "Deployed");
                  },
                  o',
                  managed',
                  cache,
                )
              ]
        ]

    -- From the test of the observed generation on.
    unfoldable pub deploy :
        O → SspObject C S → Request C S → List (I × R) → Result × O × List (I × R) × VersionCache
    unfolding run_operands pre_update_status handle_error
    deploy o obj request managed =
        if obj.status.observed_generation == 0
          || not (obj.status.observed_generation == obj.generation)
        then (let sent = pre_update_status env.conditions env.operator_version obj in
            let (answer, o') = server.update_status o sent in
            elim answer [
              | inl err ↦
                  let (result, o'') = handle_error o' sent err in
                  (result, o'', managed, request.version_cache)
              | inr obj' ↦ run_operands o' obj' request managed
            ])
        else run_operands o obj request managed

    abbrev pub world_of : Controller S → O → List (I × R) → World S O I R
    world_of controller o managed = record {
      controller = controller;
      server = o;
      managed = managed;
    }

    -- From the test of the pause on.
    unfoldable pub reconcile_active :
        Controller S → O → SspObject C S → Request C S → List (I × R) → Result × World S O I R
    unfolding deploy pause finish_with is_paused update_status_missing_crds
    reconcile_active controller o obj request managed =
        if is_paused obj
        then (let (result, o') = pause o obj in (result, world_of controller o' managed))
        else if controller.are_crds_missing
        then (let (result, o') =
              finish_with o (update_status_missing_crds env.conditions env.missing_crds obj) in
            (result, world_of controller o' managed))
        else (let (result, o', managed', cache) = deploy o obj request managed in
            (result, world_of (record controller { subresource_cache = cache }) o' managed'))

    -- `clearCache`
    unfoldable pub clear_cache : Controller S → Controller S
    clear_cache controller = record controller {
      last_ssp_spec = env.empty_spec;
      subresource_cache = [];
    }

    unfoldable pub reconcile_being_deleted :
        Controller S → O → SspObject C S → Request C S → List (I × R) → Result × World S O I R
    unfolding cleanup clear_cache
    reconcile_being_deleted controller o obj request managed =
        let (error, o', managed') = cleanup o obj request managed in
        elim error [
          | some err ↦ (returned (some err), world_of controller o' managed')
          | none ↦ (done, world_of (clear_cache controller) o' managed')
        ]

    -- The object that was read, after the cache was cleared if its specification has changed.
    unfoldable pub reconcile_object :
        Controller S → O → SspObject C S → Bool → List (I × R) → Result × World S O I R
    unfolding initialize update_ssp reconcile_being_deleted reconcile_active is_initialized
    reconcile_object controller o obj changed managed =
        let request : Request C S = record {
          instance_object = obj;
          instance_changed = changed;
          version_cache = controller.subresource_cache;
        } in
        if not (is_initialized obj)
        then (let (error, o') = initialize server o obj in
            (returned error, world_of controller o' managed))
        else elim (update_ssp server o obj) [
          | some (error, o') ↦ (returned error, world_of controller o' managed)
          | none ↦
              if obj.deleting
              then reconcile_being_deleted controller o obj request managed
              else reconcile_active controller o obj request managed
        ]

    -- `clearCacheIfNeeded`
    unfoldable pub clear_cache_if_needed :
        ⦃e : Eq S⦄ → Controller S → SspObject C S → Controller S × Bool
    clear_cache_if_needed controller obj =
        if controller.last_ssp_spec == obj.spec
        then (controller, false)
        else (record controller { subresource_cache = []; last_ssp_spec = obj.spec }, true)

    unfoldable pub reconcile_ssp : ⦃e : Eq S⦄ → World S O I R → Result × World S O I R
    unfolding clear_cache_if_needed reconcile_object
    reconcile_ssp w = elim (server.get w.server) [
      | inl conflict ↦ (returned (some conflict), w)
      | inl not_found ↦ (done, w)
      | inl (other text) ↦ (returned (some (other text)), w)
      | inr obj ↦
          let (controller, changed) = clear_cache_if_needed w.controller obj in
          reconcile_object controller w.server obj changed w.managed
    ]
