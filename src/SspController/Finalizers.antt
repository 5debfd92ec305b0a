-- ===== src/SspController/Finalizers.antt =====
-- The finalizer guards the resources of the operands: the parts of `Reconcile`.
use ssp_operator.Base.{
  String, ◌≡◌, arith, true, Option, some, List, [], ◌∷◌, ◌++◌, ◌⊎◌, inl, inr, contains, string_eq,
  Sum-cases, equal-All,
}
use ssp_operator.SspController.Instance.{
  SspObject, add_finalizer, remove_finalizer, finalizer_name, old_finalizer_name, deploying,
  deleted_status,
}
use ssp_operator.SspController.Reconcile.{
  ApiError, conflict, not_found, other, Server, Request, Operands, set_ssp_resource_deploying,
  update_ssp_resource, initialize, update_ssp, set_deleted, cleanup_operands, pending_count,
}
use ssp_operator.SspController.Servers.{
  IsServer, AreCleaned, has_finalizer, answer-cases, Guarded, Owned, AllAbsent,
}

module _ {C S O : Type 0} (server : Server C S O) (stored : O → Option (SspObject C S))
    (is : IsServer server stored) where
  pub Guarded-Owned : (o : O) → Guarded stored o → Owned stored o
  Guarded-Owned o (g, p, h) s q d = ground arith

  -- A write of the status keeps both, whether it fails or not.
  pub status-Guarded :
      (o : O) (t : SspObject C S) → Guarded stored o → Guarded stored (server.update_status o t).1
  status-Guarded o t (g, p, h) = elim (answer-cases (server.update_status o t)) [
    | inl (e, o', q) ↦ (g, ground (arith, is.status_failed o o' t e q), h)
    | inr (s', o', q) ↦
        let (cur, r, u, v) = is.status_updated o o' t s' q in (s', ground arith, ground arith)
  ]

  pub status-Owned :
      (o : O) (t : SspObject C S) → Owned stored o → Owned stored (server.update_status o t).1
  status-Owned o t h s p d = elim (answer-cases (server.update_status o t)) [
    | inl (e, o', q) ↦ h s (ground (arith, is.status_failed o o' t e q)) d
    | inr (s', o', q) ↦
        let (cur, r, u, v) = is.status_updated o o' t s' q in let k = h cur r in ground arith
  ]

  pub set_ssp_resource_deploying-Guarded :
      (o : O) (t : SspObject C S)
      → Guarded stored o
      → Guarded stored (set_ssp_resource_deploying server o t).1
  unfolding set_ssp_resource_deploying
  set_ssp_resource_deploying-Guarded o t h =
      let (g, p, k) = status-Guarded o (deploying t) h in (g, ground (arith, p), k)

  -- After an update with a finalizer the stored object has it; a failed update changes nothing.
  pub update_ssp_resource-Guarded :
      (o : O) (t : SspObject C S)
      → has_finalizer t ≡ true
      → Guarded stored (update_ssp_resource server o t).1
        ⊎ (stored (update_ssp_resource server o t).1 ≡ stored o)
  unfolding update_ssp_resource
  update_ssp_resource-Guarded o t h = elim (answer-cases (server.update o t)) [
    | inl (e, o', q) ↦ inr (ground (arith, is.update_failed o o' t e q))
    | inr (s', o', q) ↦
        let (cur, a, f, d, st, v) = is.updated o o' t s' q in
        let fin : has_finalizer s' ≡ true = ground arith in
        let kept : stored o' ≡ some s' = ground (arith, v, fin) in
        let (g, p, k) = set_ssp_resource_deploying-Guarded o' s' (s', kept, fin) in
        inl (g, ground (arith, p), k)
  ]

  contains-snoc : (fs : List String) (f : String) → contains (fs ++ (f ∷ [])) f ≡ true
  contains-snoc [] f = ground arith
  contains-snoc (x ∷ fs) f = ground (arith, contains-snoc fs f)

  add_finalizer-has : (t : SspObject C S) → has_finalizer (add_finalizer finalizer_name t) ≡ true
  unfolding add_finalizer
  add_finalizer-has t = ground (arith, contains-snoc t.finalizers finalizer_name)

  pub initialize-Guarded :
      (o : O) (t : SspObject C S)
      → Guarded stored (initialize server o t).1 ⊎ (stored (initialize server o t).1 ≡ stored o)
  unfolding initialize
  initialize-Guarded o t =
      update_ssp_resource-Guarded o (add_finalizer finalizer_name t) (add_finalizer-has t)

  pub update_ssp-Guarded :
      (o : O) (t : SspObject C S) (error : Option ApiError) (o' : O)
      → update_ssp server o t ≡ some (error, o')
      → Guarded stored o' ⊎ (stored o' ≡ stored o)
  unfolding update_ssp
  update_ssp-Guarded o t error o' h =
      let t' = add_finalizer finalizer_name (remove_finalizer old_finalizer_name t) in
      let e : o' ≡ (update_ssp_resource server o t').1 = ground arith in
      rw e (
        update_ssp_resource-Guarded o t'
          (add_finalizer-has (remove_finalizer old_finalizer_name t)))

  set_deleted_server :
      (o : O) (t : SspObject C S)
      → (set_deleted server o t).1 ≡ (server.update_status o (deleted_status t)).1
  unfolding set_deleted
  set_deleted_server o t = elim (answer-cases (server.update_status o (deleted_status t))) [
    | inl (conflict, o', q) ↦ ground arith
    | inl (not_found, o', q) ↦ ground arith
    | inl (other text, o', q) ↦ ground arith
    | inr (s', o', q) ↦ ground arith
  ]

  pub set_deleted-Guarded :
      (o : O) (t : SspObject C S) → Guarded stored o → Guarded stored (set_deleted server o t).1
  set_deleted-Guarded o t h = rw (set_deleted_server o t) (status-Guarded o (deleted_status t) h)

  pub set_deleted-Owned :
      (o : O) (t : SspObject C S) → Owned stored o → Owned stored (set_deleted server o t).1
  set_deleted-Owned o t h = rw (set_deleted_server o t) (status-Owned o (deleted_status t) h)

  -- After the finalizers were removed from an object that is being deleted, or that failed, no stored
  -- object that is not being deleted lacks a finalizer.
  pub update-Owned :
      (o : O) (t cur : SspObject C S)
      → stored o ≡ some cur
      → cur.deleting ≡ true
      → Owned stored (server.update o t).1
  update-Owned o t cur p d s q nd = elim (answer-cases (server.update o t)) [
    | inl (e, o', a) ↦ ground (arith, is.update_failed o o' t e a)
    | inr (s', o', a) ↦ let (cur', b, f, d', st, v) = is.updated o o' t s' a in ground arith
  ]

module _ {C S T Ref I R O : Type 0} (server : Server C S O) (operands : Operands C S T Ref I R)
    (Absent : I → R → Type 0) (clean : AreCleaned operands Absent) where
  -- The loop of `cleanup` counts no pending resource only if no operand has a resource left.
  pub cleanup_operands-AllAbsent :
      (request : Request C S) (managed : List (I × R))
      → (cleanup_operands server operands request managed).0 ≡ inr 0
      → AllAbsent Absent (cleanup_operands server operands request managed).1
  unfolding cleanup_operands
  cleanup_operands-AllAbsent request [] h = tt
  cleanup_operands-AllAbsent request ((i, r) ∷ managed) h =
      let rest = cleanup_operands server operands request managed in
      elim (answer-cases (operands.cleanup_operand i request r)) [
        | inl (e, r', q) ↦ ground arith
        | inr (results, r', q) ↦ elim (Sum-cases rest.0) [
          | inl (e, p) ↦ ground arith
          | inr (count, p) ↦
              let none_left : (pending_count results ≡ 0) × (rest.0 ≡ inr 0) = ground arith in
              equal-All (λ (j, s). Absent j s) ((i, r') ∷ rest.1) (ground arith)
                (
                  clean.cleaned i request r r' results q none_left.0,
                  cleanup_operands-AllAbsent request managed none_left.1,
                )
        ]
      ]
