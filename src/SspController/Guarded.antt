-- ===== src/SspController/Guarded.antt =====
-- The finalizer guards the resources of the operands: `Reconcile` as a whole.
use ssp_operator.Base.{
  ◌≡◌, sym, arith, true, ◌||◌, not, Option, none, some, List, ◌⊎◌, inl, inr, ◌==◌, string_eq,
  Bool-cases, Sum-cases, subst,
}
use ssp_operator.Base.Equality.{nat_eq}
use ssp_operator.SspController.{update_status}
use ssp_operator.SspController.Instance.{
  SspObject, remove_finalizer, finalizer_name, old_finalizer_name, is_paused, pre_update_status,
  update_status_missing_crds, error_status, deleting_status,
}
use ssp_operator.SspController.Reconcile.{
  ApiError, conflict, not_found, other, Server, Request, Operands, Controller, set_deleted,
  cleanup_operands, reconcile_operands,
}
use ssp_operator.SspController.Loop.{
  Environment, handle_error, finish_with, pause, cleanup_finalized, cleanup, run_operands, deploy,
  reconcile_active,
}
use ssp_operator.SspController.Servers.{
  IsServer, AreCleaned, has_finalizer, answer-cases, Guarded, Owned, AllAbsent, equal-Guarded,
}
use ssp_operator.SspController.Finalizers.{
  Guarded-Owned, status-Guarded, set_deleted-Owned, update-Owned, cleanup_operands-AllAbsent,
}

module _ {C S O : Type 0} (env : Environment C S) (server : Server C S O)
    (stored : O → Option (SspObject C S)) (is : IsServer server stored) where
  -- The operations that only write the status leave the server as that write does.
  finish_with_server :
      (o : O) (t : SspObject C S) → (finish_with env server o t).1 ≡ (server.update_status o t).1
  unfolding finish_with
  finish_with_server o t = elim (answer-cases (server.update_status o t)) [
    | inl (e, o', q) ↦ ground arith
    | inr (s', o', q) ↦ ground arith
  ]

  finish_with-Guarded :
      (o : O) (t : SspObject C S) → Guarded stored o → Guarded stored (finish_with env server o t).1
  finish_with-Guarded o t g = rw (finish_with_server o t) (status-Guarded server stored is o t g)

  pause-Guarded :
      (o : O) (t : SspObject C S) → Guarded stored o → Guarded stored (pause env server o t).1
  unfolding pause
  pause-Guarded o t g =
      let status = t.status in
      elim (Bool-cases t.status.paused) [
        | inl e ↦ rw e g
        | inr e ↦
            rw e (finish_with-Guarded o (record t { status = record status { paused = true } }) g)
      ]

  handle_error-Guarded :
      (o : O) (t : SspObject C S) (e : ApiError)
      → Guarded stored o
      → Guarded stored (handle_error env server o t e).1
  unfolding handle_error
  handle_error-Guarded o t conflict g = g
  handle_error-Guarded o t not_found g =
      status-Guarded server stored is o (error_status env.conditions (env.error_text not_found) t) g
  handle_error-Guarded o t (other text) g =
      status-Guarded server stored is o
        (error_status env.conditions (env.error_text (other text)) t) g

  module _ {T Ref I R : Type 0} (operands : Operands C S T Ref I R) where
    run_operands-Guarded :
        (o : O) (t : SspObject C S) (request : Request C S) (managed : List (I × R))
        → Guarded stored o
        → Guarded stored (run_operands env server operands o t request managed).1
    unfolding run_operands
    run_operands-Guarded o t request managed g =
        let run =
          reconcile_operands server operands (record request { instance_object = t }) managed in
        elim (Sum-cases run.0) [
          | inl (e, p) ↦
              equal-Guarded stored (handle_error env server o t e).1 (ground (arith, p))
                (handle_error-Guarded o t e g)
          | inr (results, p) ↦
              let status =
                update_status env.conditions env.show env.operator_version t.generation t.status
                  results in
              let sent = record t { status = status } in
              let kept = status-Guarded server stored is o sent g in
              elim (answer-cases (server.update_status o sent)) [
                | inl (e, o', q) ↦
                    equal-Guarded stored (server.update_status o sent).1 (ground (arith, p, q)) kept
                | inr (s', o', q) ↦
                    equal-Guarded stored (server.update_status o sent).1 (ground (arith, p, q)) kept
              ]
        ]

    deploy-Guarded :
        (o : O) (t : SspObject C S) (request : Request C S) (managed : List (I × R))
        → Guarded stored o
        → Guarded stored (deploy env server operands o t request managed).1
    unfolding deploy
    deploy-Guarded o t request managed g =
        let sent = pre_update_status env.conditions env.operator_version t in
        let kept = status-Guarded server stored is o sent g in
        elim (Bool-cases (
          t.status.observed_generation == 0
          || not (t.status.observed_generation == t.generation))) [
            | inr b ↦
                equal-Guarded stored (run_operands env server operands o t request managed).1
                  (ground (arith, b)) (run_operands-Guarded o t request managed g)
            | inl b ↦ elim (answer-cases (server.update_status o sent)) [
              | inl (e, o', q) ↦
                  equal-Guarded stored (handle_error env server o' sent e).1 (ground (arith, b, q))
                    (handle_error-Guarded o' sent e (
                      equal-Guarded stored (server.update_status o sent).1 (ground (arith, q))
                        kept))
              | inr (s', o', q) ↦
                  equal-Guarded stored (run_operands env server operands o' s' request managed).1
                    (ground (arith, b, q))
                    (run_operands-Guarded o' s' request managed (
                      equal-Guarded stored (server.update_status o sent).1 (ground (arith, q))
                        kept))
            ]
          ]

    pub reconcile_active-Guarded :
        (controller : Controller S) (o : O) (t : SspObject C S) (request : Request C S)
        (managed : List (I × R))
        → Guarded stored o
        → Guarded stored
            (reconcile_active env server operands controller o t request managed).1.server
    unfolding reconcile_active
    reconcile_active-Guarded controller o t request managed g =
        let missing = update_status_missing_crds env.conditions env.missing_crds t in
        elim (Bool-cases (is_paused t)) [
          | inl b ↦
              equal-Guarded stored (pause env server o t).1 (ground (arith, b))
                (pause-Guarded o t g)
          | inr b ↦ elim (Bool-cases controller.are_crds_missing) [
            | inl c ↦
                equal-Guarded stored (finish_with env server o missing).1 (ground (arith, b, c))
                  (finish_with-Guarded o missing g)
            | inr c ↦
                equal-Guarded stored (deploy env server operands o t request managed).1
                  (ground (arith, b, c)) (deploy-Guarded o t request managed g)
          ]
        ]

    module _ (Absent : I → R → Type 0) (clean : AreCleaned operands Absent) where
      -- The operands have resources only while the stored object has a finalizer of the operator.
      abbrev pub IsGuarded : O → List (I × R) → Type 0
      IsGuarded o managed = AllAbsent Absent managed ⊎ Guarded stored o

      abbrev pub Kept : Option ApiError × O × List (I × R) → Type 0
      Kept r = Owned stored r.1 × IsGuarded r.1 r.2

      equal-Kept :
          {r : Option ApiError × O × List (I × R)} (r' : Option ApiError × O × List (I × R))
          → r ≡ r'
          → Kept r'
          → Kept r
      equal-Kept r' e k = subst Kept (sym e) k

      Guarded-Kept :
          (error : Option ApiError) (o : O) (managed : List (I × R))
          → Guarded stored o
          → Kept (error, o, managed)
      Guarded-Kept error o managed g = (Guarded-Owned server stored is o g, inr g)

      -- The end of `cleanup`, where no operand has a resource left.
      finalizers_removed-Kept :
          (o : O) (t sent : SspObject C S) (managed : List (I × R))
          → stored o ≡ some t
          → t.deleting ≡ true
          → AllAbsent Absent managed
          → let (answer, o') = server.update o sent in
            Owned stored o'
            × ((t' : SspObject C S)
                → Kept ((set_deleted server o' t').0, (set_deleted server o' t').1, managed))
      finalizers_removed-Kept o t sent managed p d absent =
          let owned = update-Owned server stored is o sent t p d in
          (
            owned,
            λ t'.
                (set_deleted-Owned server stored is (server.update o sent).1 t' owned, inl absent),
          )

      cleanup_finalized-Kept :
          (o : O) (t : SspObject C S) (request : Request C S) (managed : List (I × R))
          → stored o ≡ some t
          → t.deleting ≡ true
          → has_finalizer t ≡ true
          → Kept (cleanup_finalized env server operands o t request managed)
      unfolding cleanup_finalized
      cleanup_finalized-Kept o t request managed p d f =
          let is_kept : (r : Option ApiError × O × List (I × R))
              → cleanup_finalized env server operands o t request managed ≡ r
              → Kept r
              → Kept (cleanup_finalized env server operands o t request managed) =
            λ r. equal-Kept r in
          let sent = deleting_status env.conditions t in
          let kept = status-Guarded server stored is o sent (t, p, f) in
          elim (answer-cases (server.update_status o sent)) [
            | inl (e, o1, q) ↦
                is_kept (some e, o1, managed) (ground (arith, q))
                  (Guarded-Kept (some e) o1 managed
                    (equal-Guarded stored (server.update_status o sent).1 (ground (arith, q)) kept))
            | inr (obj1, o1, q) ↦
                let g : Guarded stored o1 =
                  equal-Guarded stored (server.update_status o sent).1 (ground (arith, q)) kept in
                let (cur, a, b, c) = is.status_updated o o1 sent obj1 q in
                let deleting : obj1.deleting ≡ true = ground (arith, p, a, b, d) in
                let run =
                  cleanup_operands server operands (record request { instance_object = obj1 })
                    managed in
                elim (Sum-cases run.0) [
                  | inl (e, r) ↦
                      is_kept (some e, o1, run.1) (ground (arith, q, r))
                        (Guarded-Kept (some e) o1 run.1 g)
                  | inr (count, r) ↦ elim (Bool-cases (count == 0)) [
                    | inr z ↦
                        is_kept (none, o1, run.1) (ground (arith, q, r, z))
                          (Guarded-Kept none o1 run.1 g)
                    | inl z ↦
                        let removed =
                          remove_finalizer old_finalizer_name
                            (remove_finalizer finalizer_name obj1) in
                        let absent =
                          cleanup_operands-AllAbsent server operands Absent clean
                            (record request { instance_object = obj1 }) managed
                            (ground (arith, r, z)) in
                        let k = finalizers_removed-Kept o1 obj1 removed run.1 c deleting absent in
                        elim (answer-cases (server.update o1 removed)) [
                          | inl (e, o2, u) ↦
                              is_kept (some e, (server.update o1 removed).1, run.1)
                                (ground (arith, q, r, z, u)) (k.0, inl absent)
                          | inr (obj2, o2, u) ↦
                              let end = set_deleted server (server.update o1 removed).1 obj2 in
                              is_kept (end.0, end.1, run.1) (ground (arith, q, r, z, u)) (k.1 obj2)
                        ]
                  ]
                ]
          ]

      pub cleanup-Kept :
          (o : O) (t : SspObject C S) (request : Request C S) (managed : List (I × R))
          → stored o ≡ some t
          → t.deleting ≡ true
          → IsGuarded o managed
          → Kept (cleanup env server operands o t request managed)
      unfolding cleanup
      cleanup-Kept o t request managed p d g =
          let is_kept : (r : Option ApiError × O × List (I × R))
              → cleanup env server operands o t request managed ≡ r
              → Kept r
              → Kept (cleanup env server operands o t request managed) =
            λ r. equal-Kept r in
          elim (Bool-cases (has_finalizer t)) [
            | inl f ↦
                is_kept (cleanup_finalized env server operands o t request managed)
                  (ground (arith, f)) (cleanup_finalized-Kept o t request managed p d f)
            | inr f ↦
                let end = set_deleted server o t in
                let owned : Owned stored o = λ s q n. ground (arith, p, q, d, n) in
                let absent : AllAbsent Absent managed = elim g [
                  | inl a ↦ a
                  | inr (s, q, h) ↦ absurd (ground (arith, p, q, h, f))
                ] in
                is_kept (end.0, end.1, managed) (ground (arith, f))
                  (set_deleted-Owned server stored is o t owned, inl absent)
          ]
