-- ===== src/SspController/Deploying.antt =====
-- The end of `Reconcile` on a server that answers, with settled operands.
use ssp_operator.Base.{
  ◌≡◌, refl, arith, ◌||◌, not, Option, some, List, inl, inr, ◌==◌, string_eq, Bool-cases,
}
use ssp_operator.Base.Equality.{nat_eq}
use ssp_operator.SspController.{update_status}
use ssp_operator.SspController.Instance.{SspObject, pre_update_status}
use ssp_operator.SspController.Reconcile.{Server, Request, Operands}
use ssp_operator.SspController.Loop.{Environment, run_operands, deploy}
use ssp_operator.SspController.Servers.{IsServer}
use ssp_operator.SspController.Status.{update_status_lem}
use ssp_operator.SspController.Answering.{
  IsAnswering, AreSettling, AllSettled, equal-AllSettled, reconcile_operands-AllSettled,
  status_stored,
}

module _ {C S T Ref I R O : Type 0} (env : Environment C S) (server : Server C S O)
    (operands : Operands C S T Ref I R) (stored : O → Option (SspObject C S))
    (Settled : I → R → Type 0) (is : IsServer server stored) (answering : IsAnswering server stored)
    (settling : AreSettling operands Settled) where
  -- The end of `Reconcile`, on settled operands.
  run_operands_deployed :
      (o : O) (s : SspObject C S) (request : Request C S) (managed : List (I × R))
      → stored o ≡ some s
      → AllSettled Settled managed
      → let end = run_operands env server operands o s request managed in
        (s' : SspObject C S) × (stored end.1 ≡ some s')
        × (s'.status.phase ≡ "Deployed")
        × (s' ≡ record s { status = s'.status })
        × AllSettled Settled end.2
  unfolding run_operands
  run_operands_deployed o s request managed p h =
      let (results, managed', cache, q, t, ks) =
        reconcile_operands-AllSettled server operands Settled settling
          (record request { instance_object = s }) managed h in
      let status =
        update_status env.conditions env.show env.operator_version s.generation s.status results in
      let deployed =
        (update_status_lem env.conditions env.show env.operator_version s.generation s.status
          results).3 in
      let (o', u, v) =
        status_stored server stored is answering o (record s { status = status }) s p in
      let s' : SspObject C S = record s { status = status } in
      (
        s',
        ground (arith, q, u, v),
        deployed.1 t,
        refl,
        equal-AllSettled Settled (ground (arith, q, u)) ks,
      )

  -- The same where the status is written first.
  pub deploy_deployed :
      (o : O) (s : SspObject C S) (request : Request C S) (managed : List (I × R))
      → stored o ≡ some s
      → AllSettled Settled managed
      → let end = deploy env server operands o s request managed in
        (s' : SspObject C S) × (stored end.1 ≡ some s')
        × (s'.status.phase ≡ "Deployed")
        × (s' ≡ record s { status = s'.status })
        × AllSettled Settled end.2
  unfolding deploy
  deploy_deployed o s request managed p h =
      let changed =
        s.status.observed_generation == 0 || not (s.status.observed_generation == s.generation) in
      elim (Bool-cases changed) [
        | inr c ↦ rw c (run_operands_deployed o s request managed p h)
        | inl c ↦
            let sent = pre_update_status env.conditions env.operator_version s in
            let (o1, u, v) = status_stored server stored is answering o sent s p in
            let s1 : SspObject C S = record s { status = sent.status } in
            let (s', a, ph, k, l) = run_operands_deployed o1 s1 request managed v h in
            (
              s',
              ground (arith, c, u, a),
              ph,
              ground (arith, k),
              equal-AllSettled Settled (ground (arith, c, u)) l,
            )
      ]
