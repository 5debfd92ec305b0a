-- ===== src/SspController/Answering.antt =====
-- A server that answers every request on an object that it stores, and operands whose resources are settled.
use ssp_operator.Base.{
  ◌≡◌, refl, arith, true, false, Option, none, some, List, [], ◌∷◌, ◌++◌, inr, string_eq, All,
  equal-All,
}
use ssp_operator.Resources.Reconcile.{ReconcileResult}
use ssp_operator.Resources.VersionCache.{VersionCache}
use ssp_operator.SspController.Instance.{SspObject, deploying}
use ssp_operator.SspController.Reconcile.{
  Server, Request, Operands, set_ssp_resource_deploying, update_ssp_resource, reconcile_operands,
}
use ssp_operator.SspController.Servers.{IsServer}
use ssp_operator.SspController.Status.{all_succeed}

-- No request on the stored object fails, and an update stores the annotations sent.
pub record IsAnswering {C S O : Type 0} (server : Server C S O)
    (stored : O → Option (SspObject C S)) : Type 0 where
  pub get_stored : (o : O) (s : SspObject C S) → stored o ≡ some s → server.get o ≡ inr s
  pub updates :
      (o : O) (t cur : SspObject C S)
      → stored o ≡ some cur
      → (s' : SspObject C S) × (o' : O) × (server.update o t ≡ (inr s', o'))
        × (s'.annotations ≡ t.annotations)
  pub updates_status :
      (o : O) (t cur : SspObject C S)
      → stored o ≡ some cur
      → (s' : SspObject C S) × (o' : O) × (server.update_status o t ≡ (inr s', o'))

-- An operand whose resources are settled reconciles with success, and they stay settled.
pub record AreSettling {C S T Ref I R : Type 0} (operands : Operands C S T Ref I R)
    (Settled : I → R → Type 0) : Type 0 where
  pub succeeds :
      (i : I) (request : Request C S) (r : R)
      → Settled i r
      → (results : List (ReconcileResult T Ref)) × (r' : R) × (cache : VersionCache)
        × (operands.reconcile_operand i request r ≡ (inr results, r', cache))
        × (all_succeed results ≡ true)
        × Settled i r'

abbrev pub AllSettled : {I R : Type 0} → (I → R → Type 0) → List (I × R) → Type 0
AllSettled Settled = All (λ (i, r). Settled i r)

pub equal-AllSettled :
    {I R : Type 0} (Settled : I → R → Type 0) {xs ys : List (I × R)}
    → xs ≡ ys
    → AllSettled Settled ys
    → AllSettled Settled xs
equal-AllSettled Settled {ys = ys} p h = equal-All (λ (i, r). Settled i r) ys p h

all_succeed-append :
    {T Ref : Type 0} (xs ys : List (ReconcileResult T Ref))
    → all_succeed xs ≡ true
    → all_succeed ys ≡ true
    → all_succeed (xs ++ ys) ≡ true
all_succeed-append [] ys p q = q
all_succeed-append (x ∷ xs) ys p q = ground (arith, all_succeed-append xs ys, p, q)

module _ {C S T Ref I R O : Type 0} (server : Server C S O) (operands : Operands C S T Ref I R)
    (Settled : I → R → Type 0) (settling : AreSettling operands Settled) where
  pub reconcile_operands-AllSettled :
      (request : Request C S) (managed : List (I × R))
      → AllSettled Settled managed
      → (results : List (ReconcileResult T Ref)) × (managed' : List (I × R))
        × (cache : VersionCache) × (reconcile_operands server operands request managed
            ≡ (inr results, managed', cache))
        × (all_succeed results ≡ true)
        × AllSettled Settled managed'
  unfolding reconcile_operands
  reconcile_operands-AllSettled request [] h = ([], [], request.version_cache, refl, refl, tt)
  reconcile_operands-AllSettled request ((i, r) ∷ managed) (h, hs) =
      let (results, r', cache, p, s, k) = settling.succeeds i request r h in
      let (more, managed', cache', q, t, ks) =
        reconcile_operands-AllSettled (record request { version_cache = cache }) managed hs in
      (
        results ++ more,
        (i, r') ∷ managed',
        cache',
        ground (arith, p, q),
        all_succeed-append results more s t,
        (k, ks),
      )

module _ {C S O : Type 0} (server : Server C S O) (stored : O → Option (SspObject C S))
    (is : IsServer server stored) (answering : IsAnswering server stored) where
  -- A write of the status stores it.
  pub status_stored :
      (o : O) (t cur : SspObject C S)
      → stored o ≡ some cur
      → (o' : O) × (server.update_status o t ≡ (inr (record cur { status = t.status }), o'))
        × (stored o' ≡ some (record cur { status = t.status }))
  status_stored o t cur p =
      let (s', o', q) = answering.updates_status o t cur p in
      let (cur', a, b, d) = is.status_updated o o' t s' q in
      let same : cur ≡ cur' = ground arith in (o', ground arith, ground arith)

  -- An update of an object that is not being deleted stores what is sent, with the phase Deploying.
  pub update_ssp_resource_stored :
      (o : O) (t cur : SspObject C S)
      → stored o ≡ some cur
      → cur.deleting ≡ false
      → (s' : SspObject C S) × (o' : O) × (update_ssp_resource server o t ≡ (none, o'))
        × (stored o' ≡ some s')
        × (s'.deleting ≡ false)
        × (s'.annotations ≡ t.annotations)
        × (s'.finalizers ≡ t.finalizers)
        × (s'.status.phase ≡ "Deploying")
  unfolding update_ssp_resource set_ssp_resource_deploying deploying
  update_ssp_resource_stored o t cur p d =
      let (s1, o1, q, an) = answering.updates o t cur p in
      let (cur', a, f, d', st, v) = is.updated o o1 t s1 q in
      let kept : stored o1 ≡ some s1 = ground arith in
      let (o2, u, w) = status_stored o1 (deploying s1) s1 kept in
      (
        record s1 { status = (deploying s1).status },
        o2,
        ground (arith, q, u),
        w,
        ground arith,
        an,
        f,
        refl,
      )
