-- ===== src/SspController/Paused.antt =====
-- `Reconcile` leaves the resources of the operands alone while the object is paused or definitions are missing.
use ssp_operator.Base.{
  ◌≡◌, arith, Bool, true, false, List, ◌⊎◌, inl, inr, Eq, string_eq, Bool-cases, Option-cases,
}
use ssp_operator.SspController.Instance.{SspObject, is_paused, is_initialized}
use ssp_operator.SspController.Reconcile.{Server, Request, Operands, Controller, World, update_ssp}
use ssp_operator.SspController.Loop.{
  Environment, reconcile_active, reconcile_object, clear_cache_if_needed, reconcile_ssp,
}

module _ {C S T Ref I R O : Type 0} ⦃e : Eq S⦄ (env : Environment C S) (server : Server C S O)
    (operands : Operands C S T Ref I R) where
  clear_cache_if_needed_crds :
      (controller : Controller S) (obj : SspObject C S)
      → (clear_cache_if_needed env server operands controller obj).0.are_crds_missing
        ≡ controller.are_crds_missing
  unfolding clear_cache_if_needed
  clear_cache_if_needed_crds controller obj = ground arith

  reconcile_active_managed :
      (controller : Controller S) (o : O) (obj : SspObject C S) (request : Request C S)
      (managed : List (I × R))
      → (is_paused obj ≡ true) ⊎ (controller.are_crds_missing ≡ true)
      → (reconcile_active env server operands controller o obj request managed).1.managed ≡ managed
  unfolding reconcile_active
  reconcile_active_managed controller o obj request managed (inl p) = ground (arith, p)
  reconcile_active_managed controller o obj request managed (inr c) =
      elim (Bool-cases (is_paused obj)) [ inl p ↦ ground (arith, p) | inr p ↦ ground (arith, p, c) ]

  reconcile_object_managed :
      (controller : Controller S) (o : O) (obj : SspObject C S) (changed : Bool)
      (managed : List (I × R))
      → obj.deleting ≡ false
      → (is_paused obj ≡ true) ⊎ (controller.are_crds_missing ≡ true)
      → (reconcile_object env server operands controller o obj changed managed).1.managed ≡ managed
  unfolding reconcile_object
  reconcile_object_managed controller o obj changed managed d c =
      let request : Request C S = record {
        instance_object = obj;
        instance_changed = changed;
        version_cache = controller.subresource_cache;
      } in
      elim (Bool-cases (is_initialized obj)) [
        | inr i ↦ ground (arith, i)
        | inl i ↦ elim (Option-cases (update_ssp server o obj)) [
          | inr (done, u) ↦ ground (arith, i, u)
          | inl u ↦
              ground (arith, i, u, d, reconcile_active_managed controller o obj request managed c)
        ]
      ]

  -- While an object that is not being deleted is paused, or definitions of required resources are
  -- missing, a reconciliation leaves the resources of every operand as they are.
  pub reconcile_ssp-paused :
      (w : World S O I R) (obj : SspObject C S)
      → server.get w.server ≡ inr obj
      → obj.deleting ≡ false
      → (is_paused obj ≡ true) ⊎ (w.controller.are_crds_missing ≡ true)
      → (reconcile_ssp env server operands w).1.managed ≡ w.managed
  unfolding reconcile_ssp
  reconcile_ssp-paused w obj g d c =
      let cleared = clear_cache_if_needed env server operands w.controller obj in
      let same = clear_cache_if_needed_crds w.controller obj in
      let c' : (is_paused obj ≡ true) ⊎ (cleared.0.are_crds_missing ≡ true) = elim c [
        | inl p ↦ inl p
        | inr m ↦ inr (ground (arith, same, m))
      ] in
      ground (arith, g, reconcile_object_managed cleared.0 w.server obj cleared.1 w.managed d c')
