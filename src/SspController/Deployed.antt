-- ===== src/SspController/Deployed.antt =====
-- `Reconcile` deploys: on a server that answers, settled operands lead to the phase Deployed.
use mathlib.Core.Bool.{false≢true}
use text.Mathlib.TextEquality.{eq_iff}
use ssp_operator.Base.{
  String, ◌≡◌, ◌≢◌, refl, sym, ◌∙◌, ap, arith, true, false, Option, some, List, [], ◌∷◌, ◌++◌, inl,
  inr, Eq, ◌==◌, contains, string_eq, Bool-cases,
}
use ssp_operator.Base.Equality.{nat_eq}
use ssp_operator.SspController.Instance.{
  SspObject, add_finalizer, remove_finalizer, without_finalizer, finalizer_name, old_finalizer_name,
  contains_finalizer, is_paused, is_initialized,
}
use ssp_operator.SspController.Reconcile.{
  Server, Request, Operands, World, update_ssp_resource, initialize, update_ssp,
}
use ssp_operator.SspController.Loop.{
  Environment, reconcile_active, reconcile_object, clear_cache_if_needed, reconcile_ssp,
}
use ssp_operator.SspController.Servers.{IsServer}
use ssp_operator.SspController.Answering.{
  IsAnswering, AreSettling, AllSettled, equal-AllSettled, update_ssp_resource_stored,
}
use ssp_operator.SspController.Deploying.{deploy_deployed}

-- A stored object that is neither being deleted nor paused, with settled operands and no definition missing.
pub record IsActive {C S O I R : Type 0} (stored : O → Option (SspObject C S))
    (Settled : I → R → Type 0) (w : World S O I R) (s : SspObject C S) : Type 0 where
  pub stored_as : stored w.server ≡ some s
  pub not_deleting : s.deleting ≡ false
  pub unpaused : is_paused s ≡ false
  pub no_crds_missing : w.controller.are_crds_missing ≡ false
  pub settled : AllSettled Settled w.managed

contains-without : (fs : List String) (f : String) → contains (without_finalizer f fs) f ≡ false
unfolding without_finalizer
contains-without [] f = refl
contains-without (x ∷ fs) f = ground (arith, contains-without fs f)

contains-snoc_other :
    (fs : List String) (f g : String)
    → (f == g) ≡ false
    → contains (fs ++ (f ∷ [])) g ≡ contains fs g
contains-snoc_other [] f g h = ground arith
contains-snoc_other (x ∷ fs) f g h = ground (arith, contains-snoc_other fs f g h)

module _ {C S : Type 0} where
  is_paused-annotations :
      (s t : SspObject C S) → s.annotations ≡ t.annotations → is_paused s ≡ is_paused t
  unfolding is_paused
  is_paused-annotations s t p = ground (arith, p)

  renamed_finalizers :
      (s : SspObject C S)
      → contains_finalizer
          (add_finalizer finalizer_name (remove_finalizer old_finalizer_name s))
          old_finalizer_name
        ≡ false
  unfolding add_finalizer remove_finalizer string_eq
  renamed_finalizers s =
      let fs = without_finalizer old_finalizer_name s.finalizers in
      ground (
        arith,
        contains-without s.finalizers old_finalizer_name,
        contains-snoc_other fs finalizer_name old_finalizer_name refl,
      )

  add_finalizer_annotations :
      (f : String) (s : SspObject C S) → (add_finalizer f s).annotations ≡ s.annotations
  unfolding add_finalizer
  add_finalizer_annotations f s = ground arith

deploying-ne-empty : ◌≢◌ {A = String} "Deploying" ""
deploying-ne-empty p = false≢true ((eq_iff "Deploying" "").1 p)

deployed-ne-empty : ◌≢◌ {A = String} "Deployed" ""
deployed-ne-empty p = false≢true ((eq_iff "Deployed" "").1 p)

module _ {C S T Ref I R O : Type 0} ⦃e : Eq S⦄ (env : Environment C S) (server : Server C S O)
    (operands : Operands C S T Ref I R) (stored : O → Option (SspObject C S))
    (Settled : I → R → Type 0) (is : IsServer server stored) (answering : IsAnswering server stored)
    (settling : AreSettling operands Settled) where
  abbrev next_world : World S O I R → World S O I R
  next_world w = (reconcile_ssp env server operands w).1

  -- A step that only updates the object keeps it active, with the phase Deploying.
  updated-IsActive :
      (w : World S O I R) (s t : SspObject C S)
      → IsActive stored Settled w s
      → t.annotations ≡ s.annotations
      → (next_world w).server ≡ (update_ssp_resource server w.server t).1
      → (next_world w).managed ≡ w.managed
      → (next_world w).controller.are_crds_missing ≡ w.controller.are_crds_missing
      → (s' : SspObject C S) × IsActive stored Settled (next_world w) s'
        × (s'.status.phase ≡ "Deploying")
        × (s'.finalizers ≡ t.finalizers)
  updated-IsActive w s t act an p q r =
      let (s', o', u, v, d, an', f, ph) =
        update_ssp_resource_stored server stored is answering w.server t s act.stored_as
          act.not_deleting in
      (
        s',
        record {
          stored_as = ap stored (p ∙ ap (λ x. x.1) u) ∙ v;
          not_deleting = d;
          unpaused = is_paused-annotations s' s (an' ∙ an) ∙ act.unpaused;
          no_crds_missing = r ∙ act.no_crds_missing;
          settled = equal-AllSettled Settled q act.settled;
        },
        ph,
        f,
      )

  -- An object without a phase gets the finalizer.
  initialized-IsActive :
      (w : World S O I R) (s : SspObject C S)
      → IsActive stored Settled w s
      → s.status.phase ≡ ""
      → (s' : SspObject C S) × IsActive stored Settled (next_world w) s'
        × (s'.status.phase ≡ "Deploying")
  unfolding reconcile_ssp reconcile_object clear_cache_if_needed is_initialized initialize
  initialized-IsActive w s act ph =
      let g = answering.get_stored w.server s act.stored_as in
      let (s', act', ph', f) =
        updated-IsActive w s (add_finalizer finalizer_name s) act
          (add_finalizer_annotations finalizer_name s) (ground (arith, g, ph, act.not_deleting))
          (ground (arith, g, ph, act.not_deleting)) (ground (arith, g, ph, act.not_deleting)) in
      (s', act', ph')

  -- An object with the old finalizer gets the new one instead.
  renamed-IsActive :
      (w : World S O I R) (s : SspObject C S)
      → IsActive stored Settled w s
      → s.status.phase ≢ ""
      → contains_finalizer s old_finalizer_name ≡ true
      → (s' : SspObject C S) × IsActive stored Settled (next_world w) s'
        × (s'.status.phase ≡ "Deploying")
        × (contains_finalizer s' old_finalizer_name ≡ false)
  unfolding reconcile_ssp reconcile_object clear_cache_if_needed is_initialized update_ssp
      remove_finalizer
  renamed-IsActive w s act ph old =
      let g = answering.get_stored w.server s act.stored_as in
      let t = add_finalizer finalizer_name (remove_finalizer old_finalizer_name s) in
      let (s', act', ph', f) =
        updated-IsActive w s t act
          (add_finalizer_annotations finalizer_name (remove_finalizer old_finalizer_name s))
          (ground (arith, g, ph, old)) (ground (arith, g, ph, old)) (ground (arith, g, ph, old)) in
      (s', act', ph', ap (λ fs. contains fs old_finalizer_name) f ∙ renamed_finalizers s)

  -- Any other object is deployed.
  deployed-IsActive :
      (w : World S O I R) (s : SspObject C S)
      → IsActive stored Settled w s
      → s.status.phase ≢ ""
      → contains_finalizer s old_finalizer_name ≡ false
      → (s' : SspObject C S) × IsActive stored Settled (next_world w) s'
        × (s'.status.phase ≡ "Deployed")
        × (contains_finalizer s' old_finalizer_name ≡ false)
  unfolding reconcile_ssp reconcile_object clear_cache_if_needed is_initialized update_ssp
      reconcile_active
  deployed-IsActive w s act ph new =
      let g = answering.get_stored w.server s act.stored_as in
      let cleared = clear_cache_if_needed env server operands w.controller s in
      let request : Request C S = record {
        instance_object = s;
        instance_changed = cleared.1;
        version_cache = cleared.0.subresource_cache;
      } in
      let (s', a, ph', k, l) =
        deploy_deployed env server operands stored Settled is answering settling w.server s request
          w.managed act.stored_as act.settled in
      (
        s',
        record {
          stored_as =
              ap stored
                (ground (arith, g, ph, new, act.not_deleting, act.no_crds_missing, act.unpaused))
              ∙ a;
          not_deleting = ap (λ x. x.deleting) k ∙ act.not_deleting;
          unpaused = is_paused-annotations s' s (ap (λ x. x.annotations) k) ∙ act.unpaused;
          no_crds_missing =
              ground (arith, g, ph, new, act.not_deleting, act.no_crds_missing, act.unpaused);
          settled =
              equal-AllSettled Settled
                (ground (arith, g, ph, new, act.not_deleting, act.no_crds_missing, act.unpaused)) l;
        },
        ph',
        ap (λ x. contains x.finalizers old_finalizer_name) k ∙ new,
      )

  -- Two reconciliations deploy an object with a phase.
  twice_deployed :
      (w : World S O I R) (s : SspObject C S)
      → IsActive stored Settled w s
      → s.status.phase ≢ ""
      → (s' : SspObject C S) × IsActive stored Settled (next_world (next_world w)) s'
        × (s'.status.phase ≡ "Deployed")
        × (contains_finalizer s' old_finalizer_name ≡ false)
  twice_deployed w s act ph = elim (Bool-cases (contains_finalizer s old_finalizer_name)) [
    | inl old ↦
        let (s1, act1, ph1, new) = renamed-IsActive w s act ph old in
        deployed-IsActive (next_world w) s1 act1 (λ p. deploying-ne-empty (sym ph1 ∙ p)) new
    | inr new ↦
        let (s1, act1, ph1, new1) = deployed-IsActive w s act ph new in
        deployed-IsActive (next_world w) s1 act1 (λ p. deployed-ne-empty (sym ph1 ∙ p)) new1
  ]

  -- On a server that answers every request, with no change by others, three reconciliations bring a stored
  -- object that is neither being deleted nor paused to the phase Deployed, and a finalizer in the old
  -- spelling away, whatever its phase and finalizers were. No definition is missing, and the operands are
  -- settled: they reconcile with success.
  pub reconcile_ssp-deployed :
      (w : World S O I R) (s : SspObject C S)
      → IsActive stored Settled w s
      → (s' : SspObject C S) × (stored (next_world (next_world (next_world w))).server ≡ some s')
        × (s'.status.phase ≡ "Deployed")
        × (contains_finalizer s' old_finalizer_name ≡ false)
  reconcile_ssp-deployed w s act = elim (Bool-cases (s.status.phase == "")) [
    | inl p ↦
        let (s1, act1, ph1) = initialized-IsActive w s act (ground (arith, p)) in
        let (s', act', ph', new) =
          twice_deployed (next_world w) s1 act1 (λ q. deploying-ne-empty (sym ph1 ∙ q)) in
        (s', act'.stored_as, ph', new)
    | inr p ↦
        let (s1, act1, ph1, new1) = twice_deployed w s act (λ q. ground (arith, p, q)) in
        let (s', act', ph', new) =
          deployed-IsActive (next_world (next_world w)) s1 act1
            (λ q. deployed-ne-empty (sym ph1 ∙ q)) new1 in
        (s', act'.stored_as, ph', new)
  ]
