-- ===== src/SspController/Reached.antt =====
-- The finalizer guards the resources of the operands in every state that the controller and its
-- surroundings can reach.
use ssp_operator.Base.{
  ◌≡◌, refl, sym, ◌∙◌, ap, subst, arith, Bool, true, Option, none, some, List, ◌⊎◌, inl, inr, Eq,
  string_eq, Bool-cases, Option-cases, Sum-cases,
}
use ssp_operator.SspController.Instance.{SspObject, is_initialized}
use ssp_operator.SspController.Reconcile.{
  conflict, not_found, other, Server, Request, Operands, Controller, World, initialize, update_ssp,
}
use ssp_operator.SspController.Loop.{
  Environment, cleanup, reconcile_active, reconcile_being_deleted, reconcile_object,
  clear_cache_if_needed, reconcile_ssp,
}
use ssp_operator.SspController.Servers.{
  IsServer, AreCleaned, Allowed, created, edited, deletion_requested, removed, nothing, Guarded,
  Owned, Initialized, AllAbsent, equal-Guarded,
}
use ssp_operator.SspController.Finalizers.{Guarded-Owned, initialize-Guarded, update_ssp-Guarded}
use ssp_operator.SspController.Guarded.{reconcile_active-Guarded, cleanup-Kept}

-- The operands have resources only while the stored object has a finalizer of the operator; and it has one
-- whenever its phase is set and it is not being deleted.
pub record IsSafe {C S O I R : Type 0} (stored : O → Option (SspObject C S))
    (Absent : I → R → Type 0) (w : World S O I R) : Type 0 where
  pub initialized : Initialized stored w.server
  pub guarded : AllAbsent Absent w.managed ⊎ Guarded stored w.server

module _ {C S T Ref I R O : Type 0} ⦃e : Eq S⦄ (server : Server C S O)
    (operands : Operands C S T Ref I R) (stored : O → Option (SspObject C S))
    (Absent : I → R → Type 0) (is : IsServer server stored)
    (clean : AreCleaned operands Absent) where
  Guarded-IsSafe : (w : World S O I R) → Guarded stored w.server → IsSafe stored Absent w
  Guarded-IsSafe w g = record {
    initialized = λ s p d ph. Guarded-Owned server stored is w.server g s p d;
    guarded = inr g;
  }

  -- A server that stores the same object is as safe.
  same-IsSafe :
      (w w' : World S O I R)
      → stored w'.server ≡ stored w.server
      → w'.managed ≡ w.managed
      → IsSafe stored Absent w
      → IsSafe stored Absent w'
  same-IsSafe w w' p q h = record {
    initialized = λ s r. h.initialized s (sym p ∙ r);
    guarded = elim h.guarded [
      | inl a ↦ inl (subst (AllAbsent Absent) (sym q) a)
      | inr (s, r, f) ↦ inr (s, p ∙ r, f)
    ];
  }

  Owned-IsSafe :
      (w : World S O I R) (o : O) (managed : List (I × R))
      → w.server ≡ o
      → w.managed ≡ managed
      → Owned stored o × (AllAbsent Absent managed ⊎ Guarded stored o)
      → IsSafe stored Absent w
  Owned-IsSafe w o managed p q (owned, guarded) = record {
    initialized = λ s r n ph. owned s (ap stored (sym p) ∙ r) n;
    guarded = elim guarded [
      | inl a ↦ inl (subst (AllAbsent Absent) (sym q) a)
      | inr (s, r, f) ↦ inr (s, ap stored p ∙ r, f)
    ];
  }

  module _ (env : Environment C S) where
    abbrev step : Controller S → O → SspObject C S → Bool → List (I × R) → World S O I R
    step controller o obj changed managed =
        (reconcile_object env server operands controller o obj changed managed).1

    reconcile_object-IsSafe :
        (controller controller' : Controller S) (o : O) (obj : SspObject C S) (changed : Bool)
        (managed : List (I × R))
        → stored o ≡ some obj
        → IsSafe stored Absent (record { controller = controller'; server = o; managed = managed })
        → IsSafe stored Absent (step controller o obj changed managed)
    unfolding reconcile_object reconcile_being_deleted is_initialized
    reconcile_object-IsSafe controller controller' o obj changed managed p h =
        let w : World S O I R = record {
          controller = controller';
          server = o;
          managed = managed;
        } in
        let w' = step controller o obj changed managed in
        let request : Request C S = record {
          instance_object = obj;
          instance_changed = changed;
          version_cache = controller.subresource_cache;
        } in
        elim (Bool-cases (is_initialized obj)) [
          | inr i ↦
              let o' = (initialize server o obj).1 in
              elim (initialize-Guarded server stored is o obj) [
                | inl g ↦ Guarded-IsSafe w' (equal-Guarded stored o' (ground (arith, i)) g)
                | inr q ↦ same-IsSafe w w' (ground (arith, i, q)) (ground (arith, i)) h
              ]
          | inl i ↦ elim (Option-cases (update_ssp server o obj)) [
            | inr ((error, o'), u) ↦ elim (update_ssp-Guarded server stored is o obj error o' u) [
              | inl g ↦ Guarded-IsSafe w' (equal-Guarded stored o' (ground (arith, i, u)) g)
              | inr q ↦ same-IsSafe w w' (ground (arith, i, u, q)) (ground (arith, i, u)) h
            ]
            | inl u ↦ elim (Bool-cases obj.deleting) [
              | inl d ↦
                  let end = cleanup env server operands o obj request managed in
                  let k =
                    cleanup-Kept env server stored is operands Absent clean o obj request managed p
                      d h.guarded in
                  elim (Option-cases end.0) [
                    | inl n ↦
                        Owned-IsSafe w' end.1 end.2 (ground (arith, i, u, d, n))
                          (ground (arith, i, u, d, n)) k
                    | inr (error, n) ↦
                        Owned-IsSafe w' end.1 end.2 (ground (arith, i, u, d, n))
                          (ground (arith, i, u, d, n)) k
                  ]
              | inr d ↦
                  let f = h.initialized obj p d (λ ph. ground (arith, i, d, ph)) in
                  Guarded-IsSafe w' (
                    equal-Guarded stored
                      (reconcile_active env server operands controller o obj request
                        managed).1.server
                      (ground (arith, i, u, d))
                      (reconcile_active-Guarded env server stored is operands controller o obj
                        request managed (obj, p, f)))
            ]
          ]
        ]

    reconcile_ssp-IsSafe :
        (w : World S O I R)
        → IsSafe stored Absent w
        → IsSafe stored Absent (reconcile_ssp env server operands w).1
    unfolding reconcile_ssp
    reconcile_ssp-IsSafe w h =
        let w' = (reconcile_ssp env server operands w).1 in
        elim (Sum-cases (server.get w.server)) [
          | inl (conflict, g) ↦ same-IsSafe w w' (ground (arith, g)) (ground (arith, g)) h
          | inl (not_found, g) ↦ same-IsSafe w w' (ground (arith, g)) (ground (arith, g)) h
          | inl (other text, g) ↦ same-IsSafe w w' (ground (arith, g)) (ground (arith, g)) h
          | inr (obj, g) ↦
              let cleared = clear_cache_if_needed env server operands w.controller obj in
              subst (IsSafe stored Absent) (ground (arith, g)) (
                reconcile_object-IsSafe cleared.0 w.controller w.server obj cleared.1 w.managed
                  (is.get_found w.server obj g) h)
        ]

  -- One step: a reconciliation in any environment, or a change of the stored object and of the resources by
  -- others, who create none for an operand; the operator may be restarted with it.
  pub data Step (w w' : World S O I R) : Type 0 where
    reconciles : (env : Environment C S) → w' ≡ (reconcile_ssp env server operands w).1 → Step w w'
    changes :
        Allowed (stored w.server) (stored w'.server)
        → (AllAbsent Absent w.managed → AllAbsent Absent w'.managed)
        → Step w w'

  pub data Reach (w : World S O I R) : World S O I R → Type 0 where
    here : Reach w w
    next : {v u : World S O I R} → Reach w v → Step v u → Reach w u

  -- The guard after a change: from what the change makes of a guarding object.
  Guarded-after :
      (w w' : World S O I R)
      → (AllAbsent Absent w.managed → AllAbsent Absent w'.managed)
      → (Guarded stored w.server → Guarded stored w'.server)
      → AllAbsent Absent w.managed ⊎ Guarded stored w.server
      → AllAbsent Absent w'.managed ⊎ Guarded stored w'.server
  Guarded-after w w' m g (inl a) = inl (m a)
  Guarded-after w w' m g (inr h) = inr (g h)

  changes-IsSafe :
      (w w' : World S O I R) {before after : Option (SspObject C S)}
      → stored w.server ≡ before
      → stored w'.server ≡ after
      → Allowed before after
      → (AllAbsent Absent w.managed → AllAbsent Absent w'.managed)
      → IsSafe stored Absent w
      → IsSafe stored Absent w'
  changes-IsSafe w w' p q (created s ph) m h = record {
    initialized = λ t r d nph. ground arith;
    guarded = Guarded-after w w' m (λ (t, r, f). absurd (ground arith)) h.guarded;
  }
  changes-IsSafe w w' p q (edited s s' st d f) m h = record {
    initialized = λ t r nd nph. let k = h.initialized s p in ground arith;
    guarded = Guarded-after w w' m (λ (t, r, g). (s', q, ground arith)) h.guarded;
  }
  changes-IsSafe w w' p q (deletion_requested s) m h = record {
    initialized = λ t r nd nph. ground arith;
    guarded =
        Guarded-after w w' m (λ (t, r, g). (record s { deleting = true }, q, ground arith))
          h.guarded;
  }
  changes-IsSafe w w' p q (removed s f) m h = record {
    initialized = λ t r nd nph. ground arith;
    guarded = Guarded-after w w' m (λ (t, r, g). absurd (ground arith)) h.guarded;
  }
  changes-IsSafe w w' p q (nothing o) m h = record {
    initialized = λ t r nd nph. h.initialized t (p ∙ sym q ∙ r) nd nph;
    guarded = Guarded-after w w' m (λ (t, r, g). (t, q ∙ sym p ∙ r, g)) h.guarded;
  }

  Step-IsSafe :
      (w w' : World S O I R) → Step w w' → IsSafe stored Absent w → IsSafe stored Absent w'
  Step-IsSafe w w' (reconciles env p) h =
      subst (IsSafe stored Absent) (sym p) (reconcile_ssp-IsSafe env w h)
  Step-IsSafe w w' (changes a m) h = changes-IsSafe w w' refl refl a m h

  -- In every state that can be reached from one without a stored object and without resources, the
  -- operands have resources only while the stored object has a finalizer of the operator; and it has one
  -- whenever its phase is set and it is not being deleted. Any writes may fail; reads are fresh. Others
  -- neither add nor remove a finalizer of the operator, write no status, and create no resource for an
  -- operand. An operand whose cleanup reports every resource as deleted has none left.
  pub Reach-IsSafe :
      (w w' : World S O I R)
      → stored w.server ≡ none
      → AllAbsent Absent w.managed
      → Reach w w'
      → IsSafe stored Absent w'
  Reach-IsSafe w w' n a here = record { initialized = λ s p d ph. ground arith; guarded = inl a }
  Reach-IsSafe w w' n a (next {v} r st) = Step-IsSafe v w' st (Reach-IsSafe w v n a r)
