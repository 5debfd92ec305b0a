-- ===== src/SspController/Status.antt =====
-- `updateStatus`: the conditions and the phase against the results of the operands.
use mathlib.Core.Bool.{false≢true}
use text.Mathlib.TextEquality.{eq_iff}
use ssp_operator.Base.{
  String, ◌≡◌, ◌≢◌, ◌↔◌, refl, ◌∙◌, ap, arith, ℕ, Bool, true, false, ◌&&◌, Option, none, some, List,
  [], ◌∷◌, string_eq, if◌then◌else◌,
}
use ssp_operator.Resources.{Object}
use ssp_operator.Resources.Reconcile.{ReconcileResult, ResourceStatus, is_success}
use ssp_operator.SspController.{
  Condition, Conditions, SspStatus, messages_of, condition_for, update_status, is_empty,
}

available-ne-progressing : ◌≢◌ {A = String} "Available" "Progressing"
available-ne-progressing p = false≢true ((eq_iff "Available" "Progressing").1 p)

available-ne-degraded : ◌≢◌ {A = String} "Available" "Degraded"
available-ne-degraded p = false≢true ((eq_iff "Available" "Degraded").1 p)

progressing-ne-degraded : ◌≢◌ {A = String} "Progressing" "Degraded"
progressing-ne-degraded p = false≢true ((eq_iff "Progressing" "Degraded").1 p)

deployed-ne-deploying : ◌≢◌ {A = String} "Deploying" "Deployed"
deployed-ne-deploying p = false≢true ((eq_iff "Deploying" "Deployed").1 p)

module _ {C : Type 0} (lib : Conditions C) where
  -- Three conditions set in a row: each has its status afterwards.
  three_set :
      (c : C) (a p d : Condition)
      → a.type_name ≡ "Available"
      → p.type_name ≡ "Progressing"
      → d.type_name ≡ "Degraded"
      → let c' =
          lib.set_status_condition (lib.set_status_condition (lib.set_status_condition c a) p) d in
        (lib.status_of c' "Available" ≡ some a.status)
        × (lib.status_of c' "Progressing" ≡ some p.status)
        × (lib.status_of c' "Degraded" ≡ some d.status)
  three_set c a p d ha hp hd =
      let c1 = lib.set_status_condition c a in
      let c2 = lib.set_status_condition c1 p in
      (
        ground (
          arith,
          lib.status_of-set c2 d "Available",
          lib.status_of-set c1 p "Available",
          lib.status_of-set c a "Available",
          ha,
          hp,
          hd,
          available-ne-progressing,
          available-ne-degraded,
        ),
        ground (
          arith,
          lib.status_of-set c2 d "Progressing",
          lib.status_of-set c1 p "Progressing",
          hp,
          hd,
          progressing-ne-degraded,
        ),
        ground (arith, lib.status_of-set c2 d "Degraded", hd),
      )

module _ {S Ref : Type 0} where
  -- Whether no result has the message.
  abbrev pub none_has : (ResourceStatus → Option String) → List (ReconcileResult S Ref) → Bool
  none_has message [] = true
  none_has message (result ∷ results) = elim (message result.status) [
    | none ↦ none_has message results
    | some m ↦ false
  ]

  abbrev pub all_succeed : List (ReconcileResult S Ref) → Bool
  all_succeed [] = true
  all_succeed (result ∷ results) = is_success result && all_succeed results

  is_empty-messages_of :
      (message : ResourceStatus → Option String) (results : List (ReconcileResult S Ref))
      → is_empty (messages_of message results) ≡ none_has message results
  unfolding messages_of
  is_empty-messages_of message [] = refl
  is_empty-messages_of message (result ∷ results) =
      ground (arith, is_empty-messages_of message results)

  all_succeed-none_has :
      (results : List (ReconcileResult S Ref))
      → (none_has (λ s. s.not_available) results
          && none_has (λ s. s.progressing) results
          && none_has (λ s. s.degraded) results)
        ≡ all_succeed results
  unfolding is_success
  all_succeed-none_has [] = refl
  all_succeed-none_has (result ∷ results) = ground (arith, all_succeed-none_has results)

  condition_for_lem :
      (show : ℕ → String) (t none_status none_message some_status suffix : String)
      (ms : List (String × Object S Ref))
      → ((condition_for show t none_status none_message some_status suffix ms).type_name ≡ t)
        × ((condition_for show t none_status none_message some_status suffix ms).status
            ≡ (if is_empty ms then none_status else some_status))
  unfolding condition_for
  condition_for_lem show t none_status none_message some_status suffix [] = (refl, refl)
  condition_for_lem show t none_status none_message some_status suffix (x ∷ []) = (refl, refl)
  condition_for_lem show t none_status none_message some_status suffix (x ∷ y ∷ ms) = (refl, refl)

  module _ {C : Type 0} (lib : Conditions C) where
    -- After the operands were reconciled: the condition Available holds exactly if no result says that its
    -- resource is not available, Progressing exactly if some result says that it is progressing, and
    -- Degraded exactly if some result says that it is degraded. The phase is Deployed exactly if every
    -- result is a success.
    pub update_status_lem :
        (show : ℕ → String) (operator_version : String) (generation : ℕ) (status : SspStatus C)
        (results : List (ReconcileResult S Ref))
        → let s = update_status lib show operator_version generation status results in
          (lib.status_of s.conditions "Available"
            ≡ some (if none_has (λ r. r.not_available) results then "True" else "False"))
          × (lib.status_of s.conditions "Progressing"
              ≡ some (if none_has (λ r. r.progressing) results then "False" else "True"))
          × (lib.status_of s.conditions "Degraded"
              ≡ some (if none_has (λ r. r.degraded) results then "False" else "True"))
          × ((s.phase ≡ "Deployed") ↔ (all_succeed results ≡ true))
    unfolding update_status
    update_status_lem show operator_version generation status results =
        let na = messages_of (λ r. r.not_available) results in
        let pr = messages_of (λ r. r.progressing) results in
        let de = messages_of (λ r. r.degraded) results in
        let ea = is_empty-messages_of (λ r. r.not_available) results in
        let ep = is_empty-messages_of (λ r. r.progressing) results in
        let ed = is_empty-messages_of (λ r. r.degraded) results in
        let ca =
          condition_for_lem show "Available" "True" "All SSP resources are available" "False"
            " SSP resources are not available" na in
        let cp =
          condition_for_lem show "Progressing" "False" "No SSP resources are progressing" "True"
            " SSP resources are progressing" pr in
        let cd =
          condition_for_lem show "Degraded" "False" "No SSP resources are degraded" "True"
            " SSP resources are degraded" de in
        let three =
          three_set lib status.conditions
            (condition_for show "Available" "True" "All SSP resources are available" "False"
              " SSP resources are not available" na)
            (condition_for show "Progressing" "False" "No SSP resources are progressing" "True"
              " SSP resources are progressing" pr)
            (condition_for show "Degraded" "False" "No SSP resources are degraded" "True"
              " SSP resources are degraded" de)
            ca.0 cp.0 cd.0 in
        let succeed = all_succeed-none_has results in
        (
          three.0 ∙ ap some (cc (ca.1, ea)),
          three.1 ∙ ap some (cc (cp.1, ep)),
          three.2 ∙ ap some (cc (cd.1, ed)),
          (
            (λ h. ground (arith, h, ea, ep, ed, succeed, deployed-ne-deploying)),
            (λ h. ground (arith, h, ea, ep, ed, succeed)),
          ),
        )
