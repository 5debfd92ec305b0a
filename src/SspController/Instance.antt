-- ===== src/SspController/Instance.antt =====
-- internal/controllers/ssp_controller.go: the SSP object of a request, its finalizers and the statuses that
-- the controller writes. `S` is the specification.
use ssp_operator.Base.{
  String, ◌<>◌, ℕ, Bool, true, false, ◌||◌, not, Option, none, some, List, [], ◌∷◌, ◌++◌, ◌==◌,
  contains, string_eq, if◌then◌else◌,
}
use ssp_operator.Base.Dict.{Dict, lookup}
use ssp_operator.Base.Text.{join}
use ssp_operator.SspController.{Condition, Conditions, SspStatus}

pub record SspObject (C S : Type 0) : Type 0 where
  -- never negative
  pub generation : ℕ
  -- whether the deletion timestamp is set
  pub deleting : Bool
  pub finalizers : List String
  pub annotations : Dict String String
  pub spec : S
  pub status : SspStatus C

abbrev pub finalizer_name : String
finalizer_name = "ssp.kubevirt.io/finalizer"

abbrev pub old_finalizer_name : String
old_finalizer_name = "finalize.ssp.kubevirt.io"

-- `strconv.ParseBool`
unfoldable pub parse_bool : String → Option Bool
parse_bool str =
    if contains ("1" ∷ "t" ∷ "T" ∷ "TRUE" ∷ "true" ∷ "True" ∷ []) str
    then some true
    else if contains ("0" ∷ "f" ∷ "F" ∷ "FALSE" ∷ "false" ∷ "False" ∷ []) str
    then some false
    else none

-- `f[:index]` at the end of the vendored `controllerutil.RemoveFinalizer`
unfoldable pub without_finalizer : String → List String → List String
without_finalizer finalizer [] = []
without_finalizer finalizer (f ∷ fs) =
    let rest = without_finalizer finalizer fs in if f == finalizer then rest else f ∷ rest

abbrev pub condition : String → String → String → Condition
condition type_name status message = record {
  type_name = type_name;
  status = status;
  reason = type_name;
  message = message;
}

module _ {C : Type 0} (lib : Conditions C) where
  -- The conditions of an SSP object that is not ready, all with one message.
  unfoldable pub not_ready : String → C → C
  not_ready message c =
      lib.set_status_condition
        (lib.set_status_condition
          (lib.set_status_condition c (condition "Available" "False" message))
          (condition "Progressing" "True" message))
        (condition "Degraded" "True" message)

  -- Sets a condition unless it is present with the status.
  unfoldable pub ensure_condition : String → String → String → C → C
  ensure_condition type_name status message c =
      let set = lib.set_status_condition c (condition type_name status message) in
      elim (lib.status_of c type_name) [
        | none ↦ set
        | some current ↦ if current == status then c else set
      ]

module _ {C S : Type 0} where
  -- `controllerutil.AddFinalizer`, `RemoveFinalizer` and `ContainsFinalizer` of the vendored
  -- controller-runtime
  unfoldable pub add_finalizer : String → SspObject C S → SspObject C S
  add_finalizer finalizer o =
      if contains o.finalizers finalizer
      then o
      else record o { finalizers = o.finalizers ++ (finalizer ∷ []) }

  unfoldable pub remove_finalizer : String → SspObject C S → SspObject C S
  unfolding without_finalizer
  remove_finalizer finalizer o = record o { finalizers = without_finalizer finalizer o.finalizers }

  abbrev pub contains_finalizer : SspObject C S → String → Bool
  contains_finalizer o finalizer = contains o.finalizers finalizer

  unfoldable pub is_paused : SspObject C S → Bool
  unfolding parse_bool
  is_paused o = elim (lookup "kubevirt.io/operator.paused" o.annotations) [
    | none ↦ false
    | some paused_str ↦ elim (parse_bool paused_str) [ none ↦ false | some paused ↦ paused ]
  ]

  unfoldable pub is_initialized : SspObject C S → Bool
  is_initialized o = o.deleting || not (o.status.phase == "")

  unfoldable pub deploying : SspObject C S → SspObject C S
  deploying o =
      let status = o.status in
      record o {
        status = record status { phase = "Deploying"; observed_generation = o.generation };
      }

  -- The object that `cleanup` sends last.
  unfoldable pub deleted_status : SspObject C S → SspObject C S
  deleted_status o =
      let status = o.status in
      record o { status = record status { phase = "Deleted"; observed_generation = o.generation } }

module _ {C S : Type 0} (lib : Conditions C) where
  -- The object that `preUpdateStatus` sends.
  unfoldable pub pre_update_status : String → SspObject C S → SspObject C S
  unfolding ensure_condition
  pre_update_status operator_version o =
      let status = o.status in
      record o {
        status = record status {
          phase = "Deploying";
          observed_generation = o.generation;
          operator_version = operator_version;
          target_version = operator_version;
          paused = false;
          conditions = ensure_condition lib "Degraded" "True" "Reconciling SSP resources" (
              ensure_condition lib "Progressing" "True" "Reconciling SSP resources" (
                ensure_condition lib "Available" "False" "Reconciling SSP resources"
                  status.conditions));
        };
      }

  unfoldable pub update_status_missing_crds : List String → SspObject C S → SspObject C S
  unfolding not_ready
  update_status_missing_crds missing_crds o =
      let status = o.status in
      record o {
        status = record status {
          conditions =
              not_ready lib ("Required CRDs are missing: " <> join ", " missing_crds)
                status.conditions;
        };
      }

  -- The object that `handleError` sends for an error with the text.
  unfoldable pub error_status : String → SspObject C S → SspObject C S
  unfolding not_ready
  error_status text o =
      let status = o.status in
      record o {
        status = record status {
          phase = "Deploying";
          conditions = not_ready lib ("Error: " <> text) status.conditions;
        };
      }

  -- The object that `cleanup` sends first.
  unfoldable pub deleting_status : SspObject C S → SspObject C S
  unfolding not_ready
  deleting_status o =
      let status = o.status in
      record o {
        status = record status {
          phase = "Deleting";
          observed_generation = o.generation;
          conditions = not_ready lib "Deleting SSP resources" status.conditions;
        };
      }
