-- ===== src/SspController/Tests.antt =====
-- One resource that is progressing, and conditions as an association list of their statuses.
use ssp_operator.Base.{
  String, ◌≡◌, ◌↔◌, refl, ℕ, true, false, none, some, [], ◌∷◌, string_eq, if◌then◌else◌,
}
use ssp_operator.Base.Equality.{nat_eq}
use ssp_operator.Base.Dict.{Dict, lookup, insert, lookup-insert}
use ssp_operator.Resources.{Object}
use ssp_operator.Resources.Reconcile.{ReconcileResult, unchanged}
use ssp_operator.SspController.{Conditions, SspStatus, update_status, messages_of, condition_for}
use ssp_operator.SspController.Status.{none_has, all_succeed, update_status_lem}

abbrev pub dictionary : Conditions (Dict String String)
dictionary = record {
  set_status_condition = λ c condition. insert condition.type_name condition.status c;
  status_of = λ c t. lookup t c;
  status_of-set = λ c condition t. lookup-insert t condition.type_name condition.status c;
}

abbrev pub initial : SspStatus (Dict String String)
initial = record {
  phase = "Deploying";
  conditions = [];
  operator_version = "";
  target_version = "";
  observed_version = "";
  paused = false;
  observed_generation = 1;
}

abbrev deployment : Object Unit Unit
deployment = record {
  kind = "Deployment";
  name = "validator";
  namespace = "kubevirt";
  uid = "1";
  resource_version = "7";
  generation = 2;
  labels = [];
  annotations = [];
  owner_references = [];
  deleting = false;
  content = tt;
}

abbrev rolling : ReconcileResult Unit Unit
rolling = record {
  status = record { progressing = some "rolling out"; not_available = none; degraded = none };
  initial_resource = none;
  resource = deployment;
  operation_result = unchanged;
}

abbrev pub any_number : ℕ → String
any_number n = "n"

rolling_status :
    (update_status dictionary any_number "v1" 2 initial (rolling ∷ [])).conditions
    ≡ ("Available", "True") ∷ ("Progressing", "True") ∷ ("Degraded", "False") ∷ []
unfolding update_status messages_of condition_for insert string_eq
rolling_status = refl

update_status_lem_example :
    let s = update_status dictionary any_number "v1" 2 initial (rolling ∷ []) in
    (lookup "Available" s.conditions
      ≡ some (if none_has (λ r. r.not_available) (rolling ∷ []) then "True" else "False"))
    × (lookup "Progressing" s.conditions
        ≡ some (if none_has (λ r. r.progressing) (rolling ∷ []) then "False" else "True"))
    × (lookup "Degraded" s.conditions
        ≡ some (if none_has (λ r. r.degraded) (rolling ∷ []) then "False" else "True"))
    × ((s.phase ≡ "Deployed") ↔ (all_succeed (rolling ∷ []) ≡ true))
update_status_lem_example = update_status_lem dictionary any_number "v1" 2 initial (rolling ∷ [])
