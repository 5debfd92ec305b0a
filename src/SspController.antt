-- ===== src/SspController.antt =====
-- internal/controllers/ssp_controller.go: the status of an SSP object after its operands were reconciled.
-- The conditions and `SetStatusCondition` are those of openshift/custom-resource-status, and `show` prints a
-- number in decimal.
pub mod Status
pub mod Instance
pub mod Reconcile
pub mod Loop
pub mod Servers
mod Finalizers
mod Guarded
pub mod Reached
pub mod Paused
pub mod Answering
pub mod Deployed
pub mod Watches
pub mod Watched
mod Deploying
mod Tests
mod Runs
use ssp_operator.Base.{
  String, ◌<>◌, ◌≡◌, ℕ, Bool, true, false, Option, none, some, List, [], ◌∷◌, ◌==◌, length,
  string_eq, if◌then◌else◌,
}
use ssp_operator.Resources.{Object}
use ssp_operator.Resources.Reconcile.{ReconcileResult, ResourceStatus}

pub record Condition : Type 0 where
  pub type_name : String
  pub status : String
  pub reason : String
  pub message : String

-- The conditions of an object. Setting one replaces the status of its type and of no other.
pub record Conditions (C : Type 0) : Type 0 where
  pub set_status_condition : C → Condition → C
  pub status_of : C → String → Option String
  pub status_of-set :
      (c : C) (condition : Condition) (t : String)
      → status_of (set_status_condition c condition) t
        ≡ (if t == condition.type_name then some condition.status else status_of c t)

pub record SspStatus (C : Type 0) : Type 0 where
  pub phase : String
  pub conditions : C
  pub operator_version : String
  pub target_version : String
  pub observed_version : String
  pub paused : Bool
  pub observed_generation : ℕ

abbrev pub is_empty {ℓ} : {A : Type ℓ} → List A → Bool
is_empty [] = true
is_empty (x ∷ xs) = false

-- Which results have a message, and the messages with the objects.
module _ {S Ref : Type 0} where
  unfoldable pub messages_of :
      (ResourceStatus → Option String) → List (ReconcileResult S Ref) → List (String × Object S Ref)
  messages_of message [] = []
  messages_of message (result ∷ results) =
      let rest = messages_of message results in
      elim (message result.status) [ none ↦ rest | some m ↦ (m, result.resource) ∷ rest ]

  unfoldable pub prefix_resource_type_and_name : String → Object S Ref → String
  prefix_resource_type_and_name message resource =
      resource.kind
      <> (" " <> (resource.namespace <> ("/" <> (resource.name <> (": " <> message)))))

  -- One of the three conditions, of the status and message `none_status` and `none_message` without such
  -- results, and of `some_status` with them.
  unfoldable pub condition_for :
      (ℕ → String)
      → String
      → String
      → String
      → String
      → String
      → List (String × Object S Ref)
      → Condition
  unfolding prefix_resource_type_and_name
  condition_for show type_name none_status none_message some_status suffix [] = record {
    type_name = type_name;
    status = none_status;
    reason = type_name;
    message = none_message;
  }
  condition_for show type_name none_status none_message some_status suffix ((m, resource) ∷ []) =
      record {
        type_name = type_name;
        status = some_status;
        reason = type_name;
        message = prefix_resource_type_and_name m resource;
      }
  condition_for show type_name none_status none_message some_status suffix (one ∷ two ∷ more) =
      record {
        type_name = type_name;
        status = some_status;
        reason = type_name;
        message = show (length (one ∷ two ∷ more)) <> suffix;
      }

  module _ {C : Type 0} (lib : Conditions C) (show : ℕ → String) where
    -- The status that `updateStatus` sends to the server.
    unfoldable pub update_status :
        String → ℕ → SspStatus C → List (ReconcileResult S Ref) → SspStatus C
    unfolding messages_of condition_for
    update_status operator_version generation status results =
        let not_available = messages_of (λ s. s.not_available) results in
        let progressing = messages_of (λ s. s.progressing) results in
        let degraded = messages_of (λ s. s.degraded) results in
        let available_set = lib.set_status_condition status.conditions (
          condition_for show "Available" "True" "All SSP resources are available" "False"
            " SSP resources are not available" not_available) in
        let progressing_set = lib.set_status_condition available_set (
          condition_for show "Progressing" "False" "No SSP resources are progressing" "True"
            " SSP resources are progressing" progressing) in
        let degraded_set = lib.set_status_condition progressing_set (
          condition_for show "Degraded" "False" "No SSP resources are degraded" "True"
            " SSP resources are degraded" degraded) in
        let deployed =
          if is_empty not_available
          then if is_empty progressing then is_empty degraded else false
          else false in
        record status {
          phase = if deployed then "Deployed" else "Deploying";
          conditions = degraded_set;
          observed_version = if deployed then operator_version else status.observed_version;
          paused = false;
          observed_generation = generation;
        }
