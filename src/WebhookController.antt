-- ===== src/WebhookController.antt =====
-- internal/controllers/webhook_controller.go: the controller that removes the namespace selectors which the Operator
-- Lifecycle Manager adds to the webhooks of the SSP object. `Selector` is `metav1.LabelSelector`; the rules of a webhook
-- are given by their API groups, and `Rest` stands for its other fields.
pub mod Updated
mod Tests
use ssp_operator.Base.{
  String, Bool, true, false, ◌||◌, not, Option, none, some, List, [], ◌∷◌, ◌⊎◌, inl, inr, ◌==◌,
  contains, string_eq, if◌then◌else◌,
}
use ssp_operator.Base.Dict.{Dict, lookup, lookup_or}
use ssp_operator.Resources.{Get, found, not_found, failed}

pub record Webhook (Selector Rest : Type 0) : Type 0 where
  pub namespace_selector : Option Selector
  -- `APIGroups` of each rule
  pub rules : List (List String)
  pub rest : Rest

pub record WebhookConfiguration (Selector Rest : Type 0) : Type 0 where
  pub labels : Dict String String
  pub webhooks : List (Webhook Selector Rest)

unfoldable pub has_ssp_rule : List (List String) → Bool
has_ssp_rule [] = false
has_ssp_rule (api_groups ∷ rules) =
    let rest = has_ssp_rule rules in if contains api_groups "ssp.kubevirt.io" then true else rest

module _ {Selector Rest : Type 0} where
  unfoldable pub has_expected_label : WebhookConfiguration Selector Rest → Bool
  unfolding string_eq
  has_expected_label config =
      lookup_or "" "olm.webhook-description-generate-name" config.labels
      == "validation.ssp.kubevirt.io"

  -- The body of the loop: the webhook as it is left, and whether it was changed.
  unfoldable pub update_webhook : Webhook Selector Rest → Webhook Selector Rest × Bool
  unfolding has_ssp_rule
  update_webhook webhook = elim webhook.namespace_selector [
    | none ↦ (webhook, false)
    | some selector ↦
        if not (has_ssp_rule webhook.rules)
        then (webhook, false)
        else (record webhook { namespace_selector = none }, true)
  ]

  unfoldable pub update_webhooks :
      List (Webhook Selector Rest) → List (Webhook Selector Rest) × Bool
  unfolding update_webhook
  update_webhooks [] = ([], false)
  update_webhooks (webhook ∷ webhooks) =
      let (webhook', changed) = update_webhook webhook in
      let (webhooks', more) = update_webhooks webhooks in (webhook' ∷ webhooks', changed || more)

  unfoldable pub update_webhook_configuration :
      WebhookConfiguration Selector Rest → WebhookConfiguration Selector Rest × Bool
  unfolding update_webhooks
  update_webhook_configuration config =
      let (webhooks, changed) = update_webhooks config.webhooks in
      (record config { webhooks = webhooks }, changed)

  -- The error, if there is one, and the configuration that is sent to the server, if one is.
  unfoldable pub reconcile_webhooks :
      Get (WebhookConfiguration Selector Rest)
      → (WebhookConfiguration Selector Rest → Option String)
      → Option String × Option (WebhookConfiguration Selector Rest)
  unfolding has_expected_label update_webhook_configuration
  reconcile_webhooks not_found update = (none, none)
  reconcile_webhooks (failed err) update = (some err, none)
  reconcile_webhooks (found config) update =
      if not (has_expected_label config)
      then (none, none)
      else (let (config', changed) = update_webhook_configuration config in
          if not changed then (none, none) else (update config', some config'))
