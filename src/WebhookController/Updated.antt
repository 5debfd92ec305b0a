-- ===== src/WebhookController/Updated.antt =====
-- What the webhook controller makes of a configuration.
use ssp_operator.Base.{
  String, ◌≡◌, refl, arith, Bool, true, false, ◌&&◌, ◌||◌, not, Option, none, some, List, [], ◌∷◌,
  inl, inr, if◌then◌else◌, Bool-cases, Option-cases,
}
use ssp_operator.Resources.{found}
use ssp_operator.WebhookController.{
  Webhook, WebhookConfiguration, has_ssp_rule, has_expected_label, update_webhook, update_webhooks,
  update_webhook_configuration, reconcile_webhooks,
}

module _ {Selector Rest : Type 0} where
  -- A webhook for SSP objects has no namespace selector.
  abbrev pub selects_all : Webhook Selector Rest → Bool
  selects_all webhook = elim webhook.namespace_selector [
    | none ↦ true
    | some selector ↦ not (has_ssp_rule webhook.rules)
  ]

  abbrev pub all_select : List (Webhook Selector Rest) → Bool
  all_select [] = true
  all_select (webhook ∷ webhooks) = selects_all webhook && all_select webhooks

  -- The selectors of the webhooks for SSP objects are dropped, and nothing else changes.
  abbrev pub expected : List (Webhook Selector Rest) → List (Webhook Selector Rest)
  expected [] = []
  expected (webhook ∷ webhooks) =
      (if has_ssp_rule webhook.rules then record webhook { namespace_selector = none } else webhook)
      ∷ expected webhooks

  update_webhooks_lem :
      (webhooks : List (Webhook Selector Rest))
      → update_webhooks webhooks ≡ (expected webhooks, not (all_select webhooks))
  unfolding update_webhooks update_webhook
  update_webhooks_lem [] = refl
  update_webhooks_lem (webhook ∷ webhooks) =
      let rest = update_webhooks_lem webhooks in
      elim (Option-cases webhook.namespace_selector) [
        | inl n ↦ ground (arith, rest, n)
        | inr (selector, n) ↦ ground (arith, rest, n)
      ]

  -- The documented default of the API server: a webhook is stored with `default_selector` where it is
  -- sent without a namespace selector.
  abbrev pub stored : Selector → List (Webhook Selector Rest) → List (Webhook Selector Rest)
  stored default_selector [] = []
  stored default_selector (webhook ∷ webhooks) =
      (record webhook {
        namespace_selector = elim webhook.namespace_selector [
          | none ↦ some default_selector
          | some selector ↦ some selector
        ];
      })
      ∷ stored default_selector webhooks

  abbrev pub any_ssp : List (Webhook Selector Rest) → Bool
  any_ssp [] = false
  any_ssp (webhook ∷ webhooks) = has_ssp_rule webhook.rules || any_ssp webhooks

  all_select-stored :
      (default_selector : Selector) (webhooks : List (Webhook Selector Rest))
      → all_select (stored default_selector (expected webhooks)) ≡ not (any_ssp webhooks)
  all_select-stored default_selector [] = refl
  all_select-stored default_selector (webhook ∷ webhooks) =
      let rest = all_select-stored default_selector webhooks in
      elim (Bool-cases (has_ssp_rule webhook.rules)) [
        | inl r ↦ ground (arith, rest, r)
        | inr r ↦ elim (Option-cases webhook.namespace_selector) [
          | inl n ↦ ground (arith, rest, r, n)
          | inr (selector, n) ↦ ground (arith, rest, r, n)
        ]
      ]

  -- A labelled configuration that is found: if a webhook for SSP objects has a namespace selector, then the
  -- configuration is sent without the selectors of all such webhooks and with nothing else changed, and the
  -- error is that of the update. Otherwise nothing is sent. If the server stores a default selector in
  -- every webhook that is sent without one, then what was sent, found again as it is stored, is sent once
  -- more without the selectors of the webhooks for SSP objects, if there is such a webhook.
  pub reconcile_webhooks_lem :
      (config : WebhookConfiguration Selector Rest)
      (update : WebhookConfiguration Selector Rest → Option String) (default_selector : Selector)
      → has_expected_label config ≡ true
      → let config' = record config { webhooks = expected config.webhooks } in
        let again = record config {
          webhooks = stored default_selector (expected config.webhooks);
        } in
        let again' = record again { webhooks = expected again.webhooks } in
        (reconcile_webhooks (found config) update
          ≡ (if all_select config.webhooks then (none, none) else (update config', some config')))
        × (reconcile_webhooks (found again) update
            ≡ (if any_ssp config.webhooks then (update again', some again') else (none, none)))
  unfolding reconcile_webhooks update_webhook_configuration has_expected_label
  reconcile_webhooks_lem config update default_selector l =
      let webhooks = config.webhooks in
      (
        ground (arith, l, update_webhooks_lem webhooks),
        ground (
          arith,
          l,
          update_webhooks_lem (stored default_selector (expected webhooks)),
          all_select-stored default_selector webhooks,
        ),
      )
