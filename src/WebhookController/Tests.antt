-- ===== src/WebhookController/Tests.antt =====
-- A configuration with a webhook for SSP objects, to which a namespace selector was added.
use ssp_operator.Base.{String, ◌≡◌, refl, Option, none, some, [], ◌∷◌, string_eq, if◌then◌else◌}
use ssp_operator.Base.Dict.{lookup}
use ssp_operator.Resources.{found}
use ssp_operator.WebhookController.{WebhookConfiguration, has_expected_label, reconcile_webhooks}
use ssp_operator.WebhookController.Updated.{
  all_select, any_ssp, expected, stored, reconcile_webhooks_lem,
}

abbrev configuration : WebhookConfiguration String String
configuration = record {
  labels = ("olm.webhook-description-generate-name", "validation.ssp.kubevirt.io") ∷ [];
  webhooks =
      record {
        namespace_selector = some "kubevirt";
        rules = ("ssp.kubevirt.io" ∷ []) ∷ [];
        rest = "validation";
      }
      ∷ [];
}

abbrev accepts : WebhookConfiguration String String → Option String
accepts config = none

reconcile_webhooks_lem_example :
    let config' = record configuration { webhooks = expected configuration.webhooks } in
    let again = record configuration { webhooks = stored "" (expected configuration.webhooks) } in
    let again' = record again { webhooks = expected again.webhooks } in
    (reconcile_webhooks (found configuration) accepts ≡ (
      if all_select configuration.webhooks then (none, none) else (accepts config', some config')))
    × (reconcile_webhooks (found again) accepts
        ≡ (if any_ssp configuration.webhooks then (accepts again', some again') else (none, none)))
unfolding has_expected_label lookup string_eq
reconcile_webhooks_lem_example = reconcile_webhooks_lem configuration accepts "" refl
