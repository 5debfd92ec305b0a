-- ===== src/Lib.antt =====
-- The SSP operator (scheduling, scale and performance) deploys parts of KubeVirt on a cluster: templates
-- of virtual machines, the sources of their images, a webhook that validates virtual machines against the
-- rules of their templates, and metrics. This library models parts of its Go code and proves theorems on
-- them. Paths are those from the repository's root.
--
-- Parts and files:
-- TemplateValidator: the webhook server of internal/template-validator.
--   - Labels (labels/labels.go): the key of the template that a virtual machine refers to.
--   - VmCache (virtinformers): the store of virtual machines with its index by template. A `VmCache` is the
--     state, and `vm_cache_add`, `vm_cache_update`, `vm_cache_delete` and `vm_cache_replace` return the next
--     one. VmCache.Tracks has the cluster as a function of the history of watch events.
--   - Validation (validation, validation/path): rules, their paths, specialisation, application and
--     evaluation, `evaluate` for `Evaluate` and `to_status_causes` for `ToStatusCauses`.
--   - Admission (webhooks): `admit_vm` and `admit_template`, which use the cache and the evaluation.
-- CrdWatch (internal/crd-watch/crd-watch.go): which required definitions exist; the handlers that the watch
--   calls are a result of each operation.
-- Api (api/v1beta3/ssp_types.go): the specification of an SSP object. Architecture
--   (internal/architecture/architecture.go): its processor architectures. SspWebhook (webhooks/ssp_webhook.go):
--   its validation.
-- TemplateBundle (internal/template-bundle/bundle.go, internal/operands/common-templates/architecture.go): the
--   data sources that templates refer to. DataSources (internal/operands/data-sources): the data sources and
--   import crons that are created for them; Writes and CleanedUp reconcile and clean them up by Resources. Both
--   use Architecture.
-- CommonTemplates (internal/operands/common-templates/reconcile.go): the operand for templates. CommonTemplates.antt
--   has the templates by architecture, Old what becomes of templates that are not deployed, Updates the changes
--   of a template that is found, Operand `reconcile_templates` for `Reconcile` and `cleanup_templates` for `Cleanup`,
--   which use Resources. Sources relates it to TemplateBundle and DataSources.
-- Resources (internal/common): how one object is created, updated and cleaned up; VersionCache for cache.go,
--   Cleanup and Reconcile for resource.go, Owned for lists of objects and for `defaultStatusFunc`. The requests that
--   change the cluster are a result of each operation.
-- SspController (internal/controllers/ssp_controller.go): `reconcile_ssp` for `Reconcile`, from a `World` (the fields
--   of the controller, the state of the API server, the resources of the operands) to the next one.
--   - SspController.antt has `update_status` for `updateStatus`, from the results of Resources; Instance has the
--     SSP object, its finalizers and statuses; Reconcile and Loop have the functions of the controller.
--   - Servers has what the proofs take of the API server (a read is fresh; a failed write changes nothing) and
--     of the operands, and what others may do to the object. Reached has the steps, with any environment and
--     with changes by others between them. Answering and Deployed have a server that fails no request. Watches
--     has which kinds of object are watched.
-- WebhookController (internal/controllers/webhook_controller.go): `reconcile_webhooks` for `Reconcile`.
-- Base and Kubernetes: shared helpers, Go maps and strings, object metadata.
--
-- A map is an association list whose order stands for the order in which Go's `range` happens to run. A
-- pointer that may be nil is an `Option`. An error is a value, of a sum or of a type of its own; a message is
-- kept where the code passes it on. A 64-bit integer keeps its wrap-around. Every loop is a structural
-- recursion on the list that it runs over, so that no fuel is needed. Locks are not modelled: an operation
-- under a lock runs as a whole. Go's `runtime.GOARCH`, the answers of the API server, the decoders of JSON and
-- YAML, JSON paths and the regular expressions of rules are parameters.
--
-- Not modelled: the default update function of internal/common/resource.go, the handlers and predicates of the
-- watches, the other controllers (internal/controllers), the other operands (internal/operands), the
-- conversion of the older API version and the TLS settings. Left out: the entry points, flags, environment
-- and files, the metrics and alerts in pkg/monitoring, generated code, tools and tests.
pub mod Base
pub mod Kubernetes
pub mod Resources
pub mod SspController
pub mod Api
pub mod Architecture
pub mod SspWebhook
pub mod TemplateBundle
pub mod DataSources
pub mod CommonTemplates
pub mod TemplateValidator
pub mod CrdWatch
pub mod WebhookController
