-- ===== src/TemplateValidator.antt =====
-- internal/template-validator: the admission webhook that checks virtual machines against the rules
-- of their templates.
pub mod Labels
pub mod Validation
pub mod VmCache
pub mod Admission
