-- ===== src/TemplateValidator/Validation.antt =====
-- internal/template-validator/validation: rules, the values that they look at, and their evaluation.
pub mod Path
pub mod Rules
pub mod Decode
pub mod Specialized
pub mod Messages
pub mod Eval
mod Tests
