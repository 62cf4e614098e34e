-- ===== src/Cli.antt =====
-- crates/hyperbox-cli.
pub mod TemplateAuto
