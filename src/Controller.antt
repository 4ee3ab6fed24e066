-- ===== src/Controller.antt =====
-- The two controllers: internal/controller/sandbox and internal/controller/sandboxtemplate.
pub mod Sandbox
pub mod Template
pub mod Watches
