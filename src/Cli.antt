-- ===== src/Cli.antt =====
-- internal/sandbox: the command line tool.
pub mod Console
pub mod Sessions
pub mod Commands
