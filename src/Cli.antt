-- ===== src/Cli.antt =====
-- resotocore/core/cli/cli.py: how a line of commands becomes a query and the commands behind it.
pub mod Commands
pub mod CreateQuery
pub mod Evaluate
pub mod Bounds
pub mod Examples
