-- ===== src/Scripts.antt =====
-- scripts: the command-line entry points.
pub mod Export
pub mod Once
pub mod Accounts
pub mod SeedImport
pub mod Reports
