-- ===== src/Tests.antt =====
-- Concrete runs of the models, and the theorems at concrete inputs.
mod Data
mod Outbox
mod Busy
mod Orders
mod Catalog
mod Api
mod Loops
mod Store
mod Pages
mod Accounts
mod Stock
mod Scripts
mod Migrations
mod Jobs
