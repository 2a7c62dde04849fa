-- ===== src/Catalog.antt =====
-- app/domain/catalog: the mirror of BUSY's masters, and what is pushed on from it.
pub mod Stamps
pub mod Centers
pub mod Products
pub mod Transaction
pub mod VchSeries
pub mod Queries
pub mod Scheduler
pub mod Stock
pub mod Detail
pub mod Snapshot
