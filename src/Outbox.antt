-- ===== src/Outbox.antt =====
-- app/outbox: the queue that every BUSY write goes through. The table is the list of its rows in
-- the order of their ids. The proofs are in the modules below.
pub mod Models
pub mod Queue
pub mod Worker
pub mod Rows
pub mod Keys
pub mod Process
pub mod Steps
pub mod Loop
pub mod Refines
