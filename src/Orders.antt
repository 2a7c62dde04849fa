-- ===== src/Orders.antt =====
-- app/domain/orders: sale quotations.
pub mod Items
pub mod Payload
pub mod Queue
pub mod RoundTrip
pub mod Refresh
pub mod Verify
pub mod Handler
