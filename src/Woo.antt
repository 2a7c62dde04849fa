-- ===== src/Woo.antt =====
-- app/integrations/woocommerce.py and app/domain/catalog/woo_sync.py: the WooCommerce store, and
-- what is pushed to it from the mirror.
pub mod Quote
pub mod Client
pub mod Payload
pub mod Push
pub mod ByCode
