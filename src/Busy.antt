-- ===== src/Busy.antt =====
-- app/busy: the BUSY web service, its XML, its pages and its voucher numbers.
pub mod Constants
pub mod Client
pub mod XmlText
pub mod Rowset
pub mod BitColumns
pub mod Element
pub mod VchNumbering
pub mod Pagination
pub mod Posts
