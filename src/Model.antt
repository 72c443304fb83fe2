-- ===== src/Model.antt =====
-- internal/model: the data that the components exchange.
pub mod Values
pub mod Types
pub mod Catalog
unfoldable pub use Values.*
unfoldable pub use Types.*
