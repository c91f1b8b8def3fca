-- ===== src/Store.antt =====
-- pkg/store: what a store keeps of a resource.
pub mod Link
pub mod Reference
pub mod Record
pub mod Embed
pub mod Encode
