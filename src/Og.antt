-- ===== src/Og.antt =====
-- server/src/og: the preview of a link, and the guard that keeps its requests off internal addresses.
pub mod Addresses
pub mod Fetching
pub mod Preview
mod Masks
pub mod Reserved
pub mod Redirects
pub mod Capping
pub mod Caching
mod Tests
