-- ===== src/Export.antt =====
-- Planning and identities of the basin GeoParquet export (crates/core/src/export).
pub mod RowGroups
pub mod Hilbert
pub mod BasinId
mod Examples
