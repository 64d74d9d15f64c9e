-- ===== src/Keys.antt =====
-- massa-indexer/src/keys.rs: the RocksDB keys, all raw bytes. `Slot` holds the slot keys, `Index`
-- the builders of the composite keys, `Parse` the functions that take these apart. The other
-- children prove things about them.
pub mod Slot
pub mod Index
pub mod Parse
pub mod RoundTrip
pub mod Composite
pub mod Order
pub mod Scan
mod Tests
