-- ===== src/Beacons.antt =====
-- libel/beacons.c.
pub mod Remove
pub mod Insert
pub mod Cache
pub mod Add
pub mod Search
