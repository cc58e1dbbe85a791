-- ===== src/Types.antt =====
-- The data types of libel/libel.h and libel/beacons.h, and the sizes of libel/config.h.
mod Codes
mod Beacons
mod Context
pub use Codes.*
pub use Beacons.*
pub use Context.*
