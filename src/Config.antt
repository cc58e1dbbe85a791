-- ===== src/Config.antt =====
-- The configuration of a session: libel/libel.c reads and sets it, libel/utilities.c fills it with
-- defaults and libel/protocol/proto.c overrides it on the server's word.
pub mod Options
pub mod Overrides
pub mod RoundTrip
pub mod Ranges
pub mod Unlimited
