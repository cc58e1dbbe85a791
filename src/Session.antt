-- ===== src/Session.antt =====
-- The life of a session, of libel/libel.c: a request is opened, the server's reply is handled, the
-- session is closed.
pub mod Backoff
pub mod Start
pub mod Open
pub mod Reply
pub mod Requests
pub mod Escalation
pub mod Pauses
pub mod Saves
pub mod Used
