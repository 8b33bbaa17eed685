-- ===== src/Rbs.antt =====
-- lib_rbs: messages, sync tables and the server of the reference broadcast synchronisation.
pub mod SyncTable
pub mod Message
pub mod RoundTrip
pub mod Server
pub mod History
mod Tests
