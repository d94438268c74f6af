-- ===== src/Api.antt =====
-- internal/api: the handlers of the console.
pub mod Stats
pub mod Params
pub mod Http
pub mod Changes
pub mod Chats
pub mod Gits
pub mod Sources
pub mod System
pub mod Reads
pub mod Access
