-- ===== src/Netio.antt =====
-- The components of netio/.
pub mod Header
pub mod Reader
pub mod Writer
pub mod Life
pub mod Sync
pub mod Http
pub mod HeartBeat
