-- ===== src/Synccall.antt =====
-- Synchronous calls over framed sockets (synccall/).
pub mod Rpc
pub mod Client
pub mod CoClient
