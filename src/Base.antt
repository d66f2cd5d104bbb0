-- ===== src/Base.antt =====
-- The containers of base/.
pub mod Buffer
pub mod CircularQueue
pub mod Svector
pub mod Slist
