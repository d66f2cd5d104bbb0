-- ===== src/Coroutine.antt =====
-- coroutine/: the scheduler of coroutines and the tasks that run in them.
pub mod Schedule
pub mod Wakeup
