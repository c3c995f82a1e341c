-- ===== src/Pool.antt =====
-- src/ThreadPool: the task queue, the counter of waiting tasks and the loop of the worker threads.
-- A pthread function is not part of the repository: what a call of it returns is an argument.
pub mod Locks
pub mod Task
pub mod Chain
pub mod Worker
pub mod Lifecycle
pub mod Destroy
