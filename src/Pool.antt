-- ===== src/Pool.antt =====
-- The task pools of go/taskpool, which run the connections that the engine submits.
pub mod Cond
pub mod Sharded
pub mod Elastic
