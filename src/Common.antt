-- ===== src/Common.antt =====
-- backend/dfs/common: types.go, lamport.go and waitfor-graph.go.
pub mod Types
pub mod Messages
pub mod Lamport
pub mod WaitFor
