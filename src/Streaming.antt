-- ===== src/Streaming.antt =====
-- backend/dfs/streaming: protocol.go, session.go and stream.go.
pub mod Protocol
pub mod Session
pub mod Server
