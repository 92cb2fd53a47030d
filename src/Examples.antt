-- ===== src/Examples.antt =====
-- The theorems on concrete inputs, and runs of the definitions.
mod Fixtures
mod Orders
mod Rings
mod Streams
mod Files
mod Tables
mod Nodes
mod Clients
mod Uploads
mod Chunks
mod Logins
