-- ===== src/Lib.antt =====
-- Verification of the distributed file system (backend/dfs and backend/internal).
--
-- A master and storage nodes exchange messages over TCP. The master places each file on a ring of
-- hashes and arranges uploads and downloads, which clients stream to storage nodes in a binary
-- protocol; a bully election replaces a master that falls silent; a distributed lock with Lamport
-- timestamps orders the access to resources, and the master searches its waits for deadlocks.
--
-- The files and what they model:
--   Prelude and its children: tests, lists, maps of Go, `int`, stable sort, binary search, CRC-32.
--   Common/Types, Common/Messages: backend/dfs/common/types.go.
--   Common/Lamport: backend/dfs/common/lamport.go, CompareLamport as `compare_lamport` and so on.
--   Common/WaitFor: backend/dfs/common/waitfor-graph.go; Search and Walks are the proof's parts.
--   Hashing: backend/dfs/hashing/hash.go; WellFormed is the invariant, Lookup the placement.
--   Storage: backend/dfs/storage/local_storage.go and metadata.go; Paths resolves their paths, Files
--   and Deletion are about reads after an upload and after a deletion, Restart about a node that
--   starts again.
--   Streaming/Protocol, Streaming/Session, Streaming/Server: protocol.go, session.go and stream.go
--   of backend/dfs/streaming.
--   Election: backend/dfs/election/bully.go; Candidates is the start of an election, and Lower,
--   Demotion and Coordinator are about the message of a coordinator.
--   Node: the state of backend/dfs/node/node.go; Peers, Files, Streams and Locks are the methods on
--   its parts, Dispatch is `handleConnection`, `processMessage` and the lock messages.
--   Client: backend/dfs/client/master_client.go; Requests is about retries and failover, Upload and
--   Download are the streams, with what they come to against the stream servers.
--   Api: backend/internal/handlers/file_handler.go, backend/internal/services/file_service.go and the
--   records of backend/internal/dto, models and middleware that they use; Files and Uploads are the
--   handlers, Files/Access is who may read and delete, and the children of Uploads follow an upload
--   from its start (Starts) over its chunks (Chunks, Runs, Progress) to its end (Sessions, Whole,
--   Served). Auth is registration, login and the guard of tokens in
--   backend/internal/middleware/auth.go; Tokens is what a login lets pass.
--   Examples: the theorems at concrete values, and runs.
--
-- A function is named after the Go method that it models (`handle_lock_release` is
-- `handleLockRelease`). A method under a mutex is one step: it takes the state and returns the new
-- one with what it sends. A map is a list of entries in the order in which `range` visits them. Go's
-- `int` keeps its wrap-around at 64 bits where the code adds to it; sizes, ports and times are
-- natural numbers, and a header's sizes are words. A panic is a result of its own where the code can
-- reach one. The roles and statuses of nodes are those that the constants of the code name.
--
-- Bounds and fuel: the search for a cycle has one unit of fuel for each key of the graph, and the
-- result of `has_cycle` shows that it never runs out. The loop that sends a file has the length of
-- the file. The search of the ring makes at most one round for each point, as the code does. A
-- message is sent in at most three attempts, and an upload looks for its session ten times.
-- A download has the announced size as fuel, as each read that is not the last gives a byte.
--
-- Parameters: the text of identifiers (github.com/google/uuid) with its injectivity, the text of the
-- SHA-256 sum, which calls of the operating system fail, what JSON decoding makes of a payload, the
-- time of each call; for the client, what each connection, write and read comes to; for the HTTP
-- interface, what the queries do on the database, how passwords are hashed and tokens are signed,
-- and what parsing makes of the texts of a request. A list of nodes in a payload has no null entry
-- (the code panics on one).
--
-- Not modelled: the metrics of the HTTP interface, the commands under backend/cmd, the
-- frontend; listeners, tickers, deadlines, the pool of buffers and the logger, which hold no logic of
-- their own. Where a method waits, it is cut into steps: `start_election`, `announce_leader` and
-- `begin_metadata_sync` end where the code waits. A file of the storage that is there can be
-- opened, and a deadline can be set on a connection that is open: the errors of `os.Open` in `GetFile`
-- other than a missing file, and of `SetReadDeadline` in `copy`, have no counterpart. The count of
-- bytes of an upload does not wrap around. A handler of the HTTP interface is one step, although
-- `UploadChunk` holds no lock between its look-up of the session and its lock on it.
pub mod Prelude
pub mod Common
pub mod Hashing
pub mod Storage
pub mod Streaming
pub mod Node
pub mod Election
pub mod Client
pub mod Api
pub mod Examples
