-- ===== src/Examples/Fixtures.antt =====
-- The concrete values that the examples share.
use distributed_file_system.Common.Messages.{Json}
use distributed_file_system.Prelude.{
  some, zero, suc, ◌≢◌, All, replicate, length, arith, ℕ, ◌≡◌, Bool, false, [], ◌∷◌, none, Bytes,
  codes,
}
use distributed_file_system.Prelude.Int.{pos}
use distributed_file_system.Common.Types.{
  NodeId, Uuid, NodeInfo, NodeRole, master, storage, online, LockRequest, pending,
}
use distributed_file_system.Storage.{Call, Error, new_local_storage}
use distributed_file_system.Storage.Paths.{Directory}
use distributed_file_system.Streaming.Session.{UploadSession, SessionManager}
use distributed_file_system.Streaming.Server.{StreamServer}
use distributed_file_system.Node.{Node}
use distributed_file_system.Node.Locks.{empty_table}

pub singleton_injective : (a b : NodeId) → (a ∷ []) ≡ (b ∷ []) → a ≡ b
singleton_injective a b h = cc

-- An identifier is written as one byte.
abbrev pub uuid : Uuid
uuid = record { string = λ n. n ∷ []; string_injective = singleton_injective }

abbrev pub no_failure : Call → Bool
no_failure c = false

abbrev pub error_text : Error → Bytes
error_text e = codes "error"

abbrev pub peer : NodeId → NodeRole → ℕ → NodeInfo
peer id role priority = record {
  id = id;
  ip = codes "ip";
  port = 9000;
  role = role;
  status = online;
  priority = pos priority;
  last_heartbeat = 0;
}

abbrev pub request : NodeId → ℕ → LockRequest
request id time = record {
  resource_id = codes "r";
  node_id = id;
  logical_time = pos time;
  status = pending;
  requested_at = 0;
}

abbrev pub session : UploadSession
session = record {
  session_id = codes "s";
  file_id = 7;
  filename = codes "f";
  content_type = codes "t";
  size = 2;
  created_at = 0;
}

abbrev pub sessions : SessionManager
sessions = record { sessions = (codes "s", session) ∷ [] }

-- A node that runs in the directory `w`.
abbrev pub working : Directory
working = codes "w" ∷ []

abbrev pub base : Directory
base = codes "n" ∷ codes "data" ∷ working

abbrev pub server : StreamServer
server = record { storage = new_local_storage base working; sessions = sessions }

-- A node with two peers, of which one is a master.
abbrev pub node : Node
node = record {
  id = 1;
  advertise_ip = codes "ip";
  port = 9000;
  role = storage;
  status = online;
  priority = pos 5;
  peers = (2, peer 2 master 3) ∷ (3, peer 3 storage 9) ∷ [];
  logical_time = pos 4;
  locks = empty_table;
  hash_ring = none;
  global_file_index = none;
  sync_in_progress = false;
  pending_metadata_sync = none;
  server = server;
  streaming_sessions = [];
}

-- Every list of peers is one online master.
abbrev pub json : Json
json = record {
  node_info = λ p. none;
  node_infos = λ p. some (peer 4 master 8 ∷ []);
  lock_request = λ p. none;
  string = λ p. none;
  metadata_request = λ p. none;
  metadata_response = λ p. none;
  replicate_file = λ p. none;
  store_ack = λ p. none;
  session_data = λ p. none;
  upload_init = λ p. none;
  upload_ready = λ p. none;
  download_init = λ p. none;
  download_ready = λ p. none;
  api_delete = λ p. none;
  api_delete_response = λ p. none;
  request_id = λ p. [];
}

-- A hash of 64 bytes that are not zero.
abbrev pub digest : Bytes → Bytes
digest content = replicate 64 (suc (length content))

pub digest_clean : (n : ℕ) (content : Bytes) → All (λ b. b ≢ 0) (replicate n (suc (length content)))
digest_clean zero content = tt
digest_clean (suc n) content = ((λ e. omega (arith, e)), digest_clean n content)

abbrev pub view : ℕ → ℕ × SessionManager
view retry = (1, sessions)
