-- ===== src/Node.antt =====
-- backend/dfs/node/node.go: the state of a node, its clock and its peers.
--
-- The parts under separate mutexes are fields of one record, and each method is one step on it. A
-- method that starts goroutines that send returns what they send. `now` is the time of a call. The
-- channels, the listener and the logger are left out.
pub mod Locks
pub mod Peers
pub mod Files
pub mod Streams
pub mod Dispatch
use distributed_file_system.Prelude.{
  ℕ, Bool, true, false, List, [], ◌∷◌, ◌++◌, Option, none, some, Bytes, ltb, if◌then◌else◌, ◌*◌,
  ◌-◌, nat_eq, bytes_eq,
}
use distributed_file_system.Prelude.Int.{ℤ, pos, inc_int, max_int}
use distributed_file_system.Prelude.Map.{Map, lookup, insert, delete, values}
use distributed_file_system.Common.Types.{
  NodeId, nil_id, Uuid, second, NodeRole, master, storage, NodeStatus, starting, NodeInfo,
  GlobalFileInfo, MetadataSyncState, StreamSession,
}
use distributed_file_system.Common.Messages.{Message, Outgoing, send_to}
use distributed_file_system.Hashing.{HashRing, new_hash_ring, add_node}
use distributed_file_system.Storage.{LocalStorage}
use distributed_file_system.Streaming.Server.{StreamServer}
use distributed_file_system.Node.Locks.{LockTable, empty_table}

-- `server` holds the storage and the upload sessions, which the stream server shares.
pub record Node : Type 0 where
  pub id : NodeId
  pub advertise_ip : Bytes
  pub port : ℕ
  pub role : NodeRole
  pub status : NodeStatus
  pub priority : ℤ
  pub peers : Map NodeId NodeInfo
  pub logical_time : ℤ
  pub locks : LockTable
  pub hash_ring : Option HashRing
  pub global_file_index : Option (Map Bytes GlobalFileInfo)
  pub sync_in_progress : Bool
  pub pending_metadata_sync : Option MetadataSyncState
  pub server : StreamServer
  pub streaming_sessions : Map Bytes StreamSession

abbrev pub is_master : NodeRole → Bool
is_master master = true
is_master storage = false

unfoldable pub increment_logical_time : Node → Node × ℤ
increment_logical_time n = let t = inc_int n.logical_time in (record n { logical_time = t }, t)

unfoldable pub update_logical_time : ℤ → Node → Node × ℤ
update_logical_time received n =
    let t = inc_int (max_int received n.logical_time) in (record n { logical_time = t }, t)

unfoldable pub get_peer : NodeId → Node → Option NodeInfo
get_peer id n = lookup id n.peers

-- `GetPeers`: the values, in the order in which `range` visits them.
unfoldable pub get_peers : Node → List NodeInfo
get_peers n = values n.peers

unfoldable pub add_peer : ℕ → NodeInfo → Node → Node
add_peer now peer n = record n {
  peers = insert peer.id (record peer { last_heartbeat = now }) n.peers;
}

unfoldable pub remove_peer : NodeId → Node → Node
remove_peer id n = record n { peers = delete id n.peers }

unfoldable pub update_peer_role : NodeId → NodeRole → Node → Node
update_peer_role id role n = elim (lookup id n.peers) [
  | none ↦ n
  | some peer ↦ record n { peers = insert id (record peer { role = role }) n.peers }
]

unfoldable pub get_node_info : ℕ → Node → NodeInfo
get_node_info now n = record {
  id = n.id;
  ip = n.advertise_ip;
  port = n.port;
  role = n.role;
  status = n.status;
  priority = n.priority;
  last_heartbeat = now;
}

-- `BroadcastMessage`: one message for each peer.
unfoldable pub broadcast_to : List NodeInfo → Message → List Outgoing
broadcast_to [] msg = []
broadcast_to (peer ∷ peers) msg = send_to peer msg ∷ broadcast_to peers msg

unfoldable pub broadcast_message : Message → Node → List Outgoing
unfolding broadcast_to get_peers
broadcast_message msg n = broadcast_to (get_peers n) msg

module _ (u : Uuid) where
  -- The loop of `initMasterResources`.
  unfoldable pub add_storage_peers : List NodeInfo → HashRing → HashRing
  add_storage_peers [] ring = ring
  add_storage_peers (peer ∷ peers) ring =
      add_storage_peers peers (if is_master peer.role then ring else add_node u ring peer)

  unfoldable pub init_master_resources : Node → Node
  init_master_resources n = record n {
    hash_ring = some (add_storage_peers (get_peers n) (new_hash_ring (pos 150)));
    global_file_index = some [];
  }

  -- `SetRole`, without the goroutine of `syncMetadataAfterElection` that it starts.
  unfoldable pub set_role : NodeRole → Node → Node
  set_role master n =
      if is_master n.role
      then record n { role = master }
      else init_master_resources (record n { role = master })
  set_role storage n =
      if is_master n.role
      then record n { role = storage; hash_ring = none; global_file_index = none }
      else record n { role = storage }

  -- `CreateNodeWithBully`; a role that is not set yet is neither, so no master resources are dropped.
  unfoldable pub create_node : NodeId → Bytes → ℕ → NodeRole → ℤ → StreamServer → Node
  create_node id ip port role priority server = set_role role (record {
    id = id;
    advertise_ip = ip;
    port = port;
    role = storage;
    status = starting;
    priority = priority;
    peers = [];
    logical_time = pos 0;
    locks = empty_table;
    hash_ring = none;
    global_file_index = none;
    sync_in_progress = false;
    pending_metadata_sync = none;
    server = server;
    streaming_sessions = [];
  })
