-- ===== src/Node/Peers.antt =====
-- backend/dfs/node/node.go: the messages by which nodes learn of each other, and the sending of one.
pub mod Clock
pub mod Health
use distributed_file_system.Prelude.{
  ℕ, zero, suc, ◌+◌, ◌*◌, ◌-◌, Bool, true, false, not, List, [], ◌∷◌, ◌++◌, Option, none, some,
  Bytes, ltb, if◌then◌else◌, ◌==◌, nat_eq, bytes_eq,
}
use distributed_file_system.Prelude.Int.{ℤ}
use distributed_file_system.Prelude.Map.{Map, lookup, insert, prune}
use distributed_file_system.Common.Types.{
  NodeId, nil_id, Uuid, second, NodeRole, master, NodeInfo, heartbeat, discovery, node_joined,
}
use distributed_file_system.Common.Messages.{
  Json, Message, MessageWithTime, Outgoing, send_to, no_payload, node_info_json, node_infos_json,
}
use distributed_file_system.Hashing.{HashRing, add_node}
use distributed_file_system.Node.{
  Node, is_master, increment_logical_time, update_logical_time, get_peers, add_peer, remove_peer,
  get_node_info, broadcast_message,
}

-- `handleHeartbeat`: a peer that is known keeps all but its status and the time.
unfoldable pub handle_heartbeat : Json → ℕ → Message → Node → Node
handle_heartbeat json now msg n = elim (json.node_info msg.payload) [
  | none ↦ n
  | some info ↦ elim (lookup msg.from n.peers) [
    | some peer ↦ record n {
      peers = insert msg.from (record peer { last_heartbeat = now; status = info.status }) n.peers;
    }
    | none ↦ record n { peers = insert msg.from (record info { last_heartbeat = now }) n.peers }
  ]
]

-- `handleDiscoveryWithConnection`: the new state and the response.
unfoldable pub handle_discovery_with_connection : ℕ → Message → Node → Node × MessageWithTime
handle_discovery_with_connection now msg n =
    let (n', t) = increment_logical_time n in
    (
      n',
      record {
        message = record {
          kind = discovery;
          from = n.id;
          to = msg.from;
          payload = node_infos_json (get_peers n ++ get_node_info now n ∷ []);
        };
        logical_time = t;
      },
    )

-- A node of role storage is put on the ring of a master.
unfoldable pub add_to_ring : Uuid → NodeInfo → Node → Node
add_to_ring u info n = elim n.hash_ring [
  | none ↦ n
  | some ring ↦
      if is_master info.role then n else record n { hash_ring = some (add_node u ring info) }
]

unfoldable pub handle_node_joined : Json → Uuid → ℕ → Message → Node → Node
unfolding add_to_ring
handle_node_joined json u now msg n = elim (json.node_info msg.payload) [
  | none ↦ n
  | some info ↦ add_to_ring u (record info { last_heartbeat = now }) (add_peer now info n)
]

unfoldable pub handle_node_left : Message → Node → Node
handle_node_left msg n = remove_peer msg.from n

unfoldable pub register_storage_node : Uuid → ℕ → NodeInfo → Node → Node
unfolding add_to_ring
register_storage_node u now info n =
    add_to_ring u (record info { last_heartbeat = now }) (add_peer now info n)

unfoldable pub send_heartbeat : ℕ → Node → List Outgoing
send_heartbeat now n =
    broadcast_message
      (record {
        kind = heartbeat;
        from = n.id;
        to = nil_id;
        payload = node_info_json (get_node_info now n);
      })
      n

unfoldable pub announce_join : ℕ → Node → List Outgoing
announce_join now n =
    broadcast_message
      (record {
        kind = node_joined;
        from = n.id;
        to = nil_id;
        payload = node_info_json (get_node_info now n);
      })
      n

-- The loop of `DiscoverPeers` over the peers of the response.
unfoldable pub add_discovered : ℕ → List NodeInfo → Node → Node
add_discovered now [] n = n
add_discovered now (peer ∷ peers) n =
    add_discovered now peers (if not (peer.id == n.id) then add_peer now peer n else n)

-- `DiscoverPeers` once the response is there.
unfoldable pub discover_peers : ℕ → ℤ → Option (List NodeInfo) → Node → Node × List Outgoing
unfolding add_discovered announce_join
discover_peers now received none n =
    ((update_logical_time received (increment_logical_time n).0).0, [])
discover_peers now received (some peers) n =
    let n' =
      add_discovered now peers (update_logical_time received (increment_logical_time n).0).0 in
    (n', announce_join now n')

-- `now.Sub(peer.LastHeartbeat) > 15*time.Second`
unfoldable pub is_silent : ℕ → NodeInfo → Bool
is_silent now peer = ltb (15 * second) (now - peer.last_heartbeat)

-- The silent masters, of which the elector is notified.
unfoldable pub dead_coordinators : ℕ → Map NodeId NodeInfo → List NodeId
unfolding is_silent
dead_coordinators now [] = []
dead_coordinators now ((id, peer) ∷ peers) =
    let rest = dead_coordinators now peers in
    if is_silent now peer then (if is_master peer.role then id ∷ rest else rest) else rest

unfoldable pub check_peers_health : ℕ → Node → Node × List NodeId
unfolding is_silent dead_coordinators
check_peers_health now n = (
  record n { peers = prune (λ _ peer. is_silent now peer) n.peers },
  dead_coordinators now n.peers,
)

-- What an attempt of `SendMessage` meets: no connection, an error of the encoder, or neither.
pub data Attempt : Type 0 where
  no_connection encoder_error delivered : Attempt

-- The loop of `SendMessage`: the attempts that are left, and the one to come.
unfoldable pub send_attempts :
    (ℕ → Attempt) → Message → ℕ → ℕ → Node → Node × Option MessageWithTime
send_attempts net msg zero i n = (n, none)
send_attempts net msg (suc left) i n = elim (net i) [
  | no_connection ↦ send_attempts net msg left (i + 1) n
  | encoder_error ↦ send_attempts net msg left (i + 1) (increment_logical_time n).0
  | delivered ↦
      let (n', t) = increment_logical_time n in
      (n', some (record { message = msg; logical_time = t }))
]

-- `SendMessage`: what is delivered, or an error after three attempts.
unfoldable pub send_message : (ℕ → Attempt) → Message → Node → Node × Option MessageWithTime
unfolding send_attempts
send_message net msg n = send_attempts net msg 3 0 n
