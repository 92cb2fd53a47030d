-- ===== src/Node/Dispatch.antt =====
-- backend/dfs/node/node.go: `handleConnection`, `processMessage`, and the messages of the lock with
-- what they send.
--
-- `StartElection`, which `handleElection` starts in a goroutine, is a step of its own; the flag of
-- `Processed` tells that it is started.
pub mod Unhandled
use distributed_file_system.Prelude.{
  ℕ, Bool, true, false, List, [], ◌∷◌, ◌++◌, Option, none, some, Bytes, nat_eq, bytes_eq,
}
use distributed_file_system.Prelude.Int.{ℤ}
use distributed_file_system.Common.Types.{
  api_file_delete, stream_upload_init, stream_download_init, NodeId, nil_id, Uuid, LockRequest,
  pending, lock_request, lock_ack, lock_acquired, lock_release, election, election_ok, coordinator,
  heartbeat, discovery, node_joined, node_left, lock_abort, file_delete, metadata_request,
  metadata_response, replicate_file, stream_store_ack, stream_upload_ready,
}
use distributed_file_system.Common.Messages.{
  MessageWithTime, Json, Message, Outgoing, send_to, no_payload, string_json, lock_request_json,
}
use distributed_file_system.Common.WaitFor.{has_cycle}
use distributed_file_system.Prelude.{if◌then◌else◌, ◌==◌, not}
use distributed_file_system.Election.{BullyElector, handle_election, handle_ok, handle_coordinator}
use distributed_file_system.Storage.{Call}
use distributed_file_system.Node.Locks.{
  select_victim, LockTable, request_own, release_own, lock_requested, lock_acked, lock_released,
  lock_aborted, can_enter,
}
use distributed_file_system.Prelude.{length}
use distributed_file_system.Node.{
  update_logical_time, is_master, Node, increment_logical_time, get_peer, broadcast_message,
}
use distributed_file_system.Node.Peers.{
  handle_discovery_with_connection, handle_heartbeat, handle_node_joined, handle_node_left,
}
use distributed_file_system.Node.Files.{
  handle_api_file_delete, Outcome, done, panic, handle_file_delete, handle_metadata_request,
  handle_metadata_response, handle_replicate_file,
}
use distributed_file_system.Node.Streams.{
  handle_stream_upload_init, handle_stream_download_init, handle_stream_store_ack,
  handle_stream_upload_ready,
}

abbrev pub lock_ack_message : NodeId → NodeId → Bytes → Message
lock_ack_message self to resource = record {
  kind = lock_ack;
  from = self;
  to = to;
  payload = string_json resource;
}

-- `handleLockRequest`, with the ack to a known sender.
unfoldable pub handle_lock_request : Json → Uuid → Message → Node → Node × List Outgoing
handle_lock_request json u msg n = elim (json.lock_request msg.payload) [
  | none ↦ (n, [])
  | some request ↦
      let n' = record n { locks = lock_requested u request n.locks } in
      elim (get_peer msg.from n') [
        | none ↦ (n', [])
        | some peer ↦ (n', send_to peer (lock_ack_message n.id peer.id request.resource_id) ∷ [])
      ]
]

-- A message whose payload is the name of a resource.
abbrev pub on_resource : Json → (Bytes → NodeId → LockTable → LockTable) → Message → Node → Node
on_resource json f msg n = elim (json.string msg.payload) [
  | none ↦ n
  | some resource ↦ record n { locks = f resource msg.from n.locks }
]

unfoldable pub handle_lock_ack : Json → Message → Node → Node
handle_lock_ack json = on_resource json lock_acked

unfoldable pub handle_lock_acquired : Json → Message → Node → Node
handle_lock_acquired json = on_resource json distributed_file_system.Node.Locks.lock_acquired

unfoldable pub handle_lock_release : Json → Message → Node → Node
handle_lock_release json = on_resource json lock_released

abbrev pub release_message : NodeId → Bytes → Message
release_message self resource = record {
  kind = lock_release;
  from = self;
  to = nil_id;
  payload = string_json resource;
}

unfoldable pub broadcast_releases : List Bytes → Node → List Outgoing
broadcast_releases [] n = []
broadcast_releases (r ∷ rs) n =
    broadcast_message (release_message n.id r) n ++ broadcast_releases rs n

unfoldable pub handle_lock_abort : Node → Node × List Outgoing
unfolding broadcast_releases
handle_lock_abort n =
    let (locks', rs) = lock_aborted n.id n.locks in
    let n' = record n { locks = locks' } in (n', broadcast_releases rs n')

unfoldable pub request_lock : Uuid → ℕ → Bytes → Node → Node × List Outgoing
request_lock u now resource n =
    let (n1, t) = increment_logical_time n in
    let request : LockRequest = record {
      resource_id = resource;
      node_id = n.id;
      logical_time = t;
      status = pending;
      requested_at = now;
    } in
    let n2 = record n1 { locks = request_own u request n1.locks } in
    (
      n2,
      broadcast_message
          (record {
            kind = lock_request;
            from = n.id;
            to = nil_id;
            payload = lock_request_json request;
          })
          n2,
    )

unfoldable pub release_lock : Bytes → Node → Node × List Outgoing
release_lock resource n =
    let n' = record n { locks = release_own resource n.id n.locks } in
    (n', broadcast_message (release_message n.id resource) n')

unfoldable pub enter_critical_section : ℕ → Bytes → Node → Node × List Outgoing × Bool
enter_critical_section now resource n =
    let (may, locks') = can_enter resource now n.id (length n.peers) n.locks in
    let n' = record n { locks = locks' } in
    elim may [
      | false ↦ (n', [], false)
      | true ↦ (
        n',
        broadcast_message
            (record {
              kind = lock_acquired;
              from = n.id;
              to = nil_id;
              payload = string_json resource;
            })
            n',
        true,
      )
    ]

unfoldable pub send_abort : NodeId → Node → Node × List Outgoing
unfolding handle_lock_abort
send_abort victim n = if victim == n.id then handle_lock_abort n else elim (get_peer victim n) [
  | none ↦ (n, [])
  | some peer ↦ (
    n,
    send_to peer (record { kind = lock_abort; from = n.id; to = nil_id; payload = no_payload })
        ∷ [],
  )
]

-- `checkDeadlocks`: a master makes the victim of a cycle give up its locks.
unfoldable pub check_deadlocks : Node → Node × List Outgoing
unfolding send_abort
check_deadlocks n = if not (is_master n.role) then (n, []) else elim (has_cycle n.locks.wait_for) [
  | none ↦ (n, [])
  | some (hit, path) ↦ elim hit [
    | false ↦ (n, [])
    | true ↦ send_abort (select_victim n.id n.priority n.peers path) n
  ]
]

-- What a message leaves: node, elector, what is sent, and whether an election is started.
pub record Processed : Type 0 where
  pub node : Node
  pub elector : BullyElector
  pub sent : List Outgoing
  pub starts_election : Bool

abbrev pub only_node : BullyElector → Node → Processed
only_node b n = record { node = n; elector = b; sent = []; starts_election = false }

abbrev pub node_and_sent : BullyElector → Node × List Outgoing → Processed
node_and_sent b (n, out) = record { node = n; elector = b; sent = out; starts_election = false }

abbrev pub or_panic : BullyElector → Outcome Node → Outcome Processed
or_panic b panic = panic
or_panic b (done n) = done (only_node b n)

abbrev pub sent_or_panic : BullyElector → Node → Outcome (List Outgoing) → Outcome Processed
sent_or_panic b n panic = panic
sent_or_panic b n (done out) = done (node_and_sent b (n, out))

module _ (json : Json) (u : Uuid) (fails : Call → Bool) (now : ℕ) where
  unfoldable pub process_message : Message → BullyElector → Node → Outcome Processed
  process_message msg b n = elim msg.kind [
    | election ↦
        let (out, starts) = handle_election json msg b n in
        done (record { node = n; elector = b; sent = out; starts_election = starts })
    | election_ok ↦ done (only_node (handle_ok msg b n) n)
    | coordinator ↦
        let (b', n', out) = handle_coordinator u msg b n in done (node_and_sent b' (n', out))
    | heartbeat ↦ done (only_node b (handle_heartbeat json now msg n))
    | discovery ↦ done (only_node b n)
    | node_joined ↦ done (only_node b (handle_node_joined json u now msg n))
    | node_left ↦ done (only_node b (handle_node_left msg n))
    | lock_request ↦ done (node_and_sent b (handle_lock_request json u msg n))
    | lock_ack ↦ done (only_node b (handle_lock_ack json msg n))
    | lock_acquired ↦ done (only_node b (handle_lock_acquired json msg n))
    | lock_release ↦ done (only_node b (handle_lock_release json msg n))
    | lock_abort ↦ done (node_and_sent b (handle_lock_abort n))
    | file_delete ↦ or_panic b (handle_file_delete json fails msg n)
    | metadata_request ↦ done (node_and_sent b (n, handle_metadata_request json msg n))
    | metadata_response ↦ or_panic b (handle_metadata_response json msg n)
    | replicate_file ↦ sent_or_panic b n (handle_replicate_file json msg n)
    | stream_store_ack ↦ or_panic b (handle_stream_store_ack json msg n)
    | stream_upload_ready ↦ done (only_node b (handle_stream_upload_ready json now msg n))
    | _ ↦ done (only_node b n)
  ]

-- What a connection leaves: the node, what is sent, the response on the connection, and the message
-- that is put into the channel.
pub record Received : Type 0 where
  pub node : Node
  pub sent : List Outgoing
  pub response : Option MessageWithTime
  pub queued : Option Message

abbrev pub responded : Node × List Outgoing × MessageWithTime → Received
responded (n, out, r) = record { node = n; sent = out; response = some r; queued = none }

abbrev pub responded_or_panic : Outcome (Node × List Outgoing × MessageWithTime) → Outcome Received
responded_or_panic panic = panic
responded_or_panic (done r) = done (responded r)

-- `handleConnection` on a message that is decoded; `full` tells that the channel has no room, and
-- the message is dropped.
module _ (json : Json) (u : Uuid) (new_id new_request : Bytes) (now : ℕ) (full : Bool) where
  unfoldable pub receive : MessageWithTime → Node → Outcome Received
  receive m n =
      let msg = m.message in
      let n' = (update_logical_time m.logical_time n).0 in
      elim msg.kind [
        | discovery ↦
            let (n2, r) = handle_discovery_with_connection now msg n' in
            done (responded (n2, [], r))
        | api_file_delete ↦ responded_or_panic (handle_api_file_delete json u msg n')
        | stream_upload_init ↦
            done (responded (handle_stream_upload_init json u new_id new_request now msg n'))
        | stream_download_init ↦
            let (n2, r) = handle_stream_download_init json msg n' in done (responded (n2, [], r))
        | _ ↦ done (record {
          node = n';
          sent = [];
          response = none;
          queued = if full then none else some msg;
        })
      ]
