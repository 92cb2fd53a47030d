-- ===== src/Client.antt =====
-- backend/dfs/client/master_client.go: the client that talks to the master.
--
-- The network is a parameter: `net i addr m` is what the i-th connection to an address gives when
-- the message is sent on it. A request counts the connections that it has made. The lock of the
-- address makes each access to it one step.
pub mod Requests
pub mod Upload
pub mod Download
use distributed_file_system.Prelude.{
  ℕ, zero, suc, ◌+◌, Bool, true, false, not, ◌&&◌, ◌||◌, List, [], ◌∷◌, Option, none, some, Bytes,
  if◌then◌else◌, ◌==◌, nat_eq, bytes_eq,
}
use distributed_file_system.Prelude.Int.{pos}
use distributed_file_system.Common.Types.{
  NodeId, nil_id, NodeInfo, ApiFileDeleteRequest, ApiFileDeleteResponse, discovery, api_file_delete,
}
use distributed_file_system.Common.Messages.{
  Json, Message, MessageWithTime, no_payload, api_delete_json,
}
use distributed_file_system.Node.{is_master}
use distributed_file_system.Node.Streams.{is_online}

pub record NodeAddr : Type 0 where
  pub ip : Bytes
  pub port : ℕ

pub record MasterClient : Type 0 where
  pub seed_nodes : List NodeAddr
  pub master_ip : Bytes
  pub master_port : ℕ
  pub client_id : NodeId

unfoldable pub new_master_client : NodeId → Bytes → ℕ → MasterClient
new_master_client id ip port = record {
  seed_nodes = record { ip = ip; port = port } ∷ [];
  master_ip = ip;
  master_port = port;
  client_id = id;
}

-- `NewMasterClientWithSeeds`, which panics without a seed.
unfoldable pub new_master_client_with_seeds : NodeId → List NodeAddr → Option MasterClient
new_master_client_with_seeds id [] = none
new_master_client_with_seeds id (seed ∷ seeds) = some (record {
  seed_nodes = seed ∷ seeds;
  master_ip = seed.ip;
  master_port = seed.port;
  client_id = id;
})

unfoldable pub get_master_addr : MasterClient → NodeAddr
get_master_addr c = record { ip = c.master_ip; port = c.master_port }

unfoldable pub set_master_addr : Bytes → ℕ → MasterClient → MasterClient
set_master_addr ip port c =
    if not (c.master_ip == ip) || not (c.master_port == port)
    then record c { master_ip = ip; master_port = port }
    else c

-- What a connection on which a message is sent comes to.
pub data Exchange : Type 0 where
  no_connection send_failed no_response : Exchange
  answered : MessageWithTime → Exchange

abbrev pub Network : Type 0
Network = ℕ → NodeAddr → MessageWithTime → Exchange

-- The client takes no part in the logical clock.
abbrev pub timeless : Message → MessageWithTime
timeless msg = record { message = msg; logical_time = pos 0 }

abbrev pub discovery_message : MasterClient → Message
discovery_message c = record {
  kind = discovery;
  from = c.client_id;
  to = nil_id;
  payload = no_payload;
}

-- The loop of `discoverMaster` over the peers of an answer, none of which is null.
unfoldable pub find_online_master : List NodeInfo → Option NodeInfo
find_online_master [] = none
find_online_master (peer ∷ peers) =
    if is_master peer.role && is_online peer.status then some peer else find_online_master peers

unfoldable pub filter_storage : List NodeInfo → List NodeInfo
filter_storage [] = []
filter_storage (peer ∷ peers) =
    if not (is_master peer.role) && is_online peer.status
    then peer ∷ filter_storage peers
    else filter_storage peers

module _ (net : Network) (json : Json) where
  -- The master that a seed names, if the exchange with it succeeds.
  unfoldable pub ask_seed : ℕ → NodeAddr → MasterClient → Option NodeInfo
  unfolding find_online_master
  ask_seed i seed c = elim (net i seed (timeless (discovery_message c))) [
    | no_connection ↦ none
    | send_failed ↦ none
    | no_response ↦ none
    | answered r ↦ elim (json.node_infos r.message.payload) [
      | none ↦ none
      | some peers ↦ find_online_master peers
    ]
  ]

  -- The loop of `discoverMaster` over the seeds: the count, the client, and whether it succeeds.
  unfoldable pub discover_loop : ℕ → List NodeAddr → MasterClient → ℕ × MasterClient × Bool
  discover_loop i [] c = (i, c, false)
  discover_loop i (seed ∷ seeds) c = elim (ask_seed i seed c) [
    | none ↦ discover_loop (i + 1) seeds c
    | some peer ↦ (i + 1, set_master_addr peer.ip peer.port c, true)
  ]

  unfoldable pub discover_master : ℕ → MasterClient → ℕ × MasterClient × Bool
  discover_master i c = discover_loop i c.seed_nodes c

  -- One round of `sendRequestWithRetry`: the answer, or a discovery.
  unfoldable pub request_round : Message → ℕ → MasterClient → ℕ × MasterClient × Option Message
  request_round msg i c = elim (net i (get_master_addr c) (timeless msg)) [
    | answered r ↦ (i + 1, c, some r.message)
    | no_connection ↦ let (i', c', found) = discover_master (i + 1) c in (i', c', none)
    | send_failed ↦ let (i', c', found) = discover_master (i + 1) c in (i', c', none)
    | no_response ↦ let (i', c', found) = discover_master (i + 1) c in (i', c', none)
  ]

  -- The loop of `sendRequestWithRetry`, for the attempts that are left.
  unfoldable pub request_loop : Message → ℕ → ℕ → MasterClient → ℕ × MasterClient × Option Message
  request_loop msg zero i c = (i, c, none)
  request_loop msg (suc attempts) i c = elim (request_round msg i c).2 [
    | some r ↦ request_round msg i c
    | none ↦ request_loop msg attempts (request_round msg i c).0 (request_round msg i c).1
  ]

  unfoldable pub send_request_with_retry :
      Message → ℕ → ℕ → MasterClient → ℕ × MasterClient × Option Message
  send_request_with_retry msg retries i c = request_loop msg (suc retries) i c

  unfoldable pub send_request : Message → ℕ → MasterClient → ℕ × MasterClient × Option Message
  send_request msg i c = send_request_with_retry msg 2 i c

  -- `GetStorageNodes`: `none` for an error.
  unfoldable pub get_storage_nodes : ℕ → MasterClient → ℕ × MasterClient × Option (List NodeInfo)
  unfolding filter_storage
  get_storage_nodes i c =
      let (i', c', r) = send_request (discovery_message c) i c in
      (
        i',
        c',
        elim r [
          | none ↦ none
          | some m ↦ elim (json.node_infos m.payload) [
            | none ↦ none
            | some peers ↦ some (filter_storage peers)
          ]
        ],
      )

  unfoldable pub request_delete :
      Bytes → NodeId → Bytes → ℕ → MasterClient → ℕ × MasterClient × Option ApiFileDeleteResponse
  request_delete request_id file hash i c =
      let (i', c', r) =
        send_request
          (record {
            kind = api_file_delete;
            from = c.client_id;
            to = nil_id;
            payload =
                api_delete_json (record { request_id = request_id; file_id = file; hash = hash });
          })
          i c in
      (i', c', elim r [ none ↦ none | some m ↦ json.api_delete_response m.payload ])

-- `Ping`: `dial i addr` tells whether the i-th connection comes about.
unfoldable pub ping :
    (ℕ → NodeAddr → Bool) → Network → Json → ℕ → MasterClient → ℕ × MasterClient × Bool
ping dial net json i c =
    if dial i (get_master_addr c)
    then (i + 1, c, true)
    else let (i', c', found) = discover_master net json (i + 1) c in
      if not found then (i', c', false) else (i' + 1, c', dial i' (get_master_addr c'))
