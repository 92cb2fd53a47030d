-- ===== src/Examples/Clients.antt =====
-- Examples for the client.
use distributed_file_system.Prelude.{
  ℕ, zero, suc, ◌+◌, ◌*◌, ◌≤◌, ◌<◌, ◌≡◌, ◌≢◌, refl, true, false, List, [], ◌∷◌, ◌++◌, none, some,
  Bytes, All, length, map, arith, codes, head,
}
use distributed_file_system.Common.Types.{StreamUploadReadyResponse, heartbeat}
use distributed_file_system.Common.Messages.{Message, MessageWithTime, no_payload}
use distributed_file_system.Storage.{save_file, save_content, save_index}
use distributed_file_system.Streaming.Protocol.{
  encode_header, read_full, copy_padded, put_big_endian, parse_header, trim_null, big_endian,
  big_endian_from,
}
use distributed_file_system.Streaming.Server.{
  concat, handle_connection, handle_upload, await_session, upload_saved, upload_body,
  upload_response, limited,
}
use distributed_file_system.Streaming.Session.{get_session, is_expired, remove_session}
use distributed_file_system.Prelude.Map.{lookup, delete, insert}
use distributed_file_system.Client.{
  NodeAddr, MasterClient, Exchange, answered, no_connection, Network, timeless, get_master_addr,
  new_master_client, ask_seed, discovery_message, send_request,
}
use distributed_file_system.Client.Requests.{send_request_answer, send_request_failover}
use distributed_file_system.Client.Upload.{
  StreamUploadSession, UploadResult, done, Opening, opened, Write, wrote, upload_header,
  open_session, upload_stream, write_one, collect_one, collect, finalize, finish, stream_loop,
  write_chunk, write_loop,
}
use distributed_file_system.Client.Upload.Opened.{session_to}
use distributed_file_system.Client.Upload.Contents.{extended}
use distributed_file_system.Client.Upload.Answers.{Finalizes, upload_stream-Finalizes}
use distributed_file_system.Client.Upload.Stored.{
  Stores, reply_bytes, served, respond, upload_stream-Stores,
}
use distributed_file_system.Client.Download.{Contact, contacted, copy, stream_from_storage}
use distributed_file_system.Client.Download.Copy.{copied, copy-copied}
use distributed_file_system.Client.Download.Served.{download-upload_stream}
use distributed_file_system.Examples.Fixtures.{
  server, no_failure, error_text, json, digest, digest_clean, view,
}

abbrev client : MasterClient
client = new_master_client 9 (codes "old") 1

abbrev question : Message
question = record { kind = heartbeat; from = 9; to = 0; payload = no_payload }

-- The old master is gone at first; whoever is asked later answers.
abbrev net : Network
net zero addr m = no_connection
net (suc i) addr m = answered m

send_request_answer_example :
    let r = send_request net json question 0 client in
    (r.0 ≤ 0 + 3 * (1 + 1))
    × ((m : Message)
        → r.2 ≡ some m
        → (j : ℕ) × (a : MessageWithTime) × (r.0 ≡ j + 1)
          × (net j (get_master_addr r.1) (timeless question) ≡ answered a)
          × (a.message ≡ m))
unfolding new_master_client
send_request_answer_example = send_request_answer net json question 0 client

abbrev steady : Network
steady i addr m = answered m

abbrev seed : NodeAddr
seed = record { ip = codes "old"; port = 1 }

names_master : (j : ℕ) → ask_seed steady json j seed client ≢ none
unfolding ask_seed distributed_file_system.Client.find_online_master
names_master j e = cc

send_request_failover_example :
    (m : Message) × ((send_request steady json question 0 client).2 ≡ some m)
unfolding new_master_client
send_request_failover_example =
    send_request_failover steady json question client seed (head refl) names_master
      (λ j s p e k. (timeless question, refl)) 0

-- Two storage nodes, of which each takes the header, and two chunks.
abbrev ready : StreamUploadReadyResponse
ready = record {
  request_id = [];
  session_id = codes "s";
  storage_nodes =
      record { node_id = 2; addr = codes "a" } ∷ record { node_id = 3; addr = codes "b" } ∷ [];
  success = true;
  error = [];
}

abbrev opens : ℕ → Opening
opens i = opened

abbrev pieces : List Bytes
pieces = (5 ∷ []) ∷ [] ∷ (6 ∷ []) ∷ []

abbrev writes : ℕ → ℕ → Write
writes k i = wrote 1

abbrev begun : StreamUploadSession
begun = session_to (codes "s") 7 2 (upload_header (codes "s") 2) ready.storage_nodes

begins : open_session opens 7 2 ready ≡ done begun
unfolding open_session
begins = refl

abbrev answers : ℕ → Bytes → Bytes
answers = respond digest (λ i. no_failure) error_text (λ i. 1) (λ i. view) (λ i. server)

abbrev result : UploadResult
result = record { hash = digest (5 ∷ 6 ∷ []); node_ids = 2 ∷ 3 ∷ [] }

uploads : upload_stream writes answers pieces true begun ≡ done result
unfolding upload_stream write_one collect_one collect finalize finish stream_loop write_chunk
    write_loop read_full encode_header copy_padded put_big_endian parse_header trim_null big_endian
    big_endian_from handle_connection handle_upload await_session upload_saved upload_body
    upload_response limited get_session is_expired remove_session lookup delete insert save_file
    save_content save_index
uploads = refl

upload_stream-Finalizes_example :
    (true ≡ true) × Finalizes answers (extended (5 ∷ 6 ∷ []) begun) result
upload_stream-Finalizes_example =
    upload_stream-Finalizes writes answers pieces true begun result uploads

clean_session : All (λ b. b ≢ 0) (codes "s")
clean_session = ((λ e. cc), tt)

upload_stream-Stores_example :
    (length (concat pieces) ≡ 2)
    × (result.hash ≡ digest (5 ∷ 6 ∷ []))
    × (result.node_ids ≡ map (λ n. n.node_id) ready.storage_nodes)
    × ((k : ℕ)
        → k < 2
        → Stores digest (5 ∷ 6 ∷ []) (
            served digest
              (λ i. no_failure)
              error_text
              (λ i. 1)
              (λ i. view)
              (λ i. server)
              k
              (encode_header (upload_header (codes "s") 2) ++ 5 ∷ 6 ∷ [])))
upload_stream-Stores_example =
    upload_stream-Stores digest (λ i. no_failure) error_text (λ i. 1) (λ i. view) (λ i. server)
      opens 7 2 ready begun result (omega arith) clean_session (omega arith) writes pieces true
      begins uploads (digest_clean 64 (5 ∷ 6 ∷ [])) refl

-- A destination that takes all that it is given.
abbrev sink : ℕ → Bytes → Write
sink j chunk = wrote (length chunk)

abbrev one_byte : ℕ → ℕ
one_byte k = 0

copy-copied_example :
    copy one_byte true sink 2 digest (digest (5 ∷ 6 ∷ [])) (5 ∷ 6 ∷ 7 ∷ [])
    ≡ copied digest (digest (5 ∷ 6 ∷ [])) 2 true (5 ∷ 6 ∷ 7 ∷ [])
copy-copied_example =
    copy-copied true 2 one_byte sink (λ k chunk. refl) digest (digest (5 ∷ 6 ∷ [])) (5 ∷ 6 ∷ 7 ∷ [])

-- The second node, once it has the upload.
abbrev serve : Bytes → Bytes → Bytes
serve addr request =
    reply_bytes
      (handle_connection digest no_failure error_text 1 view request
        (served digest (λ i. no_failure) error_text (λ i. 1) (λ i. view) (λ i. server) 1
          (encode_header (upload_header (codes "s") 2) ++ 5 ∷ 6 ∷ [])).server).answer

abbrev contact : Bytes → Contact
contact addr = contacted

download-upload_stream_example :
    stream_from_storage contact serve one_byte false sink digest (codes "b") result.hash 2
    ≡ (5 ∷ 6 ∷ [], none)
download-upload_stream_example =
    download-upload_stream digest (λ i. no_failure) error_text (λ i. 1) (λ i. view) (λ i. server)
      opens writes 7 2 ready pieces true begun result contact serve one_byte false sink 1
      (codes "b") (omega arith) clean_session (omega arith) begins uploads
      (digest_clean 64 (5 ∷ 6 ∷ [])) refl (λ j chunk. refl) (omega arith) refl (λ request. refl)
