-- ===== src/Examples/Chunks.antt =====
-- An upload in chunks through the HTTP interface to two stream servers.
use distributed_file_system.Prelude.{
  ◌≢◌, ◌<◌, ◌+◌, ◌++◌, All, length-replicate, ℕ, ◌≡◌, refl, true, List, [], ◌∷◌, some, Bytes,
  length, arith, codes, nat_eq, bytes_eq,
}
use distributed_file_system.Prelude.Map.{lookup, insert, delete}
use distributed_file_system.Common.Types.{StreamUploadReadyResponse}
use distributed_file_system.Client.Upload.{
  upload_header, open_session, done, StreamUploadSession, UploadResult, write_chunk, write_loop,
  write_one, finalize, collect_one, collect, finish,
}
use distributed_file_system.Streaming.Protocol.{
  read_full, encode_header, copy_padded, put_big_endian, parse_header, trim_null, big_endian,
  big_endian_from,
}
use distributed_file_system.Streaming.Server.{
  handle_connection, handle_upload, await_session, upload_saved, upload_body, upload_response,
  limited,
}
use distributed_file_system.Streaming.Session.{get_session, is_expired, remove_session}
use distributed_file_system.Storage.{save_file, save_content, save_index}
use distributed_file_system.Api.{File, UploadSession, FileHandler, Body, success}
use distributed_file_system.Api.Uploads.{upload_chunk, finalize_chunked_upload, file_of}
use distributed_file_system.Api.Uploads.Chunks.{ChunkCall}
use distributed_file_system.Api.Uploads.Runs.{accepted, contents, run_chunks}
use distributed_file_system.Api.Uploads.Served.{finalize-Stores}
use distributed_file_system.Client.Upload.Stored.{Stores, served, respond}
use distributed_file_system.Client.Upload.Opened.{session_to}
use distributed_file_system.Examples.Fixtures.{
  digest, digest_clean, view, server, no_failure, error_text,
}
use distributed_file_system.Examples.Uploads.{sql, owner, session, handler, chunk, opens}

-- The stream servers of two storage nodes, which both know the session.
abbrev ready : StreamUploadReadyResponse
ready = record {
  request_id = [];
  session_id = codes "s";
  storage_nodes =
      record { node_id = 2; addr = codes "a" } ∷ record { node_id = 3; addr = codes "b" } ∷ [];
  success = true;
  error = [];
}

abbrev open_stream : StreamUploadSession
open_stream = session_to (codes "s") 7 2 (upload_header (codes "s") 2) ready.storage_nodes

begins : open_session opens 7 2 ready ≡ done open_stream
unfolding open_session
begins = refl

abbrev in_progress : UploadSession
in_progress = record session { file_size = 2; stream_session = open_stream }

abbrev connected_handler : FileHandler (List File)
connected_handler = record handler { sessions = (codes "s", in_progress) ∷ [] }

in_table : lookup (codes "s") connected_handler.sessions ≡ some in_progress
unfolding lookup
in_table = refl

abbrev two_chunks : List ChunkCall
two_chunks = chunk 9 0 (5 ∷ []) ∷ chunk 9 1 (6 ∷ []) ∷ []

abbrev answers : ℕ → Bytes → Bytes
answers = respond digest (λ i. no_failure) error_text (λ i. 1) (λ i. view) (λ i. server)

abbrev answer : Body
answer = Body.upload_finalized (record { id = 7; filename = codes "f"; size = 2 })

finalizes_served :
    (finalize_chunked_upload sql answers true
      (some owner)
      (some (codes "s"))
      (run_chunks two_chunks connected_handler).0).1
    ≡ success 202 answer
unfolding finalize_chunked_upload run_chunks upload_chunk write_one collect_one collect finalize
    finish write_chunk write_loop read_full encode_header copy_padded put_big_endian parse_header
    trim_null big_endian big_endian_from handle_connection handle_upload await_session upload_saved
    upload_body upload_response limited get_session is_expired remove_session lookup delete insert
    save_file save_content save_index
finalizes_served = refl

taken :
    contents (accepted (codes "s") two_chunks (run_chunks two_chunks connected_handler).1)
    ≡ 5 ∷ 6 ∷ []
unfolding run_chunks upload_chunk write_chunk write_one insert lookup
taken = refl

clean : All (λ b. b ≢ 0) (codes "s")
clean = ((λ e. cc), tt)

finalize-Stores_example :
    let run = run_chunks two_chunks connected_handler in
    let bytes = contents (accepted (codes "s") two_chunks run.1) in
    (r : UploadResult) × ((sql.insert_file run.0.db (file_of in_progress r)).1 ≡ true)
    × ((file_of in_progress r).hash ≡ digest bytes)
    × ((file_of in_progress r).size ≡ length bytes)
    × ((k : ℕ)
        → k < 2
        → Stores digest bytes (
            served digest
              (λ i. no_failure)
              error_text
              (λ i. 1)
              (λ i. view)
              (λ i. server)
              k
              (encode_header (upload_header (codes "s") 2) ++ bytes)))
finalize-Stores_example =
    finalize-Stores sql digest (λ i. no_failure) error_text (λ i. 1) (λ i. view) (λ i. server) opens
      7 2 ready two_chunks connected_handler (codes "s") in_progress true (some owner) 202 answer
      begins (omega arith) clean (omega arith) in_table refl refl finalizes_served
      (digest_clean 64
        (contents (accepted (codes "s") two_chunks (run_chunks two_chunks connected_handler).1)))
      (length-replicate 64 (
        length
          (contents (accepted (codes "s") two_chunks (run_chunks two_chunks connected_handler).1))
        + 1))
