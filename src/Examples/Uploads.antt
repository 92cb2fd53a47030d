-- ===== src/Examples/Uploads.antt =====
-- Examples for the HTTP interface.
use distributed_file_system.Prelude.{
  ℕ, ◌≡◌, refl, true, List, [], ◌∷◌, Option, none, some, Bytes, length, replicate, arith, codes,
  nat_eq, bytes_eq, ◌==◌, if◌then◌else◌,
}
use distributed_file_system.Prelude.Int.{pos}
use distributed_file_system.Prelude.Map.{lookup, insert}
use distributed_file_system.Common.Types.{NodeId}
use distributed_file_system.Common.Messages.{Json}
use distributed_file_system.Client.{
  new_master_client, Network, answered, send_request, send_request_with_retry, request_loop,
  request_round,
}
use distributed_file_system.Client.Upload.{
  StreamUploadSession, UploadResult, Opening, opened, Write, wrote, write_chunk, write_one,
  finalize, collect_one, init_stream_upload,
}
use distributed_file_system.Client.Upload.Contents.{extended}
use distributed_file_system.Client.Upload.Answers.{Finalizes}
use distributed_file_system.Client.Download.{Contact, contacted}
use distributed_file_system.Streaming.Protocol.{read_full}
use distributed_file_system.Api.{
  File, Database, UserClaims, UploadSession, FileHandler, Body, success, session_started,
}
use distributed_file_system.Api.Files.{number, parsed, get_file, delete_file}
use distributed_file_system.Api.Files.Access.{Deletes, delete_file-Deletes, Sends, get_file-Sends}
use distributed_file_system.Api.Uploads.{
  content, upload_chunk, finalize_chunked_upload, init_chunked_upload, ChunkedUploadInitRequest,
  file_of,
}
use distributed_file_system.Api.Uploads.Chunks.{ChunkCall}
use distributed_file_system.Api.Uploads.Progress.{
  sending, all_received, advanced, run_chunks-sending,
}
use distributed_file_system.Api.Uploads.Runs.{
  accepted, Numbered, contents, Became, run_chunks, run_chunks-Became,
}
use distributed_file_system.Api.Uploads.Sessions.{
  Finalization, finalize_chunked_upload-Finalization,
}
use distributed_file_system.Api.Uploads.Whole.{finalize-run_chunks}
use distributed_file_system.Api.Uploads.Starts.{Starts, init_chunked_upload-Starts}
use distributed_file_system.Examples.Fixtures.{json, digest}

pub find_row : NodeId → List File → Option File
find_row i [] = none
find_row i (f ∷ fs) = if f.id == i then some f else find_row i fs

pub remove_row : NodeId → List File → List File
remove_row i [] = []
remove_row i (f ∷ fs) = if f.id == i then remove_row i fs else f ∷ remove_row i fs

-- A database that is a list of rows and never fails.
abbrev pub sql : Database (List File)
sql = record {
  select_file = λ db i. find_row i db;
  insert_file = λ db f. (f ∷ db, true);
  delete_from_files = λ db i. (remove_row i db, true);
  insert_replica = λ db f n. (db, true);
  count_files = λ db i. some (length db);
  select_files = λ db i limit offset. some db;
}

abbrev pub owner : UserClaims
owner = record { user_id = 9; username = codes "u"; email = codes "e"; role = codes "user" }

abbrev pub stream : StreamUploadSession
stream = record {
  session_id = codes "s";
  file_id = 7;
  size = 3;
  connections = record { addr = codes "a"; sent = [] } ∷ [];
  node_ids = 2 ∷ [];
  bytes_written = 0;
}

abbrev pub session : UploadSession
session = record {
  id = codes "s";
  file_id = 7;
  user_id = 9;
  file_name = codes "f";
  file_size = 3;
  total_chunks = 2;
  content_type = codes "t";
  stream_session = stream;
  next_chunk = 0;
  created_at = 0;
}

abbrev pub handler : FileHandler (List File)
handler = record {
  db = [];
  client = new_master_client 1 (codes "m") 1;
  connected = 0;
  sessions = (codes "s", session) ∷ [];
}

abbrev pub chunk : ℕ → ℕ → Bytes → ChunkCall
chunk user index bytes = record {
  writes = λ i. wrote (length bytes);
  is_post = true;
  user = some (record owner { user_id = user });
  req = record {
    parses = true;
    session_id = codes "s";
    chunk_index = number (pos index);
    chunk = content bytes;
  };
}

-- The second chunk comes too early, and then twice; a stranger tries too.
abbrev calls : List ChunkCall
calls =
    chunk 9 1 (8 ∷ [])
    ∷ chunk 9 0 (5 ∷ 6 ∷ [])
    ∷ chunk 4 1 (0 ∷ [])
    ∷ chunk 9 1 (7 ∷ [])
    ∷ chunk 9 1 (7 ∷ [])
    ∷ []

found : lookup (codes "s") handler.sessions ≡ some session
unfolding lookup
found = refl

run_chunks-Became_example :
    Became
      (codes "s")
      session
      (accepted (codes "s") calls (run_chunks calls handler).1)
      (run_chunks calls handler).0
run_chunks-Became_example = run_chunks-Became (codes "s") calls handler session found

abbrev parts : List Bytes
parts = (5 ∷ 6 ∷ []) ∷ (7 ∷ []) ∷ []

run_chunks-sending_example :
    let r = run_chunks (sending owner (codes "s") 0 parts) handler in
    (r.1 ≡ all_received 0 2 parts)
    × ((k : Bytes)
        → lookup k r.0.sessions
          ≡ (if codes "s" == k then some (advanced parts session) else lookup k handler.sessions))
run_chunks-sending_example =
    run_chunks-sending owner (codes "s") parts handler session (λ e. cc) found refl (omega arith)

-- A storage node that confirms whatever it is sent.
abbrev responses : ℕ → Bytes → Bytes
responses i sent = 1 ∷ replicate 320 5

finalize_chunked_upload-Finalization_example :
    Finalization sql responses true
      (some owner)
      (some (codes "s"))
      handler
      (finalize_chunked_upload sql responses true (some owner) (some (codes "s")) handler)
finalize_chunked_upload-Finalization_example =
    finalize_chunked_upload-Finalization sql responses true (some owner) (some (codes "s")) handler

finalizes :
    (finalize_chunked_upload sql responses true
      (some owner)
      (some (codes "s"))
      (run_chunks calls handler).0).1
    ≡ success 202 (Body.upload_finalized (record { id = 7; filename = codes "f"; size = 3 }))
unfolding finalize_chunked_upload lookup run_chunks upload_chunk write_chunk write_one insert
    finalize collect_one read_full
finalizes = refl

finalize-run_chunks_example :
    let run = run_chunks calls handler in
    let l = accepted (codes "s") calls run.1 in
    let t = extended (contents l) stream in
    let end = finalize_chunked_upload sql responses true (some owner) (some (codes "s")) run.0 in
    (length l ≡ 2)
    × Numbered 0 l
    × (length (contents l) ≡ 3)
    × (lookup (codes "s") end.0.sessions ≡ none)
    × ((claims : UserClaims) × (r : UploadResult) × (some owner ≡ some claims)
        × (claims.user_id ≡ 9)
        × Finalizes responses t r
        × ((sql.insert_file run.0.db (file_of session r)).1 ≡ true))
finalize-run_chunks_example =
    finalize-run_chunks sql responses calls handler (codes "s") session true (some owner) 202
      (Body.upload_finalized (record { id = 7; filename = codes "f"; size = 3 })) found refl refl
      refl finalizes

abbrev row : File
row = record {
  id = 7;
  name = codes "f";
  size = 3;
  hash = digest (5 ∷ 6 ∷ 7 ∷ []);
  content_type = codes "t";
  owner_id = 9;
  created_at = 1;
  updated_at = 1;
  replicas_count = 1;
}

abbrev stocked : FileHandler (List File)
stocked = record handler { db = row ∷ [] }

abbrev net : Network
net i addr m = answered m

delete_file-Deletes_example :
    Deletes sql net json
      (codes "q")
      true
      (some owner)
      (parsed 7)
      stocked
      (delete_file sql net json (codes "q") true (some owner) (parsed 7) stocked)
delete_file-Deletes_example =
    delete_file-Deletes sql net json (codes "q") true (some owner) (parsed 7) stocked

abbrev contact : Bytes → Contact
contact addr = contacted

abbrev serve : Bytes → Bytes → Bytes
serve addr request = []

abbrev one_byte : ℕ → ℕ
one_byte k = 0

abbrev sink : ℕ → Bytes → Write
sink j bytes = wrote (length bytes)

get_file-Sends_example :
    Sends sql net json
      (codes "q")
      contact
      serve
      one_byte
      true
      sink
      digest
      true
      (some owner)
      (parsed 7)
      stocked
      (get_file sql net json contact serve one_byte true sink digest
        (codes "q")
        true
        (some owner)
        (parsed 7)
        stocked)
get_file-Sends_example =
    get_file-Sends sql net json (codes "q") contact serve one_byte true sink digest true
      (some owner) (parsed 7) stocked

-- A master that names one storage node.
abbrev arranged : Json
arranged = record json {
  upload_ready = λ p. some (record {
    request_id = [];
    session_id = codes "s";
    storage_nodes = record { node_id = 2; addr = codes "a" } ∷ [];
    success = true;
    error = [];
  });
}

abbrev pub opens : ℕ → Opening
opens i = opened

abbrev request : ChunkedUploadInitRequest
request = record {
  file_name = codes "f";
  file_size = pos 3;
  total_chunks = pos 2;
  content_type = [];
}

starts :
    (init_chunked_upload net arranged opens
      (codes "q")
      7
      0
      true
      (some owner)
      (some request)
      handler).1
    ≡ success 200 (session_started (codes "s"))
unfolding init_chunked_upload init_stream_upload send_request send_request_with_retry request_loop
    request_round
starts = refl

init_chunked_upload-Starts_example :
    Starts net arranged opens
      (codes "q")
      7
      0
      handler
      (some owner)
      (some request)
      (session_started (codes "s"))
      (init_chunked_upload net arranged opens
        (codes "q")
        7
        0
        true
        (some owner)
        (some request)
        handler).0
init_chunked_upload-Starts_example =
    init_chunked_upload-Starts net arranged opens (codes "q") 7 0 handler true (some owner)
      (some request) 200 (session_started (codes "s")) starts
