-- ===== src/Examples/Streams.antt =====
-- Examples for the streaming protocol, the sessions and the stream server.
use distributed_file_system.Prelude.{
  ◌<◌, ◌≡◌, refl, inl, true, [], ◌∷◌, ◌++◌, some, Bytes, length, arith, codes, bytes_eq,
}
use distributed_file_system.Prelude.Map.{lookup, IsMap}
use distributed_file_system.Storage.{
  FileMetadata, ok, save_file, save_content, save_index, new_local_storage,
}
use distributed_file_system.Streaming.Protocol.{
  StreamHeader, Decoded, encode_header, decode_header, encode_download_request,
}
use distributed_file_system.Streaming.Protocol.RoundTrip.{
  DecodesHeader, decode-encode_header, decode_header-DecodesHeader,
}
use distributed_file_system.Streaming.Session.{create_session, get_session, cleanup_expired}
use distributed_file_system.Streaming.Session.Expiry.{
  get_session-create_session, get_session-cleanup_expired,
}
use distributed_file_system.Streaming.Server.{
  reply, upload_response, await_session, limited, handle_connection, download_header,
}
use distributed_file_system.Streaming.Server.Transfer.{download-upload, short_upload_succeeds}
use distributed_file_system.Examples.Fixtures.{
  base, working, digest, digest_clean, view, session, sessions, server, no_failure, error_text,
}

abbrev header : StreamHeader
header = record { magic = 1; session_id = codes "s"; file_size = 2; chunk_size = 4 }

decode-encode_header_example :
    decode_header (encode_header header ++ 9 ∷ [])
    ≡ Decoded.ok
        (record { magic = 1; session_id = codes "s"; file_size = 2; chunk_size = 4 }, 9 ∷ [])
decode-encode_header_example =
    decode-encode_header header (9 ∷ []) (inl refl) ((λ e. cc), tt) (omega arith) (omega arith)

decode_header-DecodesHeader_example : DecodesHeader (3 ∷ []) (decode_header (3 ∷ []))
decode_header-DecodesHeader_example = decode_header-DecodesHeader (3 ∷ [])

get_session-create_session_example :
    get_session 10 (codes "n") (create_session (codes "n") 3 7 [] [] 2 sessions).0
    ≡ some (record {
      session_id = codes "n";
      file_id = 7;
      filename = [];
      content_type = [];
      size = 2;
      created_at = 3;
    })
unfolding create_session
get_session-create_session_example =
    get_session-create_session (codes "n") 3 10 7 [] [] 2 sessions (codes "n")

sessions-IsMap_lem : IsMap sessions.sessions
sessions-IsMap_lem = ((λ i. elim i [ ]), tt)

get_session-cleanup_expired_example :
    get_session 5 (codes "s") (cleanup_expired 4 sessions) ≡ get_session 5 (codes "s") sessions
get_session-cleanup_expired_example =
    get_session-cleanup_expired sessions 4 5 (codes "s") sessions-IsMap_lem (omega arith)

abbrev body : Bytes
body = 5 ∷ 6 ∷ 7 ∷ []

abbrev saved : Bytes → FileMetadata
saved content = record {
  file_id = 7;
  filename = codes "f";
  hash = digest content;
  size = length content;
  content_type = codes "t";
  stored_at = 1;
  status = codes "complete";
}

awaited : await_session view (codes "s") 10 0 ≡ some session
unfolding await_session get_session lookup
awaited = refl

limited-body : limited 2 body ≡ 5 ∷ 6 ∷ []
unfolding limited
limited-body = refl

save_succeeds :
    (save_file digest no_failure 1 7
      (codes "f")
      (codes "t")
      (limited 2 body)
      (new_local_storage base working)).1
    ≡ ok (saved (5 ∷ 6 ∷ []))
unfolding save_file save_content save_index limited
save_succeeds = refl

download-upload_example :
    let up =
      handle_connection digest no_failure error_text 1 view (encode_header header ++ body) server in
    (up.answer ≡ reply (upload_response true (digest (limited 2 body)) []))
    × (up.completed ≡ some (codes "s", 7, digest (limited 2 body)))
    × ((handle_connection digest no_failure error_text 1 view
          (encode_download_request (record { hash = digest (limited 2 body) }) ++ [])
          up.server).answer
        ≡ reply (
            encode_header (download_header (digest (limited 2 body)) (saved (5 ∷ 6 ∷ [])))
            ++ limited 2 body))
download-upload_example =
    download-upload digest no_failure error_text 1 view header body server session
      (saved (5 ∷ 6 ∷ [])) refl ((λ e. cc), tt) (omega arith) (omega arith) (omega arith) awaited []
      (digest_clean 64 (limited 2 body)) refl save_succeeds

abbrev long_header : StreamHeader
long_header = record { magic = 1; session_id = codes "s"; file_size = 9; chunk_size = 4 }

short_save_succeeds :
    (save_file digest no_failure 1 7
      (codes "f")
      (codes "t")
      (limited 9 body)
      (new_local_storage base working)).1
    ≡ ok (saved body)
unfolding save_file save_content save_index limited
short_save_succeeds = refl

short_upload_succeeds_example :
    ((handle_connection digest no_failure error_text 1 view
        (encode_header long_header ++ body)
        server).answer
      ≡ reply (upload_response true (digest body) []))
    × (3 < 9)
short_upload_succeeds_example =
    short_upload_succeeds digest no_failure error_text 1 view long_header body server session
      (saved body) refl ((λ e. cc), tt) (omega arith) (omega arith) (omega arith) awaited
      (omega arith) (omega arith) short_save_succeeds
