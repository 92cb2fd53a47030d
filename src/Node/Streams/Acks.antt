-- ===== src/Node/Streams/Acks.antt =====
-- When an upload that the master arranges is complete: `handleStreamStoreAck` of
-- backend/dfs/node/node.go.
use distributed_file_system.Prelude.{
  ℕ, ◌≡◌, ◌≤◌, ◌<◌, refl, sym, subst, false, none, some, Bytes, length, leb, Option-cases,
  Bool-cases, inl, inr, bytes_eq, if◌then◌else◌, ◌==◌, nat_eq, arith, leb→le,
}
use distributed_file_system.Prelude.Map.{Map, lookup, insert, delete, lookup-insert, lookup-delete}
use distributed_file_system.Common.Types.{NodeId, GlobalFileInfo, StreamStoreAck, StreamSession}
use distributed_file_system.Node.{Node}
use distributed_file_system.Node.Files.{Outcome, done}
use distributed_file_system.Node.Streams.{ack_received, note_ack, upload_completed}

abbrev pub noted_acks : StreamStoreAck → StreamSession → Map NodeId Bytes
noted_acks ack session = insert ack.node_id ack.hash session.received_acks

-- The file of a session, under the hash of an ack and on all nodes that the master expects.
abbrev pub file_info : StreamStoreAck → StreamSession → GlobalFileInfo
file_info ack session = record {
  file_id = session.file_id;
  filename = session.filename;
  hash = ack.hash;
  size = session.size;
  content_type = session.content_type;
  replicas = session.expected_nodes;
}

-- What the master does with an ack while it keeps an index and no session is done.
pub data Acknowledges (ack : StreamStoreAck) (n : Node) (index : Map Bytes GlobalFileInfo)
    : Outcome Node → Type 0 where
  unknown_session :
      lookup ack.session_id n.streaming_sessions ≡ none → Acknowledges ack n index (done n)
  waiting :
      (session : StreamSession) (n' : Node)
      → lookup ack.session_id n.streaming_sessions ≡ some session
      → length (noted_acks ack session) < length session.expected_nodes
      → n'.global_file_index ≡ n.global_file_index
      → ((s : Bytes)
          → lookup s n'.streaming_sessions ≡ (
              if ack.session_id == s
              then some (record session { received_acks = noted_acks ack session })
              else lookup s n.streaming_sessions))
      → Acknowledges ack n index (done n')
  complete :
      (session : StreamSession) (n' : Node) (index' : Map Bytes GlobalFileInfo)
      → lookup ack.session_id n.streaming_sessions ≡ some session
      → length session.expected_nodes ≤ length (noted_acks ack session)
      → n'.global_file_index ≡ some index'
      → ((k : Bytes)
          → lookup k index'
            ≡ (if ack.hash == k then some (file_info ack session) else lookup k index))
      → ((s : Bytes)
          → lookup s n'.streaming_sessions
            ≡ (if ack.session_id == s then none else lookup s n.streaming_sessions))
      → Acknowledges ack n index (done n')

not_leb→lt : (a b : ℕ) → leb a b ≡ false → b < a
not_leb→lt a b h = ground arith

upload_completed-done :
    (ack : StreamStoreAck) (session : StreamSession) (n : Node) (index : Map Bytes GlobalFileInfo)
    → n.global_file_index ≡ some index
    → session.done ≡ false
    → upload_completed ack session n
      ≡ done (record n {
        global_file_index = some (insert ack.hash (file_info ack session) index);
        streaming_sessions = delete ack.session_id n.streaming_sessions;
      })
unfolding upload_completed
upload_completed-done ack session n index has live = rw (has, live) refl

-- While a master has an index and the session of the ack, if it has one, is not done: an ack for an
-- unknown session changes nothing; one that leaves fewer acks than expected nodes is noted in its
-- session and the index stays; any other puts the file of the session under the hash of the ack in
-- the index, with the expected nodes as its replicas, and the session goes. All other entries of the
-- index and all other sessions stay.
pub ack_received-Acknowledges :
    (ack : StreamStoreAck) (n : Node) (index : Map Bytes GlobalFileInfo)
    → n.global_file_index ≡ some index
    → ((session : StreamSession)
        → lookup ack.session_id n.streaming_sessions ≡ some session
        → session.done ≡ false)
    → Acknowledges ack n index (ack_received ack n)
unfolding ack_received note_ack
ack_received-Acknowledges ack n index has live =
    elim (Option-cases (lookup ack.session_id n.streaming_sessions)) [
      | inl e ↦ rw (e, ack_received) (unknown_session e)
      | inr (s, e) ↦ elim (Bool-cases (leb (length s.expected_nodes) (length (noted_acks ack s)))) [
        | inr f ↦
            rw (e, ack_received, f)
              (waiting s _ e (not_leb→lt _ _ f) refl
                (λ k. lookup-insert ack.session_id k _ n.streaming_sessions))
        | inl t ↦
            rw (e, ack_received, t)
              (subst (Acknowledges ack n index)
                (sym (upload_completed-done ack (note_ack ack s).0 n index has (live s e)))
                (complete s _ (insert ack.hash (file_info ack s) index) e (leb→le _ _ t) refl
                  (λ k. lookup-insert ack.hash k _ index)
                  (λ k. lookup-delete ack.session_id k n.streaming_sessions)))
      ]
    ]
