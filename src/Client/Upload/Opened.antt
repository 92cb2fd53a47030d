-- ===== src/Client/Upload/Opened.antt =====
-- The connections that an upload of backend/dfs/client/master_client.go opens.
use distributed_file_system.Prelude.{
  ℕ, ◌+◌, ◌≡◌, inl, inr, refl, ap, sym, ◌∙◌, List, [], ◌∷◌, Bytes, map, nat_eq, bytes_eq, ◌⊎◌,
  List-cases, Bool-cases,
}
use distributed_file_system.Client.Upload.{
  Connection, StreamUploadSession, done, failed, open_connections, open_session, push_connection,
  Outcome, panicked, Opening, unreachable, header_refused, opened, upload_header, new_session,
}
use distributed_file_system.Common.Types.{NodeId, StorageNodeAddr, StreamUploadReadyResponse}
use distributed_file_system.Streaming.Protocol.{StreamHeader, encode_header}
use distributed_file_system.Client.Upload.Contents.{done_injective, failed_not_done}

abbrev pub opened_connection : StreamHeader → StorageNodeAddr → Connection
opened_connection h n = record { addr = n.addr; sent = encode_header h }

-- The session that has a connection to each of the nodes, on which the header was sent.
abbrev pub session_to :
    Bytes → NodeId → ℕ → StreamHeader → List StorageNodeAddr → StreamUploadSession
session_to id file size h nodes = record {
  session_id = id;
  file_id = file;
  size = size;
  connections = map (opened_connection h) nodes;
  node_ids = map (λ n. n.node_id) nodes;
  bytes_written = 0;
}

Opening-cases : (o : Opening) → ((o ≡ unreachable) ⊎ (o ≡ header_refused)) ⊎ (o ≡ opened)
Opening-cases unreachable = inl (inl refl)
Opening-cases header_refused = inl (inr refl)
Opening-cases opened = inr refl

abbrev Opens : StreamHeader → List StorageNodeAddr → List Connection × List NodeId → Type 0
Opens h nodes r = r ≡ (map (opened_connection h) nodes, map (λ n. n.node_id) nodes)

push-Opens :
    (h : StreamHeader) (n : StorageNodeAddr) (ns : List StorageNodeAddr)
    (o : Outcome (List Connection × List NodeId)) (r : List Connection × List NodeId)
    → ((q : List Connection × List NodeId) → o ≡ done q → Opens h ns q)
    → push_connection (opened_connection h n) n.node_id o ≡ done r
    → Opens h (n ∷ ns) r
push-Opens h n ns (done (cs, ids)) r f e =
    sym (done_injective e)
    ∙ ap (λ q. (opened_connection h n ∷ q.0, n.node_id ∷ q.1)) (f (cs, ids) refl)
push-Opens h n ns (failed d) r f e = absurd cc
push-Opens h n ns panicked r f e = absurd cc

open_connections-Opens :
    (opens : ℕ → Opening) (h : StreamHeader) (i : ℕ) (nodes : List StorageNodeAddr)
    (r : List Connection × List NodeId)
    → open_connections opens h i nodes ≡ done r
    → Opens h nodes r
unfolding open_connections
open_connections-Opens opens h i [] r e = sym (done_injective e)
open_connections-Opens opens h i (n ∷ ns) r e = elim (Opening-cases (opens i)) [
  | inl (inl f) ↦ absurd (failed_not_done (rw (f, open_connections) at e))
  | inl (inr f) ↦ absurd (failed_not_done (rw (f, open_connections) at e))
  | inr f ↦
      push-Opens h n ns (open_connections opens h (i + 1) ns) r
        (open_connections-Opens opens h (i + 1) ns) (rw (f, open_connections) at e)
]

new_session-done :
    (id : Bytes) (file : NodeId) (size : ℕ) (h : StreamHeader) (nodes : List StorageNodeAddr)
    (o : Outcome (List Connection × List NodeId)) (s : StreamUploadSession)
    → ((q : List Connection × List NodeId) → o ≡ done q → Opens h nodes q)
    → new_session id file size o ≡ done s
    → s ≡ session_to id file size h nodes
new_session-done id file size h nodes (done (cs, ids)) s f e =
    sym (done_injective e)
    ∙ ap
        (λ q. record {
          session_id = id;
          file_id = file;
          size = size;
          connections = q.0;
          node_ids = q.1;
          bytes_written = 0;
        })
        (f (cs, ids) refl)
new_session-done id file size h nodes (failed d) s f e = absurd cc
new_session-done id file size h nodes panicked s f e = absurd cc

-- An opened session has a connection to each node that the master names, in the order of its
-- answer, on which the header was sent.
pub open_session-done :
    (opens : ℕ → Opening) (file : NodeId) (size : ℕ) (ready : StreamUploadReadyResponse)
    (s : StreamUploadSession)
    → open_session opens file size ready ≡ done s
    → (n : StorageNodeAddr) × (ns : List StorageNodeAddr) × (ready.storage_nodes ≡ n ∷ ns)
      × (s ≡ session_to ready.session_id file size (upload_header ready.session_id size) (n ∷ ns))
unfolding open_session
open_session-done opens file size ready s e = elim (Bool-cases ready.success) [
  | inr f ↦ absurd (failed_not_done (rw (f, open_session) at e))
  | inl f ↦ elim (List-cases ready.storage_nodes) [
    | inl g ↦ absurd (failed_not_done (rw (f, g, open_session) at e))
    | inr (n, ns, g) ↦ (
      n,
      ns,
      g,
      new_session-done ready.session_id file size (upload_header ready.session_id size) (n ∷ ns)
          (open_connections opens (upload_header ready.session_id size) 0 (n ∷ ns)) s
          (open_connections-Opens opens _ 0 (n ∷ ns)) (rw (f, g, open_session) at e),
    )
  ]
]
