-- ===== src/Streaming/Session/Expiry.antt =====
-- What the methods of backend/dfs/streaming/session.go promise one another.
use distributed_file_system.Prelude.{
  ℕ, ◌+◌, ◌≤◌, ◌≡◌, none, some, Bytes, arith, leb, if◌then◌else◌, bytes_eq, bytes_beq_iff, ◌==◌,
}
use distributed_file_system.Prelude.Map.{
  lookup, lookup-insert, lookup-delete, lookup-prune, IsMap, insert-IsMap, delete-IsMap,
  prune-IsMap,
}
use distributed_file_system.Common.Types.{NodeId}
use distributed_file_system.Streaming.Session.{
  UploadSession, SessionManager, session_timeout, is_expired, add_session, create_session,
  get_session, remove_session, cleanup_expired,
}

pub get_session-add_session :
    (now : ℕ) (id : Bytes) (s : UploadSession) (m : SessionManager)
    → get_session now id (add_session s m) ≡ (
        if s.session_id == id
        then (if is_expired now s then none else some s)
        else get_session now id m)
unfolding get_session add_session
get_session-add_session now id s m = ground (arith, lookup-insert s.session_id id s m.sessions)

-- A created session is found under its identifier for five minutes and no longer, and every other
-- session is found as before.
pub get_session-create_session :
    (new_id : Bytes) (now later : ℕ) (file : NodeId) (name content : Bytes) (size : ℕ)
    (m : SessionManager) (id : Bytes)
    → let (m', s) = create_session new_id now file name content size m in
      get_session later id m' ≡ (
        if new_id == id
        then (if leb later (now + session_timeout) then some s else none)
        else get_session later id m)
unfolding get_session create_session
get_session-create_session new_id now later file name content size m id =
    let s = (create_session new_id now file name content size m).1 in
    ground (arith, lookup-insert new_id id s m.sessions, bytes_beq_iff new_id id)

get_session-remove_session :
    (now : ℕ) (id k : Bytes) (m : SessionManager)
    → get_session now k (remove_session id m) ≡ (if id == k then none else get_session now k m)
unfolding get_session remove_session
get_session-remove_session now id k m = ground (arith, lookup-delete id k m.sessions)

-- If no identifier stands twice, cleaning up is invisible: at the time of the cleanup and later,
-- every session is found exactly as if it had not run.
pub get_session-cleanup_expired :
    (m : SessionManager) (now later : ℕ) (id : Bytes)
    → IsMap m.sessions
    → now ≤ later
    → get_session later id (cleanup_expired now m) ≡ get_session later id m
unfolding get_session cleanup_expired
get_session-cleanup_expired m now later id d h =
    ground (arith, lookup-prune (λ _ s. is_expired now s) id m.sessions d)

-- If no identifier stands twice, what is left after a cleanup is exactly what had not expired.
cleanup_expired_complete :
    (m : SessionManager) (now : ℕ) (id : Bytes)
    → IsMap m.sessions
    → lookup id (cleanup_expired now m).sessions ≡ get_session now id m
unfolding get_session cleanup_expired
cleanup_expired_complete m now id d =
    ground (arith, lookup-prune (λ _ s. is_expired now s) id m.sessions d)

-- Every method keeps the identifiers distinct.
pub sessions-IsMap :
    (m : SessionManager) (s : UploadSession) (id : Bytes) (now : ℕ)
    → IsMap m.sessions
    → IsMap (add_session s m).sessions
      × IsMap (remove_session id m).sessions
      × IsMap (cleanup_expired now m).sessions
unfolding add_session remove_session cleanup_expired
sessions-IsMap m s id now d = (
  insert-IsMap s.session_id s m.sessions d,
  delete-IsMap id m.sessions d,
  prune-IsMap (λ _ t. is_expired now t) m.sessions d,
)
