-- ===== src/Streaming/Session.antt =====
-- backend/dfs/streaming/session.go: the upload sessions that a storage node waits for.
--
-- The mutex makes each method one step. `now` is the time of the call, `uuid.New().String()` the
-- identifier it is given. A session is only read after it is stored, so the map holds values.
pub mod Expiry
use distributed_file_system.Prelude.{
  ℕ, ◌-◌, ◌*◌, Bool, true, false, [], Option, none, some, Bytes, ltb, if◌then◌else◌, bytes_eq,
}
use distributed_file_system.Prelude.Map.{Map, lookup, insert, delete, prune}
use distributed_file_system.Common.Types.{NodeId, second}

abbrev pub session_timeout : ℕ
session_timeout = 5 * 60 * second

pub record UploadSession : Type 0 where
  pub session_id : Bytes
  pub file_id : NodeId
  pub filename : Bytes
  pub content_type : Bytes
  pub size : ℕ
  pub created_at : ℕ

pub record SessionManager : Type 0 where
  pub sessions : Map Bytes UploadSession

unfoldable pub new_session_manager : SessionManager
new_session_manager = record { sessions = [] }

-- `time.Since(session.CreatedAt) > SessionTimeout`
unfoldable pub is_expired : ℕ → UploadSession → Bool
is_expired now s = ltb session_timeout (now - s.created_at)

unfoldable pub add_session : UploadSession → SessionManager → SessionManager
add_session s m = record m { sessions = insert s.session_id s m.sessions }

unfoldable pub create_session :
    Bytes → ℕ → NodeId → Bytes → Bytes → ℕ → SessionManager → SessionManager × UploadSession
create_session new_id now file name content size m =
    let s : UploadSession = record {
      session_id = new_id;
      file_id = file;
      filename = name;
      content_type = content;
      size = size;
      created_at = now;
    } in
    (record m { sessions = insert new_id s m.sessions }, s)

unfoldable pub get_session : ℕ → Bytes → SessionManager → Option UploadSession
unfolding is_expired
get_session now id m = elim (lookup id m.sessions) [
  | none ↦ none
  | some s ↦ if is_expired now s then none else some s
]

unfoldable pub remove_session : Bytes → SessionManager → SessionManager
remove_session id m = record m { sessions = delete id m.sessions }

unfoldable pub cleanup_expired : ℕ → SessionManager → SessionManager
unfolding is_expired
cleanup_expired now m = record m { sessions = prune (λ _ s. is_expired now s) m.sessions }
