-- ===== src/Api/Auth.antt =====
-- backend/internal/middleware/auth.go, backend/internal/services/auth_service.go and
-- backend/internal/handlers/auth_handler.go: registration, login and the guard of the handlers.
--
-- bcrypt, github.com/golang-jwt/jwt and github.com/google/uuid are records of the functions that the
-- source calls; times are in seconds.
pub mod Tokens
use distributed_file_system.Prelude.{
  ℕ, ◌+◌, ◌*◌, Bool, true, false, List, [], ◌∷◌, Option, none, some, Bytes, bytes_eq, codes, ◌==◌,
  if◌then◌else◌,
}
use distributed_file_system.Prelude.Map.{Map, lookup}
use distributed_file_system.Common.Types.{NodeId}
use distributed_file_system.Api.{UserClaims, guarded, admin}

pub record User : Type 0 where
  pub id : NodeId
  pub username : Bytes
  pub email : Bytes
  pub password_hash : Bytes
  pub role : Bytes
  pub created_at : ℕ
  pub updated_at : ℕ

pub record RegisterUserRequest : Type 0 where
  pub username : Bytes
  pub email : Bytes
  pub password : Bytes

pub record LoginUserRequest : Type 0 where
  pub email : Bytes
  pub password : Bytes

-- What a query for one row gives.
pub data Selected : Type 0 where
  no_rows query_failed : Selected
  row : User → Selected

pub record UserTable (Db : Type 0) : Type 0 where
  pub insert_user : Db → User → Db × Bool
  pub select_by_email : Db → Bytes → Selected
  pub select_by_id : Db → NodeId → Selected

pub record Bcrypt : Type 0 where
  pub generate_from_password : Bytes → Option Bytes
  pub compare_hash_and_password : Bytes → Bytes → Bool

-- A value of `jwt.MapClaims`.
pub data Claim : Type 0 where
  text : Bytes → Claim
  number : ℕ → Claim

pub data SigningMethod : Type 0 where
  hmac other_method : SigningMethod

-- `claims` is empty if they are not `jwt.MapClaims`.
pub record Token : Type 0 where
  pub valid : Bool
  pub claims : Option (Map Bytes Claim)

-- `parse` is at a time, and asks for the key to a method.
pub record Jwt : Type 0 where
  pub signed_string : Bytes → Map Bytes Claim → Option Bytes
  pub parse : ℕ → Bytes → (SigningMethod → Option Bytes) → Option Token

pub record Uuid : Type 0 where
  pub to_string : NodeId → Bytes
  pub parse : Bytes → Option NodeId

-- How `validateToken` ends: an error, or claims that may be nil, or a panic.
pub data Validated : Type 0 where
  invalid validation_panics : Validated
  validated : Option UserClaims → Validated

pub data Login : Type 0 where
  invalid_credentials login_failed : Login
  signed : Bytes → Login

pub data UserFound : Type 0 where
  user_not_found user_failed : UserFound
  user : User → UserFound

pub data AuthReason : Type 0 where
  not_authenticated invalid_token admin_required bad_method invalid_body : AuthReason
  register_failed wrong_credentials login_error no_such_user user_error : AuthReason

abbrev pub auth_status : AuthReason → ℕ
auth_status not_authenticated = 401
auth_status invalid_token = 401
auth_status admin_required = 403
auth_status bad_method = 405
auth_status invalid_body = 400
auth_status wrong_credentials = 401
auth_status no_such_user = 404
auth_status _ = 500

-- A login sets the cookie with the token; what a guarded handler gives is its own.
pub data AuthResponse (R : Type 0) : Type 0 where
  denied : AuthReason → AuthResponse R
  registered : AuthResponse R
  logged_in : Bytes → AuthResponse R
  me : User → AuthResponse R
  served : R → AuthResponse R
  panics : AuthResponse R

-- `[]byte(m.jwtSecret)`, for a method of HMAC only.
abbrev pub key_for : Bytes → SigningMethod → Option Bytes
key_for secret hmac = some secret
key_for secret other_method = none

abbrev pub text_of : Option Claim → Option Bytes
text_of (some (text t)) = some t
text_of _ = none

-- The three assertions without a test panic at a claim that is missing or no text.
abbrev pub built : NodeId → Option Bytes → Option Bytes → Option Bytes → Validated
built id (some name) (some email) (some role) =
    validated (some (record { user_id = id; username = name; email = email; role = role }))
built id _ _ _ = validation_panics

module _ (jwt : Jwt) (uuid : Uuid) (secret : Bytes) where
  unfoldable pub claims_of_map : Map Bytes Claim → Validated
  claims_of_map m = elim (text_of (lookup (codes "userID") m)) [
    | none ↦ invalid
    | some t ↦ elim (uuid.parse t) [
      | none ↦ invalid
      | some id ↦
          built id (text_of (lookup (codes "username") m)) (text_of (lookup (codes "email") m))
            (text_of (lookup (codes "role") m))
    ]
  ]

  -- A token that is not valid comes without an error, so that `nil, err` is no error.
  unfoldable pub validate_token : ℕ → Bytes → Validated
  unfolding claims_of_map
  validate_token now t = elim (jwt.parse now t (key_for secret)) [
    | none ↦ invalid
    | some token ↦
        if token.valid
        then elim token.claims [ none ↦ invalid | some m ↦ claims_of_map m ]
        else validated none
  ]

  unfoldable pub require_auth :
      {S R : Type 0}
      → ℕ
      → Option Bytes
      → (Option UserClaims → S → S × AuthResponse R)
      → S
      → S × AuthResponse R
  require_auth now none next s = (s, denied not_authenticated)
  require_auth now (some cookie) next s = elim (validate_token now cookie) [
    | invalid ↦ (s, denied invalid_token)
    | validation_panics ↦ (s, panics)
    | validated claims ↦ next claims s
  ]

  abbrev pub admin_only :
      {S R : Type 0}
      → (Option UserClaims → S → S × AuthResponse R)
      → Option UserClaims
      → S
      → S × AuthResponse R
  admin_only next none s = (s, denied admin_required)
  admin_only next (some c) s =
      if c.role == admin then next (some c) s else (s, denied admin_required)

  unfoldable pub require_admin :
      {S R : Type 0}
      → ℕ
      → Option Bytes
      → (Option UserClaims → S → S × AuthResponse R)
      → S
      → S × AuthResponse R
  require_admin now cookie next s = require_auth now cookie (admin_only next) s

abbrev pub new_user : RegisterUserRequest → Bytes → User
new_user req password_hash = record {
  id = 0;
  username = req.username;
  email = req.email;
  password_hash = password_hash;
  role = codes "user";
  created_at = 0;
  updated_at = 0;
}

-- A token holds for a day.
abbrev pub login_claims : Uuid → ℕ → User → Map Bytes Claim
login_claims uuid now u =
    (codes "userID", text (uuid.to_string u.id))
    ∷ (codes "username", text u.username)
    ∷ (codes "email", text u.email)
    ∷ (codes "role", text u.role)
    ∷ (codes "exp", number (now + 24 * 3600))
    ∷ []

module _ {Db : Type 0} (table : UserTable Db) (bcrypt : Bcrypt) where
  unfoldable pub register_user : RegisterUserRequest → Db → Db × Bool
  register_user req db = elim (bcrypt.generate_from_password req.password) [
    | none ↦ (db, false)
    | some hash ↦ table.insert_user db (new_user req hash)
  ]

  unfoldable pub login_user : Jwt → Uuid → Bytes → ℕ → LoginUserRequest → Db → Login
  login_user jwt uuid secret now req db = elim (table.select_by_email db req.email) [
    | no_rows ↦ invalid_credentials
    | query_failed ↦ login_failed
    | row u ↦
        if bcrypt.compare_hash_and_password u.password_hash req.password
        then elim (jwt.signed_string secret (login_claims uuid now u)) [
          | none ↦ login_failed
          | some t ↦ signed t
        ]
        else invalid_credentials
  ]

  -- The query asks for no password hash and for no times.
  unfoldable pub get_user_by_id : NodeId → Db → UserFound
  get_user_by_id id db = elim (table.select_by_id db id) [
    | no_rows ↦ user_not_found
    | query_failed ↦ user_failed
    | row u ↦ user (record u { password_hash = []; created_at = 0; updated_at = 0 })
  ]

  -- `RegisterUser` of the handler, for a body that may not parse.
  unfoldable pub handle_register :
      {R : Type 0} → Bool → Option RegisterUserRequest → Db → Db × AuthResponse R
  handle_register false body db = (db, denied bad_method)
  handle_register true none db = (db, denied invalid_body)
  handle_register true (some req) db =
      let done = register_user req db in
      (done.0, if done.1 then registered else denied register_failed)

  unfoldable pub handle_login :
      {R : Type 0} → Jwt → Uuid → Bytes → ℕ → Bool → Option LoginUserRequest → Db → AuthResponse R
  handle_login jwt uuid secret now false body db = denied bad_method
  handle_login jwt uuid secret now true none db = denied invalid_body
  handle_login jwt uuid secret now true (some req) db =
      elim (login_user jwt uuid secret now req db) [
        | invalid_credentials ↦ denied wrong_credentials
        | login_failed ↦ denied login_error
        | signed t ↦ logged_in t
      ]

  unfoldable pub get_me : {R : Type 0} → Bool → Option UserClaims → Db → Db × AuthResponse R
  get_me false claims db = (db, denied bad_method)
  get_me true none db = (db, denied not_authenticated)
  get_me true (some c) db = elim (get_user_by_id c.user_id db) [
    | user_not_found ↦ (db, denied no_such_user)
    | user_failed ↦ (db, denied user_error)
    | user u ↦ (db, me u)
  ]
