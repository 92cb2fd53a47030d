-- ===== src/Api/Auth/Tokens.antt =====
-- What a login lets pass: backend/internal/services/auth_service.go against
-- backend/internal/middleware/auth.go.
use distributed_file_system.Prelude.{ℕ, ◌≡◌, true, Option, some, Bytes, bytes_eq, All, ◌<◌}
use distributed_file_system.Prelude.Map.{Map, lookup}
use distributed_file_system.Api.{UserClaims}
use distributed_file_system.Api.Auth.{
  User, row, UserTable, Bcrypt, Jwt, Uuid, Claim, text, LoginUserRequest, AuthResponse,
  require_auth,
}

abbrev pub claims_of : User → UserClaims
claims_of u = record { user_id = u.id; username = u.username; email = u.email; role = u.role }

module _ (jwt : Jwt) (uuid : Uuid) (secret : Bytes) {Db S R : Type 0} (table : UserTable Db)
    (bcrypt : Bcrypt) (next : Option UserClaims → S → S × AuthResponse R) (s : S) where
  -- The token lets in the user whose email and password the request has.
  abbrev pub LetsIn : LoginUserRequest → Db → ℕ → Bytes → Type 0
  LetsIn req db later t =
      (u : User) × (table.select_by_email db req.email ≡ row u)
      × (bcrypt.compare_hash_and_password u.password_hash req.password ≡ true)
      × (require_auth jwt uuid secret later (some t) next s ≡ next (some (claims_of u)) s)

-- A text of ASCII characters, which JSON keeps.
abbrev pub IsAscii : Bytes → Type 0
IsAscii = All (λ b. b < 128)

abbrev pub HasAscii : Uuid → User → Type 0
HasAscii uuid u =
    IsAscii (uuid.to_string u.id) × IsAscii u.username × IsAscii u.email × IsAscii u.role

-- The texts of some claims are among the claims of a token.
abbrev pub Keeps : Map Bytes Claim → Map Bytes Claim → Type 0
Keeps m m' = (k x : Bytes) → lookup k m ≡ some (text x) → lookup k m' ≡ some (text x)
