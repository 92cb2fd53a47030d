-- ===== src/Examples/Logins.antt =====
-- A login and the request that its token lets in.
use distributed_file_system.Prelude.{
  ℕ, ◌+◌, ◌*◌, true, [], ◌∷◌, ◌++◌, Option, none, some, Bytes, codes, leb, ◌==◌, if◌then◌else◌,
  nat_eq, bytes_eq, length, replicate,
}
use distributed_file_system.Prelude.Map.{Map, lookup}
use distributed_file_system.Api.Auth.{
  User, row, no_rows, UserTable, Bcrypt, Jwt, Uuid, Claim, text, number, Token, text_of, hmac,
  LoginUserRequest,
}

abbrev person : User
person = record {
  id = 4;
  username = codes "u";
  email = codes "e";
  password_hash = codes "p";
  role = codes "user";
  created_at = 0;
  updated_at = 0;
}

abbrev one_user : UserTable ℕ
one_user = record {
  insert_user = λ db u. (db, true);
  select_by_email = λ db email. if email == person.email then row person else no_rows;
  select_by_id = λ db id. if id == person.id then row person else no_rows;
}

abbrev plain : Bcrypt
plain = record { generate_from_password = λ p. some p; compare_hash_and_password = λ h p. h == p }

-- The text of an identifier is as many digits.
abbrev ids : Uuid
ids = record { to_string = λ id. replicate id 48; parse = λ t. some (length t) }

abbrev separator : ℕ
separator = 200

-- The text before the first separator, and the rest.
unfoldable split : Bytes → Bytes × Bytes
split [] = ([], [])
split (c ∷ cs) = let rest = split cs in if c == separator then ([], cs) else (c ∷ rest.0, rest.1)

abbrev login : LoginUserRequest
login = record { email = codes "e"; password = codes "p" }

-- The texts of a login behind one another, and the end.
abbrev written :
    Bytes → Option Bytes → Option Bytes → Option Bytes → Option Bytes → Option Claim → Option Bytes
written secret (some i) (some n) (some e) (some r) (some (number end)) = some (
    secret
    ++ separator
      ∷ (i ++ separator ∷ (n ++ separator ∷ (e ++ separator ∷ (r ++ separator ∷ end ∷ [])))))
written secret _ _ _ _ _ = none

abbrev claims_from : Bytes → Bytes → Bytes → Bytes → Map Bytes Claim
claims_from i n e r =
    (codes "userID", text i)
    ∷ (codes "username", text n)
    ∷ (codes "email", text e)
    ∷ (codes "role", text r)
    ∷ []

-- The last part is the end.
abbrev until : ℕ → Map Bytes Claim → Bytes → Option Token
until now m [] = none
until now m (end ∷ rest) =
    if leb now end then some (record { valid = true; claims = some m }) else none

abbrev read_parts : ℕ → Bytes → Option Token
read_parts now t =
    let a = split t in
    let b = split a.1 in
    let c = split b.1 in let d = split c.1 in until now (claims_from a.0 b.0 c.0 d.0) d.1

abbrev read : ℕ → Bytes → Bytes → Option Token
read now secret t = if (split t).0 == secret then read_parts now (split t).1 else none

-- Tokens that hold the secret, the texts of a login and its end.
abbrev tokens : Jwt
tokens = record {
  signed_string = λ secret m.
      written secret (text_of (lookup (codes "userID") m)) (text_of (lookup (codes "username") m))
        (text_of (lookup (codes "email") m)) (text_of (lookup (codes "role") m))
        (lookup (codes "exp") m);
  parse = λ now t key. elim (key hmac) [ none ↦ none | some k ↦ read now k t ];
}

abbrev parts_of : ℕ → User → Bytes
parts_of now u =
    ids.to_string u.id
    ++ separator
      ∷ (u.username
          ++ separator ∷ (u.email ++ separator ∷ (u.role ++ separator ∷ (now + 24 * 3600) ∷ [])))
