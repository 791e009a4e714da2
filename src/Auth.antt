-- ===== src/Auth.antt =====
-- Accounts and tokens: backend/app/services/auth.py, backend/app/core/security.py and
-- `get_current_user` of backend/app/core/dependencies.py. The password hash, the token and the text
-- of a UUID are the parameters `Passwords` and `Tokens`. Times are in minutes.
pub mod Login
use terrible_naming_conventi.Base.{
  ℕ, ◌+◌, ◌<◌, ◌≡◌, Option, none, some, Bool, true, false, not, List, [], ◌∷◌, ◌++◌, find, ◌==◌,
  same_text, codes, if◌then◌else◌, map,
}
use terrible_naming_conventi.Errors.{
  Error, Result, ok, err, raise_if, or_raise, ◌>>=◌, ◌>>◌, duplicate_email, invalid_credentials,
  user_not_found, http_exception,
}
use terrible_naming_conventi.Models.{Db, User, Fresh, Text}
use terrible_naming_conventi.Teams.{is_some}

-- What bcrypt promises: a hash with any salt verifies its password.
pub record Passwords : Type 0 where
  pub hash : ℕ → Text → Text
  pub verify : Text → Text → Bool
  pub verify-hash : (salt : ℕ) (password : Text) → verify password (hash salt password) ≡ true

pub record Claims : Type 0 where
  pub sub : Text
  pub role : Text
  pub exp : ℕ

-- What PyJWT and the UUID class promise: a token is decoded to its claims until it expires, and
-- `UUID(str(id))` is the id.
pub record Tokens : Type 0 where
  pub encode : Claims → Text
  pub decode : ℕ → Text → Option Claims
  pub uuid_str : ℕ → Text
  pub uuid : Text → Option ℕ
  pub decode-encode :
      (now : ℕ) (claims : Claims) → now < claims.exp → decode now (encode claims) ≡ some claims
  pub uuid-str : (id : ℕ) → uuid (uuid_str id) ≡ some id

abbrev pub has_email : Text → User → Bool
has_email email u = same_text u.email email

abbrev pub has_id : ℕ → User → Bool
has_id id u = u.id == id

module _ (passwords : Passwords) (tokens : Tokens) where
  -- the new row, with the defaults of its columns
  abbrev pub new_user : Fresh → ℕ → Text → Text → User
  new_user fresh salt email password = record {
    id = fresh.id;
    email = email;
    hashed_password = passwords.hash salt password;
    role = codes "member";
    is_active = true;
    created_at = fresh.now;
  }

  unfoldable pub register : Fresh → ℕ → Text → Text → Db → Result (User × Db)
  register fresh salt email password db = do
    raise_if (is_some (find (has_email email) db.users)) duplicate_email
    let user = new_user fresh salt email password
    ok (user, record db { users = db.users ++ user ∷ [] })

  -- `create_access_token`, with `settings.jwt_expire_minutes`
  unfoldable pub create_access_token : ℕ → ℕ → ℕ → Text → Text
  create_access_token jwt_expire_minutes now user_id role =
      tokens.encode
        (record { sub = tokens.uuid_str user_id; role = role; exp = now + jwt_expire_minutes })

  unfoldable pub login : ℕ → ℕ → Text → Text → Db → Result Text
  unfolding create_access_token
  login jwt_expire_minutes now email password db = do
    user ← or_raise (find (has_email email) db.users) invalid_credentials
    raise_if (not (passwords.verify password user.hashed_password)) invalid_credentials
    ok (create_access_token jwt_expire_minutes now user.id user.role)

  -- `get_by_id` of the service
  unfoldable pub get_user : ℕ → Db → Result User
  get_user user_id db = or_raise (find (has_id user_id) db.users) user_not_found

  -- `get_current_user` from the token of the bearer header
  unfoldable pub get_current_user : ℕ → Text → Db → Result User
  get_current_user now token db = do
    payload ← or_raise (tokens.decode now token) (http_exception 401)
    user_id ← or_raise (tokens.uuid payload.sub) (http_exception 401)
    or_raise (find (has_id user_id) db.users) (http_exception 401)
