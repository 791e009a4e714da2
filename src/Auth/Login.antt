-- ===== src/Auth/Login.antt =====
-- Registering, logging in and being recognised (backend/app/services/auth.py).
use terrible_naming_conventi.Base.{
  ℕ, ◌+◌, ◌<◌, ◌≤◌, ◌≡◌, refl, subst, none, Bool-cases, inl, inr, [], ◌∷◌, ◌++◌, find, find-none,
  find-append, count, count-append, same_text, same_text_refl, same_text_eq, arith,
}
use terrible_naming_conventi.Errors.{
  ok, raise_if, raise_if-ok, >>=-inverse, ok-injective, duplicate_email,
}
use terrible_naming_conventi.Models.{Db, User, Fresh, Text}
use terrible_naming_conventi.Teams.{is_some, is_some-none}
use terrible_naming_conventi.Auth.{
  Passwords, Claims, Tokens, has_email, has_id, new_user, register, create_access_token, login,
  get_current_user,
}

-- No two users have one address.
abbrev pub HasUniqueEmails : Db → Type 0
HasUniqueEmails db = (email : Text) → count (has_email email) db.users ≤ 1

module _ (passwords : Passwords) (tokens : Tokens) where
  abbrev with_user : User → Db → Db
  with_user user db = record db { users = db.users ++ user ∷ [] }

  abbrev entry : Fresh → ℕ → Text → Text → Db → User × Db
  entry fresh salt email password db =
      let user = new_user passwords tokens fresh salt email password in (user, with_user user db)

  -- What a registration that succeeds has found and leaves.
  record IsRegistered (fresh : Fresh) (salt : ℕ) (email password : Text) (db : Db) (user : User)
      (db' : Db) : Type 0 where
    absent : find (has_email email) db.users ≡ none
    added : entry fresh salt email password db ≡ (user, db')

  register-IsRegistered :
      (fresh : Fresh) (salt : ℕ) (email password : Text) (db : Db) {user : User} {db' : Db}
      → register passwords tokens fresh salt email password db ≡ ok (user, db')
      → IsRegistered fresh salt email password db user db'
  unfolding register
  register-IsRegistered fresh salt email password db h =
      let (u, absent, h1) =
        >>=-inverse (raise_if (is_some (find (has_email email) db.users)) duplicate_email) _ h in
      record {
        absent =
            is_some-none (find (has_email email) db.users)
              (raise_if-ok (is_some (find (has_email email) db.users)) duplicate_email absent);
        added = ok-injective h1;
      }

  -- The login gives a token that is read back as the user.
  abbrev pub IsRecognised : ℕ → ℕ → ℕ → Text → Text → User → Db → Type 0
  IsRecognised expire now later email password user db =
      (token : Text) × (login passwords tokens expire now email password db ≡ ok token)
      × (get_current_user passwords tokens later token db ≡ ok user)

  recognised :
      (expire now later : ℕ) (fresh : Fresh) (salt : ℕ) (email password : Text) (db : Db)
      → find (has_email email) db.users ≡ none
      → find (has_id fresh.id) db.users ≡ none
      → later < now + expire
      → IsRecognised expire now later email password
          (new_user passwords tokens fresh salt email password)
          (with_user (new_user passwords tokens fresh salt email password) db)
  unfolding login get_current_user create_access_token
  recognised expire now later fresh salt email password db absent new valid =
      let user = new_user passwords tokens fresh salt email password in
      let claims : Claims = record {
        sub = tokens.uuid_str fresh.id;
        role = user.role;
        exp = now + expire;
      } in
      let by_email = find-append (has_email email) db.users user absent (same_text_refl email) in
      let by_id = find-append (has_id fresh.id) db.users user new (ground arith) in
      (
        tokens.encode claims,
        rw (by_email, passwords.verify-hash salt password) refl,
        rw (tokens.decode-encode later claims valid, tokens.uuid-str fresh.id, by_id) refl,
      )

  -- After a registration that succeeds, under an id that no user had, a login with the same address
  -- and password gives a token which, until it expires, is recognised as the new user.
  pub login-register :
      (expire now later : ℕ) (fresh : Fresh) (salt : ℕ) (email password : Text) (db : Db)
      {user : User} {db' : Db}
      → register passwords tokens fresh salt email password db ≡ ok (user, db')
      → find (has_id fresh.id) db.users ≡ none
      → later < now + expire
      → IsRecognised expire now later email password user db'
  login-register expire now later fresh salt email password db h new valid =
      let registered = register-IsRegistered fresh salt email password db h in
      subst (λ (r : User × Db). IsRecognised expire now later email password r.0 r.1)
        registered.added
        (recognised expire now later fresh salt email password db registered.absent new valid)

  unique_lem :
      (fresh : Fresh) (salt : ℕ) (email password e : Text) (db : Db)
      → find (has_email email) db.users ≡ none
      → count (has_email e) db.users ≤ 1
      → count (has_email e) (db.users ++ new_user passwords tokens fresh salt email password ∷ [])
        ≤ 1
  unique_lem fresh salt email password e db absent unique =
      let user = new_user passwords tokens fresh salt email password in
      let appended = count-append (has_email e) db.users (user ∷ []) in
      elim (Bool-cases (same_text email e)) [
        | inl same ↦
            let none_yet : count (has_email e) db.users ≡ 0 =
              subst (λ x. count (has_email x) db.users ≡ 0) (same_text_eq email e same)
                (find-none (has_email email) db.users absent) in
            ground (arith, appended, none_yet)
        | inr other ↦ ground (arith, appended, unique)
      ]

  -- A registration that succeeds keeps the addresses unique.
  pub register-HasUniqueEmails :
      (fresh : Fresh) (salt : ℕ) (email password : Text) (db : Db) {user : User} {db' : Db}
      → HasUniqueEmails db
      → register passwords tokens fresh salt email password db ≡ ok (user, db')
      → HasUniqueEmails db'
  register-HasUniqueEmails fresh salt email password db unique h =
      let registered = register-IsRegistered fresh salt email password db h in
      subst (λ (r : User × Db). HasUniqueEmails r.1) registered.added
        (λ e. unique_lem fresh salt email password e db registered.absent (unique e))
