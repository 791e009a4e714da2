-- ===== src/Tests/Signing.antt =====
-- A registration and a login, with a hash that keeps the password and a token that keeps its
-- claims.
use terrible_naming_conventi.Base.{
  ℕ, ◌<◌, ◌≡◌, refl, Option, none, some, Bool, true, false, [], ◌∷◌, ltb, lt→ltb, codes, length,
  take, drop, ◌++◌, ap, same_text, same_text_refl, if◌then◌else◌, arith,
}
use terrible_naming_conventi.Errors.{ok}
use terrible_naming_conventi.Models.{Db, User, Fresh, Text}
use terrible_naming_conventi.Auth.{Passwords, Claims, Tokens, new_user, register}
use terrible_naming_conventi.Auth.Login.{HasUniqueEmails, IsRecognised, login-register}
use terrible_naming_conventi.Tests.Accounts.{ann, office}

abbrev check : Text → Text → Bool
check password [] = false
check password (salt ∷ hashed) = same_text password hashed

abbrev plain : Passwords
plain = record {
  hash = λ salt password. salt ∷ password;
  verify = check;
  verify-hash = λ salt password. same_text_refl password;
}

-- a text before another, by its length
abbrev joined : Text → Text → Text
joined s t = length s ∷ (s ++ t)

abbrev before : Text → Text
before [] = []
before (n ∷ s) = take n s

abbrev after : Text → Text
after [] = []
after (n ∷ s) = drop n s

before_law : (s t : Text) → take (length s) (s ++ t) ≡ s
before_law [] t = refl
before_law (c ∷ s) t = ap (λ r. c ∷ r) (before_law s t)

after_law : (s t : Text) → drop (length s) (s ++ t) ≡ t
after_law [] t = refl
after_law (c ∷ s) t = after_law s t

-- the expiry, the subject and the role
abbrev write : Claims → Text
write c = c.exp ∷ joined c.sub c.role

abbrev read : ℕ → Text → Option Claims
read now [] = none
read now (exp ∷ token) =
    if ltb now exp
    then some (record { sub = before token; role = after token; exp = exp })
    else none

read_law : (now : ℕ) (c : Claims) → now < c.exp → read now (write c) ≡ some c
read_law now c h =
    let valid : ltb now c.exp ≡ true = lt→ltb now c.exp h in
    rw (valid, before_law c.sub c.role, after_law c.sub c.role) refl

abbrev first : Text → Option ℕ
first [] = none
first (c ∷ s) = some c

abbrev written : Tokens
written = record {
  encode = write;
  decode = read;
  uuid_str = λ id. id ∷ [];
  uuid = first;
  decode-encode = read_law;
  uuid-str = λ id. refl;
}

abbrev row : Fresh
row = record { id = 2; now = 0 }

abbrev bob : User
bob = new_user plain written row 9 (codes "b@x") (codes "password")

abbrev office_with_bob : Db
office_with_bob = record office { users = ann ∷ bob ∷ [] }

registered :
    register plain written row 9 (codes "b@x") (codes "password") office ≡ ok (bob, office_with_bob)
unfolding register
registered = refl

login-register_example :
    IsRecognised plain written 60 100 120 (codes "b@x") (codes "password") bob office_with_bob
login-register_example =
    login-register plain written 60 100 120 row 9 (codes "b@x") (codes "password") office registered
      refl (omega arith)

unique : HasUniqueEmails office
unique e = ground arith
