-- ===== src/Auth/Service.antt =====
-- service/auth/internal/application, with the adapters jwt and bcrypt. bcrypt, RSA, SHA-256, the
-- random source, the clock and the ids are fields of `Env`.
use ticketbus.Base.{
  ℕ, ◌+◌, ◌/◌, Bool, true, false, Uuid, String, Option, none, some, List, [], ◌∷◌, ⊤, ltb,
  if◌then◌else◌,
}
use ticketbus.Text.{before_at, is_empty}
use ticketbus.Db.{Result, ok, err, db_err, pure, raise, raise_if, attempt, ◌>>=◌, ◌>>◌}
use ticketbus.Auth.Domain.{
  User, RefreshToken, TokenPair, Claims, Error, user_exists, invalid_credentials, user_not_found,
  token_not_found, token_expired, not_hashed, not_signed, not_drawn, Auth,
}
use ticketbus.Auth.Repo.{
  create_user, find_by_email, find_by_id, delete_by_id, create_token, find_by_hash, delete_by_hash,
}

-- The claims of a token: `sub`, `email` and `role`, each absent where it is no string, and the times
-- in seconds.
pub record MapClaims : Type 0 where
  pub sub : Option Uuid
  pub email : Option String
  pub role : Option String
  pub exp : ℕ
  pub iat : ℕ

-- What `jwt.Parse` returns without an error.
pub record Parsed : Type 0 where
  pub valid : Bool
  pub claims : MapClaims

pub data Method : Type 0 where
  rsa hmac ecdsa unsigned : Method

pub record Env : Type 0 where
  pub now : ℕ
  -- `uuid.NewString()`
  pub id : Uuid
  -- `GenerateFromPassword`, and whether `CompareHashAndPassword` has no error.
  pub bcrypt : String → Option String
  pub matches : String → String → Bool
  -- `SignedString` with the private key.
  pub signed : MapClaims → Option String
  -- `jwt.Parse`, with the test of the method that its key function makes.
  pub parse : String → (Method → Bool) → Option Parsed
  -- 32 random bytes, and the digest of a text, each in base64.
  pub random : Option String
  pub sha256 : String → String
  pub jwt_ttl : ℕ
  pub refresh_ttl : ℕ

abbrev pub second : ℕ
second = 1000000000

abbrev pub or_error : {A : Type 0} → Error → Option A → Auth A
or_error e none = raise e
or_error e (some a) = pure a

abbrev pub or_empty : Option String → String
or_empty none = ""
or_empty (some s) = s

-- The key function accepts RSA signatures alone.
abbrev pub is_rsa : Method → Bool
is_rsa Method.rsa = true
is_rsa _ = false

abbrev pub claims_of : MapClaims → Claims
claims_of c = record { user_id = c.sub; email = or_empty c.email; role = or_empty c.role }

abbrev pub if_valid : Option Parsed → Option Claims
if_valid none = none
if_valid (some p) = if p.valid then some (claims_of p.claims) else none

module _ (env : Env) where
  abbrev pub hash : String → Auth String
  hash password = or_error not_hashed (env.bcrypt password)

  abbrev pub map_claims : User → MapClaims
  map_claims u = record {
    sub = some u.id;
    email = some u.email;
    role = some u.role;
    exp = (env.now + env.jwt_ttl) / second;
    iat = env.now / second;
  }

  abbrev pub generate_access_token : User → Auth String
  generate_access_token u = or_error not_signed (env.signed (map_claims u))

  abbrev pub generate_refresh_token : Auth String
  generate_refresh_token = or_error not_drawn env.random

  unfoldable pub verify_access_token : String → Option Claims
  verify_access_token s = if_valid (env.parse s is_rsa)

  -- The two times are Go's zero value; the schema sets those of the row.
  abbrev pub new_user : String → String → String → String → User
  new_user email password_hash name role = record {
    id = env.id;
    email = email;
    password_hash = password_hash;
    name = name;
    role = role;
    created_at = 0;
    updated_at = 0;
  }

  -- A user that is found; an error of the lookup counts as none.
  abbrev pub is_taken : Result Error User → Bool
  is_taken (ok _) = true
  is_taken (err _) = false
  is_taken (db_err _) = false

  unfoldable pub store_user : String → String → String → String → Auth User
  store_user email password name role = do
    h ← hash password
    create_user (new_user email h name role) env.now
    pure (new_user email h name role)

  unfoldable pub register : String → String → String → String → Auth User
  register email password name role = do
    existing ← attempt (find_by_email email)
    raise_if (is_taken existing) user_exists
    store_user email password name role

  -- The organizer's name, description, link and contact are not used.
  unfoldable pub register_organizer :
      String → String → String → String → String → String → String → Auth User
  register_organizer email password name organizer description link contact =
      register email password name "eo"

  abbrev pub new_token : User → String → RefreshToken
  new_token u raw = record {
    id = env.id;
    user_id = u.id;
    token_hash = env.sha256 raw;
    expires_at = env.now + env.refresh_ttl;
    created_at = env.now;
  }

  abbrev pub pair_of : String → String → TokenPair
  pair_of access refresh = record {
    access_token = access;
    refresh_token = refresh;
    expires_in = env.jwt_ttl / second;
  }

  -- The end of Login and of RefreshToken.
  unfoldable pub issue : User → Auth TokenPair
  issue u = do
    access ← generate_access_token u
    raw ← generate_refresh_token
    create_token (new_token u raw) env.now
    pure (pair_of access raw)

  abbrev pub found_user : Error → Result Error User → Auth User
  found_user e (ok u) = pure u
  found_user e (err _) = raise e
  found_user e (db_err _) = raise e

  abbrev pub check_password : String → User → Auth ⊤
  check_password password u =
      if env.matches password u.password_hash then pure tt else raise invalid_credentials

  unfoldable pub login : String → String → Auth TokenPair
  login email password = do
    looked ← attempt (find_by_email email)
    u ← found_user invalid_credentials looked
    check_password password u
    issue u

  abbrev pub found_token : Result Error RefreshToken → Auth RefreshToken
  found_token (ok r) = pure r
  found_token (err _) = raise token_not_found
  found_token (db_err _) = raise token_not_found

  -- The rest of RefreshToken, for the token that has the hash.
  unfoldable pub rotate : String → RefreshToken → Auth TokenPair
  rotate h stored = do
    raise_if (ltb stored.expires_at env.now) token_expired
    looked ← attempt (find_by_id stored.user_id)
    u ← found_user user_not_found looked
    delete_by_hash h
    issue u

  unfoldable pub refresh_token : String → Auth TokenPair
  refresh_token raw = do
    looked ← attempt (find_by_hash (env.sha256 raw))
    stored ← found_token looked
    rotate (env.sha256 raw) stored

abbrev pub get_me : Uuid → Auth User
get_me id = find_by_id id

abbrev pub delete_user : Uuid → Auth ⊤
delete_user id = delete_by_id id

pub record AdminSeed : Type 0 where
  pub email : String
  pub password : String
  pub name : String

abbrev pub seed_name : AdminSeed → String
seed_name a = if is_empty a.name then before_at a.email else a.name

-- Each seed has an `Env` of its own, for the id that it draws.
unfoldable pub store_admin : Env → String → String → String → Auth Bool
store_admin env email password name = do
  h ← hash env password
  create_user (new_user env email h name "admin") env.now
  pure true

unfoldable pub seed_one : Env → String → String → String → Auth Bool
seed_one env email password name = do
  existing ← attempt (find_by_email email)
  if is_taken env existing then pure false else store_admin env email password name

abbrev pub count_if : Bool → ℕ → ℕ
count_if true n = n + 1
count_if false n = n

-- The loop of SeedAdmins, with the number of the admins created so far; the number that the method
-- returns beside an error is only logged.
unfoldable pub seed_from : ℕ → List (Env × AdminSeed) → Auth ℕ
seed_from created [] = pure created
seed_from created ((env, a) ∷ more) = do
  made ← seed_one env a.email a.password (seed_name a)
  seed_from (count_if made created) more

unfoldable pub seed_admins : List (Env × AdminSeed) → Auth ℕ
seed_admins seeds = seed_from 0 seeds
