-- ===== src/Auth/Domain.antt =====
-- service/auth/internal/domain, and the tables of migrations/auth that the service uses. Passwords,
-- hashes and tokens are strings, times are nanoseconds. The table of organizers is left out: no
-- statement of the service names it.
use ticketbus.Base.{ℕ, Uuid, String, Option, List}
use ticketbus.Db.{Action}

-- The last three are the errors of bcrypt, of the signing and of the random source.
pub data Error : Type 0 where
  user_exists invalid_credentials user_not_found token_not_found token_expired : Error
  internal_server not_hashed not_signed not_drawn : Error

pub record User : Type 0 where
  pub id : Uuid
  pub email : String
  pub password_hash : String
  pub name : String
  pub role : String
  pub created_at : ℕ
  pub updated_at : ℕ

pub record RefreshToken : Type 0 where
  pub id : Uuid
  pub user_id : Uuid
  pub token_hash : String
  pub expires_at : ℕ
  pub created_at : ℕ

pub record TokenPair : Type 0 where
  pub access_token : String
  pub refresh_token : String
  pub expires_in : ℕ

-- An id that a token does not give is the empty string.
pub record Claims : Type 0 where
  pub user_id : Option Uuid
  pub email : String
  pub role : String

pub record Tables : Type 0 where
  pub users : List User
  pub refresh_tokens : List RefreshToken

abbrev pub Auth : Type 0 → Type 0
Auth A = Action Tables Error A

abbrev pub user_key : User → Uuid
user_key u = u.id

abbrev pub token_key : RefreshToken → Uuid
token_key r = r.id
