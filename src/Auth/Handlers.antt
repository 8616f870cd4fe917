-- ===== src/Auth/Handlers.antt =====
-- service/auth/internal/handler: the endpoints and the middleware. What JSON decodes to and what the
-- validator says are arguments.
use Prim.Native.String.{◌++◌}
use ticketbus.Base.{List, [], ◌∷◌, ℕ, Uuid, String, Option, none, some, if◌then◌else◌}
use ticketbus.Text.{cut_prefix, is_empty}
use ticketbus.Db.{Result, ok, err, db_err}
use ticketbus.Http.{
  Response, success, created, unauthorized, not_found, internal_server_error, failed, Context,
  Headers, Endpoint, answer, respond, checked,
}
use ticketbus.Auth.Domain.{
  Tables, User, TokenPair, Claims, Error, user_exists, invalid_credentials, user_not_found,
  token_not_found, token_expired, internal_server,
}
use ticketbus.Auth.Service
use ticketbus.Auth.Service.{Env, verify_access_token, get_me}

pub record RegisterRequest : Type 0 where
  pub email : String
  pub password : String
  pub name : String
  pub role : String

-- The rules of a `validate` tag, and a field with its rules. What the library makes of them is outside
-- the program.
pub data Rule : Type 0 where
  required email_rule : Rule
  min_length : ℕ → Rule
  one_of : List String → Rule

pub record Field : Type 0 where
  pub value : String
  pub rules : List Rule

abbrev pub field : String → List Rule → Field
field value rules = record { value = value; rules = rules }

unfoldable pub register_fields : RegisterRequest → List Field
register_fields q =
    field q.email (required ∷ email_rule ∷ [])
    ∷ field q.password (required ∷ min_length 8 ∷ [])
    ∷ field q.name (required ∷ [])
    ∷ field q.role (one_of ("customer" ∷ "eo" ∷ []) ∷ [])
    ∷ []

pub record RegisterOrganizerRequest : Type 0 where
  pub email : String
  pub password : String
  pub name : String
  pub organizer_name : String
  pub description : String
  pub profile_link : String
  pub contact_email : String

pub record LoginRequest : Type 0 where
  pub email : String
  pub password : String

pub record RefreshRequest : Type 0 where
  pub refresh_token : String

pub record UserResponse : Type 0 where
  pub id : Uuid
  pub email : String
  pub name : String
  pub role : String

-- `AuthResponse` with a user, and `LoginResponse`.
pub data Body : Type 0 where
  user : UserResponse → Body
  tokens : (access_token : String) (expires_in : ℕ) (refresh_token : String) → Body

abbrev pub user_to_response : User → UserResponse
user_to_response u = record { id = u.id; email = u.email; name = u.name; role = u.role }

abbrev pub text_of : Error → String
text_of user_exists = "user with this email already exists"
text_of invalid_credentials = "invalid email or password"
text_of user_not_found = "user not found"
text_of token_not_found = "refresh token not found"
text_of token_expired = "refresh token expired"
text_of internal_server = "internal server error"
text_of _ = ""

abbrev pub refusal : String → String
refusal e = "validation failed: " ++ e

abbrev pub registered : Result Error User → Response Body
registered (ok u) = created (user (user_to_response u))
registered (err user_exists) = failed 409 (text_of user_exists)
registered (err _) = internal_server_error "registration failed"
registered (db_err _) = internal_server_error "registration failed"

abbrev pub role_or_customer : String → String
role_or_customer r = if is_empty r then "customer" else r

module _ (env : Env) where
  unfoldable pub register :
      (List Field → Option String) → Option RegisterRequest → Endpoint Tables Body
  register validator body =
      checked (λ q. validator (register_fields q)) refusal body
        λ q.
          respond (Service.register env q.email q.password q.name (role_or_customer q.role))
            registered

  unfoldable pub register_organizer :
      (RegisterOrganizerRequest → Option String)
      → Option RegisterOrganizerRequest
      → Endpoint Tables Body
  register_organizer validate body = checked validate refusal body λ q.
      respond
        (Service.register_organizer env q.email q.password q.name q.organizer_name q.description
          q.profile_link q.contact_email)
        registered

  abbrev pub token_body : TokenPair → Response Body
  token_body p = success (tokens p.access_token p.expires_in p.refresh_token)

  abbrev pub logged_in : Result Error TokenPair → Response Body
  logged_in (ok p) = token_body p
  logged_in (err invalid_credentials) = unauthorized (text_of invalid_credentials)
  logged_in (err _) = internal_server_error "login failed"
  logged_in (db_err _) = internal_server_error "login failed"

  unfoldable pub login : (LoginRequest → Option String) → Option LoginRequest → Endpoint Tables Body
  login validate body =
      checked validate refusal body λ q. respond (Service.login env q.email q.password) logged_in

  abbrev pub refreshed : Result Error TokenPair → Response Body
  refreshed (ok p) = token_body p
  refreshed (err token_not_found) = unauthorized (text_of token_not_found)
  refreshed (err token_expired) = unauthorized (text_of token_expired)
  refreshed (err _) = internal_server_error "token refresh failed"
  refreshed (db_err _) = internal_server_error "token refresh failed"

  unfoldable pub refresh :
      (RefreshRequest → Option String) → Option RefreshRequest → Endpoint Tables Body
  refresh validate body =
      checked validate refusal body
        λ q. respond (Service.refresh_token env q.refresh_token) refreshed

  -- The headers that an answer to Traefik carries.
  abbrev pub headers_of : Claims → Headers
  headers_of c = record {
    auth_user_id = c.user_id;
    auth_user_role = c.role;
    auth_user_email = c.email;
    authorization = "";
  }

  abbrev pub verified : Option Claims → Response Headers
  verified none = unauthorized "invalid token"
  verified (some c) = success (headers_of c)

  abbrev pub verify_after : Option String → Response Headers
  verify_after none = unauthorized "invalid Authorization header"
  verify_after (some token) = verified (verify_access_token env token)

  unfoldable pub verify : Headers → Response Headers
  verify h =
      if is_empty h.authorization
      then unauthorized "missing Authorization header"
      else verify_after (cut_prefix "Bearer " h.authorization)

  abbrev pub context_of : Claims → Context
  context_of c = record { user_id = c.user_id; user_role = c.role; user_email = c.email }

  module _ {B : Type 0} (next : Context → Endpoint Tables B) where
    abbrev pub serve_claims : Option Claims → Endpoint Tables B
    serve_claims none = answer (unauthorized "invalid token")
    serve_claims (some c) = next (context_of c)

    abbrev pub serve_token : Option String → Endpoint Tables B
    serve_token none = answer (unauthorized "missing or invalid authorization header")
    serve_token (some token) = serve_claims (verify_access_token env token)

    -- A user that the gateway has named is not verified again.
    unfoldable pub bearer_auth : Headers → Context → Endpoint Tables B
    bearer_auth h c = elim c.user_id [
      | some _ ↦ next c
      | none ↦ serve_token (cut_prefix "Bearer " h.authorization)
    ]

abbrev pub shown : Result Error User → Response Body
shown (ok u) = success (user (user_to_response u))
shown (err _) = not_found "user not found"
shown (db_err _) = not_found "user not found"

unfoldable pub me : Context → Endpoint Tables Body
me c = elim c.user_id [
  | none ↦ answer (unauthorized "missing authentication")
  | some id ↦ respond (get_me id) shown
]
