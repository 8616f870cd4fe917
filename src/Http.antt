-- ===== src/Http.antt =====
-- pkg/http: the envelope of a response, the user that the gateway names in the headers, and the
-- middleware that asks for a role. A header that is not set, and one that is empty, are `""`.
use ticketbus.Base
use ticketbus.Base.{
  ap, sym, ==→≡, arith, ◌≡◌, refl, ℕ, Bool, true, false, String, Uuid, Option, none, some, List, [],
  ◌∷◌, if◌then◌else◌,
}
use ticketbus.Db.{World, Action, Result}
use ticketbus.Text.{◌==◌}
use ticketbus.Dto.{Role, admin, eo, customer}

-- What `writeJSON` sends: a status, and data or an error.
pub data Response (B : Type 0) : Type 0 where
  sent : ℕ → B → Response B
  failed : ℕ → String → Response B

abbrev pub status_of : {B : Type 0} → Response B → ℕ
status_of (sent code _) = code
status_of (failed code _) = code

module _ {B : Type 0} where
  abbrev pub success : B → Response B
  success b = sent 200 b

  abbrev pub created : B → Response B
  created b = sent 201 b

  abbrev pub bad_request : String → Response B
  bad_request m = failed 400 m

  abbrev pub unauthorized : String → Response B
  unauthorized m = failed 401 m

  abbrev pub forbidden : String → Response B
  forbidden m = failed 403 m

  abbrev pub not_found : String → Response B
  not_found m = failed 404 m

  abbrev pub internal_server_error : String → Response B
  internal_server_error m = failed 500 m

-- The roles' words on the wire.
abbrev pub role_word : Role → String
role_word admin = "admin"
role_word eo = "eo"
role_word customer = "customer"

-- The values that handlers read from the request's context. No user id is the empty string.
pub record Context : Type 0 where
  pub user_id : Option Uuid
  pub user_role : String
  pub user_email : String

abbrev pub anonymous : Context
anonymous = record { user_id = none; user_role = ""; user_email = "" }

-- The headers `X-Authenticated-User-ID`, `-Role` and `-Email`, and `Authorization`.
pub record Headers : Type 0 where
  pub auth_user_id : Option Uuid
  pub auth_user_role : String
  pub auth_user_email : String
  pub authorization : String

-- A header that is set replaces the value of the context.
abbrev pub id_or : Option Uuid → Option Uuid → Option Uuid
id_or none old = old
id_or (some u) old = some u

abbrev pub word_or : String → String → String
word_or String.[] old = old
word_or (String.◌∷◌ c s) old = String.◌∷◌ c s

unfoldable pub with_user_context : Headers → Context → Context
with_user_context h c = record {
  user_id = id_or h.auth_user_id c.user_id;
  user_role = word_or h.auth_user_role c.user_role;
  user_email = word_or h.auth_user_email c.user_email;
}

abbrev pub among : String → List Role → Bool
among r [] = false
among r (a ∷ allowed) = if r == role_word a then true else among r allowed

-- A handler with its request: it answers, and changes the tables.
abbrev pub Endpoint : Type 0 → Type 0 → Type 0
Endpoint T B = World T → Response B × World T

module _ {T B : Type 0} where
  -- The handler runs where the context has one of the roles.
  unfoldable pub require_role : List Role → (Context → Endpoint T B) → Context → Endpoint T B
  require_role allowed next c w =
      if among c.user_role allowed then next c w else (forbidden "insufficient permissions", w)

  abbrev pub answer : Response B → Endpoint T B
  answer r w = (r, w)

-- A call of the service whose outcome makes the answer.
abbrev pub respond : {T E A B : Type 0} → Action T E A → (Result E A → Response B) → Endpoint T B
respond m f w = let (r, w') = m w in (f r, w')

abbrev pub unless_refused :
    {T B : Type 0} → (String → String) → Option String → Endpoint T B → Endpoint T B
unless_refused refusal (some e) serve = answer (bad_request (refusal e))
unless_refused refusal none serve = serve

-- The two tests that open a handler with a body: does it decode, and does the validator take it?
-- `refusal` makes the message from the validator's error.
abbrev pub checked :
    {T B Q : Type 0}
    → (Q → Option String)
    → (String → String)
    → Option Q
    → (Q → Endpoint T B)
    → Endpoint T B
checked validate refusal none serve = answer (bad_request "invalid request body")
checked validate refusal (some q) serve = unless_refused refusal (validate q) (serve q)

-- What a refusal keeps and the rest keeps is kept.
pub checked-tables :
    {T B Q : Type 0} (I : T → Type 0) (validate : Q → Option String) (refusal : String → String)
    (body : Option Q) (serve : Q → Endpoint T B) (w : World T)
    → I w.tables
    → ((q : Q) → validate q ≡ none → I (serve q w).1.tables)
    → I (checked validate refusal body serve w).1.tables
checked-tables I validate refusal none serve w h rest = h
checked-tables {B = B} I validate refusal (some q) serve w h rest = split (validate q) (rest q)
  where
    split :
        (o : Option String)
        → (o ≡ none → I (serve q w).1.tables)
        → I (unless_refused {B = B} refusal o (serve q) w).1.tables
    split none k = k refl
    split (some e) k = h

-- A route that asks for a user: no user id is the empty string.
abbrev pub if_known : {T B : Type 0} → Option Uuid → (Uuid → Endpoint T B) → Endpoint T B
if_known none serve = answer (unauthorized "authentication required")
if_known (some user) serve = serve user

-- The row is the caller's: `booking.UserID != userID`, where no user id is no user's.
abbrev pub is_user : Option Uuid → Uuid → Bool
is_user none owner = false
is_user (some user) owner = Base.◌==◌ owner user

pub is_user-some :
    (user : Option Uuid) (owner : Uuid) → is_user user owner ≡ true → user ≡ some owner
is_user-some none owner e = ground arith
is_user-some (some user) owner e = ap (λ u. some u) (sym (==→≡ owner user e))

-- The data of an answer, if it has any.
abbrev pub data_of : {B : Type 0} → Response B → Option B
data_of (sent _ body) = some body
data_of (failed _ _) = none
