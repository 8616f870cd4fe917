-- ===== src/Auth/Tests.antt =====
-- Concrete users, tokens and endpoints on which the theorems about service/auth are applied.
use Prim.Native.String.{◌++◌}
use ticketbus.Base.{
  ℕ, ◌≡◌, ◌⊎◌, refl, sym, ap, inl, inr, Bool, true, false, ◌&&◌, Uuid, String, Option, none, some,
  List, [], ◌∷◌, ⊤, arith, ltb, if◌then◌else◌, Bool-cases, ==→≡,
}
use ticketbus.Base
use ticketbus.Text.{◌==◌}
use ticketbus.Table.{find}
use ticketbus.Db.{query_row, exec, World, ok, err, calm}
use ticketbus.Db.Ensures.{Ensures}
use ticketbus.Http.{Headers, anonymous}
use ticketbus.Auth.Domain.{Tables, User, RefreshToken, Error, token_not_found}
use ticketbus.Auth.Repo.{
  find_by_hash, find_by_id, delete_by_hash, delete_hash, without_hash, create_token, insert_token,
  by_email, by_hash, user_violation, token_violation,
}
use ticketbus.Auth.Service
use ticketbus.Auth.Service.{
  rotate, issue, Env, MapClaims, Parsed, Method, AdminSeed, pair_of, new_user, refresh_token, login,
  seed_admins,
}
use ticketbus.Auth.Handlers
use ticketbus.Auth.Handlers.{RegisterRequest, Field, verify, bearer_auth}
use ticketbus.Auth.Calls.{
  Call, registers, registers_organizer, logs_in, refreshes, deletes, seeds, run,
}
use ticketbus.Auth.Accounts.{run-OnePerEmail, run-Owned, run-Known, OnePerEmail, Owned, Known}
use ticketbus.Auth.Registration.{
  Joined, Unchanged, register-Joined, register-admins, HonoursOneOf, fields_met, admins,
}
use ticketbus.Auth.Authentic.{Signed, login-Signed}
use ticketbus.Auth.Gateway.{Agrees, verify-bearer_auth}
use ticketbus.Auth.Rotation.{Refreshed, Refused, refresh_token-Refreshed, refresh_token-once}
use ticketbus.Auth.Seeding.{AllSeeded, redraw, seed_admins-again}
use ticketbus.Auth.RoundTrip.{register-login-refresh}

abbrev hour : ℕ
hour = 3600000000000

-- A signature that covers one user alone, and whose text is the email.
abbrev sign : Option Uuid → Option String → Option String → ℕ → ℕ → Option String
sign (some id) (some email) (some role) exp iat =
    if Base.◌==◌ id 7 && (role == "eo") && Base.◌==◌ exp 900 && Base.◌==◌ iat 0
    then some email
    else none
sign _ _ _ _ _ = none

abbrev env : Env
env = record {
  now = 5;
  id = 7;
  bcrypt = λ p. some ("$" ++ p);
  matches = λ p h. ("$" ++ p) == h;
  signed = λ c. sign c.sub c.email c.role c.exp c.iat;
  parse = λ s _. some (record {
    valid = true;
    claims = record { sub = some 7; email = some s; role = some "eo"; exp = 900; iat = 0 };
  });
  random = some "drawn";
  sha256 = λ s. "#" ++ s;
  jwt_ttl = 900000000000;
  refresh_ttl = hour;
}

abbrev next_env : Env
next_env = record env { id = 8; random = some "redrawn" }

abbrev ann : User
ann = record {
  id = 7;
  email = "a@b";
  password_hash = "$secret";
  name = "Ann";
  role = "eo";
  created_at = 1;
  updated_at = 1;
}

abbrev kept : RefreshToken
kept = record { id = 3; user_id = 7; token_hash = "#old"; expires_at = 20; created_at = 1 }

abbrev sample : Tables
sample = record { users = ann ∷ []; refresh_tokens = kept ∷ [] }

-- The second statement of the history fails.
abbrev world : World Tables
world = record { tables = sample; faults = false ∷ true ∷ [] }

abbrev history : List Call
history =
    registers next_env "c@d" "password" "Cy" "customer"
    ∷ logs_in env "a@b" "secret"
    ∷ refreshes next_env "drawn"
    ∷ seeds ((record env { id = 9 }, record { email = "root@x"; password = "p"; name = "" }) ∷ [])
    ∷ registers_organizer env "a@b" "password" "Al" "Al's" "" "" "al@b"
    ∷ deletes 7
    ∷ []

run-OnePerEmail_example : OnePerEmail (run history world).tables
run-OnePerEmail_example = run-OnePerEmail history world λ e. ground arith

run-Owned_example : Owned (run history world).tables
unfolding find
run-Owned_example = run-Owned history world (refl, tt)

run-Known_example : Known (run history world).tables
run-Known_example = run-Known history world (refl, tt)

register-Joined_example :
    Ensures
      (Joined next_env "c@d" "password" "Cy" "customer" sample)
      (Unchanged next_env "c@d" "password" "Cy" "customer" sample)
      (Service.register next_env "c@d" "password" "Cy" "customer" world)
register-Joined_example = register-Joined next_env "c@d" "password" "Cy" "customer" world

-- A validator that knows `oneof` only.
abbrev refused_unless : Bool → Option String
refused_unless true = none
refused_unless false = some "oneof"

abbrev validator : List Field → Option String
validator fs = refused_unless (fields_met fs)

validator-HonoursOneOf : HonoursOneOf validator
validator-HonoursOneOf fs passes = elim (Bool-cases (fields_met fs)) [
  | inl met ↦ met
  | inr broken ↦ absurd (ground (arith, passes, broken))
]

abbrev asks : RegisterRequest
asks = record { email = "c@d"; password = "password"; name = "Cy"; role = "customer" }

register-admins_example :
    (admins (Handlers.register next_env validator (some asks) world).1.tables.users
      ≡ admins sample.users)
    × (admins
          (Handlers.register next_env
            (λ _. none)
            (some (record asks { role = "" }))
            world).1.tables.users
        ≡ admins sample.users)
register-admins_example =
    register-admins next_env validator (λ _. none) (some asks) asks world validator-HonoursOneOf

login-Signed_example :
    Ensures {E = Error}
      (Signed env "a@b" "secret" sample)
      (λ t. t ≡ sample)
      (login env "a@b" "secret" world)
login-Signed_example = login-Signed env "a@b" "secret" world

abbrev bearer : Headers
bearer = record {
  auth_user_id = none;
  auth_user_role = "";
  auth_user_email = "";
  authorization = "Bearer a@b";
}

verify-bearer_auth_example :
    Agrees Handlers.me world
      (bearer_auth env Handlers.me bearer anonymous world)
      (verify env bearer)
verify-bearer_auth_example = verify-bearer_auth env Handlers.me bearer world

refresh_token-Refreshed_example :
    Ensures {E = Error}
      (Refreshed env "#old" sample)
      (Refused env "#old" sample)
      (refresh_token env "old" world)
refresh_token-Refreshed_example = refresh_token-Refreshed env "old" world

-- A world whose first token is exchanged.
refresh_token-once_example :
    (refresh_token next_env "old" (refresh_token env "old" (calm sample)).1).0 ≡ err token_not_found
unfolding refresh_token rotate find_by_hash find_by_id delete_by_hash delete_hash without_hash
    query_row exec issue create_token insert_token token_violation by_hash find
refresh_token-once_example =
    refresh_token-once env next_env "old"
      (record { access_token = "a@b"; refresh_token = "drawn"; expires_in = 900 }) (calm sample)
      (refresh_token env "old" (calm sample)).1 refl refl refl

abbrev admin_seeds : List (Env × AdminSeed)
admin_seeds =
    (record env { id = 9 }, record { email = "root@x"; password = "p"; name = "" })
    ∷ (record env { id = 10 }, record { email = "a@b"; password = "p"; name = "Ann" })
    ∷ []

seed_admins-again_example :
    Ensures {E = Error}
      (λ _ t.
        AllSeeded admin_seeds t
        × (seed_admins (redraw (λ e. record e { id = 50 }) admin_seeds) (calm t) ≡ (ok 0, calm t)))
      (λ _. ⊤)
      (seed_admins admin_seeds world)
seed_admins-again_example = seed_admins-again admin_seeds (λ e. record e { id = 50 }) world

abbrev empty : Tables
empty = record { users = []; refresh_tokens = [] }

register-login-refresh_example :
    ((Service.register env "a@b" "secret" "Ann" "eo" (calm empty)).0
      ≡ ok (new_user env "a@b" "$secret" "Ann" "eo"))
    × ((login env "a@b" "secret" (Service.register env "a@b" "secret" "Ann" "eo" (calm empty)).1).0
        ≡ ok (pair_of env "a@b" "drawn"))
    × ((refresh_token next_env "drawn"
          (login env "a@b" "secret"
            (Service.register env "a@b" "secret" "Ann" "eo" (calm empty)).1).1).0
        ≡ ok (pair_of next_env "a@b" "redrawn"))
unfolding find by_hash by_email user_violation
register-login-refresh_example =
    register-login-refresh env env next_env "a@b" "secret" "Ann" "eo" "$secret" "a@b" "a@b" "drawn"
      "redrawn" empty refl refl refl refl refl refl refl refl refl refl refl refl
