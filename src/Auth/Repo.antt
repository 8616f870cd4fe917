-- ===== src/Auth/Repo.antt =====
-- service/auth/internal/postgres: users and refresh tokens.
use ticketbus.Base.{
  ℕ, Bool, true, false, not, ◌||◌, Uuid, String, Option, none, some, List, [], ◌∷◌, ◌++◌, ⊤,
  if◌then◌else◌, is_some, select,
}
use ticketbus.Base
use ticketbus.Text.{◌==◌}
use ticketbus.Table.{find, remove}
use ticketbus.Db.{ok, DbError, Statement, write_unless, exec, query_row}
use ticketbus.Auth.Domain.{Tables, User, RefreshToken, user_key, token_key, Auth}

-- `WHERE email = $1`, of a column that is unique.
unfoldable pub by_email : String → List User → Option User
by_email e [] = none
by_email e (u ∷ us) = let rest = by_email e us in if u.email == e then some u else rest

-- `CHECK (role IN ('admin', 'eo', 'customer'))`
abbrev pub known_role : String → Bool
known_role r = (r == "admin") || (r == "eo") || (r == "customer")

unfoldable pub user_violation : User → Tables → Option DbError
user_violation u t =
    if not (known_role u.role)
    then some DbError.check_violation
    else if is_some (find user_key u.id t.users) || is_some (by_email u.email t.users)
    then some DbError.unique_violation
    else none

-- The schema sets the two times.
abbrev pub user_row : User → ℕ → User
user_row u now = record u { created_at = now; updated_at = now }

unfoldable pub insert_user : User → ℕ → Statement Tables ⊤
insert_user u now t =
    write_unless (user_violation u t) (record t { users = t.users ++ user_row u now ∷ [] })

unfoldable pub create_user : User → ℕ → Auth ⊤
create_user u now = exec (insert_user u now)

unfoldable pub find_by_email : String → Auth User
find_by_email e = query_row λ t. by_email e t.users

unfoldable pub find_by_id : Uuid → Auth User
find_by_id id = query_row λ t. find user_key id t.users

-- `user_id … REFERENCES users(id) ON DELETE CASCADE`
unfoldable pub delete_user_row : Uuid → Statement Tables ⊤
delete_user_row id t = ok (
  tt,
  record {
    users = remove user_key id t.users;
    refresh_tokens = select (λ (r : RefreshToken). not (Base.◌==◌ r.user_id id)) t.refresh_tokens;
  },
)

unfoldable pub delete_by_id : Uuid → Auth ⊤
delete_by_id id = exec (delete_user_row id)

unfoldable pub token_violation : RefreshToken → Tables → Option DbError
token_violation r t =
    if is_some (find token_key r.id t.refresh_tokens)
    then some DbError.unique_violation
    else if not (is_some (find user_key r.user_id t.users))
    then some DbError.foreign_key_violation
    else none

abbrev pub token_row : RefreshToken → ℕ → RefreshToken
token_row r now = record r { created_at = now }

unfoldable pub insert_token : RefreshToken → ℕ → Statement Tables ⊤
insert_token r now t =
    write_unless (token_violation r t)
      (record t { refresh_tokens = t.refresh_tokens ++ token_row r now ∷ [] })

unfoldable pub create_token : RefreshToken → ℕ → Auth ⊤
create_token r now = exec (insert_token r now)

-- `WHERE token_hash = $1`: the column is not unique, and the first row that has the hash is read.
unfoldable pub by_hash : String → List RefreshToken → Option RefreshToken
by_hash h [] = none
by_hash h (r ∷ rs) = let rest = by_hash h rs in if r.token_hash == h then some r else rest

unfoldable pub find_by_hash : String → Auth RefreshToken
find_by_hash h = query_row λ t. by_hash h t.refresh_tokens

-- `DELETE … WHERE token_hash = $1` takes every row that has the hash.
unfoldable pub without_hash : String → List RefreshToken → List RefreshToken
without_hash h rs = select (λ (r : RefreshToken). not (r.token_hash == h)) rs

unfoldable pub delete_hash : String → Statement Tables ⊤
delete_hash h t = ok (tt, record t { refresh_tokens = without_hash h t.refresh_tokens })

unfoldable pub delete_by_hash : String → Auth ⊤
delete_by_hash h = exec (delete_hash h)

-- The service does not call it.
unfoldable delete_by_user_id : Uuid → Auth ⊤
delete_by_user_id id = exec λ t. ok (
  tt,
  record t {
    refresh_tokens = select (λ (r : RefreshToken). not (Base.◌==◌ r.user_id id)) t.refresh_tokens;
  },
)
