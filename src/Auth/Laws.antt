-- ===== src/Auth/Laws.antt =====
-- What an invariant of the auth service's tables has to satisfy, one law for each kind of write; each
-- method of the repositories keeps such an invariant, and the child follows the handlers.
pub mod Handlers
use ticketbus.Base.{
  ℕ, ◌≡◌, Bool, true, false, Uuid, String, Option, none, some, List, [], ◌∷◌, ◌++◌, ⊤,
  if◌then◌else◌, not, select,
}
use ticketbus.Base
use ticketbus.Table.{remove}
use ticketbus.Db.{
  World, Result, ok, err, db_err, done, pure, raise_if, attempt, exec, write_unless, ◌>>=◌, ◌>>◌,
}
use ticketbus.Db.Ensures.{Ensures-tables, Runs-write_unless}
use ticketbus.Db.Keeps.{
  Keeps, Kept, Keeps-then, Keeps-attempt, Keeps-raise_if, Keeps-find, Keeps-exec,
}
use ticketbus.Auth.Domain.{
  Tables, User, RefreshToken, Error, Auth, not_hashed, not_signed, not_drawn, user_exists,
  invalid_credentials, user_not_found, token_expired, user_key,
}
use ticketbus.Auth.Repo.{
  user_row, user_violation, insert_user, create_user, find_by_email, find_by_id, delete_user_row,
  delete_by_id, token_row, token_violation, insert_token, create_token, find_by_hash, by_email,
  by_hash, without_hash, delete_hash, delete_by_hash,
}
use ticketbus.Auth.Service.{
  Env, AdminSeed, or_error, hash, generate_access_token, generate_refresh_token, is_taken, new_user,
  new_token, store_user, register, register_organizer, issue, found_user, check_password, login,
  found_token, rotate, refresh_token, store_admin, seed_one, count_if, seed_from, seed_admins,
  seed_name, pair_of,
}
use ticketbus.Auth.Calls.{
  Call, registers, registers_organizer, logs_in, refreshes, deletes, seeds, handle, run,
}

pub record Law (I : Tables → Type 0) : Type 0 where
  pub joins :
      (u : User) (now : ℕ) (t : Tables)
      → user_violation u t ≡ none
      → I t
      → I (record t { users = t.users ++ user_row u now ∷ [] })
  pub issues :
      (r : RefreshToken) (now : ℕ) (t : Tables)
      → token_violation r t ≡ none
      → I t
      → I (record t { refresh_tokens = t.refresh_tokens ++ token_row r now ∷ [] })
  pub revokes :
      (h : String) (t : Tables)
      → I t
      → I (record t { refresh_tokens = without_hash h t.refresh_tokens })
  pub leaves :
      (id : Uuid) (t : Tables)
      → I t
      → I (record {
        users = remove user_key id t.users;
        refresh_tokens =
            select (λ (r : RefreshToken). not (Base.◌==◌ r.user_id id)) t.refresh_tokens;
      })

module _ {I : Tables → Type 0} (law : Law I) where
  pub Keeps-create_user :
      (u : User) (now : ℕ) (w : World Tables) → I w.tables → Keeps I (create_user u now w)
  unfolding create_user insert_user
  Keeps-create_user u now w h =
      Keeps-exec Error I (insert_user u now) w h (
        Runs-write_unless I (user_violation u w.tables) _ (λ fits. law.joins u now w.tables fits h))

  pub Keeps-create_token :
      (r : RefreshToken) (now : ℕ) (w : World Tables) → I w.tables → Keeps I (create_token r now w)
  unfolding create_token insert_token
  Keeps-create_token r now w h = Keeps-exec Error I (insert_token r now) w h (
      Runs-write_unless I (token_violation r w.tables) _ (λ fits. law.issues r now w.tables fits h))

  pub Keeps-delete_by_hash :
      (hash : String) (w : World Tables) → I w.tables → Keeps I (delete_by_hash hash w)
  unfolding delete_by_hash delete_hash
  Keeps-delete_by_hash hash w h =
      Keeps-exec Error I (delete_hash hash) w h (law.revokes hash w.tables h)

  pub Keeps-delete_by_id : (id : Uuid) (w : World Tables) → I w.tables → Keeps I (delete_by_id id w)
  unfolding delete_by_id delete_user_row
  Keeps-delete_by_id id w h = Keeps-exec Error I (delete_user_row id) w h (law.leaves id w.tables h)

  pub Keeps-or_error :
      {A : Type 0} (e : Error) (o : Option A) (w : World Tables)
      → I w.tables
      → Keeps I (or_error e o w)
  Keeps-or_error e none w h = h
  Keeps-or_error e (some a) w h = h

  pub Keeps-found_user :
      (env : Env) (e : Error) (r : Result Error User) (w : World Tables)
      → I w.tables
      → Keeps I (found_user env e r w)
  Keeps-found_user env e (ok u) w h = h
  Keeps-found_user env e (err _) w h = h
  Keeps-found_user env e (db_err _) w h = h

  pub Keeps-found_token :
      (env : Env) (r : Result Error RefreshToken) (w : World Tables)
      → I w.tables
      → Keeps I (found_token env r w)
  Keeps-found_token env (ok u) w h = h
  Keeps-found_token env (err _) w h = h
  Keeps-found_token env (db_err _) w h = h

  pub Keeps-check_password :
      (env : Env) (password : String) (u : User) (w : World Tables)
      → I w.tables
      → Keeps I (check_password env password u w)
  Keeps-check_password env password u w h = split (env.matches password u.password_hash)
    where
      split :
          (b : Bool) → Keeps I ((if b then pure tt else (λ w'. (err invalid_credentials, w'))) w)
      split true = h
      split false = h
