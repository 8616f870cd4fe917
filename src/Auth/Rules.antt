-- ===== src/Auth/Rules.antt =====
-- Postconditions of the small steps of the auth service.
use ticketbus.Base.{◌≡◌, refl, Bool-cases, inl, inr, true, String, Option, none, some}
use ticketbus.Db.{World, Result, ok, err, db_err}
use ticketbus.Db.Ensures.{Ensures, Outcome}
use ticketbus.Auth.Domain.{Tables, User, RefreshToken, Error}
use ticketbus.Auth.Service.{Env, or_error, found_user, found_token, check_password}

pub Ensures-or_error :
    {A : Type 0} (e : Error) (o : Option A) (w : World Tables)
    → Ensures {E = Error}
        (λ a t. (o ≡ some a) × (t ≡ w.tables))
        (λ t. t ≡ w.tables)
        (or_error e o w)
Ensures-or_error e none w = refl
Ensures-or_error e (some a) w = (refl, refl)

-- The row that a lookup found, and what the lookup said of it.
pub Ensures-found_user :
    (env : Env) (e : Error) (P : User → Tables → Type 0) (F : Tables → Type 0)
    (r : Result Error User) (w : World Tables)
    → Outcome P F r w.tables
    → Ensures {E = Error} P F (found_user env e r w)
Ensures-found_user env e P F (ok u) w h = h
Ensures-found_user env e P F (err _) w h = h
Ensures-found_user env e P F (db_err _) w h = h

pub Ensures-found_token :
    (env : Env) (P : RefreshToken → Tables → Type 0) (F : Tables → Type 0)
    (r : Result Error RefreshToken) (w : World Tables)
    → Outcome P F r w.tables
    → Ensures {E = Error} P F (found_token env r w)
Ensures-found_token env P F (ok x) w h = h
Ensures-found_token env P F (err _) w h = h
Ensures-found_token env P F (db_err _) w h = h

pub Ensures-check_password :
    (env : Env) (password : String) (u : User) (w : World Tables)
    → Ensures {E = Error}
        (λ _ t. (env.matches password u.password_hash ≡ true) × (t ≡ w.tables))
        (λ t. t ≡ w.tables)
        (check_password env password u w)
Ensures-check_password env password u w = elim (Bool-cases (env.matches password u.password_hash)) [
  | inl same ↦ rw (same, Ensures) (same, refl)
  | inr other ↦ rw (other, Ensures) refl
]
