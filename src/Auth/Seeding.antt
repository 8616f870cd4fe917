-- ===== src/Auth/Seeding.antt =====
-- The administrators that are seeded whenever the service starts.
use text.Mathlib.TextPositions.{eq_refl}
use ticketbus.Base.{
  ℕ, ◌≡◌, refl, true, false, String, some, List, [], ◌∷◌, ◌++◌, ⊤, arith, is_some, if◌then◌else◌,
  All, Option-cases, inl, inr,
}
use ticketbus.Db.{World, Result, ok, err, db_err, exec, pure, query_row, calm}
use ticketbus.Db.Ensures.{Ensures, Ensures-bind, Ensures-exec, Ensures-mono, Runs-write_unless}
use ticketbus.Db.Keeps.{Ensures-lookup, Looked}
use ticketbus.Auth.Domain.{Tables, User, Error, not_hashed}
use ticketbus.Auth.Repo.{
  by_email, find_by_email, user_row, user_violation, insert_user, create_user,
}
use ticketbus.Auth.Service.{
  Env, AdminSeed, hash, is_taken, new_user, store_admin, seed_one, seed_from, seed_admins,
  seed_name, count_if,
}
use ticketbus.Auth.Rules.{Ensures-or_error}

abbrev pub Has : String → Tables → Type 0
Has e t = is_some (by_email e t.users) ≡ true

by_email-append :
    (e : String) (us : List User) (u : User)
    → is_some (by_email e us) ≡ true
    → is_some (by_email e (us ++ u ∷ [])) ≡ true
unfolding by_email
by_email-append e [] u h = ground arith
by_email-append e (v ∷ us) u h = ground (arith, by_email-append e us u)

by_email-last : (us : List User) (u : User) → is_some (by_email u.email (us ++ u ∷ [])) ≡ true
unfolding by_email
by_email-last [] u = rw (eq_refl u.email) refl
by_email-last (v ∷ us) u = ground (arith, by_email-last us u)

-- No user went.
abbrev pub Grown : Tables → Tables → Type 0
Grown before t = (e : String) → Has e before → Has e t

module _ (email : String) (before : Tables) where
  abbrev pub Seeded : Tables → Type 0
  Seeded t = Has email t × Grown before t

store_admin-Seeded :
    (env : Env) (email password name : String) (w : World Tables)
    → Ensures {E = Error}
        (λ _. Seeded email w.tables)
        (λ _. ⊤)
        (store_admin env email password name w)
unfolding store_admin create_user insert_user
store_admin-Seeded env email password name w =
    Ensures-bind (λ h t. (env.bcrypt password ≡ some h) × (t ≡ w.tables))
      (λ _. Seeded email w.tables) (λ _. ⊤) (hash env password) _ w
      (Ensures-mono _ (λ h t. (env.bcrypt password ≡ some h) × (t ≡ w.tables)) (λ t. t ≡ w.tables)
        (λ _. ⊤) (hash env password w) (Ensures-or_error not_hashed (env.bcrypt password) w)
        (λ _ _ k. k) (λ _ _. tt))
      (λ h w1 known. rw (← known.1) (
        Ensures-bind (λ _. Seeded email w1.tables) (λ _. Seeded email w1.tables) (λ _. ⊤)
          (create_user (new_user env email h name "admin") env.now) _ w1
          (Ensures-exec Error (λ _. Seeded email w1.tables) (λ _. ⊤)
            (insert_user (new_user env email h name "admin") env.now) w1 tt
            (Runs-write_unless (Seeded email w1.tables)
              (user_violation (new_user env email h name "admin") w1.tables) _
              (λ _. (
                by_email-last w1.tables.users
                    (user_row (new_user env email h name "admin") env.now),
                λ e there.
                    by_email-append e w1.tables.users
                      (user_row (new_user env email h name "admin") env.now) there,
              ))))
          (λ _ _ k. k)))

seed_one-Seeded :
    (env : Env) (email password name : String) (w : World Tables)
    → Ensures {E = Error} (λ _. Seeded email w.tables) (λ _. ⊤) (seed_one env email password name w)
unfolding seed_one find_by_email
seed_one-Seeded env email password name w =
    Ensures-lookup Error (λ t. by_email email t.users) (λ _. Seeded email w.tables) (λ _. ⊤) _ w
      (λ r w1 looked. unless_taken r w1 looked)
  where
    store :
        (w1 : World Tables)
        → w1.tables ≡ w.tables
        → Ensures {E = Error}
            (λ _. Seeded email w.tables)
            (λ _. ⊤)
            (store_admin env email password name w1)
    store w1 same = rw (← same) (store_admin-Seeded env email password name w1)

    unless_taken :
        (r : Result Error User) (w1 : World Tables)
        → Looked Error (λ t. by_email email t.users) w.tables r w1.tables
        → Ensures {E = Error}
            (λ _. Seeded email w.tables)
            (λ _. ⊤)
            ((if is_taken env r then pure false else store_admin env email password name) w1)
    unless_taken (ok u) w1 seen = rw (← seen.1) (rw (seen.1, seen.0) refl, λ e there. there)
    unless_taken (err _) w1 same = store w1 same
    unless_taken (db_err _) w1 same = store w1 same

abbrev pub AllSeeded : List (Env × AdminSeed) → Tables → Type 0
AllSeeded seeds t = All (λ (s : Env × AdminSeed). Has s.1.email t) seeds

seed_from-AllSeeded :
    (n : ℕ) (seeds : List (Env × AdminSeed)) (w : World Tables)
    → Ensures {E = Error}
        (λ _ t. AllSeeded seeds t × Grown w.tables t)
        (λ _. ⊤)
        (seed_from n seeds w)
unfolding seed_from
seed_from-AllSeeded n [] w = (tt, λ e there. there)
seed_from-AllSeeded n ((env, a) ∷ more) w =
    Ensures-bind (λ _. Seeded a.email w.tables)
      (λ _ t. AllSeeded ((env, a) ∷ more) t × Grown w.tables t) (λ _. ⊤)
      (seed_one env a.email a.password (seed_name a)) _ w
      (seed_one-Seeded env a.email a.password (seed_name a) w)
      (λ made w1 first.
        Ensures-mono (λ _ t. AllSeeded more t × Grown w1.tables t)
          (λ _ t. AllSeeded ((env, a) ∷ more) t × Grown w.tables t) (λ _. ⊤) (λ _. ⊤)
          (seed_from (count_if made n) more w1) (seed_from-AllSeeded (count_if made n) more w1)
          (λ _ t rest. ((rest.1 a.email first.0, rest.0), λ e there. rest.1 e (first.1 e there)))
          (λ _ _. tt))

seed_one-again :
    (env : Env) (email password name : String) (t : Tables)
    → Has email t
    → seed_one env email password name (calm t) ≡ (ok false, calm t)
unfolding seed_one find_by_email query_row exec
seed_one-again env email password name t there = elim (Option-cases (by_email email t.users)) [
  | inl absent ↦ ground arith
  | inr (u, found) ↦ rw found refl
]

seed_from-again :
    (n : ℕ) (seeds : List (Env × AdminSeed)) (t : Tables)
    → AllSeeded seeds t
    → seed_from n seeds (calm t) ≡ (ok n, calm t)
unfolding seed_from
seed_from-again n [] t h = refl
seed_from-again n ((env, a) ∷ more) t h =
    rw (seed_one-again env a.email a.password (seed_name a) t h.0) (seed_from-again n more t h.1)

-- The next start draws other ids and other salts.
abbrev pub redraw : (Env → Env) → List (Env × AdminSeed) → List (Env × AdminSeed)
redraw f [] = []
redraw f ((env, a) ∷ more) = (f env, a) ∷ redraw f more

AllSeeded-redraw :
    (f : Env → Env) (seeds : List (Env × AdminSeed)) (t : Tables)
    → AllSeeded seeds t
    → AllSeeded (redraw f seeds) t
AllSeeded-redraw f [] t h = tt
AllSeeded-redraw f ((env, a) ∷ more) t h = (h.0, AllSeeded-redraw f more t h.1)

-- Where the seeding returned, whichever lookups failed on the way, every seed has its user, and seeding
-- the same list once more creates none and changes nothing, if no statement fails then.
pub seed_admins-again :
    (seeds : List (Env × AdminSeed)) (f : Env → Env) (w : World Tables)
    → Ensures {E = Error}
        (λ _ t. AllSeeded seeds t × (seed_admins (redraw f seeds) (calm t) ≡ (ok 0, calm t)))
        (λ _. ⊤)
        (seed_admins seeds w)
unfolding seed_admins
seed_admins-again seeds f w =
    Ensures-mono (λ _ t. AllSeeded seeds t × Grown w.tables t) _ (λ _. ⊤) (λ _. ⊤)
      (seed_from 0 seeds w) (seed_from-AllSeeded 0 seeds w)
      (λ _ t h. (h.0, seed_from-again 0 (redraw f seeds) t (AllSeeded-redraw f seeds t h.0)))
      (λ _ _. tt)
