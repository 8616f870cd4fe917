-- ===== src/Auth/Registration.antt =====
-- What a registration writes, and who can become an administrator.
use ticketbus.Http.{checked-tables, unless_refused, respond}
use ticketbus.Auth.Rules.{Ensures-or_error}
use ticketbus.Db.Keeps.{Ensures-try, Keeps-find}
use ticketbus.Base.{
  ◌≡◌, ◌⊎◌, refl, Bool, true, false, String, Option, none, some, List, [], ◌∷◌, ◌++◌, inl, inr,
  is_some, select, arith, ◌||◌, ◌&&◌, Bool-cases,
}
use ticketbus.Text.{◌==◌}
use text.Mathlib.TextEquality.{eq_iff}
use ticketbus.Db.{World, exec, pure, raise_if, ◌>>=◌, ◌>>◌}
use ticketbus.Db.Ensures.{
  Ensures, Ensures-bind, Ensures-exec, Ensures-mono, Ensures-tables, Runs-write_unless,
}
use ticketbus.Auth.Domain.{Tables, User, Error, user_exists, not_hashed}
use ticketbus.Auth.Repo.{
  by_email, user_row, user_violation, insert_user, create_user, find_by_email,
}
use ticketbus.Auth.Service
use ticketbus.Auth.Service.{Env, hash, or_error, new_user, store_user, is_taken}
use ticketbus.Auth.Handlers
use ticketbus.Auth.Handlers.{
  refusal, RegisterRequest, role_or_customer, Rule, one_of, Field, register_fields,
}

module _ (env : Env) (email password name role : String) (before : Tables) where
  -- The user has what was asked for, with bcrypt's hash of the password, and stands behind the users
  -- that were there.
  abbrev pub Joined : User → Tables → Type 0
  Joined u t =
      (u.email ≡ email)
      × (u.role ≡ role)
      × (env.bcrypt password ≡ some u.password_hash)
      × (is_some (by_email email before.users) ≡ false)
      × (t ≡ record before { users = before.users ++ user_row u env.now ∷ [] })

  abbrev pub Unchanged : Tables → Type 0
  Unchanged t = t ≡ before

fits_new :
    (u : User) (t : Tables) → user_violation u t ≡ none → is_some (by_email u.email t.users) ≡ false
unfolding user_violation
fits_new u t fits = ground arith

Joined-new_user :
    (env : Env) (email password name role h : String) (t : Tables)
    → env.bcrypt password ≡ some h
    → user_violation (new_user env email h name role) t ≡ none
    → Joined env email password name role t
        (new_user env email h name role)
        (record t { users = t.users ++ user_row (new_user env email h name role) env.now ∷ [] })
Joined-new_user env email password name role h t hashed fits =
    (refl, refl, hashed, fits_new (new_user env email h name role) t fits, refl)

store_user-Joined :
    (env : Env) (email password name role : String) (w : World Tables)
    → Ensures
        (Joined env email password name role w.tables)
        (Unchanged env email password name role w.tables)
        (store_user env email password name role w)
unfolding store_user create_user insert_user
store_user-Joined env email password name role w =
    Ensures-bind (λ h t. (env.bcrypt password ≡ some h) × (t ≡ w.tables))
      (Joined env email password name role w.tables)
      (Unchanged env email password name role w.tables) (hash env password) _ w
      (Ensures-or_error not_hashed (env.bcrypt password) w)
      (λ h w' known. rw (← known.1) (stored h w' known.0))
  where
    stored :
        (h : String) (w' : World Tables)
        → env.bcrypt password ≡ some h
        → Ensures {E = Error}
            (Joined env email password name role w'.tables)
            (Unchanged env email password name role w'.tables)
            ((exec (insert_user (new_user env email h name role) env.now) >>= λ _.
                pure (new_user env email h name role))
              w')
    stored h w' hashed =
        Ensures-bind
          (λ _ t. Joined env email password name role w'.tables (new_user env email h name role) t)
          (Joined env email password name role w'.tables)
          (Unchanged env email password name role w'.tables)
          (exec (insert_user (new_user env email h name role) env.now)) _ w'
          (Ensures-exec Error _ _ (insert_user (new_user env email h name role) env.now) w' refl (
            Runs-write_unless
              (Joined env email password name role w'.tables (new_user env email h name role))
              (user_violation (new_user env email h name role) w'.tables) _
              (λ fits. Joined-new_user env email password name role h w'.tables hashed fits)))
          (λ _ _ k. k)

-- Whichever statements fail, a registration either fails and changes nothing, or appends one user: with
-- the email, which no user had, with the role that was asked for, and with bcrypt's hash for a password.
pub register-Joined :
    (env : Env) (email password name role : String) (w : World Tables)
    → Ensures
        (Joined env email password name role w.tables)
        (Unchanged env email password name role w.tables)
        (Service.register env email password name role w)
unfolding Service.register find_by_email
register-Joined env email password name role w =
    Ensures-try (λ t. t ≡ w.tables) (Joined env email password name role w.tables)
      (Unchanged env email password name role w.tables) (find_by_email email) _ w
      (Keeps-find Error (λ t. t ≡ w.tables) (λ t. by_email email t.users) w refl)
      (λ r w' same. unless_taken (is_taken env r) w' same)
  where
    unless_taken :
        (taken : Bool) (w' : World Tables)
        → w'.tables ≡ w.tables
        → Ensures
            (Joined env email password name role w.tables)
            (Unchanged env email password name role w.tables)
            ((raise_if taken user_exists >> store_user env email password name role) w')
    unless_taken true w' same = same
    unless_taken false w' same = rw (← same) (store_user-Joined env email password name role w')

abbrev pub is_admin : User → Bool
is_admin u = u.role == "admin"

abbrev pub admins : List User → List User
admins us = select is_admin us

admins-append : (us : List User) (u : User) → is_admin u ≡ false → admins (us ++ u ∷ []) ≡ admins us
admins-append [] u h = rw h refl
admins-append (v ∷ us) u h = ground (arith, admins-append us u h)

SameAdmins : List User → Tables → Type 0
SameAdmins us t = admins t.users ≡ admins us

Joined-admins :
    (env : Env) (email password name role : String) (before t : Tables) (u : User)
    → (role == "admin") ≡ false
    → Joined env email password name role before u t
    → SameAdmins before.users t
unfolding SameAdmins
Joined-admins env email password name role before t u plain h =
    rw h.4 (admins-append before.users (user_row u env.now) (rw h.1 plain))

service_admins :
    (env : Env) (email password name role : String) (w : World Tables)
    → (role == "admin") ≡ false
    → SameAdmins w.tables.users (Service.register env email password name role w).1.tables
unfolding SameAdmins
service_admins env email password name role w plain =
    Ensures-tables (SameAdmins w.tables.users) (Service.register env email password name role w) (
      Ensures-mono _ (λ _. SameAdmins w.tables.users) _ (SameAdmins w.tables.users)
        (Service.register env email password name role w)
        (register-Joined env email password name role w)
        (λ u t h. Joined-admins env email password name role w.tables t u plain h)
        (λ t h. rw h refl))

-- What the validator's documentation says of `oneof`: the value is one of the list.
abbrev pub among : String → List String → Bool
among v [] = false
among v (x ∷ xs) = (v == x) || among v xs

abbrev pub rule_met : String → Rule → Bool
rule_met v (one_of xs) = among v xs
rule_met v _ = true

abbrev pub rules_met : String → List Rule → Bool
rules_met v [] = true
rules_met v (r ∷ rs) = rule_met v r && rules_met v rs

abbrev pub fields_met : List Field → Bool
fields_met [] = true
fields_met (f ∷ fs) = rules_met f.value f.rules && fields_met fs

abbrev pub HonoursOneOf : (List Field → Option String) → Type 0
HonoursOneOf validator = (fs : List Field) → validator fs ≡ none → fields_met fs ≡ true

met_role :
    (q : RegisterRequest)
    → fields_met (register_fields q) ≡ true
    → (q.role ≡ "customer") ⊎ (q.role ≡ "eo")
unfolding register_fields
met_role q met = elim (Bool-cases (q.role == "customer")) [
  | inl is_customer ↦ inl ((eq_iff q.role "customer").0 is_customer)
  | inr other ↦ elim (Bool-cases (q.role == "eo")) [
    | inl is_eo ↦ inr ((eq_iff q.role "eo").0 is_eo)
    | inr neither ↦ absurd (ground (arith, met, other, neither))
  ]
]

role_or_customer-allowed :
    (r : String) → (r ≡ "customer") ⊎ (r ≡ "eo") → (role_or_customer r == "admin") ≡ false
role_or_customer-allowed r (inl e) = rw e refl
role_or_customer-allowed r (inr e) = rw e refl

-- Where the validator honours `oneof`, the endpoint for registration leaves the administrators as they
-- were, whatever the body holds and whichever statements fail. A body without a role leaves them as
-- they were whatever the validator does.
pub register-admins :
    (env : Env) (validator other : List Field → Option String) (body : Option RegisterRequest)
    (q : RegisterRequest) (w : World Tables)
    → HonoursOneOf validator
    → (admins (Handlers.register env validator body w).1.tables.users ≡ admins w.tables.users)
      × (admins (Handlers.register env other (some (record q { role = "" })) w).1.tables.users
          ≡ admins w.tables.users)
unfolding Handlers.register SameAdmins
register-admins env validator other body q w honours = (
  checked-tables (SameAdmins w.tables.users) (λ r. validator (register_fields r)) refusal body _ w
      refl
      λ r passes.
        service_admins env r.email r.password r.name (role_or_customer r.role) w
          (role_or_customer-allowed r.role (met_role r (honours (register_fields r) passes))),
  no_role (other (register_fields (record q { role = "" }))),
)
  where
    no_role :
        (refused : Option String)
        → admins
            (unless_refused refusal refused
              (respond
                (Service.register env q.email q.password q.name "customer")
                Handlers.registered)
              w).1.tables.users
          ≡ admins w.tables.users
    no_role none = service_admins env q.email q.password q.name "customer" w refl
    no_role (some _) = refl
