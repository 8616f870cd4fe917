-- ===== src/Auth/RoundTrip.antt =====
-- From the registration to the login to the refresh, where no statement fails.
use text.Mathlib.TextPositions.{eq_refl}
use ticketbus.Base.{
  ◌+◌, ◌≡◌, refl, ◌∙◌, true, false, Uuid, String, none, some, List, [], ◌∷◌, ◌++◌, arith, ltb,
  Option-cases, inl, inr, ==-self,
}
use ticketbus.Table.{find, find-append}
use ticketbus.Db.{ok, exec, query_row, calm}
use ticketbus.Auth.Domain.{Tables, User, RefreshToken, user_key, token_key}
use ticketbus.Auth.Repo.{
  user_row, by_email, by_hash, without_hash, user_violation, insert_user, create_user,
  find_by_email, find_by_id, find_by_hash, token_violation, insert_token, create_token, delete_hash,
  delete_by_hash,
}
use ticketbus.Auth.Service.{
  Env, new_user, new_token, pair_of, map_claims, store_user, register, issue, login, rotate,
  refresh_token,
}
use ticketbus.Auth.Rotation.{spent}

abbrev pub with_user : User → Tables → Tables
with_user u t = record t { users = t.users ++ u ∷ [] }

abbrev pub with_token : RefreshToken → Tables → Tables
with_token r t = record t { refresh_tokens = t.refresh_tokens ++ r ∷ [] }

free_email : (u : User) (t : Tables) → user_violation u t ≡ none → by_email u.email t.users ≡ none
unfolding user_violation
free_email u t fits = elim (Option-cases (by_email u.email t.users)) [
  | inl absent ↦ absent
  | inr (x, there) ↦ ground arith
]

-- Registering a free email with a known role succeeds.
pub register-calm :
    (env : Env) (email password name role h : String) (t : Tables)
    → env.bcrypt password ≡ some h
    → user_violation (new_user env email h name role) t ≡ none
    → register env email password name role (calm t) ≡ (
      ok (new_user env email h name role),
      calm (with_user (user_row (new_user env email h name role) env.now) t),
    )
unfolding register store_user create_user find_by_email query_row exec insert_user
register-calm env email password name role h t hashed fits =
    rw (free_email (new_user env email h name role) t fits, hashed, fits) refl

issue-calm :
    (env : Env) (u : User) (access raw : String) (t : Tables)
    → env.signed (map_claims env u) ≡ some access
    → env.random ≡ some raw
    → token_violation (new_token env u raw) t ≡ none
    → issue env u (calm t)
      ≡ (ok (pair_of env access raw), calm (with_token (new_token env u raw) t))
unfolding issue create_token exec insert_token
issue-calm env u access raw t signed drawn fits = rw (signed, drawn, fits) refl

-- Logging in with the password succeeds.
pub login-calm :
    (env : Env) (email password : String) (u : User) (access raw : String) (t : Tables)
    → by_email email t.users ≡ some u
    → env.matches password u.password_hash ≡ true
    → env.signed (map_claims env u) ≡ some access
    → env.random ≡ some raw
    → token_violation (new_token env u raw) t ≡ none
    → login env email password (calm t)
      ≡ (ok (pair_of env access raw), calm (with_token (new_token env u raw) t))
unfolding login find_by_email query_row exec
login-calm env email password u access raw t there same signed drawn fits =
    rw (there, same) (issue-calm env u access raw t signed drawn fits)

-- Exchanging a stored token in time succeeds.
pub refresh_token-calm :
    (env : Env) (old : String) (stored : RefreshToken) (u : User) (access raw : String) (t : Tables)
    → by_hash (env.sha256 old) t.refresh_tokens ≡ some stored
    → ltb stored.expires_at env.now ≡ false
    → find user_key stored.user_id t.users ≡ some u
    → env.signed (map_claims env u) ≡ some access
    → env.random ≡ some raw
    → token_violation (new_token env u raw) (spent (env.sha256 old) t) ≡ none
    → refresh_token env old (calm t) ≡ (
      ok (pair_of env access raw),
      calm (with_token (new_token env u raw) (spent (env.sha256 old) t)),
    )
unfolding refresh_token rotate find_by_hash find_by_id delete_by_hash delete_hash query_row exec
refresh_token-calm env old stored u access raw t kept early there signed drawn fits =
    rw (kept, early, there)
      (issue-calm env u access raw (spent (env.sha256 old) t) signed drawn fits)

by_email-new :
    (u : User) (us : List User)
    → by_email u.email us ≡ none
    → by_email u.email (us ++ u ∷ []) ≡ some u
unfolding by_email
by_email-new u [] free = rw (eq_refl u.email) refl
by_email-new u (v ∷ us) free = ground (arith, by_email-new u us)

by_hash-new :
    (r : RefreshToken) (rs : List RefreshToken)
    → by_hash r.token_hash rs ≡ none
    → by_hash r.token_hash (rs ++ r ∷ []) ≡ some r
unfolding by_hash
by_hash-new r [] free = rw (eq_refl r.token_hash) refl
by_hash-new r (x ∷ rs) free = ground (arith, by_hash-new r rs)

free_id : (u : User) (t : Tables) → user_violation u t ≡ none → find user_key u.id t.users ≡ none
unfolding user_violation
free_id u t fits = elim (Option-cases (find user_key u.id t.users)) [
  | inl absent ↦ absent
  | inr (x, there) ↦ ground arith
]

find-new :
    (u : User) (us : List User)
    → find user_key u.id us ≡ none
    → find user_key u.id (us ++ u ∷ []) ≡ some u
find-new u us free = find-append user_key u.id u us ∙ rw (free, ==-self u.id) refl

find-without :
    (id : Uuid) (r : RefreshToken) (rs : List RefreshToken)
    → find token_key id rs ≡ none
    → find token_key id (without_hash r.token_hash (rs ++ r ∷ [])) ≡ none
unfolding find without_hash
find-without id r [] free = rw (eq_refl r.token_hash) refl
find-without id r (x ∷ rs) free = ground (arith, find-without id r rs)

fits_token :
    (r : RefreshToken) (u : User) (t : Tables)
    → find token_key r.id t.refresh_tokens ≡ none
    → find user_key r.user_id t.users ≡ some u
    → token_violation r t ≡ none
unfolding token_violation
fits_token r u t free there = rw (free, there) refl

-- Where no statement fails and the drawn ids and tokens are new: who registers with a free email and a
-- known role can log in with the password, and can exchange the refresh token of that login, in time,
-- for a new pair.
pub register-login-refresh :
    (e1 e2 e3 : Env) (email password name role h a2 a3 raw2 raw3 : String) (t : Tables)
    → e1.bcrypt password ≡ some h
    → user_violation (new_user e1 email h name role) t ≡ none
    → e2.matches password h ≡ true
    → e2.signed (map_claims e2 (new_user e1 email h name role)) ≡ some a2
    → e2.random ≡ some raw2
    → find token_key e2.id t.refresh_tokens ≡ none
    → by_hash (e2.sha256 raw2) t.refresh_tokens ≡ none
    → e3.sha256 raw2 ≡ e2.sha256 raw2
    → ltb (e2.now + e2.refresh_ttl) e3.now ≡ false
    → e3.signed (map_claims e3 (new_user e1 email h name role)) ≡ some a3
    → e3.random ≡ some raw3
    → find token_key e3.id t.refresh_tokens ≡ none
    → ((register e1 email password name role (calm t)).0 ≡ ok (new_user e1 email h name role))
      × ((login e2 email password (register e1 email password name role (calm t)).1).0
          ≡ ok (pair_of e2 a2 raw2))
      × ((refresh_token e3 raw2
            (login e2 email password (register e1 email password name role (calm t)).1).1).0
          ≡ ok (pair_of e3 a3 raw3))
register-login-refresh e1 e2 e3 email password name role h a2 a3 raw2 raw3 t hashed fits same
      signed2 drawn2 fresh2 new2 digest early signed3 drawn3 fresh3 =
    rw registered (refl, (rw logged_in refl), (rw (logged_in, refreshed) refl))
  where
    u : User
    u = new_user e1 email h name role

    v : User
    v = user_row u e1.now

    t1 : Tables
    t1 = with_user v t

    there : find user_key u.id t1.users ≡ some v
    there = find-new v t.users (free_id u t fits)

    token : RefreshToken
    token = new_token e2 u raw2

    registered : register e1 email password name role (calm t) ≡ (ok u, calm t1)
    registered = register-calm e1 email password name role h t hashed fits

    logged_in :
        login e2 email password (calm t1) ≡ (ok (pair_of e2 a2 raw2), calm (with_token token t1))
    logged_in =
        login-calm e2 email password v a2 raw2 t1 (by_email-new v t.users (free_email u t fits))
          same signed2 drawn2 (fits_token token v t1 fresh2 there)

    kept : by_hash (e3.sha256 raw2) (with_token token t1).refresh_tokens ≡ some token
    kept = rw digest (by_hash-new token t.refresh_tokens new2)

    fits3 :
        token_violation (new_token e3 u raw3) (spent (e3.sha256 raw2) (with_token token t1)) ≡ none
    fits3 = rw digest (
        fits_token (new_token e3 u raw3) v (spent token.token_hash (with_token token t1))
          (find-without e3.id token t.refresh_tokens fresh3) there)

    refreshed : refresh_token e3 raw2 (calm (with_token token t1)) ≡ (
      ok (pair_of e3 a3 raw3),
      calm (with_token (new_token e3 u raw3) (spent (e3.sha256 raw2) (with_token token t1))),
    )
    refreshed =
        refresh_token-calm e3 raw2 token v a3 raw3 (with_token token t1) kept early there signed3
          drawn3 fits3
