-- ===== src/Auth/Authentic.antt =====
-- Who gets a token, and what the token says of them.
use ticketbus.Db.Keeps.{Ensures-lookup, Seen}
use ticketbus.Base.{◌+◌, ◌/◌, ◌≡◌, refl, true, String, none, some, [], ◌∷◌, ◌++◌}
use ticketbus.Db.{World, pure, ◌>>=◌, ◌>>◌}
use ticketbus.Db.Ensures.{Ensures, Ensures-bind, Ensures-exec, Ensures-mono, Runs-write_unless}
use ticketbus.Auth.Domain.{
  Tables, User, TokenPair, Error, invalid_credentials, not_signed, not_drawn,
}
use ticketbus.Auth.Repo.{by_email, find_by_email, token_violation, insert_token, create_token}
use ticketbus.Auth.Service.{
  Env, MapClaims, second, map_claims, generate_access_token, generate_refresh_token, new_token,
  issue, found_user, check_password, login, pair_of,
}
use ticketbus.Auth.Rules.{Ensures-or_error, Ensures-found_user, Ensures-check_password}

module _ (env : Env) (u : User) (before : Tables) where
  -- The pair names the user, and the hash of its refresh token is stored behind the tokens that were
  -- there, with the deadline.
  abbrev pub Issued : TokenPair → Tables → Type 0
  Issued p t =
      (env.signed (map_claims env u) ≡ some p.access_token)
      × (token_violation (new_token env u p.refresh_token) before ≡ none)
      × (t ≡ record before {
        refresh_tokens = before.refresh_tokens ++ new_token env u p.refresh_token ∷ [];
      })

stored_row :
    (env : Env) (u : User) (access raw : String) (t : Tables)
    → env.signed (map_claims env u) ≡ some access
    → token_violation (new_token env u raw) t ≡ none
    → Issued env u t
        (pair_of env access raw)
        (record t { refresh_tokens = t.refresh_tokens ++ new_token env u raw ∷ [] })
stored_row env u access raw t signed fits = (signed, fits, refl)

-- Whichever statements fail, the end of a login and of a refresh either stores one refresh token of
-- the user, or changes nothing.
pub issue-Issued :
    (env : Env) (u : User) (w : World Tables)
    → Ensures {E = Error} (Issued env u w.tables) (λ t. t ≡ w.tables) (issue env u w)
unfolding issue create_token insert_token
issue-Issued env u w =
    Ensures-bind (λ access t. (env.signed (map_claims env u) ≡ some access) × (t ≡ w.tables))
      (Issued env u w.tables) (λ t. t ≡ w.tables) (generate_access_token env u) _ w
      (Ensures-or_error not_signed (env.signed (map_claims env u)) w)
      (λ access w1 h1. rw (← h1.1) (drawn access w1 h1.0))
  where
    stored :
        (access raw : String) (w2 : World Tables)
        → env.signed (map_claims env u) ≡ some access
        → Ensures {E = Error}
            (Issued env u w2.tables)
            (λ t. t ≡ w2.tables)
            ((create_token (new_token env u raw) env.now >>= λ _. pure (pair_of env access raw)) w2)
    stored access raw w2 signed =
        Ensures-bind (λ _ t. Issued env u w2.tables (pair_of env access raw) t)
          (Issued env u w2.tables) (λ t. t ≡ w2.tables) (create_token (new_token env u raw) env.now)
          _ w2
          (Ensures-exec Error _ _ (insert_token (new_token env u raw) env.now) w2 refl (
            Runs-write_unless (Issued env u w2.tables (pair_of env access raw))
              (token_violation (new_token env u raw) w2.tables) _
              (stored_row env u access raw w2.tables signed)))
          (λ _ _ k. k)

    drawn :
        (access : String) (w1 : World Tables)
        → env.signed (map_claims env u) ≡ some access
        → Ensures {E = Error}
            (Issued env u w1.tables)
            (λ t. t ≡ w1.tables)
            ((generate_refresh_token env >>= λ raw.
                create_token (new_token env u raw) env.now >>= λ _. pure (pair_of env access raw))
              w1)
    drawn access w1 signed =
        Ensures-bind (λ raw t. (env.random ≡ some raw) × (t ≡ w1.tables)) (Issued env u w1.tables)
          (λ t. t ≡ w1.tables) (generate_refresh_token env) _ w1
          (Ensures-or_error not_drawn env.random w1)
          (λ raw w2 h2. rw (← h2.1) (stored access raw w2 signed))

module _ (env : Env) (email password : String) (before : Tables) where
  -- A user with the email, whose stored hash the password matches.
  abbrev pub Authentic : User → Type 0
  Authentic u =
      (by_email email before.users ≡ some u) × (env.matches password u.password_hash ≡ true)

  abbrev pub LoggedIn : TokenPair → Tables → Type 0
  LoggedIn p t = (u : User) × (Authentic u) × (Issued env u before p t)

-- Whichever statements fail, a login gives tokens only to a user with the email, whose stored hash the
-- password matches: it stores one refresh token of that user, and where it fails it changes nothing.
pub login-LoggedIn :
    (env : Env) (email password : String) (w : World Tables)
    → Ensures {E = Error}
        (LoggedIn env email password w.tables)
        (λ t. t ≡ w.tables)
        (login env email password w)
unfolding login find_by_email
login-LoggedIn env email password w =
    Ensures-lookup Error (λ t. by_email email t.users) (LoggedIn env email password w.tables)
      (λ t. t ≡ w.tables) _ w
      (λ r w1 looked.
        Ensures-bind (Seen Error (λ t. by_email email t.users) w.tables)
          (LoggedIn env email password w.tables) (λ t. t ≡ w.tables)
          (found_user env invalid_credentials r) (λ u. check_password env password u >> issue env u)
          w1 (Ensures-found_user env invalid_credentials _ (λ t. t ≡ w.tables) r w1 looked)
          (λ u w2 seen. rw (← seen.1) (checked_password u w2 (rw seen.1 seen.0))))
  where
    checked_password :
        (u : User) (w2 : World Tables)
        → by_email email w2.tables.users ≡ some u
        → Ensures {E = Error}
            (LoggedIn env email password w2.tables)
            (λ t. t ≡ w2.tables)
            ((check_password env password u >> issue env u) w2)
    checked_password u w2 there =
        Ensures-bind (λ _ t. (env.matches password u.password_hash ≡ true) × (t ≡ w2.tables))
          (LoggedIn env email password w2.tables) (λ t. t ≡ w2.tables)
          (check_password env password u) (λ _. issue env u) w2
          (Ensures-check_password env password u w2)
          (λ _ w3 h3. rw (← h3.1) (
            Ensures-mono (Issued env u w3.tables) (LoggedIn env email password w3.tables) _
              (λ t. t ≡ w3.tables) (issue env u w3) (issue-Issued env u w3)
              (λ p t got. (u, ((rw h3.1 there), h3.0), got)) (λ t same. same)))

module _ (env : Env) (u : User) where
  -- The token is what the key signs of the user's id, email and role, until the token's time is over.
  abbrev pub Names : TokenPair → Type 0
  Names p =
      (c : MapClaims) × (env.signed c ≡ some p.access_token)
      × (c.sub ≡ some u.id)
      × (c.email ≡ some u.email)
      × (c.role ≡ some u.role)
      × (c.exp ≡ (env.now + env.jwt_ttl) / second)

module _ (env : Env) (email password : String) (before : Tables) where
  abbrev pub Signed : TokenPair → Tables → Type 0
  Signed p t =
      (u : User) × (Authentic env email password before u)
      × (Names env u p)
      × (Issued env u before p t)

-- Whichever statements fail: where a login returns, a user has the email, the password matches the
-- stored hash, the access token is signed for the id, the email and the role of that user and for the
-- configured time, and one refresh token of the user is stored. Where it fails it changes nothing.
pub login-Signed :
    (env : Env) (email password : String) (w : World Tables)
    → Ensures {E = Error}
        (Signed env email password w.tables)
        (λ t. t ≡ w.tables)
        (login env email password w)
login-Signed env email password w =
    Ensures-mono (LoggedIn env email password w.tables) (Signed env email password w.tables)
      (λ t. t ≡ w.tables) (λ t. t ≡ w.tables) (login env email password w)
      (login-LoggedIn env email password w)
      (λ p t got. (got.0, got.1, (map_claims env got.0, got.2.0, refl, refl, refl, refl), got.2))
      (λ t same. same)
