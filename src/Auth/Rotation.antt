-- ===== src/Auth/Rotation.antt =====
-- A refresh token is exchanged once.
use mathlib.Core.Path.{subst}
use ticketbus.Base.{
  ◌≡◌, ◌⊎◌, refl, inl, inr, Bool, true, false, String, none, some, List, [], ◌∷◌, ◌++◌, arith, ltb,
  Bool-cases, ◌∙◌,
}
use ticketbus.Text.{◌==◌}
use ticketbus.Table.{find}
use ticketbus.Db.{World, ok, err, exec, attempt, query_row, ◌>>=◌, ◌>>◌}
use ticketbus.Db.Ensures.{Ensures, Ensures-bind, Ensures-exec, Ensures-mono}
use ticketbus.Db.Keeps.{Ensures-lookup, Seen}
use ticketbus.Auth.Domain.{
  Tables, User, RefreshToken, TokenPair, Error, user_not_found, token_not_found, user_key,
}
use ticketbus.Auth.Repo.{
  by_hash, find_by_hash, find_by_id, without_hash, delete_hash, delete_by_hash,
}
use ticketbus.Auth.Service.{Env, issue, new_token, found_user, found_token, rotate, refresh_token}
use ticketbus.Auth.Rules.{Ensures-found_user, Ensures-found_token}
use ticketbus.Auth.Authentic.{Issued, issue-Issued}

abbrev pub spent : String → Tables → Tables
spent h t = record t { refresh_tokens = without_hash h t.refresh_tokens }

module _ (env : Env) (h : String) (before : Tables) where
  -- The token was stored and in time, its user exists, and the pair was issued to that user after every
  -- token with the hash was gone.
  abbrev pub Rotated : RefreshToken → TokenPair → Tables → Type 0
  Rotated stored p t =
      (ltb stored.expires_at env.now ≡ false)
      × (u : User) × (find user_key stored.user_id before.users ≡ some u)
      × (Issued env u (spent h before) p t)

  abbrev pub Refreshed : TokenPair → Tables → Type 0
  Refreshed p t =
      (stored : RefreshToken) × (by_hash h before.refresh_tokens ≡ some stored)
      × (Rotated stored p t)

  abbrev pub Refused : Tables → Type 0
  Refused t = (t ≡ before) ⊎ (t ≡ spent h before)

rotate-Rotated :
    (env : Env) (h : String) (stored : RefreshToken) (w : World Tables)
    → Ensures {E = Error}
        (Rotated env h w.tables stored)
        (Refused env h w.tables)
        (rotate env h stored w)
unfolding rotate find_by_id delete_by_hash delete_hash
rotate-Rotated env h stored w = in_time (Bool-cases (ltb stored.expires_at env.now))
  where
    issued :
        (u : User) (w2 : World Tables)
        → ltb stored.expires_at env.now ≡ false
        → find user_key stored.user_id w2.tables.users ≡ some u
        → Ensures {E = Error}
            (Rotated env h w2.tables stored)
            (Refused env h w2.tables)
            ((delete_by_hash h >> issue env u) w2)
    issued u w2 early there =
        Ensures-bind (λ _ t. t ≡ spent h w2.tables) (Rotated env h w2.tables stored)
          (Refused env h w2.tables) (delete_by_hash h) (λ _. issue env u) w2
          (Ensures-exec Error (λ _ t. t ≡ spent h w2.tables) (Refused env h w2.tables)
            (delete_hash h) w2 (inl refl) refl)
          (λ _ w3 gone.
            Ensures-mono (Issued env u w3.tables) (Rotated env h w2.tables stored)
              (λ t. t ≡ w3.tables) (Refused env h w2.tables) (issue env u w3)
              (issue-Issued env u w3)
              (λ p t got. (early, u, there, subst (λ b. Issued env u b p t) gone got))
              (λ t same. inr (same ∙ gone)))

    looked_up :
        ltb stored.expires_at env.now ≡ false
        → Ensures {E = Error} (Rotated env h w.tables stored) (Refused env h w.tables) (
            (attempt (query_row (λ (t : Tables). find user_key stored.user_id t.users))
                >>= λ looked.
                    found_user env user_not_found looked >>= λ u. delete_by_hash h >> issue env u)
              w)
    looked_up early =
        Ensures-lookup Error (λ t. find user_key stored.user_id t.users)
          (Rotated env h w.tables stored) (Refused env h w.tables) _ w
          (λ r w1 looked.
            Ensures-bind (Seen Error (λ t. find user_key stored.user_id t.users) w.tables)
              (Rotated env h w.tables stored) (Refused env h w.tables)
              (found_user env user_not_found r) (λ u. delete_by_hash h >> issue env u) w1
              (Ensures-mono _ (Seen Error (λ t. find user_key stored.user_id t.users) w.tables)
                (λ t. t ≡ w.tables) (Refused env h w.tables) (found_user env user_not_found r w1)
                (Ensures-found_user env user_not_found _ (λ t. t ≡ w.tables) r w1 looked)
                (λ _ _ k. k) (λ _ same. inl same))
              (λ u w2 seen. rw (← seen.1) (issued u w2 early (rw seen.1 seen.0))))

    in_time :
        (ltb stored.expires_at env.now ≡ true) ⊎ (ltb stored.expires_at env.now ≡ false)
        → Ensures {E = Error}
            (Rotated env h w.tables stored)
            (Refused env h w.tables)
            (rotate env h stored w)
    in_time (inl late) = rw (late, Ensures) (inl refl)
    in_time (inr early) = rw (early, Ensures) (looked_up early)

-- Whichever statements fail, a refresh gives a pair only for a stored token that is in time and whose
-- user exists: every token with its hash is gone, and one new token of that user is stored. Where it
-- fails, it changed nothing, or it took the tokens with the hash away.
pub refresh_token-Refreshed :
    (env : Env) (raw : String) (w : World Tables)
    → Ensures {E = Error}
        (Refreshed env (env.sha256 raw) w.tables)
        (Refused env (env.sha256 raw) w.tables)
        (refresh_token env raw w)
unfolding refresh_token find_by_hash
refresh_token-Refreshed env raw w =
    Ensures-lookup Error (λ t. by_hash (env.sha256 raw) t.refresh_tokens)
      (Refreshed env (env.sha256 raw) w.tables) (Refused env (env.sha256 raw) w.tables) _ w
      (λ r w1 looked.
        Ensures-bind (Seen Error (λ t. by_hash (env.sha256 raw) t.refresh_tokens) w.tables)
          (Refreshed env (env.sha256 raw) w.tables) (Refused env (env.sha256 raw) w.tables)
          (found_token env r) (λ stored. rotate env (env.sha256 raw) stored) w1
          (Ensures-mono _ (Seen Error (λ t. by_hash (env.sha256 raw) t.refresh_tokens) w.tables)
            (λ t. t ≡ w.tables) (Refused env (env.sha256 raw) w.tables) (found_token env r w1)
            (Ensures-found_token env _ (λ t. t ≡ w.tables) r w1 looked) (λ _ _ k. k)
            (λ _ same. inl same))
          (λ stored w2 seen. rw (← seen.1) (rotated stored w2 (rw seen.1 seen.0))))
  where
    rotated :
        (stored : RefreshToken) (w2 : World Tables)
        → by_hash (env.sha256 raw) w2.tables.refresh_tokens ≡ some stored
        → Ensures {E = Error}
            (Refreshed env (env.sha256 raw) w2.tables)
            (Refused env (env.sha256 raw) w2.tables)
            (rotate env (env.sha256 raw) stored w2)
    rotated stored w2 there =
        Ensures-mono (Rotated env (env.sha256 raw) w2.tables stored)
          (Refreshed env (env.sha256 raw) w2.tables) (Refused env (env.sha256 raw) w2.tables)
          (Refused env (env.sha256 raw) w2.tables) (rotate env (env.sha256 raw) stored w2)
          (rotate-Rotated env (env.sha256 raw) stored w2) (λ p t got. (stored, there, got))
          (λ _ k. k)

by_hash-without : (h : String) (rs : List RefreshToken) → by_hash h (without_hash h rs) ≡ none
unfolding by_hash without_hash
by_hash-without h [] = refl
by_hash-without h (r ∷ rs) = ground (arith, by_hash-without h rs)

by_hash-append :
    (h : String) (rs : List RefreshToken) (r : RefreshToken)
    → (r.token_hash == h) ≡ false
    → by_hash h (rs ++ r ∷ []) ≡ by_hash h rs
unfolding by_hash
by_hash-append h [] r other = rw other refl
by_hash-append h (x ∷ rs) r other = ground (arith, by_hash-append h rs r other)

Gone : Env → String → TokenPair → Tables → Type 0
Gone env raw p t =
    (env.sha256 p.refresh_token == env.sha256 raw) ≡ false
    → by_hash (env.sha256 raw) t.refresh_tokens ≡ none

Refreshed-Gone :
    (env : Env) (raw : String) (p : TokenPair) (before t : Tables)
    → Refreshed env (env.sha256 raw) before p t
    → Gone env raw p t
unfolding Gone
Refreshed-Gone env raw p before t got other = rw got.2.3.2 (
    by_hash-append (env.sha256 raw) (without_hash (env.sha256 raw) before.refresh_tokens)
      (new_token env got.2.1 p.refresh_token) other
    ∙ by_hash-without (env.sha256 raw) before.refresh_tokens)

unknown_token :
    (env : Env) (raw : String) (w : World Tables)
    → by_hash (env.sha256 raw) w.tables.refresh_tokens ≡ none
    → (refresh_token env raw w).0 ≡ err token_not_found
unfolding refresh_token find_by_hash query_row exec
unknown_token env raw w absent = by_faults w.faults
  where
    by_faults :
        (fs : List Bool)
        → (refresh_token env raw (record { tables = w.tables; faults = fs })).0
          ≡ err token_not_found
    by_faults [] = rw absent refl
    by_faults (true ∷ fs) = refl
    by_faults (false ∷ fs) = rw absent refl

-- A refresh token is good for one exchange: after a refresh that gave a pair, whichever statements fail
-- then, the same token is refused as unknown, where the two tokens' digests differ.
pub refresh_token-once :
    (env later : Env) (raw : String) (p : TokenPair) (w w' : World Tables)
    → refresh_token env raw w ≡ (ok p, w')
    → (env.sha256 p.refresh_token == env.sha256 raw) ≡ false
    → later.sha256 raw ≡ env.sha256 raw
    → (refresh_token later raw w').0 ≡ err token_not_found
unfolding Gone
refresh_token-once env later raw p w w' gave other same =
    unknown_token later raw w' (rw same (gone (refresh_token-Refreshed env raw w)))
  where
    gone :
        Ensures {E = Error}
          (Refreshed env (env.sha256 raw) w.tables)
          (Refused env (env.sha256 raw) w.tables)
          (refresh_token env raw w)
        → by_hash (env.sha256 raw) w'.tables.refresh_tokens ≡ none
    gone got =
        Refreshed-Gone env raw p w.tables w'.tables
          (subst
            (Ensures {E = Error} (Refreshed env (env.sha256 raw) w.tables)
              (Refused env (env.sha256 raw) w.tables))
            gave got)
          other
