-- ===== src/Auth/Laws/Handlers.antt =====
-- Every operation of the auth service keeps an invariant with the laws, so every history does.
use ticketbus.Base.{ℕ, Bool, true, false, String, List, [], ◌∷◌, if◌then◌else◌, ltb}
use ticketbus.Db.{World, done, pure, raise_if}
use ticketbus.Db.Ensures.{Ensures-tables}
use ticketbus.Db.Keeps.{Keeps, Keeps-then, Keeps-attempt, Keeps-raise_if, Keeps-find}
use ticketbus.Auth.Domain.{
  Tables, User, RefreshToken, Error, not_hashed, not_signed, not_drawn, user_exists,
  invalid_credentials, user_not_found, token_expired, user_key,
}
use ticketbus.Auth.Repo.{
  create_user, find_by_email, find_by_id, create_token, find_by_hash, by_email, by_hash,
  delete_by_hash,
}
use ticketbus.Table.{find}
use ticketbus.Auth.Service.{
  Env, AdminSeed, hash, generate_access_token, generate_refresh_token, is_taken, new_user,
  new_token, store_user, register, register_organizer, issue, found_user, check_password, login,
  found_token, rotate, refresh_token, store_admin, seed_one, count_if, seed_from, seed_admins,
  seed_name, map_claims,
}
use ticketbus.Auth.Calls.{
  Call, registers, registers_organizer, logs_in, refreshes, deletes, seeds, handle, run,
}
use ticketbus.Auth.Laws.{
  Law, Keeps-create_user, Keeps-create_token, Keeps-delete_by_hash, Keeps-delete_by_id,
  Keeps-or_error, Keeps-found_user, Keeps-found_token, Keeps-check_password,
}

module _ {I : Tables → Type 0} (law : Law I) where
  Keeps-by_email :
      (email : String) (w : World Tables) → I w.tables → Keeps I (find_by_email email w)
  unfolding find_by_email
  Keeps-by_email email w h = Keeps-find Error I (λ t. by_email email t.users) w h

  Keeps-store_user :
      (env : Env) (email password name role : String) (w : World Tables)
      → I w.tables
      → Keeps I (store_user env email password name role w)
  unfolding store_user
  Keeps-store_user env email password name role w h =
      Keeps-then I (hash env password) _ w (Keeps-or_error law not_hashed (env.bcrypt password) w h)
        (λ p w' h'.
          Keeps-then I (create_user (new_user env email p name role) env.now) _ w'
            (Keeps-create_user law (new_user env email p name role) env.now w' h') (λ _ _ k. k))

  Keeps-register :
      (env : Env) (email password name role : String) (w : World Tables)
      → I w.tables
      → Keeps I (register env email password name role w)
  unfolding register
  Keeps-register env email password name role w h =
      Keeps-attempt I (find_by_email email) _ w (Keeps-by_email email w h) (λ r w' h'.
        Keeps-then I (raise_if (is_taken env r) user_exists) _ w'
          (Keeps-raise_if I (is_taken env r) user_exists w' h')
          (λ _ w'' h''. Keeps-store_user env email password name role w'' h''))

  Keeps-issue : (env : Env) (u : User) (w : World Tables) → I w.tables → Keeps I (issue env u w)
  unfolding issue
  Keeps-issue env u w h =
      Keeps-then I (generate_access_token env u) _ w
        (Keeps-or_error law not_signed (env.signed (map_claims env u)) w h)
        (λ access w1 h1.
          Keeps-then I (generate_refresh_token env) _ w1
            (Keeps-or_error law not_drawn env.random w1 h1)
            (λ raw w2 h2.
              Keeps-then I (create_token (new_token env u raw) env.now) _ w2
                (Keeps-create_token law (new_token env u raw) env.now w2 h2) (λ _ _ k. k)))

  Keeps-login :
      (env : Env) (email password : String) (w : World Tables)
      → I w.tables
      → Keeps I (login env email password w)
  unfolding login
  Keeps-login env email password w h =
      Keeps-attempt I (find_by_email email) _ w (Keeps-by_email email w h) (λ r w1 h1.
        Keeps-then I (found_user env invalid_credentials r) _ w1
          (Keeps-found_user law env invalid_credentials r w1 h1)
          (λ u w2 h2.
            Keeps-then I (check_password env password u) _ w2
              (Keeps-check_password law env password u w2 h2) (λ _ w3 h3. Keeps-issue env u w3 h3)))

  Keeps-rotate :
      (env : Env) (digest : String) (stored : RefreshToken) (w : World Tables)
      → I w.tables
      → Keeps I (rotate env digest stored w)
  unfolding rotate find_by_id
  Keeps-rotate env digest stored w h =
      Keeps-then I (raise_if (ltb stored.expires_at env.now) token_expired) _ w
        (Keeps-raise_if I (ltb stored.expires_at env.now) token_expired w h)
        (λ _ w1 h1.
          Keeps-attempt I (find_by_id stored.user_id) _ w1
            (Keeps-find Error I (λ t. find user_key stored.user_id t.users) w1 h1)
            (λ r w2 h2.
              Keeps-then I (found_user env user_not_found r) _ w2
                (Keeps-found_user law env user_not_found r w2 h2)
                (λ u w3 h3.
                  Keeps-then I (delete_by_hash digest) _ w3 (Keeps-delete_by_hash law digest w3 h3)
                    (λ _ w4 h4. Keeps-issue env u w4 h4))))

  Keeps-refresh_token :
      (env : Env) (raw : String) (w : World Tables) → I w.tables → Keeps I (refresh_token env raw w)
  unfolding refresh_token find_by_hash
  Keeps-refresh_token env raw w h =
      Keeps-attempt I (find_by_hash (env.sha256 raw)) _ w
        (Keeps-find Error I (λ t. by_hash (env.sha256 raw) t.refresh_tokens) w h)
        (λ r w1 h1.
          Keeps-then I (found_token env r) _ w1 (Keeps-found_token law env r w1 h1)
            (λ stored w2 h2. Keeps-rotate env (env.sha256 raw) stored w2 h2))

  Keeps-seed_one :
      (env : Env) (email password name : String) (w : World Tables)
      → I w.tables
      → Keeps I (seed_one env email password name w)
  unfolding seed_one store_admin
  Keeps-seed_one env email password name w h =
      Keeps-attempt I (find_by_email email) _ w (Keeps-by_email email w h)
        (λ r w' h'. unless_taken (is_taken env r) w' h')
    where
      store : (w' : World Tables) → I w'.tables → Keeps I (store_admin env email password name w')
      store w1 h1 =
          Keeps-then I (hash env password) _ w1
            (Keeps-or_error law not_hashed (env.bcrypt password) w1 h1)
            (λ p w2 h2.
              Keeps-then I (create_user (new_user env email p name "admin") env.now) _ w2
                (Keeps-create_user law (new_user env email p name "admin") env.now w2 h2)
                (λ _ _ k. k))

      unless_taken :
          (taken : Bool) (w' : World Tables)
          → I w'.tables
          → Keeps I ((if taken then pure false else store_admin env email password name) w')
      unless_taken true w' h' = h'
      unless_taken false w' h' = store w' h'

  Keeps-seed_from :
      (n : ℕ) (seeds : List (Env × AdminSeed)) (w : World Tables)
      → I w.tables
      → Keeps I (seed_from n seeds w)
  unfolding seed_from
  Keeps-seed_from n [] w h = h
  Keeps-seed_from n ((env, a) ∷ more) w h =
      Keeps-then I (seed_one env a.email a.password (seed_name a)) _ w
        (Keeps-seed_one env a.email a.password (seed_name a) w h)
        (λ made w' h'. Keeps-seed_from (count_if made n) more w' h')

  Keeps-handle : (c : Call) (w : World Tables) → I w.tables → Keeps I (handle c w)
  unfolding handle register_organizer seed_admins
  Keeps-handle (registers env email password name role) w h =
      Keeps-then I (register env email password name role) (λ _. done) w
        (Keeps-register env email password name role w h) (λ _ _ k. k)
  Keeps-handle (registers_organizer env email password name organizer description link contact) w
        h =
      Keeps-then I (register env email password name "eo") (λ _. done) w
        (Keeps-register env email password name "eo" w h) (λ _ _ k. k)
  Keeps-handle (logs_in env email password) w h =
      Keeps-then I (login env email password) (λ _. done) w (Keeps-login env email password w h)
        (λ _ _ k. k)
  Keeps-handle (refreshes env raw) w h =
      Keeps-then I (refresh_token env raw) (λ _. done) w (Keeps-refresh_token env raw w h)
        (λ _ _ k. k)
  Keeps-handle (deletes id) w h = Keeps-delete_by_id law id w h
  Keeps-handle (seeds admins) w h =
      Keeps-then I (seed_from 0 admins) (λ _. done) w (Keeps-seed_from 0 admins w h) (λ _ _ k. k)

  pub Law-run : (cs : List Call) (w : World Tables) → I w.tables → I (run cs w).tables
  unfolding run
  Law-run [] w h = h
  Law-run (c ∷ cs) w h =
      Law-run cs (handle c w).1 (Ensures-tables I (handle c w) (Keeps-handle c w h))
