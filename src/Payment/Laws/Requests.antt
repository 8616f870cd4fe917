-- ===== src/Payment/Laws/Requests.antt =====
-- service/payment/internal/application/payment_service.go and transactions.go keep
-- an invariant with the laws.
use ticketbus.Base.{ℕ, refl, Bool, true, false, not, Uuid, String, Option, none, some, ⊤, ◌==◌}
use ticketbus.Db.{World, Result, ok, err, db_err, DbError, raise_if}
use ticketbus.Db.Ensures.{Ensures-bind}
use ticketbus.Payment.Domain.{
  PaymentStatus, Tables, Transaction, SessionResult, initiated, pending, status_eq, Error,
  already_processed, transaction_expired, transaction_not_found,
}
use ticketbus.Payment.Repo
use ticketbus.Payment.Service
use ticketbus.Payment.Service.{
  new_txn, created_or_existing, initiate_txn_for_booking, found, get_payment_status, is_closing,
  session_request, cancel_session, session_or_error, keep_or_void, open_session, process_payment,
}
use ticketbus.Payment.Laws.{Law}
use ticketbus.Payment.Laws.Steps.{
  Keeps-create, Keeps-update_session, AfterMove, Moves-transition_if_initiated,
}
use ticketbus.Db.Keeps.{Keeps, Keeps-then, Keeps-attempt, Keeps-raise_if, Keeps-find}

module _ {I : Tables → Type 0} {Owing : PaymentStatus → Uuid → Tables → Type 0}
    (law : Law I Owing) where
  pub Keeps-initiate :
      (env : Service.Env) (booking event user : Uuid) (email : String) (amount expiry : ℕ)
      (w : World Tables)
      → I w.tables
      → Keeps I (initiate_txn_for_booking env booking event user email amount expiry w)
  unfolding initiate_txn_for_booking new_txn Repo.find_by_booking_id
  Keeps-initiate env booking event user email amount expiry w h =
      Keeps-attempt I (Repo.create x env.now) (created_or_existing x) w
        (Keeps-create law x env.now w refl h) existing
    where
      x : Transaction
      x = new_txn env booking event user email amount expiry

      existing :
          (r : Result Error ⊤) (w' : World Tables)
          → I w'.tables
          → Keeps I (created_or_existing x r w')
      existing (ok _) w' h' = h'
      existing (err e) w' h' = h'
      existing (db_err DbError.unique_violation) w' h' = Keeps-find Error I _ w' h'
      existing (db_err _) w' h' = h'

  pub Keeps-get_payment_status :
      (booking : Uuid) (w : World Tables) → I w.tables → Keeps I (get_payment_status booking w)
  unfolding get_payment_status Repo.find_by_booking_id
  Keeps-get_payment_status booking w h =
      Keeps-attempt I (Repo.find_by_booking_id booking) found w (Keeps-find Error I _ w h) told
    where
      told : (r : Result Error Transaction) (w' : World Tables) → I w'.tables → Keeps I (found r w')
      told (ok _) w' h' = h'
      told (err _) w' h' = h'
      told (db_err _) w' h' = h'

  pub Keeps-open_session :
      (env : Service.Env) (x : Transaction) (w : World Tables)
      → I w.tables
      → Keeps I (open_session env x w)
  unfolding open_session keep_or_void cancel_session
  Keeps-open_session env x w h =
      Keeps-then I (session_or_error (env.create_session (session_request env x))) _ w
        (session (env.create_session (session_request env x)))
        λ s w' h'.
          Ensures-bind (AfterMove I (Owing pending x.id)) (λ _. I) I
            (Repo.transition_if_initiated x.id pending s.provider_ref env.now) _ w'
            (Moves-transition_if_initiated law pending s.provider_ref env.now x.id w' h')
            λ applied w'' h''.
              Keeps-then I (keep_or_void applied s) _ w'' (kept applied s w'' h'') λ _ w''' h'''.
                Keeps-then I (Repo.update_session x.id s.provider_ref s.payment_link_url env.now) _
                  w'''
                  (Keeps-update_session law x.id s.provider_ref s.payment_link_url env.now w'''
                    h''')
                  (λ _ _ h4. h4)
    where
      session : (r : Option SessionResult) → Keeps I (session_or_error r w)
      session none = h
      session (some s) = h

      kept :
          (applied : Bool) (s : SessionResult) (w' : World Tables)
          → AfterMove I (Owing pending x.id) applied w'.tables
          → Keeps I (keep_or_void applied s w')
      kept true s w' h' = law.drops pending x.id w'.tables h'
      kept false s w' h' = law.voids _ w'.tables h'

  pub Keeps-process_payment :
      (env : Service.Env) (booking user : Uuid) (w : World Tables)
      → I w.tables
      → Keeps I (process_payment env booking user w)
  unfolding process_payment
  Keeps-process_payment env booking user w h =
      Keeps-then I (get_payment_status booking) _ w (Keeps-get_payment_status booking w h)
        λ x w1 h1.
          Keeps-then I (raise_if (not (status_eq x.status initiated)) already_processed) _ w1
            (Keeps-raise_if I _ already_processed w1 h1)
            λ _ w2 h2.
              Keeps-then I (raise_if (is_closing x.expires_at env.now) transaction_expired) _ w2
                (Keeps-raise_if I _ transaction_expired w2 h2)
                λ _ w3 h3.
                  Keeps-then I (raise_if (not (x.user_id == user)) transaction_not_found) _ w3
                    (Keeps-raise_if I _ transaction_not_found w3 h3)
                    (λ _ w4 h4. Keeps-open_session env x w4 h4)
