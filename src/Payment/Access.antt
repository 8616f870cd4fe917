-- ===== src/Payment/Access.antt =====
-- application/transactions.go: who may pay, and when.
use ticketbus.Payment.Service.{
  keep_or_void, get_payment_status, found, is_closing, minute, open_session, session_or_error,
  SessionRequest, session_request, process_payment, deadline,
}
use ticketbus.Payment.Domain.{
  pending, Tables, Transaction, SessionResult, PaymentStatus, initiated, status_eq, booking_key,
  Error, already_processed, transaction_expired, transaction_not_found,
}
use ticketbus.Base.{
  ℕ, ◌+◌, ◌≤◌, ◌≡◌, refl, Bool, true, false, not, Uuid, Option, none, some, ⊤, arith, ◌==◌, ==→≡,
}
use ticketbus.Table.{find}
use ticketbus.Db.{World, Result, ok, err, db_err, attempt, raise_if, ◌>>=◌, ◌>>◌, pure}
use ticketbus.Db.Ensures.{
  Ensures, Outcome, Ensures-any, Ensures-attempt, Ensures-bind, Ensures-query_row,
}
use ticketbus.Payment.Repo
use ticketbus.Payment.Service

-- The transaction may be paid by the user: it is the booking's and the user's, it waits for its
-- payment, and a minute is left.
pub record Payable (now : ℕ) (booking user : Uuid) (x : Transaction) (t : Tables) : Type 0 where
  pub of_booking : find booking_key booking t.transactions ≡ some x
  pub waits : x.status ≡ initiated
  pub of_user : x.user_id ≡ user
  pub in_time : now + minute ≤ deadline x.expires_at

in_time_lem : (e : Option ℕ) (now : ℕ) → is_closing e now ≡ false → now + minute ≤ deadline e
unfolding is_closing
in_time_lem none now h = ground arith
in_time_lem (some e) now h = ground arith

-- What the gateway is asked for: a session of the booking, for the stored amount and currency.
pub record AsksFor (x : Transaction) (q : SessionRequest) : Type 0 where
  pub of_reference : q.reference_id ≡ x.booking_id
  pub of_amount : q.amount_rupiah ≡ x.amount_rupiah
  pub of_currency : q.currency ≡ x.currency
  pub of_email : q.email ≡ x.customer_email

-- The session is the gateway's answer to such a request.
abbrev pub Opened : Service.Env → Transaction → SessionResult → Type 0
Opened env x s = (q : SessionRequest) × AsksFor x q × (env.create_session q ≡ some s)

session_request-AsksFor : (env : Service.Env) (x : Transaction) → AsksFor x (session_request env x)
unfolding session_request
session_request-AsksFor env x = record {
  of_reference = refl;
  of_amount = refl;
  of_currency = refl;
  of_email = refl;
}

module _ {A : Type 0} where
  -- A check before an action: where the check fails, the action does not run.
  Ensures-check :
      (Q : A → Tables → Type 0) (b : Bool) (e : Error)
      (m : World Tables → Result Error A × World Tables) (w : World Tables)
      → (b ≡ false → Ensures Q (λ _. ⊤) (m w))
      → Ensures Q (λ _. ⊤) ((raise_if b e >> m) w)
  Ensures-check Q true e m w rest = tt
  Ensures-check Q false e m w rest = rest refl

module _ (env : Service.Env) (booking user : Uuid) (before : Tables) where
  -- What is true of a payment that was started.
  abbrev Started : Transaction × SessionResult → Tables → Type 0
  Started p _ = Payable env.now booking user p.0 before × Opened env p.0 p.1

  Started-open_session :
      (x : Transaction) (w : World Tables)
      → Payable env.now booking user x before
      → Ensures Started (λ _. ⊤) (open_session env x w)
  unfolding open_session
  Started-open_session x w payable = opened (env.create_session (session_request env x)) refl
    where
      opened :
          (r : Option SessionResult)
          → env.create_session (session_request env x) ≡ r
          → Ensures Started
              (λ _. ⊤)
              ((session_or_error r >>= λ s.
                  Repo.transition_if_initiated x.id pending s.provider_ref env.now >>= λ applied.
                  keep_or_void applied s
                  >> (Repo.update_session x.id s.provider_ref s.payment_link_url env.now
                      >> pure (x, s)))
                w)
      opened none e = tt
      opened (some s) e =
          Ensures-bind (λ _ _. ⊤) Started (λ _. ⊤)
            (Repo.transition_if_initiated x.id pending s.provider_ref env.now) _ w
            (Ensures-any (Repo.transition_if_initiated x.id pending s.provider_ref env.now w))
            λ applied w1 _.
              Ensures-bind (λ _ _. ⊤) Started (λ _. ⊤) (keep_or_void applied s) _ w1
                (Ensures-any (keep_or_void applied s w1))
                λ _ w2 _.
                  Ensures-bind (λ _ _. ⊤) Started (λ _. ⊤)
                    (Repo.update_session x.id s.provider_ref s.payment_link_url env.now) _ w2
                    (Ensures-any
                      (Repo.update_session x.id s.provider_ref s.payment_link_url env.now w2))
                    (λ _ _ _. (payable, (session_request env x, session_request-AsksFor env x, e)))

-- Where a payment is started, the transaction was the booking's, the user's and still waiting for its
-- payment, a minute at least was left to its deadline, and the session is the one that the gateway
-- gave when it was asked for that booking, with the stored amount, currency and email.
pub process_payment-Payable :
    (env : Service.Env) (booking user : Uuid) (w : World Tables)
    → Ensures
        (λ p _. Payable env.now booking user p.0 w.tables × Opened env p.0 p.1)
        (λ _. ⊤)
        (process_payment env booking user w)
unfolding process_payment get_payment_status Repo.find_by_booking_id
process_payment-Payable env booking user w =
    Ensures-bind Read (Started env booking user w.tables) (λ _. ⊤) (get_payment_status booking) _ w
      (Ensures-bind (Outcome Read (λ _. ⊤)) Read (λ _. ⊤)
        (attempt (Repo.find_by_booking_id booking)) found w
        (Ensures-attempt Read (λ _. ⊤) (λ _. ⊤) (Repo.find_by_booking_id booking) w
          (Ensures-query_row Error Read (λ _. ⊤) _ w tt (λ x e. e)))
        told)
      λ x w1 e1.
        Ensures-check (Started env booking user w.tables) (not (status_eq x.status initiated))
          already_processed
          (raise_if (is_closing x.expires_at env.now) transaction_expired
            >> (raise_if (not (x.user_id == user)) transaction_not_found >> open_session env x))
          w1
          λ p1.
            Ensures-check (Started env booking user w.tables) (is_closing x.expires_at env.now)
              transaction_expired
              (raise_if (not (x.user_id == user)) transaction_not_found >> open_session env x) w1
              λ p2.
                Ensures-check (Started env booking user w.tables) (not (x.user_id == user))
                  transaction_not_found (open_session env x) w1
                  (λ p3. Started-open_session env booking user w.tables x w1 (record {
                    of_booking = e1;
                    waits = waiting x.status p1;
                    of_user = ==→≡ x.user_id user (passed (x.user_id == user) p3);
                    in_time = in_time_lem x.expires_at env.now p2;
                  }))
  where
    Read : Transaction → Tables → Type 0
    Read x _ = find booking_key booking w.tables.transactions ≡ some x

    told :
        (r : Result Error Transaction) (w' : World Tables)
        → Outcome Read (λ _. ⊤) r w'.tables
        → Ensures Read (λ _. ⊤) (found r w')
    told (ok x) w' h = h
    told (err _) w' h = tt
    told (db_err _) w' h = tt

    waiting : (s : PaymentStatus) → not (status_eq s initiated) ≡ false → s ≡ initiated
    waiting s e = ground arith

    passed : (b : Bool) → not b ≡ false → b ≡ true
    passed b e = ground arith
