-- ===== src/Payment/Endpoints.antt =====
-- What the endpoints of the payment service show, and what they acknowledge.
use text.Mathlib.TextPositions.{eq_refl}
use ticketbus.Base.{
  ⊤, ℕ, ◌≤◌, ◌≡◌, refl, ◌∙◌, Bool, true, false, Uuid, String, Option, some, List, [], ◌∷◌, arith,
  none, if◌then◌else◌, Option-cases, Bool-cases, inl, inr, ==-self,
}
use ticketbus.Table.{find, update, find-update}
use ticketbus.Db.{calm, ◌>>=◌, World, Result, ok, err, db_err, query_row, exec}
use ticketbus.Db.Keeps.{Looked, query_row-Looked}
use ticketbus.Http.{data_of, is_user, is_user-some, Response, sent, failed, Context, respond}
use ticketbus.Payment.Domain.{
  Payments, Tables, Transaction, Error, txn_key, booking_key, completed, is_active,
}
use ticketbus.Payment.Repo
use ticketbus.Payment.Repo.{moved, update_txn, transition_if_active}
use ticketbus.Payment.Webhook
use ticketbus.Payment.Webhook.{
  SessionWebhook, handle_session_webhook, apply_unless, apply_webhook, after_completed, announce,
  mismatch, kind_of, completes, need_reference,
}
use ticketbus.Payment.Handlers.{
  Body, transaction, full, get_transaction, own_transaction, webhook, require_key, webhook_received,
}

module _ (id : Uuid) (c : Context) (t : Tables) where
  -- Data is shown of the transaction with the id, in full, to the user of that transaction; what is
  -- not shown is not found.
  abbrev pub ShownToOwner : Response Body → Type 0
  ShownToOwner (sent code body) =
      (x : Transaction) × (find txn_key id t.transactions ≡ some x)
      × (c.user_id ≡ some x.user_id)
      × (code ≡ 200)
      × (body ≡ transaction (full x))
  ShownToOwner (failed code _) = code ≡ 404

  -- The transaction in full, for its own user only.
  abbrev pub for_owner : Option Transaction → Option Body
  for_owner none = none
  for_owner (some x) = if is_user c.user_id x.user_id then some (transaction (full x)) else none

get_transaction-for_owner :
    (id : Uuid) (c : Context) (t : Tables)
    → data_of (get_transaction id c (calm t)).0 ≡ for_owner id c t (find txn_key id t.transactions)
unfolding get_transaction Repo.find_by_id query_row exec
get_transaction-for_owner id c t = elim (Option-cases (find txn_key id t.transactions)) [
  | inl gone ↦ rw gone refl
  | inr (x, there) ↦ elim (Bool-cases (is_user c.user_id x.user_id)) [
    | inl own ↦ rw (there, own) refl
    | inr other ↦ rw (there, other) refl
  ]
]

own_transaction-ShownToOwner :
    (id : Uuid) (c : Context) (t : Tables) (r : Result Error Transaction) (t' : Tables)
    → Looked Error (λ t. find txn_key id t.transactions) t r t'
    → ShownToOwner id c t (own_transaction c.user_id r) × (t' ≡ t)
own_transaction-ShownToOwner id c t (ok x) t' h = elim (Bool-cases (is_user c.user_id x.user_id)) [
  | inl own ↦
      rw (own, ShownToOwner) ((x, h.0, is_user-some c.user_id x.user_id own, refl, refl), h.1)
  | inr other ↦ rw (other, ShownToOwner) (refl, h.1)
]
own_transaction-ShownToOwner id c t (err _) t' h = (refl, h)
own_transaction-ShownToOwner id c t (db_err _) t' h = (refl, h)

shown_safely :
    (id : Uuid) (c : Context) (w : World Tables)
    → ShownToOwner id c w.tables (get_transaction id c w).0
      × ((get_transaction id c w).1.tables ≡ w.tables)
unfolding get_transaction Repo.find_by_id
shown_safely id c w =
    own_transaction-ShownToOwner id c w.tables _ _
      (query_row-Looked Error (λ t. find txn_key id t.transactions) w)

-- Whichever statements fail: what GET of a transaction shows is the stored transaction with that id, to
-- its own user; it answers 404 otherwise, and changes nothing. Where no statement fails, the owner is
-- shown the transaction, and nobody else is shown anything.
pub get_transaction-ShownToOwner :
    (id : Uuid) (c : Context) (w : World Tables)
    → ShownToOwner id c w.tables (get_transaction id c w).0
      × ((get_transaction id c w).1.tables ≡ w.tables)
      × (data_of (get_transaction id c (calm w.tables)).0
          ≡ for_owner id c w.tables (find txn_key id w.tables.transactions))
get_transaction-ShownToOwner id c w =
    let (shown, same) = shown_safely id c w in
    (shown, same, get_transaction-for_owner id c w.tables)

module _ (env : Webhook.Env) (x : Transaction) (before : Tables) where
  -- The gateway is told 200 only where the payment is recorded, and otherwise tries again.
  abbrev pub Acknowledged : Response Body × World Tables → Type 0
  Acknowledged (sent code _, w) =
      (code ≡ 200)
      × (find txn_key x.id w.tables.transactions ≡ some (moved completed x.provider_ref env.now x))
  Acknowledged (failed code _, w) = (400 ≤ code) × (w.tables.transactions ≡ before.transactions)

recorded :
    (now : ℕ) (x : Transaction) (xs : List Transaction)
    → find txn_key x.id xs ≡ some x
    → find txn_key x.id (update txn_key x.id (moved completed x.provider_ref now) xs)
      ≡ some (moved completed x.provider_ref now x)
recorded now x xs own =
    find-update txn_key (moved completed x.provider_ref now) (λ _. refl) x.id x.id xs
    ∙ rw (==-self x.id, own) refl

one_moved :
    (x : Transaction) (f : Transaction → Transaction) (t : Tables)
    → find txn_key x.id t.transactions ≡ some x
    → is_active x.status ≡ true
    → update_txn x.id (λ y. is_active y.status) f t
      ≡ ok (1, record t { transactions = update txn_key x.id f t.transactions })
unfolding update_txn
one_moved x f t own active = rw (update_txn, own, active) refl

-- A webhook with the token that tells of the completed session of an active transaction: it is
-- answered with 200 only if the transaction is then completed, and with an error only if no
-- transaction changed.
pub webhook-Acknowledged :
    (env : Webhook.Env) (token : String) (p : SessionWebhook) (booking : Uuid) (x : Transaction)
    (w : World Tables)
    → p.reference_id ≡ some booking
    → kind_of p.event ≡ completes
    → mismatch p x ≡ false
    → find booking_key booking w.tables.transactions ≡ some x
    → find txn_key x.id w.tables.transactions ≡ some x
    → is_active x.status ≡ true
    → Acknowledged env x w.tables (webhook env token token (some (some p)) w)
unfolding webhook require_key handle_session_webhook apply_unless apply_webhook after_completed
    transition_if_active Repo.find_by_booking_id query_row exec announce
webhook-Acknowledged env token p booking x w refers kind same there own active =
    rw (eq_refl token) (by_faults p.reference_id refers w.faults)
  where
    at : List Bool → World Tables
    at fs = record { tables = w.tables; faults = fs }

    handled : Option Uuid → Payments ⊤
    handled ref = do
      b ← need_reference ref
      y ← Repo.find_by_booking_id b
      apply_unless (mismatch p y) env (kind_of p.event) y

    applied :
        update_txn x.id (λ y. is_active y.status) (moved completed x.provider_ref env.now) w.tables
        ≡ ok (
          1,
          record (w.tables) {
            transactions =
                update txn_key x.id (moved completed x.provider_ref env.now) w.tables.transactions;
          },
        )
    applied = one_moved x (moved completed x.provider_ref env.now) w.tables own active

    now_recorded :
        find txn_key x.id
          (update txn_key x.id (moved completed x.provider_ref env.now) w.tables.transactions)
        ≡ some (moved completed x.provider_ref env.now x)
    now_recorded = recorded env.now x w.tables.transactions own

    by_faults :
        (ref : Option Uuid)
        → ref ≡ some booking
        → (fs : List Bool)
        → Acknowledged env x w.tables
            (respond (handled ref) (webhook_received "invalid webhook payload") (at fs))
    by_faults ref given [] = rw (given, there, same, kind, applied) (refl, now_recorded)
    by_faults ref given (true ∷ fs) = rw given (omega arith, refl)
    by_faults ref given (false ∷ []) = rw (given, there, same, kind, applied) (refl, now_recorded)
    by_faults ref given (false ∷ true ∷ fs) = rw (given, there, same, kind) (omega arith, refl)
    by_faults ref given (false ∷ false ∷ []) =
        rw (given, there, same, kind, applied) (refl, now_recorded)
    by_faults ref given (false ∷ false ∷ true ∷ fs) =
        rw (given, there, same, kind, applied) (refl, now_recorded)
    by_faults ref given (false ∷ false ∷ false ∷ fs) =
        rw (given, there, same, kind, applied) (refl, now_recorded)
