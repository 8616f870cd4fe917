-- ===== src/Payment/Repo.antt =====
-- service/payment/internal/postgres: transactions and refund requests.
use ticketbus.Base.{
  ℕ, zero, suc, Bool, true, false, not, ◌&&◌, ◌||◌, Uuid, String, Option, none, some, List, [], ◌∷◌,
  ◌++◌, ⊤, ltb, leb, ◌==◌, if◌then◌else◌, is_some, select, take, int_half,
}
use ticketbus.Table.{find, update}
use ticketbus.Db.{
  ok, DbError, Statement, write_unless, pure, exec, query_rows, query_row, ◌>>=◌, ◌>>◌,
}
use ticketbus.Payment.Domain.{
  Tables, Transaction, RefundRequest, RefundStatus, PaymentStatus, initiated, is_active, status_eq,
  key_eq, IdempotencyKey, txn_key, booking_key, refund_key, Payments,
}

-- `amount_rupiah >= 0`, the primary key, and `booking_id UUID NOT NULL UNIQUE`. The database looks at
-- the CHECK of a row before it enters the row into the indexes.
unfoldable pub txn_violation : Transaction → Tables → Option DbError
txn_violation x t =
    if leb int_half x.amount_rupiah
    then some DbError.check_violation
    else if is_some (find txn_key x.id t.transactions)
        || is_some (find booking_key x.booking_id t.transactions)
    then some DbError.unique_violation
    else none

-- The row of a new transaction: the schema sets its two times.
abbrev pub txn_row : Transaction → ℕ → Transaction
txn_row x now = record x { created_at = now; updated_at = now }

unfoldable pub insert_txn : Transaction → ℕ → Statement Tables ⊤
insert_txn x now t =
    write_unless (txn_violation x t)
      (record t { transactions = t.transactions ++ txn_row x now ∷ [] })

unfoldable pub create : Transaction → ℕ → Payments ⊤
create x now = exec (insert_txn x now)

unfoldable pub find_by_id : Uuid → Payments Transaction
find_by_id id = query_row λ t. find txn_key id t.transactions

-- At most one transaction has the booking's id, so the order of the rows does not matter.
unfoldable pub find_by_booking_id : Uuid → Payments Transaction
find_by_booking_id id = query_row λ t. find booking_key id t.transactions

-- An `UPDATE` of one transaction, with the number of rows that it affects.
unfoldable pub update_txn :
    Uuid → (Transaction → Bool) → (Transaction → Transaction) → Statement Tables ℕ
update_txn id guard f t = elim (find txn_key id t.transactions) [
  | none ↦ ok (0, t)
  | some x ↦
      if guard x
      then ok (1, record t { transactions = update txn_key id f t.transactions })
      else ok (0, t)
]

abbrev pub moved : PaymentStatus → String → ℕ → Transaction → Transaction
moved to ref now x = record x { status = to; provider_ref = ref; updated_at = now }

-- `tag.RowsAffected() > 0`
abbrev pub any_row : ℕ → Bool
any_row zero = false
any_row (suc _) = true

unfoldable pub transition_if_active : Uuid → PaymentStatus → String → ℕ → Payments Bool
transition_if_active id to ref now = do
  n ← exec (update_txn id (λ x. is_active x.status) (moved to ref now))
  pure (any_row n)

unfoldable pub transition_if_initiated : Uuid → PaymentStatus → String → ℕ → Payments Bool
transition_if_initiated id to ref now = do
  n ← exec (update_txn id (λ x. status_eq x.status initiated) (moved to ref now))
  pure (any_row n)

-- Without a guard on the status; the service does not call it.
unfoldable update_status : Uuid → PaymentStatus → String → ℕ → Payments ⊤
update_status id to ref now = do exec (update_txn id (λ _. true) (moved to ref now)); pure tt

abbrev pub with_session : String → String → ℕ → Transaction → Transaction
with_session ref link now x = record x {
  provider_ref = ref;
  payment_link_url = link;
  updated_at = now;
}

unfoldable pub update_session : Uuid → String → String → ℕ → Payments ⊤
update_session id ref link now = do
  exec (update_txn id (λ _. true) (with_session ref link now))
  pure tt

abbrev pub with_refund : RefundStatus → ℕ → Transaction → Transaction
with_refund r now x = record x { refund_status = r; updated_at = now }

unfoldable pub update_refund_status : Uuid → RefundStatus → ℕ → Payments ⊤
update_refund_status id r now = do exec (update_txn id (λ _. true) (with_refund r now)); pure tt

-- `ORDER BY created_at DESC`
unfoldable pub insert_newest : Transaction → List Transaction → List Transaction
insert_newest x [] = x ∷ []
insert_newest x (y ∷ ys) =
    if ltb x.created_at y.created_at then y ∷ insert_newest x ys else x ∷ y ∷ ys

unfoldable pub newest_first : List Transaction → List Transaction
newest_first [] = []
newest_first (x ∷ xs) = insert_newest x (newest_first xs)

unfoldable pub list_by_user : Uuid → Payments (List Transaction)
list_by_user user =
    query_rows λ t. newest_first (select (λ (x : Transaction). x.user_id == user) t.transactions)

unfoldable pub list_by_event_id : Uuid → Payments (List Transaction)
list_by_event_id event =
    query_rows λ t. newest_first (select (λ (x : Transaction). x.event_id == event) t.transactions)

-- `status IN (…) AND expires_at IS NOT NULL AND expires_at <= $1`
abbrev pub past : Option ℕ → ℕ → Bool
past none now = false
past (some e) now = leb e now

abbrev pub is_overdue : ℕ → Transaction → Bool
is_overdue now x = is_active x.status && past x.expires_at now

-- `ORDER BY expires_at ASC`, over rows whose deadline is set.
abbrev pub earlier : Option ℕ → Option ℕ → Bool
earlier (some a) (some b) = ltb a b
earlier (some _) none = true
earlier none _ = false

unfoldable pub insert_earliest : Transaction → List Transaction → List Transaction
insert_earliest x [] = x ∷ []
insert_earliest x (y ∷ ys) =
    if earlier y.expires_at x.expires_at then y ∷ insert_earliest x ys else x ∷ y ∷ ys

unfoldable pub earliest_first : List Transaction → List Transaction
earliest_first [] = []
earliest_first (x ∷ xs) = insert_earliest x (earliest_first xs)

unfoldable pub list_active_expired : ℕ → ℕ → Payments (List Transaction)
list_active_expired now limit =
    query_rows λ t. take limit (earliest_first (select (is_overdue now) t.transactions))

unfoldable pub has_key : IdempotencyKey → List RefundRequest → Bool
has_key k [] = false
has_key k (r ∷ rs) = key_eq r.idempotency_key k || has_key k rs

abbrev pub has_id : Uuid → List RefundRequest → Bool
has_id id rs = is_some (find refund_key id rs)

-- The row as it would be without the conflict clause: the primary key and the transaction.
unfoldable pub refund_violation : RefundRequest → Tables → Option DbError
refund_violation r t =
    if has_id r.id t.refund_requests
    then some DbError.unique_violation
    else if not (is_some (find txn_key r.transaction_id t.transactions))
    then some DbError.foreign_key_violation
    else none

-- `INSERT … ON CONFLICT (idempotency_key) DO NOTHING`
unfoldable pub insert_refund : RefundRequest → Statement Tables ⊤
insert_refund r t =
    if has_key r.idempotency_key t.refund_requests
    then ok (tt, t)
    else write_unless (refund_violation r t)
        (record t { refund_requests = t.refund_requests ++ r ∷ [] })

unfoldable pub create_refund : RefundRequest → Payments ⊤
create_refund r = exec (insert_refund r)
