-- ===== src/Payment/Ledger.antt =====
-- The settlement messages of each transaction, against its status. A transition that is not yet
-- announced is `owed`.
use ticketbus.Base.{
  ℕ, ◌+◌, ◌≤◌, ◌≡◌, refl, true, false, Uuid, Option, none, some, inl, inr, List, [], ◌∷◌, ◌++◌,
  arith, if◌then◌else◌, String, Option-cases,
}
use ticketbus.Table.{find, update, find-update, find-append}
use ticketbus.Dto.{Message}
use ticketbus.Outbox.{OutboxRow, Key, insert_row}
use ticketbus.Payment.Domain.{Tables, Transaction, PaymentStatus, status_eq, is_active, txn_key}
use ticketbus.Payment.Repo.{moved}
use ticketbus.Payment.Laws.{Law, announces, one}
use ticketbus.Payment.Laws.Handlers.{Law-run}
use ticketbus.Payment.Calls.{Call, run}
use ticketbus.Db.{World}

abbrev pub settlements : PaymentStatus → Uuid → List OutboxRow → ℕ
settlements s k [] = 0
settlements s k (r ∷ rs) = (if announces s k r.payload then 1 else 0) + settlements s k rs

abbrev pub in_status : PaymentStatus → Option Transaction → ℕ
in_status s none = 0
in_status s (some x) = if status_eq x.status s then 1 else 0

abbrev pub reached : PaymentStatus → Uuid → List Transaction → ℕ
reached s k xs = in_status s (find txn_key k xs)

abbrev pub Owed : Type 0
Owed = PaymentStatus → Uuid → ℕ

abbrev pub nothing : Owed
nothing s k = 0

-- For each final status, a transaction in that status has at most one message that says so, and any
-- other has none; what is owed counts as said.
abbrev pub Ledger : Owed → Tables → Type 0
Ledger owed t =
    (s : PaymentStatus) (k : Uuid)
    → is_active s ≡ false
    → settlements s k t.outbox.rows + owed s k ≤ reached s k t.transactions

settlements-append :
    (s : PaymentStatus) (k : Uuid) (rs : List OutboxRow) (r : OutboxRow)
    → settlements s k (rs ++ r ∷ [])
      ≡ settlements s k rs + (if announces s k r.payload then 1 else 0)
settlements-append s k [] r = omega arith
settlements-append s k (x ∷ rs) r = omega (arith, settlements-append s k rs r)

Ledger-mono :
    (o o' : Owed) (t : Tables)
    → Ledger o t
    → ((s : PaymentStatus) (k : Uuid) → o' s k ≤ o s k)
    → Ledger o' t
Ledger-mono o o' t h le s k ends = omega (arith, h s k ends, le s k)

-- The message that was owed is written.
Ledger-announce :
    (o : Owed) (to : PaymentStatus) (id : Uuid) (key : Key) (m : Message) (t : Tables)
    → ((s : PaymentStatus) (k : Uuid) → (if announces s k m then 1 else 0) ≤ one to id s k)
    → Ledger (λ s k. o s k + one to id s k) t
    → Ledger o (record t { outbox = insert_row key m t.outbox })
unfolding insert_row
Ledger-announce o to id key m t says h s k ends = omega (
  arith,
  h s k ends,
  says s k,
  settlements-append s k t.outbox.rows
      (record { id = t.outbox.next_id; key = key; payload = m; delivered = false }),
)

-- An update that leaves ids and statuses alone.
Ledger-touch :
    (o : Owed) (f : Transaction → Transaction) (id : Uuid) (t : Tables)
    → ((x : Transaction) → (f x).id ≡ x.id)
    → ((x : Transaction) → (f x).status ≡ x.status)
    → Ledger o t
    → Ledger o (record t { transactions = update txn_key id f t.transactions })
Ledger-touch o f id t same_id same_status h s k ends =
    elim (Option-cases (find txn_key k t.transactions)) [
      | inl gone ↦ ground (arith, h s k ends, find-update txn_key f same_id id k t.transactions)
      | inr (x, there) ↦
          ground
            (arith, h s k ends, same_status x, find-update txn_key f same_id id k t.transactions)
    ]

-- An active transaction moves to `to`: that is owed to the outbox if `to` is final.
Ledger-move :
    (o : Owed) (to : PaymentStatus) (ref : String) (now : ℕ) (id : Uuid) (t : Tables)
    (x : Transaction)
    → find txn_key id t.transactions ≡ some x
    → is_active x.status ≡ true
    → Ledger o t
    → Ledger
        (λ s k. o s k + one to id s k)
        (record t { transactions = update txn_key id (moved to ref now) t.transactions })
Ledger-move o to ref now id t x there live h s k ends =
    ground
      (arith, h s k ends, find-update txn_key (moved to ref now) (λ y. refl) id k t.transactions)

-- A new transaction is not final.
Ledger-append :
    (o : Owed) (x : Transaction) (t : Tables)
    → is_active x.status ≡ true
    → Ledger o t
    → Ledger o (record t { transactions = t.transactions ++ x ∷ [] })
Ledger-append o x t live h s k ends =
    ground (arith, h s k ends, find-append txn_key k x t.transactions)

Ledger-Law : Law (Ledger nothing) (λ to id. Ledger (λ s k. nothing s k + one to id s k))
Ledger-Law = record {
  creates = λ x now t _ new h. Ledger-append nothing _ t (rw new refl) h;
  edits = λ f id t same h. Ledger-touch nothing f id t same.same_id same.same_status h;
  moves = λ to ref now id x t there live h. Ledger-move nothing to ref now id t x there live h;
  settles = λ to id key m t says h. Ledger-announce nothing to id key m t says h;
  drops = λ to id t h. Ledger-mono _ nothing t h (λ s k. omega arith);
  refunds = λ r t _ _ h. h;
  voids = λ refs t h. h;
}

-- Over any history of calls, whichever statements fail on the way: where for each transaction the
-- outbox holds at most one `payment.completed`, and one only if the transaction is completed, and
-- likewise for `payment.expired`, the same holds after the history.
pub run-Ledger :
    (cs : List Call) (w : World Tables) → Ledger nothing w.tables → Ledger nothing (run cs w).tables
run-Ledger cs w h = Law-run Ledger-Law cs w h
