-- ===== src/Payment/Laws/Steps.antt =====
-- Each method of the repositories, and each write to the outbox, keeps an invariant with the laws.
use ticketbus.Db.Keeps.{Keeps}
use ticketbus.Base.{
  ℕ, zero, suc, ◌≡◌, refl, Bool, true, false, Uuid, String, some, inl, inr, ⊤, arith, Bool-cases,
  Option-cases,
}
use ticketbus.Table.{find, update}
use ticketbus.Db.{World, Result, ok, DbError, exec, pure, ◌>>=◌}
use ticketbus.Db.Ensures.{
  Ensures, Runs, Runs-write_unless, Ensures-exec, Ensures-bind, Ensures-ignore,
}
use ticketbus.Dto.{Message}
use ticketbus.Outbox.{of_row, insert_row}
use ticketbus.Payment.Domain.{
  key_txn, Tables, Transaction, RefundRequest, RefundStatus, PaymentStatus, initiated, status_eq,
  is_active, txn_key, Error,
}
use ticketbus.Payment.Repo
use ticketbus.Payment.Repo.{
  moved, with_session, with_refund, update_txn, transition_if_active, transition_if_initiated,
  update_session, update_refund_status, insert_refund, create_refund, refund_violation, insert_txn,
  txn_violation, has_key, any_row,
}
use ticketbus.Payment.Webhook.{announce}
use ticketbus.Payment.Laws.{Law, Touches, Tells}

pub Runs-update_txn :
    (P : ℕ → Tables → Type 0) (id : Uuid) (guard : Transaction → Bool)
    (f : Transaction → Transaction) (t : Tables)
    → P 0 t
    → ((x : Transaction)
        → find txn_key id t.transactions ≡ some x
        → guard x ≡ true
        → P 1 (record t { transactions = update txn_key id f t.transactions }))
    → Runs P (update_txn id guard f t)
unfolding update_txn
Runs-update_txn P id guard f t nothing_done one_row =
    elim (Option-cases (find txn_key id t.transactions)) [
      | inl gone ↦ rw (gone, update_txn, Runs) nothing_done
      | inr (x, there) ↦ elim (Bool-cases (guard x)) [
        | inl passes ↦ rw (there, update_txn, Runs, passes) (one_row x there passes)
        | inr fails ↦ rw (there, update_txn, Runs, fails) nothing_done
      ]
    ]

-- After a guarded transition: whether it was applied, and what then holds.
abbrev pub AfterMove : (Tables → Type 0) → (Tables → Type 0) → Bool → Tables → Type 0
AfterMove I J true = J
AfterMove I J false = I

AfterCount : (Tables → Type 0) → (Tables → Type 0) → ℕ → Tables → Type 0
AfterCount I J zero = I
AfterCount I J (suc _) = J

AfterMove-any_row :
    (I J : Tables → Type 0) (n : ℕ) (t : Tables) → AfterCount I J n t → AfterMove I J (any_row n) t
unfolding AfterCount
AfterMove-any_row I J zero t h = h
AfterMove-any_row I J (suc n) t h = h

module _ {I : Tables → Type 0} {Owing : PaymentStatus → Uuid → Tables → Type 0}
    (law : Law I Owing) where
  pub Keeps-create :
      (x : Transaction) (now : ℕ) (w : World Tables)
      → x.status ≡ initiated
      → I w.tables
      → Keeps I (Repo.create x now w)
  unfolding Repo.create insert_txn
  Keeps-create x now w new h =
      Ensures-exec Error (λ _. I) I (insert_txn x now) w h
        (Runs-write_unless I (txn_violation x w.tables) _
          (λ fits. law.creates x now w.tables fits new h))

  -- An unguarded `UPDATE`.
  Keeps-edit :
      (f : Transaction → Transaction) (id : Uuid) (w : World Tables)
      → Touches f
      → I w.tables
      → Keeps I ((exec {E = Error} (update_txn id (λ _. true) f) >>= λ _. pure tt) w)
  Keeps-edit f id w same h =
      Ensures-bind (λ _. I) (λ _. I) I (exec (update_txn id (λ _. true) f)) (λ _. pure tt) w
        (Ensures-exec Error (λ _. I) I (update_txn id (λ _. true) f) w h
          (Runs-update_txn (λ _. I) id (λ _. true) f w.tables h
            (λ _ _ _. law.edits f id w.tables same h)))
        (λ _ _ h'. h')

  pub Keeps-update_session :
      (id : Uuid) (ref link : String) (now : ℕ) (w : World Tables)
      → I w.tables
      → Keeps I (update_session id ref link now w)
  unfolding update_session
  Keeps-update_session id ref link now w h =
      Keeps-edit (with_session ref link now) id w
        (record {
          same_id = λ _. refl;
          same_booking = λ _. refl;
          same_user = λ _. refl;
          same_amount = λ _. refl;
          same_deadline = λ _. refl;
          same_status = λ _. refl;
        })
        h

  pub Keeps-update_refund_status :
      (id : Uuid) (r : RefundStatus) (now : ℕ) (w : World Tables)
      → I w.tables
      → Keeps I (update_refund_status id r now w)
  unfolding update_refund_status
  Keeps-update_refund_status id r now w h =
      Keeps-edit (with_refund r now) id w
        (record {
          same_id = λ _. refl;
          same_booking = λ _. refl;
          same_user = λ _. refl;
          same_amount = λ _. refl;
          same_deadline = λ _. refl;
          same_status = λ _. refl;
        })
        h

  pub Keeps-create_refund :
      (r : RefundRequest) (w : World Tables)
      → key_txn r.idempotency_key ≡ r.transaction_id
      → I w.tables
      → Keeps I (create_refund r w)
  unfolding create_refund insert_refund
  Keeps-create_refund r w own h =
      Ensures-exec Error (λ _. I) I (insert_refund r) w h
        (elim (Bool-cases (has_key r.idempotency_key w.tables.refund_requests)) [
          | inl known ↦ rw (known, Runs) h
          | inr fresh ↦
              rw (fresh, Runs)
                (Runs-write_unless I (refund_violation r w.tables) _
                  (λ _. law.refunds r w.tables own fresh h))
        ])

  module _ (to : PaymentStatus) (ref : String) (now : ℕ) (id : Uuid) where
    Moves :
        (guard : Transaction → Bool) (w : World Tables)
        → ((x : Transaction) → guard x ≡ true → is_active x.status ≡ true)
        → I w.tables
        → Ensures (AfterMove I (Owing to id)) I (
            (exec {E = Error} (update_txn id guard (moved to ref now)) >>= λ n. pure (any_row n)) w)
    unfolding AfterCount
    Moves guard w live h =
        Ensures-bind (AfterCount I (Owing to id)) (AfterMove I (Owing to id)) I
          (exec (update_txn id guard (moved to ref now))) (λ n. pure (any_row n)) w
          (Ensures-exec Error (AfterCount I (Owing to id)) I
            (update_txn id guard (moved to ref now)) w h
            (Runs-update_txn (AfterCount I (Owing to id)) id guard (moved to ref now) w.tables h
              (λ x there passes. law.moves to ref now id x w.tables there (live x passes) h)))
          (λ n w' h'. AfterMove-any_row I (Owing to id) n w'.tables h')

    pub Moves-transition_if_active :
        (w : World Tables)
        → I w.tables
        → Ensures (AfterMove I (Owing to id)) I (transition_if_active id to ref now w)
    unfolding transition_if_active
    Moves-transition_if_active w h = Moves (λ x. is_active x.status) w (λ _ e. e) h

    pub Moves-transition_if_initiated :
        (w : World Tables)
        → I w.tables
        → Ensures (AfterMove I (Owing to id)) I (transition_if_initiated id to ref now w)
    unfolding transition_if_initiated
    Moves-transition_if_initiated w h =
        Moves (λ x. status_eq x.status initiated) w (λ x e. initiated_active x.status e) h
      where
        initiated_active : (s : PaymentStatus) → status_eq s initiated ≡ true → is_active s ≡ true
        initiated_active s e = ground arith

  -- Whether or not the insert succeeds, the invariant holds again.
  pub Settles-announce :
      (to : PaymentStatus) (x : Transaction) (m : Message) (w : World Tables)
      → Tells to x.id m
      → Owing to x.id w.tables
      → Keeps I (announce x m w)
  unfolding announce
  Settles-announce to x m w says h =
      Ensures-ignore (λ _. I) I I (exec write) w
        (Ensures-exec Error (λ _. I) I write w (law.drops to x.id w.tables h)
          (law.settles to x.id (of_row x.id) m w.tables says h))
        (λ _ _ h'. h')
    where
      write : Tables → Result DbError (⊤ × Tables)
      write t = ok (tt, record t { outbox = insert_row (of_row x.id) m t.outbox })
