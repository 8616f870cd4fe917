-- ===== src/Ticketing/Lifecycle/Steps.antt =====
-- What the parts of the calls about events do to the events that were there before.
use ticketbus.Base.{
  ℕ, ◌≡◌, refl, ◌∙◌, ap, Bool, true, false, not, Uuid, some, Option, sym, List, ⊤, arith,
}
use ticketbus.Table.{find, find-key}
use ticketbus.Db.{
  World, Result, ok, err, db_err, DbError, exec, raise_if, attempt, query_row, pure, ◌>>◌,
}
use ticketbus.Db.Ensures.{
  Ensures, Outcome, Ensures-bind, Ensures-exec, Ensures-attempt, Ensures-query_row, Ensures-ignore,
}
use ticketbus.Dto.{EventStatus, event_status_eq}
use ticketbus.Ticketing.Domain.{TicketRow, Tables, Event, event_key, Error, Ticketing}
use ticketbus.Ticketing.EventRepo
use ticketbus.Ticketing.EventRepo.{edited, edit_event}
use ticketbus.Outbox.{of_row, insert_row}
use ticketbus.Ticketing.Events.{
  event_or_not_found, load_event, reviewed, saved, announced, announce_cancellation, cancellation,
  is_pending,
}
use ticketbus.Ticketing.SeatCounter.{update_ticket}
use ticketbus.Ticketing.Seats.Settle.{Runs-update_ticket}
use ticketbus.Ticketing.Lifecycle.{Moves, Follows, Fits, Follows-edit}

module _ (before : List Event) where
  -- The events follow those that were there before.
  abbrev pub Moved : Tables → Type 0
  Moved = Follows before

  -- What was read of an event fits, whenever it was read.
  abbrev pub Loaded : Event → Tables → Type 0
  Loaded e t = Moved t × Fits before e

  found-Fits :
      (id : Uuid) (x : Event) (t : Tables)
      → Moved t
      → find event_key id t.events ≡ some x
      → Fits before x
  found-Fits id x t h there e known =
      let (e', there', reached, _) = h id e (
        ap (λ j. find event_key j before) (sym (find-key event_key id x t.events there)) ∙ known) in
      rw (same_event there there') reached
    where
      same_event : {o : Option Event} {a b : Event} → o ≡ some a → o ≡ some b → a ≡ b
      same_event p q = cc

  pub Loaded-load_event :
      (id : Uuid) (w : World Tables) → Moved w.tables → Ensures Loaded Moved (load_event id w)
  unfolding load_event EventRepo.find_event_by_id
  Loaded-load_event id w h =
      Ensures-bind (Outcome Loaded Moved) Loaded Moved
        (attempt (query_row λ (t : Tables). find event_key id t.events)) event_or_not_found w
        (Ensures-attempt Loaded Moved Moved (query_row λ (t : Tables). find event_key id t.events) w
          (Ensures-query_row Error Loaded Moved _ w h
            (λ e there. (h, found-Fits id e w.tables h there))))
        told
    where
      told :
          (r : Result Error Event) (w' : World Tables)
          → Outcome Loaded Moved r w'.tables
          → Ensures Loaded Moved (event_or_not_found r w')
      told (ok e) w' h' = h'
      told (err _) w' h' = h'
      told (db_err _) w' h' = h'

  pub Moved-check :
      {A : Type 0} (b : Bool) (x : Error) (m : Ticketing A) (w : World Tables)
      → Moved w.tables
      → (b ≡ false → Ensures (λ _. Moved) Moved (m w))
      → Ensures (λ _. Moved) Moved ((raise_if b x >> m) w)
  Moved-check true x m w h rest = h
  Moved-check false x m w h rest = rest refl

  pub Moved-saved :
      (x n : Event) (now : ℕ) (w : World Tables)
      → n.id ≡ x.id
      → Fits before x
      → Moves x.status n.status
      → Moved w.tables
      → Ensures (λ _. Moved) Moved (saved now n w)
  unfolding saved EventRepo.update_event edit_event
  Moved-saved x n now w own read step h =
      Ensures-bind (λ _. Moved) (λ _. Moved) Moved (exec (edit_event n now)) (λ _. pure n) w
        (Ensures-exec Error (λ _. Moved) Moved (edit_event n now) w h
          (Follows-edit before x n now w.tables own read step h))
        (λ _ _ h'. h')

  pub Moved-announced :
      (now : ℕ) (e : Event) (w : World Tables)
      → Moved w.tables
      → Ensures (λ _. Moved) Moved (announced now e w)
  unfolding announced announce_cancellation
  Moved-announced now e w h =
      Ensures-bind (λ _. Moved) (λ _. Moved) Moved (announce_cancellation e.id now) (λ _. pure e) w
        (Ensures-ignore (λ _. Moved) Moved Moved (exec write) w
          (Ensures-exec Error (λ _. Moved) Moved write w h h) (λ _ _ h'. h'))
        (λ _ _ h'. h')
    where
      write : Tables → Result DbError (⊤ × Tables)
      write t =
          ok (tt, record t { outbox = insert_row (of_row e.id) (cancellation e.id now) t.outbox })

  pending_status :
      (s : EventStatus)
      → not (event_status_eq s EventStatus.pending) ≡ false
      → s ≡ EventStatus.pending
  pending_status s e = ground arith

  pub published_status :
      (s : EventStatus)
      → not (event_status_eq s EventStatus.published) ≡ false
      → s ≡ EventStatus.published
  published_status s e = ground arith

  pub Moved-reviewed :
      (s : EventStatus) (now : ℕ) (admin_id : Uuid) (e : Event) (w : World Tables)
      → Moves EventStatus.pending s
      → Fits before e
      → Moved w.tables
      → not (is_pending e) ≡ false
      → Ensures (λ _. Moved) Moved (saved now (reviewed s admin_id now e) w)
  Moved-reviewed s now admin_id e w step read h passes =
      Moved-saved e (reviewed s admin_id now e) now w refl read
        (rw (pending_status e.status passes) step) h

  pub Moved-update_ticket :
      (id : Uuid) (guard : TicketRow → Bool) (f : TicketRow → TicketRow) (w : World Tables)
      → Moved w.tables
      → Ensures (λ _. Moved) Moved (exec {E = Error} (update_ticket id guard f) w)
  Moved-update_ticket id guard f w h =
      Ensures-exec Error (λ _. Moved) Moved (update_ticket id guard f) w h
        (Runs-update_ticket (λ _. Moved) id guard f w.tables h (λ _ _ _. h))
