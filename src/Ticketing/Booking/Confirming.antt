-- ===== src/Ticketing/Booking/Confirming.antt =====
-- booking/transitions_service.go: what a completed payment brings about.
use mathlib.Core.List.{append-nil, append_assoc}
use ticketbus.Db.{calm, ok, exec, query_row, query, query_rows, read_rows}
use ticketbus.Base.{◌≡◌, refl, sym, ap, ◌∙◌, Uuid, some, List, [], ◌∷◌, ◌++◌, map}
use ticketbus.Table.{find, update, find-key}
use ticketbus.Dto.{EventStatus}
use ticketbus.Outbox.{Outbox, of_ticket, insert_row, payloads, payloads-append}
use ticketbus.Ticketing.Domain.{
  Tables, Event, BookingRow, Booking, BookingItem, pending, confirmed, booking_key, event_key,
}
use ticketbus.Ticketing.BookingRepo
use ticketbus.Ticketing.BookingRepo.{assemble, items_of, with_status, move_status}
use ticketbus.Ticketing.Booking.Transitions.{
  confirm, confirm_loaded, confirm_if, load_pending_booking, is_published, event_status, issue_if,
  issue_tickets, ticket_message,
}

-- The outbox with a ticket for each item.
pub issued : Booking → List BookingItem → Outbox → Outbox
issued b [] o = o
issued b (i ∷ is) o = issued b is (insert_row (of_ticket b.id i.id) (ticket_message b i) o)

issue_tickets-issued :
    (b : Booking) (is : List BookingItem) (t : Tables)
    → issue_tickets b is (calm t) ≡ (ok tt, calm (record t { outbox = issued b is t.outbox }))
unfolding issue_tickets issued exec
issue_tickets-issued b [] t = refl
issue_tickets-issued b (i ∷ is) t =
    issue_tickets-issued b is
      (record t { outbox = insert_row (of_ticket b.id i.id) (ticket_message b i) t.outbox })

payloads-issued :
    (b : Booking) (is : List BookingItem) (o : Outbox)
    → payloads (issued b is o).rows ≡ payloads o.rows ++ map (ticket_message b) is
unfolding issued insert_row
payloads-issued b [] o = sym (append-nil (payloads o.rows))
payloads-issued b (i ∷ is) o =
    payloads-issued b is (insert_row (of_ticket b.id i.id) (ticket_message b i) o)
    ∙ (ap (λ ms. ms ++ map (ticket_message b) is) (payloads-append o.rows _)
        ∙ append_assoc (payloads o.rows) (ticket_message b i ∷ []) (map (ticket_message b) is))

confirmed_tables :
    (r : BookingRow) (b : Booking) (e : Event) (t : Tables)
    → find booking_key b.id t.bookings ≡ some r
    → r.status ≡ pending
    → find event_key b.event_id t.events ≡ some e
    → e.status ≡ EventStatus.published
    → confirm_loaded (some b) (calm t) ≡ (
      ok tt,
      calm (record t {
        bookings = update booking_key b.id (with_status confirmed) t.bookings;
        outbox = issued b b.items t.outbox;
      }),
    )
unfolding confirm_loaded is_published event_status query_row exec confirm_if
    BookingRepo.update_status_if_pending move_status issue_if find update issued
confirmed_tables r b e t there waits event_there live =
    rw (event_there, live, there, waits)
      (issue_tickets-issued b b.items
        (record t { bookings = update booking_key b.id (with_status confirmed) t.bookings }))

pub confirm-outcome :
    (id : Uuid) (r : BookingRow) (e : Event) (t : Tables)
    → find booking_key id t.bookings ≡ some r
    → r.status ≡ pending
    → find event_key r.event_id t.events ≡ some e
    → e.status ≡ EventStatus.published
    → confirm id (calm t) ≡ (
      ok tt,
      calm (record t {
        bookings = update booking_key id (with_status confirmed) t.bookings;
        outbox =
            issued
              (assemble r (items_of id t.booking_items))
              (assemble r (items_of id t.booking_items)).items
              t.outbox;
      }),
    )
unfolding confirm load_pending_booking BookingRepo.find_by_id query_row query query_rows read_rows
    exec assemble
confirm-outcome id r e t there waits event_there live =
    rw (confirm, loaded)
      (confirmed_tables r b e t (ap (λ k. find booking_key k t.bookings) own ∙ there) waits
          event_there live
        ∙ ap
            (λ k. (
              ok tt,
              calm (record t {
                bookings = update booking_key k (with_status confirmed) t.bookings;
                outbox = issued b b.items t.outbox;
              }),
            ))
            own)
  where
    b : Booking
    b = assemble r (items_of id t.booking_items)

    own : r.id ≡ id
    own = find-key booking_key id r t.bookings there

    loaded : load_pending_booking id (calm t) ≡ (ok (some b), calm t)
    loaded = rw (there, waits) refl

-- Where no statement fails and the event is published, a completed payment confirms the pending
-- booking, gives back no seats, and writes one ticket for each of its items to the outbox, in their
-- order, behind the messages that were there.
pub confirm-issued :
    (id : Uuid) (r : BookingRow) (e : Event) (t : Tables)
    → find booking_key id t.bookings ≡ some r
    → r.status ≡ pending
    → find event_key r.event_id t.events ≡ some e
    → e.status ≡ EventStatus.published
    → ((confirm id (calm t)).0 ≡ ok tt)
      × ((confirm id (calm t)).1.tables.bookings
          ≡ update booking_key id (with_status confirmed) t.bookings)
      × ((confirm id (calm t)).1.tables.ticket_types ≡ t.ticket_types)
      × (payloads (confirm id (calm t)).1.tables.outbox.rows
          ≡ payloads t.outbox.rows
            ++ map
                (ticket_message (assemble r (items_of id t.booking_items)))
                (assemble r (items_of id t.booking_items)).items)
confirm-issued id r e t there waits event_there live =
    rw (confirm-outcome id r e t there waits event_there live)
      (refl, refl, refl, payloads-issued (assemble r (items_of id t.booking_items)) _ t.outbox)
