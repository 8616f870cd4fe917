-- ===== src/Ticketing/Endpoints.antt =====
-- What the endpoints of the ticketing service show, and whom they obey.
use ticketbus.Base.{
  ◌≤◌, ◌<◌, ◌≡◌, ◌⊎◌, refl, Uuid, Option, none, some, List, if◌then◌else◌, Bool-cases, Option-cases,
  inl, inr,
}
use ticketbus.Table.{find}
use ticketbus.Db.{
  World, Result, ok, err, db_err, query_row, query, query_rows, read_rows, calm, exec, pure, ◌>>=◌,
}
use ticketbus.Db.Ensures.{
  Ensures, Ensures-bind, IsPrefix, Ensures-query_rows, Ensures-query_row, Outcome,
}
use ticketbus.Db.Keeps.{Ensures-Outcome}
use ticketbus.Http.{data_of, is_user, is_user-some, Response, sent, failed, status_of, Context}
use ticketbus.Ticketing.Domain.{
  Tables, Event, Booking, BookingRow, ItemRow, Error, booking_key, event_not_found, not_event_owner,
  event_not_cancellable,
}
use ticketbus.Ticketing.BookingRepo
use ticketbus.Ticketing.BookingRepo.{assemble, items_of}
use ticketbus.Ticketing.BookingHandlers
use ticketbus.Ticketing.BookingHandlers.{booking, booking_to_response, own_booking, get_booking}
use ticketbus.Ticketing.EventRepo
use ticketbus.Ticketing.Events
use ticketbus.Ticketing.EventHandlers

-- The booking that the rows give for an id, with its items up to where their read broke.
abbrev pub Stored : Uuid → Tables → Booking → Type 0
Stored id t b =
    (r : BookingRow) × (find booking_key id t.bookings ≡ some r)
    × ((is : List ItemRow) × IsPrefix is (items_of id t.booking_items) × (b ≡ assemble r is))

module _ (id : Uuid) (c : Context) (t : Tables) where
  -- Data is shown of the stored booking, to its own user; what is not shown is not found.
  abbrev pub ShownToOwner : Response BookingHandlers.Body → Type 0
  ShownToOwner (sent code body) =
      (b : Booking) × (Stored id t b)
      × (c.user_id ≡ some b.user_id)
      × (code ≡ 200)
      × (body ≡ booking (booking_to_response b))
  ShownToOwner (failed code _) = code ≡ 404

  -- The booking with all its items, for its own user only.
  abbrev pub for_owner : Option BookingRow → Option BookingHandlers.Body
  for_owner none = none
  for_owner (some r) =
      if is_user c.user_id r.user_id
      then some (booking (booking_to_response (assemble r (items_of id t.booking_items))))
      else none

own_booking-ShownToOwner :
    (id : Uuid) (c : Context) (t : Tables) (r : Result Error Booking) (t' : Tables)
    → Outcome (λ b t'. Stored id t b × (t' ≡ t)) (λ t'. t' ≡ t) r t'
    → ShownToOwner id c t (own_booking c.user_id r) × (t' ≡ t)
own_booking-ShownToOwner id c t (ok b) t' h = elim (Bool-cases (is_user c.user_id b.user_id)) [
  | inl own ↦
      rw (own, ShownToOwner) ((b, h.0, is_user-some c.user_id b.user_id own, refl, refl), h.1)
  | inr other ↦ rw (other, ShownToOwner) (refl, h.1)
]
own_booking-ShownToOwner id c t (err _) t' h = (refl, h)
own_booking-ShownToOwner id c t (db_err _) t' h = (refl, h)

find_by_id-Stored :
    (id : Uuid) (w : World Tables)
    → Ensures {E = Error}
        (λ b t. Stored id w.tables b × (t ≡ w.tables))
        (λ t. t ≡ w.tables)
        (BookingRepo.find_by_id id w)
unfolding BookingRepo.find_by_id
find_by_id-Stored id w =
    Ensures-bind (λ r t. (find booking_key id w.tables.bookings ≡ some r) × (t ≡ w.tables))
      (λ b t. Stored id w.tables b × (t ≡ w.tables)) (λ t. t ≡ w.tables)
      (query_row (λ t. find booking_key id t.bookings)) _ w
      (Ensures-query_row Error _ _ (λ t. find booking_key id t.bookings) w refl
        (λ r there. (there, refl)))
      (λ r w1 seen. rw (← seen.1) (items r w1 (rw seen.1 seen.0)))
  where
    items :
        (r : BookingRow) (w1 : World Tables)
        → find booking_key id w1.tables.bookings ≡ some r
        → Ensures {E = Error}
            (λ b t. Stored id w1.tables b × (t ≡ w1.tables))
            (λ t. t ≡ w1.tables)
            ((query_rows (λ (t : Tables). items_of id t.booking_items) >>= λ is.
                pure (assemble r is))
              w1)
    items r w1 there =
        Ensures-bind (λ is t. IsPrefix is (items_of id w1.tables.booking_items) × (t ≡ w1.tables))
          (λ b t. Stored id w1.tables b × (t ≡ w1.tables)) (λ t. t ≡ w1.tables)
          (query_rows (λ t. items_of id t.booking_items)) (λ is. pure (assemble r is)) w1
          (Ensures-query_rows Error _ _ (λ t. items_of id t.booking_items) w1 refl
            (λ is got. (got, refl)))
          (λ is w2 h. ((r, there, (is, h.0, refl)), h.1))

shown_safely :
    (id : Uuid) (c : Context) (w : World Tables)
    → ShownToOwner id c w.tables (get_booking id c w).0 × ((get_booking id c w).1.tables ≡ w.tables)
unfolding get_booking
shown_safely id c w = own_booking-ShownToOwner id c w.tables _ _ (
    Ensures-Outcome (λ b t. Stored id w.tables b × (t ≡ w.tables)) (λ t. t ≡ w.tables)
      (BookingRepo.find_by_id id w) (find_by_id-Stored id w))

get_booking-for_owner :
    (id : Uuid) (c : Context) (t : Tables)
    → data_of (get_booking id c (calm t)).0 ≡ for_owner id c t (find booking_key id t.bookings)
unfolding get_booking BookingRepo.find_by_id query_rows query query_row exec read_rows assemble
get_booking-for_owner id c t = elim (Option-cases (find booking_key id t.bookings)) [
  | inl gone ↦ rw gone refl
  | inr (r, there) ↦ elim (Bool-cases (is_user c.user_id r.user_id)) [
    | inl own ↦ rw (there, own) refl
    | inr other ↦ rw (there, other) refl
  ]
]

-- Whichever statements fail: what GET of a booking shows is the stored booking with that id, with its
-- items up to where their read broke, to its own user; it answers 404 otherwise, and changes nothing.
-- Where no statement fails, the owner is shown the booking with all its items, and nobody else is
-- shown anything.
pub get_booking-ShownToOwner :
    (id : Uuid) (c : Context) (w : World Tables)
    → ShownToOwner id c w.tables (get_booking id c w).0
      × ((get_booking id c w).1.tables ≡ w.tables)
      × (data_of (get_booking id c (calm w.tables)).0
          ≡ for_owner id c w.tables (find booking_key id w.tables.bookings))
get_booking-ShownToOwner id c w =
    let (shown, same) = shown_safely id c w in (shown, same, get_booking-for_owner id c w.tables)

-- The answer is an error of the caller.
abbrev pub IsClientError : {B : Type 0} → Response B → Type 0
IsClientError r = (400 ≤ status_of r) × (status_of r < 500)

abbrev RefusesCancel : Tables → Result Error Event × World Tables → Type 0
RefusesCancel before out =
    (out.1.tables ≡ before)
    × ((out.0 ≡ err event_not_found)
        ⊎ ((out.0 ≡ err not_event_owner) ⊎ (out.0 ≡ err event_not_cancellable)))

-- The answer is an error of the caller, and no row changed.
abbrev pub Refuses : {B : Type 0} → Tables → Response B × World Tables → Type 0
Refuses before out = (out.1.tables ≡ before) × IsClientError out.0
