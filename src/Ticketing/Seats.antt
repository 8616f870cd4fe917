-- ===== src/Ticketing/Seats.antt =====
-- The accounting of seats: what each booking holds, and the room that is left. Seats that a handler
-- has taken from the counter and not yet given to a booking are the `slack` of `Room`.
pub mod Settle
pub mod Reading
pub mod Handlers
pub mod Rollback
pub mod Reserving
pub mod Created
use ticketbus.Base.{
  ℕ, ◌+◌, ◌≤◌, ◌≡◌, refl, Bool, true, false, ◌&&◌, Uuid, Option, none, some, inl, inr, List, [],
  ◌∷◌, ◌++◌, map, arith, leb, ◌==◌, if◌then◌else◌, select, is_some, All, Option-cases,
}
use ticketbus.Table.{find, update, find-update, find-append}
use ticketbus.Ticketing.Domain.{
  Tables, TicketRow, BookingRow, ItemRow, BookingItem, BookingStatus, pending, confirmed, expired,
  cancelled, status_eq, ticket_key, booking_key,
}
use ticketbus.Ticketing.SeatCounter.{give_seats, take_seats, least}
use ticketbus.Ticketing.BookingRepo.{items_of, with_status, scan_item}

pub leb→le : (a b : ℕ) → leb a b ≡ true → a ≤ b
leb→le a b h = ground arith

pub status_eq→eq : (a b : BookingStatus) → status_eq a b ≡ true → a ≡ b
status_eq→eq a b h = ground arith

-- A pending or confirmed booking holds its seats.
abbrev pub holds : BookingStatus → Bool
holds pending = true
holds confirmed = true
holds expired = false
holds cancelled = false

abbrev pub holding : Option BookingRow → Bool
holding none = false
holding (some b) = holds b.status

abbrev pub active : List BookingRow → Uuid → Bool
active bs id = holding (find booking_key id bs)

-- The seats of ticket type `k` in items of bookings, and in items of requests.
abbrev pub seats_in : Uuid → ItemRow → ℕ
seats_in k i = if i.ticket_type_id == k then i.quantity else 0

abbrev pub booked : Uuid → List ItemRow → ℕ
booked k [] = 0
booked k (i ∷ is) = seats_in k i + booked k is

abbrev pub requested : Uuid → List BookingItem → ℕ
requested k [] = 0
requested k (i ∷ is) = (if i.ticket_type_id == k then i.quantity else 0) + requested k is

abbrev pub held : Uuid → List BookingRow → List ItemRow → ℕ
held k bs [] = 0
held k bs (i ∷ is) = (if active bs i.booking_id then seats_in k i else 0) + held k bs is

abbrev pub held_in : Uuid → Tables → ℕ
held_in k t = held k t.bookings t.booking_items

-- For every ticket type, the free seats, the held seats and the slack fit into the quantity.
abbrev pub Room : (Uuid → ℕ) → Tables → Type 0
Room slack t =
    (k : Uuid) (r : TicketRow)
    → find ticket_key k t.ticket_types ≡ some r
    → r.available_seat + held_in k t + slack k ≤ r.quantity

-- No ticket type has more seats held and on offer than its quantity.
abbrev pub NotOversold : Tables → Type 0
NotOversold = Room (λ _. 0)

abbrev pub at_type : Uuid → ℕ → Uuid → ℕ
at_type id n k = if id == k then n else 0

pub requested-scan : (k : Uuid) (is : List ItemRow) → requested k (map scan_item is) ≡ booked k is
requested-scan k [] = refl
requested-scan k (i ∷ is) = ground (arith, requested-scan k is)

pub booked-append :
    (k : Uuid) (is js : List ItemRow) → booked k (is ++ js) ≡ booked k is + booked k js
booked-append k [] js = omega arith
booked-append k (i ∷ is) js = omega (arith, booked-append k is js)

pub Room-mono : (s s' : Uuid → ℕ) (t : Tables) → Room s t → ((k : Uuid) → s' k ≤ s k) → Room s' t
Room-mono s s' t room le k r e = omega (arith, room k r e, le k)

-- Seats go back from the slack to the counter.
pub Room-give :
    (s : Uuid → ℕ) (id : Uuid) (n : ℕ) (t : Tables)
    → Room (λ k. s k + at_type id n k) t
    → Room s (record t { ticket_types = update ticket_key id (give_seats n) t.ticket_types })
Room-give s id n t room k r e = elim (Option-cases (find ticket_key k t.ticket_types)) [
  | inl none_there ↦
      ground (arith, find-update ticket_key (give_seats n) (λ x. refl) id k t.ticket_types)
  | inr (x, there) ↦
      ground (
        arith,
        find-update ticket_key (give_seats n) (λ x. refl) id k t.ticket_types,
        room k x there,
      )
]

-- Seats go from the counter to the slack.
pub Room-take :
    (s : Uuid → ℕ) (id : Uuid) (n : ℕ) (t : Tables) (x : TicketRow)
    → find ticket_key id t.ticket_types ≡ some x
    → n ≤ x.available_seat
    → Room s t
    → Room
        (λ k. s k + at_type id n k)
        (record t { ticket_types = update ticket_key id (take_seats n) t.ticket_types })
Room-take s id n t x here enough room k r e =
    elim (Option-cases (find ticket_key k t.ticket_types)) [
      | inl none_there ↦
          ground (arith, find-update ticket_key (take_seats n) (λ x. refl) id k t.ticket_types)
      | inr (y, there) ↦ ground (
        arith,
        find-update ticket_key (take_seats n) (λ x. refl) id k t.ticket_types,
        room k y there,
      )
    ]

-- A booking that stops to hold its seats leaves them to the slack.
pub held-release :
    (k id : Uuid) (to : BookingStatus) (bs : List BookingRow) (is : List ItemRow)
    → active bs id ≡ true
    → holds to ≡ false
    → held k (update booking_key id (with_status to) bs) is + booked k (items_of id is)
      ≡ held k bs is
unfolding items_of
held-release k id to bs [] a h = refl
held-release k id to bs (i ∷ is) a h = ground (
  arith,
  find-update booking_key (with_status to) (λ x. refl) id i.booking_id bs,
  held-release k id to bs is a h,
)

-- A booking that moves between two statuses that hold seats keeps them.
pub held-keep :
    (k id : Uuid) (to : BookingStatus) (bs : List BookingRow) (is : List ItemRow)
    → active bs id ≡ true
    → holds to ≡ true
    → held k (update booking_key id (with_status to) bs) is ≡ held k bs is
held-keep k id to bs [] a h = refl
held-keep k id to bs (i ∷ is) a h = ground (
  arith,
  find-update booking_key (with_status to) (λ x. refl) id i.booking_id bs,
  held-keep k id to bs is a h,
)

-- Every item belongs to a booking, as the foreign key says.
abbrev pub LinkedTo : List BookingRow → List ItemRow → Type 0
LinkedTo bs = All (λ i. is_some (find booking_key i.booking_id bs) ≡ true)

pub LinkedTo-update :
    (id : Uuid) (to : BookingStatus) (bs : List BookingRow) (is : List ItemRow)
    → LinkedTo bs is
    → LinkedTo (update booking_key id (with_status to) bs) is
LinkedTo-update id to bs [] h = tt
LinkedTo-update id to bs (i ∷ is) h = ground (
  arith,
  find-update booking_key (with_status to) (λ x. refl) id i.booking_id bs,
  LinkedTo-update id to bs is h.1,
)

pub LinkedTo-append :
    (b : BookingRow) (bs : List BookingRow) (is : List ItemRow)
    → LinkedTo bs is
    → LinkedTo (bs ++ b ∷ []) is
LinkedTo-append b bs [] h = tt
LinkedTo-append b bs (i ∷ is) h =
    ground (arith, find-append booking_key i.booking_id b bs, LinkedTo-append b bs is h.1)

pub LinkedTo-append_item :
    (i : ItemRow) (bs : List BookingRow) (is : List ItemRow)
    → LinkedTo bs is
    → is_some (find booking_key i.booking_id bs) ≡ true
    → LinkedTo bs (is ++ i ∷ [])
LinkedTo-append_item i bs [] h there = (there, tt)
LinkedTo-append_item i bs (x ∷ is) h there = (h.0, LinkedTo-append_item i bs is h.1 there)

-- A new booking holds nothing before its items are written.
pub held-append :
    (k : Uuid) (b : BookingRow) (bs : List BookingRow) (is : List ItemRow)
    → LinkedTo bs is
    → held k (bs ++ b ∷ []) is ≡ held k bs is
held-append k b bs [] h = refl
held-append k b bs (i ∷ is) h =
    ground (arith, find-append booking_key i.booking_id b bs, held-append k b bs is h.1)

pub held-append_item :
    (k : Uuid) (bs : List BookingRow) (is : List ItemRow) (i : ItemRow)
    → held k bs (is ++ i ∷ []) ≡ held k bs is + (if active bs i.booking_id then seats_in k i else 0)
held-append_item k bs [] i = ground arith
held-append_item k bs (x ∷ is) i = ground (arith, held-append_item k bs is i)

-- The invariant of the tables: the seats fit, and every item has its booking.
pub record Sound (slack : Uuid → ℕ) (t : Tables) : Type 0 where
  pub room : Room slack t
  pub linked : LinkedTo t.bookings t.booking_items

pub Sound-mono : (s s' : Uuid → ℕ) (t : Tables) → Sound s t → ((k : Uuid) → s' k ≤ s k) → Sound s' t
Sound-mono s s' t h le = record { room = Room-mono s s' t h.room le; linked = h.linked }

pub requested-append :
    (k : Uuid) (xs ys : List BookingItem) → requested k (xs ++ ys) ≡ requested k xs + requested k ys
requested-append k [] ys = omega arith
requested-append k (x ∷ xs) ys = omega (arith, requested-append k xs ys)
