-- ===== src/Ticketing/SeatCounter.antt =====
-- service/ticketing/internal/postgres/seat_counter.go and seat_reader.go: the column
-- `ticket_types.available_seat`. Every method is one statement. The column is 32 bits wide; a value
-- stays within `quantity`, of the same width, so no statement here leaves that range.
use mathlib.Core.Option
use ticketbus.Base.{
  ℕ, zero, suc, ◌+◌, ◌-◌, Bool, true, Uuid, Option, none, some, ⊤, leb, if◌then◌else◌,
}
use ticketbus.Table.{find, update}
use ticketbus.Db.{
  Result, ok, err, db_err, DbError, Statement, raise, raise_db, pure, exec, query_row, attempt,
  ◌>>=◌, ◌>>◌,
}
use ticketbus.Ticketing.Domain.{
  Tables, TicketRow, ticket_key, Ticketing, Error, no_seats_available, reservation_not_found,
}

-- An `UPDATE` of one ticket type, with the number of rows that it affects.
abbrev pub update_ticket : Uuid → (TicketRow → Bool) → (TicketRow → TicketRow) → Statement Tables ℕ
update_ticket id guard f t = elim (find ticket_key id t.ticket_types) [
  | none ↦ ok (0, t)
  | some r ↦
      if guard r
      then ok (1, record t { ticket_types = update ticket_key id f t.ticket_types })
      else ok (0, t)
]

abbrev pub least : ℕ → ℕ → ℕ
least a b = if leb a b then a else b

abbrev pub take_seats : ℕ → TicketRow → TicketRow
take_seats qty r = record r { available_seat = r.available_seat - qty }

-- Seats come back up to the quantity on sale, and no further.
abbrev pub give_seats : ℕ → TicketRow → TicketRow
give_seats qty r = record r { available_seat = least r.quantity (r.available_seat + qty) }

abbrev pub with_seats : ℕ → TicketRow → TicketRow
with_seats total r = record r { available_seat = total }

-- `available_seat <= quantity` is a CHECK constraint of the table.
unfoldable pub init_seats : Uuid → ℕ → Statement Tables ℕ
init_seats id total t = elim (find ticket_key id t.ticket_types) [
  | none ↦ ok (0, t)
  | some r ↦
      if leb total r.quantity
      then update_ticket id (λ _. true) (with_seats total) t
      else err DbError.check_violation
]

unfoldable pub reserve_seats : Uuid → ℕ → Statement Tables ℕ
reserve_seats id qty = update_ticket id (λ r. leb qty r.available_seat) (take_seats qty)

unfoldable pub release_seats : Uuid → ℕ → Statement Tables ℕ
release_seats id qty = update_ticket id (λ _. true) (give_seats qty)

unfoldable pub price_of : Uuid → Tables → Option ℕ
price_of id t = Option.map (λ r. r.price_rupiah) (find ticket_key id t.ticket_types)

unfoldable pub seats_of : Uuid → Tables → Option ℕ
seats_of id t = Option.map (λ r. r.available_seat) (find ticket_key id t.ticket_types)

-- `pgx.ErrNoRows` becomes `ErrReservationNotFound`; every other error is passed on.
abbrev pub not_found : {A : Type 0} → Result Error A → Ticketing A
not_found (ok a) = pure a
not_found (err e) = raise e
not_found (db_err DbError.no_rows) = raise reservation_not_found
not_found (db_err e) = raise_db e

unfoldable pub init : Uuid → ℕ → Ticketing ⊤
init id total = do exec (init_seats id total); pure tt

-- No row affected means that the seats ran out.
abbrev pub need_row : ℕ → Ticketing ⊤
need_row zero = raise no_seats_available
need_row (suc _) = pure tt

unfoldable pub reserve : Uuid → ℕ → Ticketing ⊤
reserve id qty = do n ← exec (reserve_seats id qty); need_row n

unfoldable pub release : Uuid → ℕ → Ticketing ⊤
release id qty = do exec (release_seats id qty); pure tt

unfoldable pub available : Uuid → Ticketing ℕ
available id = do r ← attempt (query_row (seats_of id)); not_found r

unfoldable pub set_price : Uuid → ℕ → Ticketing ⊤
set_price id price = do
  exec (update_ticket id (λ _. true) (λ r. record r { price_rupiah = price }))
  pure tt

unfoldable pub get_price : Uuid → Ticketing ℕ
get_price id = do r ← attempt (query_row (price_of id)); not_found r

-- `SeatReader.Available`: any error reads as no seats.
abbrev pub or_zero : Result Error ℕ → Ticketing ℕ
or_zero (ok n) = pure n
or_zero (err _) = pure 0
or_zero (db_err _) = pure 0

unfoldable pub read_available : Uuid → Ticketing ℕ
read_available id = do r ← attempt (query_row (seats_of id)); or_zero r
