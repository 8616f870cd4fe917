-- ===== src/Ticketing/BookingRepo.antt =====
-- service/ticketing/internal/postgres/booking_repo.go: bookings and their items.
use ticketbus.Base.{
  ℕ, zero, suc, ◌+◌, ◌*◌, ◌/◌, ◌%◌, Bool, true, false, not, ◌&&◌, Uuid, Option, none, some, List,
  [], ◌∷◌, ◌++◌, ⊤, ltb, leb, ◌==◌, if◌then◌else◌, is_some, select, map, int_mod, int_half,
  int32_half,
}
use ticketbus.Table.{find, update, remove}
use ticketbus.Db.{
  ok, err, write_unless, DbError, Statement, pure, exec, query, query_row, query_rows, atomic,
  begin, commit, ◌>>=◌, ◌>>◌, done,
}
use ticketbus.Ticketing.Domain.{
  Tables, Booking, BookingItem, BookingRow, ItemRow, BookingStatus, pending, status_eq, event_key,
  booking_key, item_key, Ticketing,
}
use ticketbus.Ticketing.SeatCounter.{release_seats}

-- The value stored for an item: its own total, or the product where that is unset.
abbrev pub stored_total : BookingItem → ℕ
stored_total i =
    if i.total_price_rupiah == 0
    then i.unit_price_rupiah * i.quantity % int_mod
    else i.total_price_rupiah

abbrev pub booking_row : Booking → ℕ → BookingRow
booking_row b now = record {
  id = b.id;
  user_id = b.user_id;
  event_id = b.event_id;
  status = b.status;
  expires_at = b.expires_at;
  created_at = now;
}

abbrev pub item_row : BookingItem → ItemRow
item_row i = record {
  id = i.id;
  booking_id = i.booking_id;
  ticket_type_id = i.ticket_type_id;
  quantity = i.quantity;
  total_price_rupiah = stored_total i;
}

-- The primary key, the reference to the event, and `status <> 'pending' OR expires_at IS NOT NULL`.
unfoldable pub booking_violation : Booking → Tables → Option DbError
booking_violation b t =
    if is_some (find booking_key b.id t.bookings)
    then some DbError.unique_violation
    else if not (is_some (find event_key b.event_id t.events))
    then some DbError.foreign_key_violation
    else if status_eq b.status pending && not (is_some b.expires_at)
    then some DbError.check_violation
    else none

unfoldable pub insert_booking : Booking → ℕ → Statement Tables ⊤
unfolding booking_violation
insert_booking b now t =
    write_unless (booking_violation b t)
      (record t { bookings = t.bookings ++ booking_row b now ∷ [] })

-- The primary key, the reference to the booking, `quantity > 0` in a column of 32 bits, and
-- `total_price_rupiah >= 0`.
unfoldable pub item_violation : BookingItem → Tables → Option DbError
item_violation i t =
    if is_some (find item_key i.id t.booking_items)
    then some DbError.unique_violation
    else if not (is_some (find booking_key i.booking_id t.bookings))
    then some DbError.foreign_key_violation
    else if i.quantity == 0
    then some DbError.check_violation
    else if leb int32_half i.quantity
    then some DbError.out_of_range
    else if leb int_half (stored_total i)
    then some DbError.check_violation
    else none

unfoldable pub insert_item : BookingItem → Statement Tables ⊤
unfolding item_violation
insert_item i t =
    write_unless (item_violation i t)
      (record t { booking_items = t.booking_items ++ item_row i ∷ [] })

unfoldable pub insert_items : List BookingItem → Ticketing ⊤
insert_items [] = done
insert_items (i ∷ is) = do exec (insert_item i); insert_items is

unfoldable pub create_tx : Booking → ℕ → Ticketing ⊤
create_tx b now = do begin; exec (insert_booking b now); insert_items b.items; commit

-- `Create`: the booking and its items, in one transaction.
unfoldable pub create : Booking → ℕ → Ticketing ⊤
create b now = atomic (create_tx b now)

-- `SELECT … FROM booking_items WHERE booking_id = $1`
unfoldable pub items_of : Uuid → List ItemRow → List ItemRow
items_of id = select λ i. i.booking_id == id

-- An item as it is read back: the unit price is the stored total by the quantity.
abbrev pub scan_item : ItemRow → BookingItem
scan_item i = record {
  id = i.id;
  booking_id = i.booking_id;
  ticket_type_id = i.ticket_type_id;
  quantity = i.quantity;
  unit_price_rupiah = if ltb 0 i.quantity then i.total_price_rupiah / i.quantity else 0;
  total_price_rupiah = i.total_price_rupiah;
}

abbrev pub add_totals : ℕ → List ItemRow → ℕ
add_totals acc [] = acc
add_totals acc (i ∷ is) = add_totals ((acc + i.total_price_rupiah) % int_mod) is

unfoldable pub assemble : BookingRow → List ItemRow → Booking
assemble r is = record {
  id = r.id;
  user_id = r.user_id;
  event_id = r.event_id;
  status = r.status;
  expires_at = r.expires_at;
  total_rupiah = add_totals 0 is;
  items = map scan_item is;
  created_at = r.created_at;
}

unfoldable pub find_by_id : Uuid → Ticketing Booking
find_by_id id = do
  r ← query_row (λ t. find booking_key id t.bookings)
  is ← query_rows (λ t. items_of id t.booking_items)
  pure (assemble r is)

-- `ORDER BY created_at DESC`
unfoldable pub insert_desc : BookingRow → List BookingRow → List BookingRow
insert_desc r [] = r ∷ []
insert_desc r (x ∷ xs) = if ltb r.created_at x.created_at then x ∷ insert_desc r xs else r ∷ x ∷ xs

unfoldable pub sort_desc : List BookingRow → List BookingRow
sort_desc [] = []
sort_desc (r ∷ rs) = insert_desc r (sort_desc rs)

-- The second loop of the two list methods: one query of the items for each booking.
unfoldable pub load_items : List BookingRow → Ticketing (List Booking)
load_items [] = pure []
load_items (r ∷ rs) = do
  is ← query_rows (λ t. items_of r.id t.booking_items)
  bs ← load_items rs
  pure (assemble r is ∷ bs)

unfoldable pub list_by_user : Uuid → Ticketing (List Booking)
list_by_user user = do
  rs ← query (λ t. sort_desc (select (λ (r : BookingRow). r.user_id == user) t.bookings))
  load_items rs

unfoldable pub list_by_event_id : Uuid → Ticketing (List Booking)
list_by_event_id event = do
  rs ← query (λ t. sort_desc (select (λ (r : BookingRow). r.event_id == event) t.bookings))
  load_items rs

abbrev pub with_status : BookingStatus → BookingRow → BookingRow
with_status s r = record r { status = s }

-- `UPDATE bookings SET status = $1 WHERE id = $2 AND status = $3`, with the rows affected.
unfoldable pub move_status : Uuid → BookingStatus → BookingStatus → Statement Tables ℕ
move_status id from to t = elim (find booking_key id t.bookings) [
  | none ↦ ok (0, t)
  | some r ↦
      if status_eq r.status from
      then ok (1, record t { bookings = update booking_key id (with_status to) t.bookings })
      else ok (0, t)
]

unfoldable pub update_status_if_pending : Uuid → BookingStatus → Ticketing Bool
update_status_if_pending id to = do n ← exec (move_status id pending to); pure (n == 1)

unfoldable pub release_items : List BookingItem → Ticketing ⊤
release_items [] = done
release_items (i ∷ is) = do exec (release_seats i.ticket_type_id i.quantity); release_items is

-- The rest of the transaction, after the status update affected `n` rows. The source returns early
-- where there were none, and its deferred rollback finds nothing to take back.
unfoldable pub release_if_moved : ℕ → List BookingItem → Ticketing Bool
release_if_moved zero is = pure false
release_if_moved (suc _) is = do release_items is; commit; pure true

unfoldable pub transition_tx : Booking → BookingStatus → Ticketing Bool
transition_tx b to = do begin; n ← exec (move_status b.id b.status to); release_if_moved n b.items

unfoldable pub transition_and_release_seats : Booking → BookingStatus → Ticketing Bool
transition_and_release_seats b to = atomic (transition_tx b to)

abbrev pub any_item : List ItemRow → Bool
any_item [] = false
any_item (_ ∷ _) = true

-- `DELETE FROM bookings WHERE id = $1 AND status = 'pending'`. The items refer to their booking, and
-- the reference has no `ON DELETE` clause: a booking that has items is not deleted.
unfoldable pub delete_pending : Uuid → Statement Tables ℕ
delete_pending id t = elim (find booking_key id t.bookings) [
  | none ↦ ok (0, t)
  | some r ↦
      if not (status_eq r.status pending)
      then ok (0, t)
      else if any_item (items_of id t.booking_items)
      then err DbError.foreign_key_violation
      else ok (1, record t { bookings = remove booking_key id t.bookings })
]

unfoldable pub delete : Uuid → Ticketing ⊤
delete id = do exec (delete_pending id); pure tt
