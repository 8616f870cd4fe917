-- ===== src/Outbox.antt =====
-- pkg/outbox: the table of the messages that wait for delivery. The trace context that each row also
-- carries is left out: it does not decide what is published.
pub mod Worker
pub mod Halting
pub mod Counting
pub mod Delivery
pub mod Liveness
pub mod Order
mod Tests
use ticketbus.Base.{ℕ, ◌+◌, ◌≡◌, refl, Bool, false, Uuid, List, [], ◌∷◌, ◌++◌}
use ticketbus.Dto.{Message}

-- A message key: a row's id, or `bookingID + "-" + itemID`.
pub data Key : Type 0 where
  of_row : Uuid → Key
  of_ticket : Uuid → Uuid → Key

pub record OutboxRow : Type 0 where
  pub id : ℕ
  pub key : Key
  pub payload : Message
  pub delivered : Bool

-- The rows, and the sequence behind `id BIGSERIAL`.
pub record Outbox : Type 0 where
  pub rows : List OutboxRow
  pub next_id : ℕ

-- `INSERT INTO outbox`
unfoldable pub insert_row : Key → Message → Outbox → Outbox
insert_row key payload o = record {
  rows = o.rows ++ record { id = o.next_id; key = key; payload = payload; delivered = false } ∷ [];
  next_id = o.next_id + 1;
}

-- The messages in the order in which they were written.
abbrev pub payloads : List OutboxRow → List Message
payloads [] = []
payloads (r ∷ rs) = r.payload ∷ payloads rs

pub payloads-append : (xs ys : List OutboxRow) → payloads (xs ++ ys) ≡ payloads xs ++ payloads ys
payloads-append [] ys = refl
payloads-append (x ∷ xs) ys = λ i. x.payload ∷ payloads-append xs ys i
