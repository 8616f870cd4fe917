-- ===== src/Ticketing/Payment.antt =====
-- service/ticketing/internal/payment/client.go: the call that creates the payment transaction of a
-- booking. What the network answers is a parameter; the client's retry is modelled.
use ticketbus.Base.{ℕ, ⊤, Bool, ◌&&◌, Uuid, String, ltb, leb, if◌then◌else◌}
use ticketbus.Db.{Result, ok, err}
use ticketbus.Ticketing.Domain.{Error, payment_unavailable}

pub record PaymentRequest : Type 0 where
  pub booking_id : Uuid
  pub event_id : Uuid
  pub user_id : Uuid
  pub email : String
  pub amount_rupiah : ℕ
  pub expires_at : ℕ

-- `httpClient.Do` returns an error, or a response with a status code.
pub data Response : Type 0 where
  failed : Response
  status : ℕ → Response

abbrev pub is_success : ℕ → Bool
is_success code = leb 200 code && ltb code 300

-- The second attempt is the last.
abbrev pub last_attempt : Response → Result Error ⊤
last_attempt failed = err payment_unavailable
last_attempt (status code) = if is_success code then ok tt else err payment_unavailable

unfoldable pub initiate_txn_for_booking : Response → Response → Result Error ⊤
initiate_txn_for_booking failed second = last_attempt second
initiate_txn_for_booking (status code) second =
    if is_success code
    then ok tt
    else if leb 500 code
    then last_attempt second
    else err payment_unavailable
