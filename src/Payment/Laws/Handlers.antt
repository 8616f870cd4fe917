-- ===== src/Payment/Laws/Handlers.antt =====
-- Every handler keeps an invariant with the laws, so every history does.
use ticketbus.Base.{Uuid, List, [], ◌∷◌}
use ticketbus.Db.{World, done}
use ticketbus.Db.Ensures.{Ensures-query_rows, Ensures-tables}
use ticketbus.Payment.Domain.{PaymentStatus, Tables, Error}
use ticketbus.Payment.Repo
use ticketbus.Payment.Service.{initiate_txn_for_booking, process_payment}
use ticketbus.Payment.Webhook.{refund_each, handle_event_cancelled}
use ticketbus.Payment.Poller.{expire_each, process_expired}
use ticketbus.Payment.Calls.{Call, initiates, pays, webhooks, cancels, polls, handle, run}
use ticketbus.Payment.Laws.{Law}
use ticketbus.Db.Keeps.{Keeps, Keeps-then}
use ticketbus.Payment.Laws.Requests.{Keeps-initiate, Keeps-process_payment}
use ticketbus.Payment.Laws.Settling.{Keeps-webhook, Keeps-refund_each, Keeps-expire_each}

module _ {I : Tables → Type 0} {Owing : PaymentStatus → Uuid → Tables → Type 0}
    (law : Law I Owing) where
  Keeps-handle : (c : Call) (w : World Tables) → I w.tables → Keeps I (handle c w)
  unfolding handle handle_event_cancelled process_expired Repo.list_by_event_id
      Repo.list_active_expired
  Keeps-handle (initiates env booking event user email amount expiry) w h =
      Keeps-then I (initiate_txn_for_booking env booking event user email amount expiry) (λ _. done)
        w (Keeps-initiate law env booking event user email amount expiry w h) (λ _ _ h'. h')
  Keeps-handle (pays env booking user) w h =
      Keeps-then I (process_payment env booking user) (λ _. done) w
        (Keeps-process_payment law env booking user w h) (λ _ _ h'. h')
  Keeps-handle (webhooks env p) w h = Keeps-webhook law env p w h
  Keeps-handle (cancels now draw event) w h =
      Keeps-then I (Repo.list_by_event_id event) (refund_each now draw) w
        (Ensures-query_rows Error _ _ _ w h (λ _ _. h))
        (λ xs w' h'. Keeps-refund_each law now draw xs w' h')
  Keeps-handle (polls now limit) w h =
      Keeps-then I (Repo.list_active_expired now limit) (expire_each now) w
        (Ensures-query_rows Error _ _ _ w h (λ _ _. h))
        (λ xs w' h'. Keeps-expire_each law now xs w' h')

  pub Law-run : (cs : List Call) (w : World Tables) → I w.tables → I (run cs w).tables
  unfolding run
  Law-run [] w h = h
  Law-run (c ∷ cs) w h =
      Law-run cs (handle c w).1 (Ensures-tables I (handle c w) (Keeps-handle c w h))
