-- ===== src/Ticketing/Capacity.antt =====
-- The ticket types of a new event fit into its venue.
use ticketbus.Base.{
  ℕ, ◌+◌, ◌%◌, ◌<◌, ◌≤◌, ◌≡◌, refl, Bool, true, false, List, [], ◌∷◌, ⊤, arith, int_mod, int_half,
  int_gt,
}
use ticketbus.Db.{World, err, raise_if, ◌>>◌}
use ticketbus.Db.Ensures.{Ensures, Ensures-mono, Ensures-any}
use ticketbus.Ticketing.Domain.{Tables, TicketType, capacity_exceeded}
use ticketbus.Ticketing.Events.{
  Env, Form, create_event, total_quantity, quantity_from, store_event, new_event,
}

abbrev pub seats_on_sale : List TicketType → ℕ
seats_on_sale [] = 0
seats_on_sale (x ∷ xs) = x.quantity + seats_on_sale xs

quantity_from-seats :
    (acc : ℕ) (xs : List TicketType)
    → acc + seats_on_sale xs < int_mod
    → quantity_from acc xs ≡ acc + seats_on_sale xs
unfolding quantity_from
quantity_from-seats acc [] fits = omega arith
quantity_from-seats acc (x ∷ xs) fits =
    omega (arith, quantity_from-seats ((acc + x.quantity) % int_mod) xs (omega arith))

total_quantity-seats :
    (xs : List TicketType) → seats_on_sale xs < int_half → total_quantity xs ≡ seats_on_sale xs
unfolding total_quantity
total_quantity-seats xs fits = omega (arith, quantity_from-seats 0 xs (omega arith))

-- An event is rejected, and nothing is written, if its ticket types have more seats than its venue;
-- and an event that is accepted has at most as many. The numbers are below 2^63.
pub create_event-seats :
    (env : Env) (f : Form) (x : TicketType) (xs : List TicketType) (w : World Tables)
    → seats_on_sale (x ∷ xs) < int_half
    → f.venue_capacity < int_half
    → (f.venue_capacity < seats_on_sale (x ∷ xs)
        → create_event env f (x ∷ xs) w ≡ (err capacity_exceeded, w))
      × Ensures
          (λ _ _. seats_on_sale (x ∷ xs) ≤ f.venue_capacity)
          (λ _. ⊤)
          (create_event env f (x ∷ xs) w)
unfolding create_event
create_event-seats env f x xs w fits small = (
  (λ over. rw (exceeds over) refl),
  accepted (int_gt (total_quantity (x ∷ xs)) f.venue_capacity) refl,
)
  where
    total : total_quantity (x ∷ xs) ≡ seats_on_sale (x ∷ xs)
    total = total_quantity-seats (x ∷ xs) fits

    exceeds :
        f.venue_capacity < seats_on_sale (x ∷ xs)
        → int_gt (total_quantity (x ∷ xs)) f.venue_capacity ≡ true
    exceeds over = ground (arith, total, fits, small)

    room :
        int_gt (total_quantity (x ∷ xs)) f.venue_capacity ≡ false
        → seats_on_sale (x ∷ xs) ≤ f.venue_capacity
    room inside = ground (arith, total, fits, small)

    accepted :
        (exceeded : Bool)
        → int_gt (total_quantity (x ∷ xs)) f.venue_capacity ≡ exceeded
        → Ensures
            (λ _ _. seats_on_sale (x ∷ xs) ≤ f.venue_capacity)
            (λ _. ⊤)
            ((raise_if exceeded capacity_exceeded >> store_event env (new_event env f) (x ∷ xs)) w)
    accepted true e = tt
    accepted false e =
        Ensures-mono (λ _ _. ⊤) (λ _ _. seats_on_sale (x ∷ xs) ≤ f.venue_capacity) (λ _. ⊤) (λ _. ⊤)
          (store_event env (new_event env f) (x ∷ xs) w)
          (Ensures-any (store_event env (new_event env f) (x ∷ xs) w)) (λ _ _ _. room e) (λ _ _. tt)
