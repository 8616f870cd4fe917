-- ===== src/Ticketing/Lifecycle.antt =====
-- The states of an event, and the order in which it goes through them.
pub mod Steps
pub mod Opening
pub mod Handlers
use ticketbus.Base.{
  ℕ, ◌≡◌, refl, sym, ap, ◌∙◌, Bool, true, false, Uuid, Option, none, some, inl, inr, List, [], ◌∷◌,
  ◌++◌, arith, ◌==◌, ==→≡, if◌then◌else◌, Bool-cases,
}
use ticketbus.Table.{find, update, find-update, find-append}
use ticketbus.Dto.{EventStatus}
use ticketbus.Ticketing.Domain.{Tables, Event, event_key}
use ticketbus.Ticketing.EventRepo.{edited}

-- One step of an event's life, or none.
pub data Moves : EventStatus → EventStatus → Type 0 where
  stays : {s : EventStatus} → Moves s s
  approval : Moves EventStatus.pending EventStatus.published
  rejection : Moves EventStatus.pending EventStatus.rejected
  calling_off : Moves EventStatus.published EventStatus.cancelled

pub data Reaches : EventStatus → EventStatus → Type 0 where
  here : {s : EventStatus} → Reaches s s
  onward : {a b c : EventStatus} → Moves a b → Reaches b c → Reaches a c

pub Reaches-onward : {a b c : EventStatus} → Reaches a b → Moves b c → Reaches a c
Reaches-onward here m = onward m here
Reaches-onward (onward x r) m = onward x (Reaches-onward r m)

-- Every event of `before` is still there, with its organizer, in a state that can be reached.
abbrev pub Follows : List Event → Tables → Type 0
Follows before t =
    (k : Uuid) (e : Event)
    → find event_key k before ≡ some e
    → (e' : Event) × (find event_key k t.events ≡ some e')
      × Reaches e.status e'.status
      × (e'.organizer_id ≡ e.organizer_id)

-- What a call has read of an event, at whatever time: a state that can be reached.
abbrev pub Fits : List Event → Event → Type 0
Fits before x = (e : Event) → find event_key x.id before ≡ some e → Reaches e.status x.status

pub Follows-append :
    (before : List Event) (x : Event) (t : Tables)
    → Follows before t
    → Follows before (record t { events = t.events ++ x ∷ [] })
Follows-append before x t h k e there =
    let (e', there', reached, same) = h k e there in
    (e', rw (find-append event_key k x t.events, there') refl, reached, same)

-- An update by an event that was read, perhaps long ago, and moved by one step.
pub Follows-edit :
    (before : List Event) (x n : Event) (now : ℕ) (t : Tables)
    → n.id ≡ x.id
    → Fits before x
    → Moves x.status n.status
    → Follows before t
    → Follows before (record t { events = update event_key n.id (edited n now) t.events })
Follows-edit before x n now t own read step h k e there =
    let (e', there', reached, same) = h k e there in
    elim (Bool-cases (k == n.id)) [
      | inl hit ↦ (
        edited n now e',
        rw (find-update event_key (edited n now) (λ _. refl) n.id k t.events, hit, there') refl,
        Reaches-onward
            (read e (ap (λ j. find event_key j before) (sym own ∙ sym (==→≡ k n.id hit)) ∙ there))
            step,
        same,
      )
      | inr other ↦ (
        e',
        rw (find-update event_key (edited n now) (λ _. refl) n.id k t.events, other, there') refl,
        reached,
        same,
      )
    ]
