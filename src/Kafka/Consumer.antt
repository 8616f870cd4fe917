-- ===== src/Kafka/Consumer.antt =====
-- pkg/kafka/kafka.go: `Consume`, where one goroutine reads from the broker into a channel and a pool
-- of goroutines hands the messages to the handler. They run in any interleaving: `Step` is one move
-- of one of them. What the reader returns is outside the program, and so is what a handler does while
-- others run beside it.
use ticketbus.Base.{
  ℕ, ◌*◌, ◌<◌, ◌≡◌, ⊤, Bool, true, false, String, List, [], ◌∷◌, ◌++◌, if◌then◌else◌, length,
  int_gt,
}
use ticketbus.Db.{Action}

-- The value is what the producer marshalled; the headers carry the trace only.
pub record Message (V : Type 0) : Type 0 where
  pub topic : String
  pub key : String
  pub value : V
  pub offset : ℕ

abbrev pub with_concurrency : ℕ → ℕ
with_concurrency n = if int_gt 1 n then 1 else n

abbrev pub Handler : Type 0 → Type 0 → Type 0 → Type 0
Handler V T E = Message V → Action T E ⊤

-- What the reader has yet to return, the message that has been read and not yet sent, the channel,
-- the messages that the goroutines' handlers are at, the messages whose handler has returned, those of
-- them on which it failed, and the one that was given up when the context ended.
pub record Pool (V : Type 0) : Type 0 where
  pub unread : List (Message V)
  pub held : List (Message V)
  pub jobs : List (Message V)
  pub busy : List (Message V)
  pub handled : List (Message V)
  pub failed : List (Message V)
  pub dropped : List (Message V)
  pub closed : Bool

-- One move, with `n` goroutines. Between `takes` and `returns` the handler runs, beside the others. An
-- error of the handler is printed, and the goroutine goes on.
pub data Step {V : Type 0} (n : ℕ) : Pool V → Pool V → Type 0 where
  reads :
      (s : Pool V) (m : Message V) (ms : List (Message V))
      → s.closed ≡ false
      → s.held ≡ []
      → s.unread ≡ m ∷ ms
      → Step n s (record s { unread = ms; held = m ∷ [] })
  read_fails : (s : Pool V) → s.closed ≡ false → s.held ≡ [] → Step n s (record s { closed = true })
  sends :
      (s : Pool V) (m : Message V)
      → s.held ≡ m ∷ []
      → length s.jobs < n * 2
      → Step n s (record s { held = []; jobs = s.jobs ++ m ∷ [] })
  gives_up :
      (s : Pool V) (m : Message V)
      → s.held ≡ m ∷ []
      → Step n s (record s { held = []; dropped = m ∷ s.dropped; closed = true })
  takes :
      (s : Pool V) (m : Message V) (js : List (Message V))
      → s.jobs ≡ m ∷ js
      → length s.busy < n
      → Step n s (record s { jobs = js; busy = m ∷ s.busy })
  returns :
      (s : Pool V) (m : Message V) (xs ys : List (Message V)) (errors : Bool)
      → s.busy ≡ xs ++ m ∷ ys
      → Step n s (record s {
        busy = xs ++ ys;
        handled = s.handled ++ m ∷ [];
        failed = if errors then m ∷ s.failed else s.failed;
      })

-- Any number of moves.
pub data Steps {V : Type 0} (n : ℕ) (s : Pool V) : Pool V → Type 0 where
  here : Steps n s s
  next : {t u : Pool V} → Steps n s t → Step n t u → Steps n s u

-- `Consume` begins.
abbrev pub start : {V : Type 0} → List (Message V) → Pool V
start ms = record {
  unread = ms;
  held = [];
  jobs = [];
  busy = [];
  handled = [];
  failed = [];
  dropped = [];
  closed = false;
}

-- `Consume` returns: the channel is closed and drained, and every goroutine is done.
abbrev pub IsStopped : {V : Type 0} → Pool V → Type 0
IsStopped s = (s.closed ≡ true) × (s.jobs ≡ []) × (s.busy ≡ [])
