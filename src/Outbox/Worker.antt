-- ===== src/Outbox/Worker.antt =====
-- pkg/outbox/worker.go: a batch of undelivered rows, handed through a channel to goroutines that
-- publish and then mark them. The goroutines run in any interleaving: `Step` is one move of one of
-- them. The broker is outside the program; `log` is what it has taken, in its order.
use ticketbus.Base.{
  ℕ, ◌+◌, ◌*◌, ◌%◌, ◌<◌, ◌≡◌, Bool, true, false, not, List, [], ◌∷◌, ◌++◌, ltb, ◌==◌, if◌then◌else◌,
  select, take, length, int_gt, int_mod,
}
use ticketbus.Outbox.{OutboxRow}

pub record Worker : Type 0 where
  pub concurrency : ℕ
  pub poll_interval : ℕ

abbrev pub at_least_one : ℕ → ℕ
at_least_one c = if int_gt 1 c then 1 else c

abbrev pub or_default : ℕ → ℕ
or_default d = if int_gt d 0 then d else 200000000

-- Both arguments are patterns of an `int`; a duration counts nanoseconds in 64 bits.
unfoldable pub new_worker : ℕ → ℕ → Worker
new_worker concurrency poll_ms = record {
  concurrency = at_least_one concurrency;
  poll_interval = or_default ((poll_ms * 1000000) % int_mod);
}

-- `ORDER BY id`
unfoldable pub insert_by_id : OutboxRow → List OutboxRow → List OutboxRow
insert_by_id r [] = r ∷ []
insert_by_id r (x ∷ xs) = if ltb x.id r.id then x ∷ insert_by_id r xs else r ∷ x ∷ xs

unfoldable pub by_id : List OutboxRow → List OutboxRow
by_id [] = []
by_id (r ∷ rs) = insert_by_id r (by_id rs)

abbrev pub waits : OutboxRow → Bool
waits r = not r.delivered

-- `WHERE delivered = false ORDER BY id LIMIT 100`
unfoldable pub batch : List OutboxRow → List OutboxRow
batch rows = take 100 (by_id (select waits rows))

-- `UPDATE outbox SET delivered = true WHERE id = $1`
abbrev pub mark_if : Bool → OutboxRow → OutboxRow
mark_if true r = record r { delivered = true }
mark_if false r = r

unfoldable pub mark : ℕ → List OutboxRow → List OutboxRow
mark id [] = []
mark id (r ∷ rs) = mark_if (r.id == id) r ∷ mark id rs

-- A goroutine between two receives from the channel.
pub data Job : Type 0 where
  publishing marking : OutboxRow → Job

-- The table, the broker's log, the rows that wait in the channel, and the goroutines that hold one.
pub record Run : Type 0 where
  pub rows : List OutboxRow
  pub log : List OutboxRow
  pub jobs : List OutboxRow
  pub busy : List Job

-- One move, with `n` goroutines. A publish may fail after the broker took the message (`unsure`), as
-- when the answer is lost.
pub data Step (n : ℕ) : Run → Run → Type 0 where
  takes :
      (s : Run) (r : OutboxRow) (js : List OutboxRow)
      → s.jobs ≡ r ∷ js
      → length s.busy < n
      → Step n s (record s { jobs = js; busy = publishing r ∷ s.busy })
  publishes :
      (s : Run) (r : OutboxRow) (xs ys : List Job)
      → s.busy ≡ xs ++ publishing r ∷ ys
      → Step n s (record s { log = s.log ++ r ∷ []; busy = xs ++ marking r ∷ ys })
  refused :
      (s : Run) (r : OutboxRow) (xs ys : List Job)
      → s.busy ≡ xs ++ publishing r ∷ ys
      → Step n s (record s { busy = xs ++ ys })
  unsure :
      (s : Run) (r : OutboxRow) (xs ys : List Job)
      → s.busy ≡ xs ++ publishing r ∷ ys
      → Step n s (record s { log = s.log ++ r ∷ []; busy = xs ++ ys })
  marks :
      (s : Run) (r : OutboxRow) (xs ys : List Job)
      → s.busy ≡ xs ++ marking r ∷ ys
      → Step n s (record s { rows = mark r.id s.rows; busy = xs ++ ys })
  unmarked :
      (s : Run) (r : OutboxRow) (xs ys : List Job)
      → s.busy ≡ xs ++ marking r ∷ ys
      → Step n s (record s { busy = xs ++ ys })

-- `k` moves from one state to another.
pub data Steps (n : ℕ) (s : Run) : ℕ → Run → Type 0 where
  here : Steps n s 0 s
  next : {k : ℕ} {t u : Run} → Steps n s k t → Step n t u → Steps n s (k + 1) u

-- The channel holds the batch, and the goroutines have just been started.
abbrev pub start : List OutboxRow → List OutboxRow → Run
start rows log = record { rows = rows; log = log; jobs = batch rows; busy = [] }

-- `wg.Wait()` returns: the channel is drained and every goroutine is done.
abbrev pub IsDone : Run → Type 0
IsDone s = (s.jobs ≡ []) × (s.busy ≡ [])
