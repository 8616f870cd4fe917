-- ===== src/Db/Defs.antt =====
-- Actions on a database, the statements and the transactions of pkg/db and pgx.
use ticketbus.Base.{⊤, Bool, true, false, if◌then◌else◌, Option, none, some, List, [], ◌∷◌}

pub data DbError : Type 0 where
  lost no_rows unique_violation check_violation foreign_key_violation out_of_range : DbError

pub data Result (E A : Type 0) : Type 0 where
  ok : A → Result E A
  err : E → Result E A
  db_err : DbError → Result E A

pub record World (T : Type 0) : Type 0 where
  pub tables : T
  pub faults : List Bool

-- A world in which no statement fails.
abbrev pub calm : {T : Type 0} → T → World T
calm t = record { tables = t; faults = [] }

abbrev pub Action : Type 0 → Type 0 → Type 0 → Type 0
Action T E A = World T → Result E A × World T

module _ {T E A : Type 0} where
  abbrev pub pure : A → Action T E A
  pure a w = (ok a, w)

  abbrev pub raise : E → Action T E A
  raise e w = (err e, w)

  abbrev pub raise_db : DbError → Action T E A
  raise_db e w = (db_err e, w)

abbrev pub continue : {T E A B : Type 0} → Result E A → (A → Action T E B) → Action T E B
continue (ok a) f w = f a w
continue (err e) f w = (err e, w)
continue (db_err e) f w = (db_err e, w)

infixl 5 ◌>>=◌ ◌>>◌
abbrev pub ◌>>=◌ : {T E A B : Type 0} → Action T E A → (A → Action T E B) → Action T E B
◌>>=◌ m f w = let (r, w') = m w in continue r f w'

abbrev pub ◌>>◌ : {T E A B : Type 0} → Action T E A → Action T E B → Action T E B
m >> k = m >>= λ _. k

-- What a statement does to the tables, or the constraint that it violates.
abbrev pub Statement : Type 0 → Type 0 → Type 0
Statement T A = T → Result DbError (A × T)

-- An `INSERT` that violates a constraint, or gives the tables anew.
abbrev pub write_unless : {T : Type 0} → Option DbError → T → Result DbError (⊤ × T)
write_unless none t = ok (tt, t)
write_unless (some e) t = err e

module _ {T E A : Type 0} where
  abbrev pub finish : Result DbError (A × T) → T → List Bool → Result E A × World T
  finish (ok (a, t')) t fs = (ok a, record { tables = t'; faults = fs })
  finish (err e) t fs = (db_err e, record { tables = t; faults = fs })
  finish (db_err e) t fs = (db_err e, record { tables = t; faults = fs })

  abbrev pub exec_with : List Bool → Statement T A → T → Result E A × World T
  exec_with [] f t = finish (f t) t []
  exec_with (true ∷ fs) f t = (db_err lost, record { tables = t; faults = fs })
  exec_with (false ∷ fs) f t = finish (f t) t fs

  -- One statement, `pool.Exec` or `pool.Query`.
  unfoldable pub exec : Statement T A → Action T E A
  exec f w = exec_with w.faults f w.tables

  abbrev pub after_tx : World T → Result E A × World T → Result E A × World T
  after_tx w (ok a, w') = (ok a, w')
  after_tx w (err e, w') = (err e, record { tables = w.tables; faults = w'.faults })
  after_tx w (db_err e, w') = (db_err e, record { tables = w.tables; faults = w'.faults })

  -- A body whose changes `tx.Rollback` takes back unless it returns a value.
  abbrev pub atomic : Action T E A → Action T E A
  atomic m w = after_tx w (m w)

  -- The action, with its outcome as a value: `if err := f(); err != nil`.
  abbrev pub attempt : Action T E A → Action T E (Result E A)
  attempt m w = let (r, w') = m w in (ok r, w')

  -- `_ = f()`
  abbrev pub ignore : Action T E A → Action T E ⊤
  ignore m w = let (_, w') = m w in (ok tt, w')

module _ {T E : Type 0} where
  abbrev pub done : Action T E ⊤
  done = pure tt

  -- `tx.Begin` and `tx.Commit`, which may fail like any statement.
  abbrev pub begin : Action T E ⊤
  begin = exec λ t. ok (tt, t)

  abbrev pub commit : Action T E ⊤
  commit = exec λ t. ok (tt, t)

  abbrev pub raise_if : Bool → E → Action T E ⊤
  raise_if b e w = (if b then err e else ok tt, w)

-- `SELECT` of one row: no row is an error, `pgx.ErrNoRows`.
abbrev pub row_or_error : {T A : Type 0} → Option A → T → Result DbError (A × T)
row_or_error none t = err no_rows
row_or_error (some a) t = ok (a, t)

module _ {T E A : Type 0} where
  unfoldable pub query_row : (T → Option A) → Action T E A
  unfolding exec
  query_row f = exec λ t. row_or_error (f t) t

  unfoldable pub query : (T → A) → Action T E A
  unfolding exec
  query f = exec λ t. ok (f t, t)

-- The loop `for rows.Next()` with one fault for each row: at a fault the connection breaks and the loop
-- ends, with the rows that it had.
unfoldable pub read_rows : {A : Type 0} → List Bool → List A → List A × List Bool
read_rows [] xs = (xs, [])
read_rows (b ∷ fs) [] = ([], b ∷ fs)
read_rows (true ∷ fs) (x ∷ xs) = ([], fs)
read_rows (false ∷ fs) (x ∷ xs) = let (ys, gs) = read_rows fs xs in (x ∷ ys, gs)

module _ {T E A : Type 0} where
  abbrev pub reading : List A → Action T E (List A)
  reading xs w =
      let (ys, fs) = read_rows w.faults xs in (ok ys, record { tables = w.tables; faults = fs })

  -- A `SELECT` of many rows whose reader does not ask for `rows.Err()`: a read that breaks gives fewer
  -- rows and no error. Where the reader asks, the read fails as a whole, and is `query`.
  unfoldable pub query_rows : (T → List A) → Action T E (List A)
  query_rows f = query f >>= reading
