-- ===== src/Db/Ensures.antt =====
-- Postconditions of actions, with a rule for each way to build one. `P` speaks of the value and the
-- tables after an action that returns, `F` of the tables after one that fails.
use ticketbus.Base.{⊤, ◌≡◌, refl, Bool, true, false, Option, none, some, List, [], ◌∷◌, ◌++◌, ap}
use ticketbus.Db.Defs.{
  write_unless, Result, ok, err, db_err, DbError, World, Action, Statement, finish, exec_with, exec,
  atomic, after_tx, continue, ◌>>=◌, attempt, ignore, query, query_row, row_or_error, read_rows,
  reading, query_rows,
}

abbrev pub Ensures :
    {T E A : Type 0} → (A → T → Type 0) → (T → Type 0) → Result E A × World T → Type 0
Ensures P F (ok a, w) = P a w.tables
Ensures P F (err _, w) = F w.tables
Ensures P F (db_err _, w) = F w.tables

-- The same, of an outcome that `attempt` hands on as a value.
abbrev pub Outcome : {T E A : Type 0} → (A → T → Type 0) → (T → Type 0) → Result E A → T → Type 0
Outcome P F (ok a) t = P a t
Outcome P F (err _) t = F t
Outcome P F (db_err _) t = F t

-- What holds of a statement that violates no constraint.
abbrev pub Runs : {T A : Type 0} → (A → T → Type 0) → Result DbError (A × T) → Type 0
Runs P (ok (a, t)) = P a t
Runs P (err _) = ⊤
Runs P (db_err _) = ⊤

pub Runs-write_unless :
    {T : Type 0} (P : T → Type 0) (violation : Option DbError) (t : T)
    → (violation ≡ none → P t)
    → Runs (λ _. P) (write_unless violation t)
Runs-write_unless P none t h = h refl
Runs-write_unless P (some e) t h = tt

module _ {T E A : Type 0} where
  pub Ensures-mono :
      (P Q : A → T → Type 0) (F G : T → Type 0) (out : Result E A × World T)
      → Ensures P F out
      → ((a : A) (t : T) → P a t → Q a t)
      → ((t : T) → F t → G t)
      → Ensures Q G out
  Ensures-mono P Q F G (ok a, w) h pq fg = pq a w.tables h
  Ensures-mono P Q F G (err e, w) h pq fg = fg w.tables h
  Ensures-mono P Q F G (db_err e, w) h pq fg = fg w.tables h

  pub Ensures-any : (out : Result E A × World T) → Ensures (λ _ _. ⊤) (λ _. ⊤) out
  Ensures-any (ok _, w) = tt
  Ensures-any (err _, w) = tt
  Ensures-any (db_err _, w) = tt

  -- What is known of the value that an action returns.
  pub Ensures-known :
      (P : A → Type 0) (a : A) (out : Result E A × World T)
      → out.0 ≡ ok a
      → P a
      → Ensures (λ x _. P x) (λ _. ⊤) out
  Ensures-known P a (ok x, w) e p = rw (same_value (ok x) x a refl e) p
    where
      same_value : (r : Result E A) (x y : A) → r ≡ ok x → r ≡ ok y → x ≡ y
      same_value r x y p q = cc
  Ensures-known P a (err _, w) e p = tt
  Ensures-known P a (db_err _, w) e p = tt

  -- What holds after either outcome.
  pub Ensures-tables :
      (P : T → Type 0) (out : Result E A × World T) → Ensures (λ _. P) P out → P out.1.tables
  Ensures-tables P (ok _, w) h = h
  Ensures-tables P (err _, w) h = h
  Ensures-tables P (db_err _, w) h = h

  -- A caller that discards the outcome sees the tables of either way.
  pub Ensures-ignore :
      (P : A → T → Type 0) (Q G : T → Type 0) (m : Action T E A) (w : World T)
      → Ensures P Q (m w)
      → ((a : A) (t : T) → P a t → Q t)
      → Ensures (λ _ t. Q t) G (ignore m w)
  Ensures-ignore P Q G m w h weaken = split (m w) h
    where
      split :
          (out : Result E A × World T)
          → Ensures P Q out
          → Ensures (λ _ t. Q t) G (ignore (λ _. out) w)
      split (ok a, w') h' = weaken a w'.tables h'
      split (err e, w') h' = h'
      split (db_err e, w') h' = h'

  pub Ensures-attempt :
      (P : A → T → Type 0) (F G : T → Type 0) (m : Action T E A) (w : World T)
      → Ensures P F (m w)
      → Ensures (Outcome P F) G (attempt m w)
  Ensures-attempt P F G m w h = split (m w) h
    where
      split :
          (out : Result E A × World T)
          → Ensures P F out
          → Ensures (Outcome P F) G (attempt (λ _. out) w)
      split (ok a, w') h' = h'
      split (err e, w') h' = h'
      split (db_err e, w') h' = h'

  pub Ensures-atomic :
      (P : A → T → Type 0) (F : T → Type 0) (m : Action T E A) (w : World T)
      → F w.tables
      → Ensures P (λ _. ⊤) (m w)
      → Ensures P F (atomic m w)
  Ensures-atomic P F m w keep h = split (m w) h
    where
      split : (out : Result E A × World T) → Ensures P (λ _. ⊤) out → Ensures P F (after_tx w out)
      split (ok a, w') h' = h'
      split (err e, w') h' = keep
      split (db_err e, w') h' = keep

module _ {T E A B : Type 0} where
  pub Ensures-bind :
      (P : A → T → Type 0) (Q : B → T → Type 0) (F : T → Type 0) (m : Action T E A)
      (f : A → Action T E B) (w : World T)
      → Ensures P F (m w)
      → ((a : A) (w' : World T) → P a w'.tables → Ensures Q F (f a w'))
      → Ensures Q F ((m >>= f) w)
  Ensures-bind P Q F m f w h rest = split (m w) h
    where
      split :
          (out : Result E A × World T)
          → Ensures P F out
          → Ensures Q F (let (r, w') = out in continue r f w')
      split (ok a, w') h' = rest a w' h'
      split (err e, w') h' = h'
      split (db_err e, w') h' = h'

module _ (E : Type 0) {T A : Type 0} where
  -- A statement fails and changes nothing, or does what its function says.
  pub Ensures-exec :
      (P : A → T → Type 0) (F : T → Type 0) (f : Statement T A) (w : World T)
      → F w.tables
      → Runs P (f w.tables)
      → Ensures P F (exec {E = E} f w)
  unfolding exec
  Ensures-exec P F f w keep run = with_faults w.faults
    where
      finished :
          (r : Result DbError (A × T)) (fs : List Bool)
          → Runs P r
          → Ensures P F (finish {E = E} r w.tables fs)
      finished (ok (a, t)) fs h = h
      finished (err x) fs h = keep
      finished (db_err x) fs h = keep

      with_faults : (fs : List Bool) → Ensures P F (exec_with {E = E} fs f w.tables)
      with_faults [] = finished (f w.tables) [] run
      with_faults (true ∷ fs) = keep
      with_faults (false ∷ fs) = finished (f w.tables) fs run

  pub Ensures-query :
      (P : A → T → Type 0) (F : T → Type 0) (f : T → A) (w : World T)
      → F w.tables
      → P (f w.tables) w.tables
      → Ensures P F (query {E = E} f w)
  unfolding query
  Ensures-query P F f w keep h = Ensures-exec P F (λ t. ok (f t, t)) w keep h

  pub Ensures-query_row :
      (P : A → T → Type 0) (F : T → Type 0) (f : T → Option A) (w : World T)
      → F w.tables
      → ((a : A) → f w.tables ≡ some a → P a w.tables)
      → Ensures P F (query_row {E = E} f w)
  unfolding query_row
  Ensures-query_row P F f w keep h =
      Ensures-exec P F (λ t. row_or_error (f t) t) w keep (found (f w.tables) refl)
    where
      found : (o : Option A) → f w.tables ≡ o → Runs P (row_or_error o w.tables)
      found none e = tt
      found (some a) e = h a e

-- What is read of a list is how it begins.
abbrev pub IsPrefix : {A : Type 0} → List A → List A → Type 0
IsPrefix {A} ys xs = (zs : List A) × (ys ++ zs ≡ xs)

pub read_rows-IsPrefix :
    {A : Type 0} (fs : List Bool) (xs : List A) → IsPrefix (read_rows fs xs).0 xs
unfolding read_rows
read_rows-IsPrefix [] [] = ([], refl)
read_rows-IsPrefix [] (x ∷ xs) = let (zs, e) = read_rows-IsPrefix [] xs in (zs, ap (λ ys. x ∷ ys) e)
read_rows-IsPrefix (b ∷ fs) [] = ([], refl)
read_rows-IsPrefix (true ∷ fs) (x ∷ xs) = (x ∷ xs, refl)
read_rows-IsPrefix (false ∷ fs) (x ∷ xs) =
    let (zs, e) = read_rows-IsPrefix fs xs in (zs, ap (λ ys. x ∷ ys) e)

module _ (E : Type 0) {T A : Type 0} where
  pub Ensures-query_rows :
      (P : List A → T → Type 0) (F : T → Type 0) (f : T → List A) (w : World T)
      → F w.tables
      → ((ys : List A) → IsPrefix ys (f w.tables) → P ys w.tables)
      → Ensures P F (query_rows {E = E} f w)
  unfolding query_rows
  Ensures-query_rows P F f w keep h =
      Ensures-bind (λ xs t. (xs ≡ f w.tables) × (t ≡ w.tables)) P F (query f) reading w
        (Ensures-query E _ F f w keep (refl, refl))
        (λ xs w' got. rw got.1 (h _ (rw (← got.0) (read_rows-IsPrefix w'.faults xs))))
