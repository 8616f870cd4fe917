-- ===== src/Db/Keeps.antt =====
-- Actions that keep a predicate of the tables, whether they return or fail.
use ticketbus.Base.{◌≡◌, refl, some, Bool, true, false, Option}
use ticketbus.Db.Defs.{
  World, Action, Result, ok, err, db_err, raise_if, attempt, ignore, query_row, exec, Statement,
  ◌>>=◌,
}
use ticketbus.Db.Ensures.{
  Ensures, Outcome, Ensures-bind, Ensures-query_row, Ensures-attempt, Ensures-ignore, Runs,
  Ensures-exec,
}

-- What an action that keeps `I` ensures.
abbrev pub Keeps : {T E A : Type 0} → (T → Type 0) → Result E A × World T → Type 0
Keeps I = Ensures (λ _. I) I

abbrev pub Kept : {T A : Type 0} → (T → Type 0) → A → T → Type 0
Kept I _ = I

module _ {T E : Type 0} (I : T → Type 0) where
  -- A handler in two parts, neither of which announces anything.
  pub Keeps-then :
      {A B : Type 0} (m : Action T E A) (f : A → Action T E B) (w : World T)
      → Keeps I (m w)
      → ((a : A) (w' : World T) → I w'.tables → Keeps I (f a w'))
      → Keeps I ((m >>= f) w)
  Keeps-then m f w first rest = Ensures-bind (Kept I) (Kept I) I m f w first rest

  pub Outcome-either : {A : Type 0} (r : Result E A) (t : T) → Outcome (Kept I) I r t → I t
  Outcome-either (ok _) t h = h
  Outcome-either (err _) t h = h
  Outcome-either (db_err _) t h = h

  -- `attempt` itself never fails, so the rest decides what holds.
  pub Ensures-try :
      {A B : Type 0} (Q : B → T → Type 0) (F : T → Type 0) (m : Action T E A)
      (f : Result E A → Action T E B) (w : World T)
      → Keeps I (m w)
      → ((r : Result E A) (w' : World T) → I w'.tables → Ensures Q F (f r w'))
      → Ensures Q F ((attempt m >>= f) w)
  Ensures-try Q F m f w first rest =
      Ensures-bind (Outcome (Kept I) I) Q F (attempt m) f w (Ensures-attempt (Kept I) I F m w first)
        (λ r w' h. rest r w' (Outcome-either r w'.tables h))

  pub Keeps-attempt :
      {A B : Type 0} (m : Action T E A) (f : Result E A → Action T E B) (w : World T)
      → Keeps I (m w)
      → ((r : Result E A) (w' : World T) → I w'.tables → Keeps I (f r w'))
      → Keeps I ((attempt m >>= f) w)
  Keeps-attempt m f w first rest = Ensures-try (Kept I) I m f w first rest

  pub Keeps-ignore :
      {A : Type 0} (m : Action T E A) (w : World T) → Keeps I (m w) → Keeps I (ignore m w)
  Keeps-ignore m w h = Ensures-ignore (Kept I) I I m w h (λ _ _ h'. h')

  pub Keeps-raise_if : (b : Bool) (e : E) (w : World T) → I w.tables → Keeps I (raise_if b e w)
  Keeps-raise_if true e w h = h
  Keeps-raise_if false e w h = h

module _ (E : Type 0) {T : Type 0} (I : T → Type 0) where
  pub Keeps-find :
      {A : Type 0} (f : T → Option A) (w : World T) → I w.tables → Keeps {E = E} I (query_row f w)
  Keeps-find f w h = Ensures-query_row E _ _ f w h (λ _ _. h)

  -- A statement that violates no constraint keeps `I`.
  pub Keeps-exec :
      {A : Type 0} (f : Statement T A) (w : World T)
      → I w.tables
      → Runs (Kept I) (f w.tables)
      → Keeps {E = E} I (exec f w)
  Keeps-exec f w h run = Ensures-exec E (Kept I) I f w h run

module _ (E : Type 0) {T A : Type 0} (f : T → Option A) (before : T) where
  -- What a lookup says: a row that it gives is in the tables, which stay as they were.
  abbrev pub Seen : A → T → Type 0
  Seen a t = (f before ≡ some a) × (t ≡ before)

  abbrev pub Looked : Result E A → T → Type 0
  Looked r t = Outcome Seen (λ t'. t' ≡ before) r t

-- A lookup whose failure is a value, and what follows it.
pub Ensures-lookup :
    (E : Type 0) {T A B : Type 0} (f : T → Option A) (Q : B → T → Type 0) (F : T → Type 0)
    (k : Result E A → Action T E B) (w : World T)
    → ((r : Result E A) (w' : World T) → Looked E f w.tables r w'.tables → Ensures Q F (k r w'))
    → Ensures Q F ((attempt (query_row f) >>= k) w)
Ensures-lookup E f Q F k w rest =
    Ensures-bind (Looked E f w.tables) Q F (attempt (query_row f)) k w
      (Ensures-attempt (Seen E f w.tables) (λ t. t ≡ w.tables) F (query_row f) w
        (Ensures-query_row E (Seen E f w.tables) (λ t. t ≡ w.tables) f w refl (λ a h. (h, refl))))
      rest

pub Ensures-Outcome :
    {T E A : Type 0} (P : A → T → Type 0) (F : T → Type 0) (out : Result E A × World T)
    → Ensures P F out
    → Outcome P F out.0 out.1.tables
Ensures-Outcome P F (ok _, w) h = h
Ensures-Outcome P F (err _, w) h = h
Ensures-Outcome P F (db_err _, w) h = h

-- The result of a lookup, as a value.
pub query_row-Looked :
    (E : Type 0) {T A : Type 0} (f : T → Option A) (w : World T)
    → Looked E f w.tables (query_row {E = E} f w).0 (query_row {E = E} f w).1.tables
query_row-Looked E f w =
    Ensures-Outcome (Seen E f w.tables) (λ t. t ≡ w.tables) (query_row f w)
      (Ensures-query_row E (Seen E f w.tables) (λ t. t ≡ w.tables) f w refl (λ a h. (h, refl)))
