-- ===== src/Auth/Accounts.antt =====
-- The users and their tokens, over any history of calls.
use text.Mathlib.TextEquality.{eq_iff}
use ticketbus.Base.{
  ℕ, ◌+◌, ◌≤◌, ◌≡◌, refl, Bool, true, false, not, Uuid, String, Option, none, some, List, [], ◌∷◌,
  ◌++◌, arith, if◌then◌else◌, is_some, select, Bool-cases, inl, inr, All, ==→≡,
}
use ticketbus.Base
use ticketbus.Text.{◌==◌}
use ticketbus.Table.{find, remove, find-append}
use ticketbus.Db.{World}
use ticketbus.Auth.Domain.{Tables, User, RefreshToken, user_key}
use ticketbus.Auth.Repo.{
  user_row, user_violation, token_row, token_violation, by_email, without_hash, known_role,
}
use ticketbus.Auth.Calls.{Call, run}
use ticketbus.Auth.Laws.{Law}
use ticketbus.Auth.Laws.Handlers.{Law-run}

abbrev pub users_with : String → List User → ℕ
users_with e [] = 0
users_with e (u ∷ us) = (if u.email == e then 1 else 0) + users_with e us

users_with-append :
    (e : String) (us : List User) (u : User)
    → users_with e (us ++ u ∷ []) ≡ users_with e us + (if u.email == e then 1 else 0)
users_with-append e [] u = omega arith
users_with-append e (v ∷ us) u = omega (arith, users_with-append e us u)

users_with-remove :
    (e : String) (id : Uuid) (us : List User)
    → users_with e (remove user_key id us) ≤ users_with e us
unfolding remove
users_with-remove e id [] = omega arith
users_with-remove e id (u ∷ us) = ground (arith, users_with-remove e id us)

users_with-by_email :
    (e : String) (us : List User) → is_some (by_email e us) ≡ false → users_with e us ≡ 0
unfolding by_email
users_with-by_email e [] absent = refl
users_with-by_email e (u ∷ us) absent = ground (arith, users_with-by_email e us)

fits_new :
    (u : User) (t : Tables)
    → user_violation u t ≡ none
    → (is_some (by_email u.email t.users) ≡ false) × (known_role u.role ≡ true)
unfolding user_violation
fits_new u t fits = ground arith

abbrev pub OnePerEmail : Tables → Type 0
OnePerEmail t = (e : String) → users_with e t.users ≤ 1

-- The user of each refresh token exists.
abbrev pub Owned : Tables → Type 0
Owned t =
    All (λ (r : RefreshToken). is_some (find user_key r.user_id t.users) ≡ true) t.refresh_tokens

abbrev pub Known : Tables → Type 0
Known t = All (λ (u : User). known_role u.role ≡ true) t.users

new_email :
    (u : User) (now : ℕ) (t : Tables) (e : String)
    → user_violation u t ≡ none
    → users_with e t.users ≤ 1
    → users_with e (t.users ++ user_row u now ∷ []) ≤ 1
new_email u now t e fits h = elim (Bool-cases (u.email == e)) [
  | inl same ↦ ground (
    arith,
    users_with-append e t.users (user_row u now),
    users_with-by_email e t.users (rw (← (eq_iff u.email e).0 same) (fits_new u t fits).0),
  )
  | inr other ↦ ground (arith, users_with-append e t.users (user_row u now))
]

email-Law : Law OnePerEmail
email-Law = record {
  joins = λ u now t fits h e. new_email u now t e fits (h e);
  issues = λ r now t fits h. h;
  revokes = λ d t h. h;
  leaves = λ id t h e. omega (arith, h e, users_with-remove e id t.users);
}

All-append {ℓ κ} :
    {A : Type ℓ} (P : A → Type κ) (xs : List A) (x : A) → All P xs → P x → All P (xs ++ x ∷ [])
All-append P [] x h p = (p, tt)
All-append P (y ∷ xs) x h p = (h.0, All-append P xs x h.1 p)

All-remove :
    (P : User → Type 0) (id : Uuid) (us : List User) → All P us → All P (remove user_key id us)
unfolding remove
All-remove P id [] h = tt
All-remove P id (u ∷ us) h = elim (Bool-cases (Base.◌==◌ u.id id)) [
  | inl same ↦ rw same h.1
  | inr other ↦ rw other (h.0, All-remove P id us h.1)
]

-- Rows that a filter keeps have the predicate that they had, weakened by what the filter says.
All-select {ℓ} :
    {A : Type ℓ} (P Q : A → Type 0) (p : A → Bool) (xs : List A)
    → All P xs
    → ((x : A) → P x → p x ≡ true → Q x)
    → All Q (select p xs)
All-select P Q p [] h weaken = tt
All-select P Q p (x ∷ xs) h weaken = elim (Bool-cases (p x)) [
  | inl keeps ↦ rw keeps (weaken x h.0 keeps, All-select P Q p xs h.1 weaken)
  | inr drops ↦ rw drops (All-select P Q p xs h.1 weaken)
]

All-mono {ℓ} :
    {A : Type ℓ} (P Q : A → Type 0) (xs : List A) → All P xs → ((x : A) → P x → Q x) → All Q xs
All-mono P Q [] h pq = tt
All-mono P Q (x ∷ xs) h pq = (pq x h.0, All-mono P Q xs h.1 pq)

find-remove_other :
    (id j : Uuid) (us : List User)
    → (Base.◌==◌ j id) ≡ false
    → find user_key j (remove user_key id us) ≡ find user_key j us
unfolding find remove
find-remove_other id j [] other = refl
find-remove_other id j (u ∷ us) other = ground (arith, find-remove_other id j us)

still_there :
    (j : Uuid) (u : User) (us : List User)
    → is_some (find user_key j us) ≡ true
    → is_some (find user_key j (us ++ u ∷ [])) ≡ true
still_there j u us h = ground (arith, find-append user_key j u us)

has_owner :
    (r : RefreshToken) (t : Tables)
    → token_violation r t ≡ none
    → is_some (find user_key r.user_id t.users) ≡ true
unfolding token_violation
has_owner r t fits = ground arith

HasOwner : List User → RefreshToken → Type 0
HasOwner us r = is_some (find user_key r.user_id us) ≡ true

owner-Law : Law Owned
unfolding HasOwner without_hash
owner-Law = record {
  joins = λ u now t fits h.
      All-mono (HasOwner t.users) _ t.refresh_tokens h
        (λ r there. still_there r.user_id (user_row u now) t.users there);
  issues = λ r now t fits h.
      All-append (HasOwner t.users) t.refresh_tokens (token_row r now) h (has_owner r t fits);
  revokes = λ d t h.
      All-select (HasOwner t.users) (HasOwner t.users) _ t.refresh_tokens h (λ _ there _. there);
  leaves = λ id t h.
      All-select (HasOwner t.users) (HasOwner (remove user_key id t.users)) _ t.refresh_tokens h
        (λ r there kept. rw (find-remove_other id r.user_id t.users (ground arith)) there);
}

IsKnown : User → Type 0
IsKnown u = known_role u.role ≡ true

role-Law : Law Known
unfolding IsKnown
role-Law = record {
  joins = λ u now t fits h. All-append IsKnown t.users (user_row u now) h (fits_new u t fits).1;
  issues = λ r now t fits h. h;
  revokes = λ d t h. h;
  leaves = λ id t h. All-remove IsKnown id t.users h;
}

-- Over any history of calls, whichever statements fail on the way: where no two users have one email,
-- no two have afterwards.
pub run-OnePerEmail :
    (cs : List Call) (w : World Tables) → OnePerEmail w.tables → OnePerEmail (run cs w).tables
run-OnePerEmail cs w h = Law-run email-Law cs w h

-- Over any history of calls, whichever statements fail on the way: where each refresh token belongs
-- to a user, each does afterwards, also when users are deleted.
pub run-Owned : (cs : List Call) (w : World Tables) → Owned w.tables → Owned (run cs w).tables
run-Owned cs w h = Law-run owner-Law cs w h

-- Over any history of calls, whichever roles are asked for and whichever statements fail: where every
-- user is an admin, an organizer or a customer, every user is afterwards.
pub run-Known : (cs : List Call) (w : World Tables) → Known w.tables → Known (run cs w).tables
run-Known cs w h = Law-run role-Law cs w h
