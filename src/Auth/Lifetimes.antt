-- ===== src/Auth/Lifetimes.antt =====
-- The lifetime of a session, from the login that makes it to the logout or the end of its seven days.
pub mod Ledger
use registry_ui_go.Base.{
  ℕ, ◌+◌, ◌≤◌, ◌≡◌, refl, ◌≢◌, ◌∙◌, sym, ap, subst, ◌⊎◌, inl, inr, Bool, true, false, Option, none,
  some, List, [], ◌∷◌, Text, arith, Bool-cases, Option-cases, if◌then◌else◌, if_cases, text_eq,
  text_eq_iff, text_eq_refl, text_eq_instance, ◌==◌, ltb, not, lookup, insert, remove_key, keep, In,
  lookup-insert, lookup-remove_key,
}
use registry_ui_go.Store.{Db}
use registry_ui_go.Auth.{Request, Draws, Session, Web, give}
use registry_ui_go.Auth.Sessions.{
  create_session, store_session, set_csrf_cookie, get_session, session_of, live_session,
  forget_session, cleanup_sessions, clear_session, forget_cookie, handle_logout, is_expired,
  session_ttl, new_session,
}
use registry_ui_go.Http.{Method}

-- The state at a later time.
abbrev pub at_time : ℕ → Web → Web
at_time now w = record w { db = record w.db { now = now } }

-- The name that a cookie stands for at a time, said of the table alone.
abbrev pub valid_name : ℕ → Option Session → Text
valid_name now none = []
valid_name now (some s) = if is_expired now s then [] else s.username

abbrev pub session_name : Option Text → Web → Text
session_name none w = []
session_name (some id) w = valid_name w.db.now (lookup id w.sessions)

live_session-name :
    (id : Text) (o : Option Session) (w : Web) → (live_session id o w).0 ≡ valid_name w.db.now o
unfolding live_session
live_session-name id none w = refl
live_session-name id (some s) w = elim (Bool-cases (is_expired w.db.now s)) [
  | inl over ↦ rw over refl
  | inr live ↦ rw live refl
]

pub session_of-name : (o : Option Text) (w : Web) → (session_of o w).0 ≡ session_name o w
unfolding session_of
session_of-name none w = refl
session_of-name (some id) w = live_session-name id (lookup id w.sessions) w

-- No cookie stands for two entries, as in a map.
abbrev pub Distinct : List (Text × Session) → Type 0
Distinct [] = Unit
Distinct (e ∷ entries) = (lookup e.0 entries ≡ none) × Distinct entries

insert-absent :
    (k j : Text) (s : Session) (m : List (Text × Session))
    → text_eq k j ≡ false
    → lookup j m ≡ none
    → lookup j (insert k s m) ≡ none
insert-absent k j s m other absent = lookup-insert k j s m ∙ (rw other absent)

insert-Distinct :
    (k : Text) (s : Session) (m : List (Text × Session)) → Distinct m → Distinct (insert k s m)
unfolding insert lookup
insert-Distinct k s [] d = (refl, tt)
insert-Distinct k s ((j, v) ∷ m) (fresh, d) = elim (Bool-cases (text_eq j k)) [
  | inl same ↦ rw same (subst (λ i. lookup i m ≡ none) ((text_eq_iff j k).0 same) fresh, d)
  | inr other ↦ rw other (
    insert-absent k j s m (ground (arith, text_eq_iff j k, text_eq_iff k j)) fresh,
    insert-Distinct k s m d,
  )
]

remove-Distinct : (k : Text) (m : List (Text × Session)) → Distinct m → Distinct (remove_key k m)
unfolding remove_key
remove-Distinct k [] d = tt
remove-Distinct k ((j, v) ∷ m) (fresh, d) = elim (Bool-cases (text_eq j k)) [
  | inl same ↦ rw same (remove-Distinct k m d)
  | inr other ↦ rw other (
    lookup-remove_key k j m
        ∙ if_cases (λ o. o ≡ none) (text_eq k j) none (lookup j m) (λ _. refl) (λ _. fresh),
    remove-Distinct k m d,
  )
]

abbrev kept : ℕ → List (Text × Session) → List (Text × Session)
kept now m = keep (λ e. not (is_expired now e.1)) m

kept-absent :
    (now : ℕ) (k : Text) (m : List (Text × Session))
    → lookup k m ≡ none
    → lookup k (kept now m) ≡ none
unfolding keep lookup
kept-absent now k [] absent = refl
kept-absent now k ((j, s) ∷ m) absent = ground (arith, kept-absent now k m)

kept-Distinct : (now : ℕ) (m : List (Text × Session)) → Distinct m → Distinct (kept now m)
unfolding keep
kept-Distinct now [] d = tt
kept-Distinct now ((j, s) ∷ m) (fresh, d) = elim (Bool-cases (is_expired now s)) [
  | inl over ↦ rw over (kept-Distinct now m d)
  | inr live ↦ rw live (kept-absent now j m fresh, kept-Distinct now m d)
]

-- What the clean-up removes stood for nobody, and stands for nobody later.
kept-valid :
    (now later : ℕ) (k : Text) (m : List (Text × Session))
    → now ≤ later
    → Distinct m
    → valid_name later (lookup k (kept now m)) ≡ valid_name later (lookup k m)
unfolding keep lookup
kept-valid now later k [] le d = refl
kept-valid now later k ((j, s) ∷ m) le (fresh, d) = elim (Bool-cases (text_eq j k)) [
  | inr other ↦ elim (Bool-cases (is_expired now s)) [
    | inl over ↦ rw (over, other) (kept-valid now later k m le d)
    | inr live ↦ rw (live, other) (kept-valid now later k m le d)
  ]
  | inl same ↦ elim (Bool-cases (is_expired now s)) [
    | inr live ↦ rw (live, same) refl
    | inl over ↦
        rw (over, same)
          (ap (valid_name later) (
              kept-absent now k m (subst (λ i. lookup i m ≡ none) ((text_eq_iff j k).0 same) fresh))
            ∙ ground arith)
  ]
]
