-- ===== src/Auth/Lifetimes/Ledger.antt =====
-- The session store against a ledger that is never cleaned: it notes which name was signed in under
-- which cookie until when, and forgets a cookie at its logout only.
use registry_ui_go.Base.{
  ℕ, ◌+◌, ◌≤◌, ◌≡◌, refl, ◌∙◌, sym, ap, inl, inr, Bool, true, false, Option, none, some, List, [],
  ◌∷◌, Text, arith, Bool-cases, if◌then◌else◌, text_eq, text_eq_iff, text_eq_instance, ◌==◌, lookup,
  remove_key, lookup-insert, lookup-remove_key,
}
use registry_ui_go.Auth.{Request, Draws, Session, Web}
use registry_ui_go.Auth.Sessions.{
  create_session, store_session, set_csrf_cookie, get_session, session_of, live_session,
  forget_session, cleanup_sessions, clear_session, forget_cookie, handle_logout, is_expired,
  new_session,
}
use registry_ui_go.Auth.Lifetimes.{
  at_time, valid_name, session_name, session_of-name, Distinct, insert-Distinct, remove-Distinct,
  kept-Distinct, kept-valid,
}
use registry_ui_go.Http.{Method}

-- What happens to the session store: a login, a request whose cookie is read, a logout, a round of
-- the clean-up, and the passing of time.
pub data Event : Type 0 where
  login : Request → Draws → Text → Event
  request : Request → Event
  logout : Request → Event
  cleanup : Event
  wait : ℕ → Event

unfoldable pub happen : Event → Web → Web
happen (login r draws username) w = (create_session r draws username w).1
happen (request r) w = (get_session r w).1
happen (logout r) w = (handle_logout (record r { method = Method.post }) w).1
happen cleanup w = (cleanup_sessions w).1
happen (wait n) w = at_time (w.db.now + n) w

unfoldable pub happen_all : List Event → Web → Web
happen_all [] w = w
happen_all (e ∷ events) w = happen_all events (happen e w)

-- A ledger: the time, and the last entry for each cookie.
abbrev pub Ledger : Type 0
Ledger = ℕ × (Text → Option Session)

abbrev pub without_cookie : Option Text → (Text → Option Session) → Text → Option Session
without_cookie none f id = f id
without_cookie (some gone) f id = if gone == id then none else f id

abbrev pub note : Event → Ledger → Ledger
note (login r draws username) (now, f) =
    (now, λ id. if draws.session_id == id then some (new_session username now) else f id)
note (request r) l = l
note (logout r) (now, f) = (now, without_cookie r.session_cookie f)
note cleanup l = l
note (wait n) (now, f) = (now + n, f)

abbrev pub note_all : List Event → Ledger → Ledger
note_all [] l = l
note_all (e ∷ events) l = note_all events (note e l)

-- The store and the ledger tell the same names, now and later.
pub record Agrees (w : Web) (l : Ledger) : Type 0 where
  pub distinct : Distinct w.sessions
  pub same_time : w.db.now ≡ l.0
  pub same_names :
      (later : ℕ) (id : Text)
      → l.0 ≤ later
      → valid_name later (lookup id w.sessions) ≡ valid_name later (l.1 id)

valid_name-if :
    (later : ℕ) (b : Bool) (o p q : Option Session)
    → valid_name later p ≡ valid_name later q
    → valid_name later (if b then o else p) ≡ valid_name later (if b then o else q)
valid_name-if later true o p q h = refl
valid_name-if later false o p q h = h

expired_name :
    (later now : ℕ) (s : Session)
    → now ≤ later
    → is_expired now s ≡ true
    → valid_name later (some s) ≡ []
expired_name later now s le over = ground arith

lookup-removed_other :
    (gone id : Text) (m : List (Text × Session))
    → text_eq gone id ≡ false
    → lookup id (remove_key gone m) ≡ lookup id m
lookup-removed_other gone id m other = lookup-remove_key gone id m ∙ rw other refl

lookup-removed_same :
    (gone id : Text) (m : List (Text × Session))
    → text_eq gone id ≡ true
    → lookup id (remove_key gone m) ≡ none
lookup-removed_same gone id m same = lookup-remove_key gone id m ∙ rw same refl

-- Removing an expired entry takes no name away.
forget_expired :
    (later now : ℕ) (gone id : Text) (s : Session) (m : List (Text × Session))
    → now ≤ later
    → lookup gone m ≡ some s
    → is_expired now s ≡ true
    → valid_name later (lookup id (remove_key gone m)) ≡ valid_name later (lookup id m)
forget_expired later now gone id s m le entry over = elim (Bool-cases (text_eq gone id)) [
  | inr other ↦ ap (valid_name later) (lookup-removed_other gone id m other)
  | inl same ↦
      ap (valid_name later) (lookup-removed_same gone id m same)
      ∙ sym (
          ap (λ i. valid_name later (lookup i m)) (sym ((text_eq_iff gone id).0 same))
          ∙ ap (valid_name later) entry
          ∙ expired_name later now s le over)
]

live_session-Agrees :
    (id : Text) (o : Option Session) (w : Web) (l : Ledger)
    → lookup id w.sessions ≡ o
    → Agrees w l
    → Agrees (live_session id o w).1 l
unfolding live_session forget_session
live_session-Agrees id none w l entry a = a
live_session-Agrees id (some s) w l entry a = elim (Bool-cases (is_expired w.db.now s)) [
  | inr live ↦ rw live a
  | inl over ↦ rw over record {
    distinct = remove-Distinct id w.sessions a.distinct;
    same_time = a.same_time;
    same_names = λ later other le.
        forget_expired later w.db.now id other s w.sessions (omega (arith, a.same_time)) entry over
        ∙ a.same_names later other le;
  }
]

session_of-Agrees :
    (o : Option Text) (w : Web) (l : Ledger) → Agrees w l → Agrees (session_of o w).1 l
unfolding session_of
session_of-Agrees none w l a = a
session_of-Agrees (some id) w l a = live_session-Agrees id (lookup id w.sessions) w l refl a

login-Agrees :
    (r : Request) (draws : Draws) (username : Text) (w : Web) (l : Ledger)
    → Agrees w l
    → Agrees (create_session r draws username w).1 (note (login r draws username) l)
unfolding create_session store_session set_csrf_cookie
login-Agrees r draws username w l a = record {
  distinct = insert-Distinct draws.session_id (new_session username w.db.now) w.sessions a.distinct;
  same_time = a.same_time;
  same_names = λ later id le.
      ap (valid_name later)
        (lookup-insert draws.session_id id (new_session username w.db.now) w.sessions)
      ∙ ap
          (λ now. valid_name later (
            if draws.session_id == id
            then some (new_session username now)
            else lookup id w.sessions))
          a.same_time
      ∙ valid_name-if later (draws.session_id == id) (some (new_session username l.0))
          (lookup id w.sessions) (l.1 id) (a.same_names later id le);
}

forget_cookie-Agrees :
    (o : Option Text) (w : Web) (l : Ledger)
    → Agrees w l
    → Agrees (forget_cookie o w).1 (l.0, without_cookie o l.1)
unfolding forget_cookie forget_session
forget_cookie-Agrees none w l a = record {
  distinct = a.distinct;
  same_time = a.same_time;
  same_names = a.same_names;
}
forget_cookie-Agrees (some gone) w l a = record {
  distinct = remove-Distinct gone w.sessions a.distinct;
  same_time = a.same_time;
  same_names = λ later id le.
      ap (valid_name later) (lookup-remove_key gone id w.sessions)
      ∙ valid_name-if later (gone == id) none (lookup id w.sessions) (l.1 id)
          (a.same_names later id le);
}

cleanup-Agrees : (w : Web) (l : Ledger) → Agrees w l → Agrees (cleanup_sessions w).1 l
unfolding cleanup_sessions
cleanup-Agrees w l a = record {
  distinct = kept-Distinct w.db.now w.sessions a.distinct;
  same_time = a.same_time;
  same_names = λ later id le.
      kept-valid w.db.now later id w.sessions (omega (arith, a.same_time)) a.distinct
      ∙ a.same_names later id le;
}

happen-Agrees : (e : Event) (w : Web) (l : Ledger) → Agrees w l → Agrees (happen e w) (note e l)
unfolding happen get_session handle_logout clear_session
happen-Agrees (login r draws username) w l a = login-Agrees r draws username w l a
happen-Agrees (request r) w l a = session_of-Agrees r.session_cookie w l a
happen-Agrees (logout r) w l a =
    let b = forget_cookie-Agrees r.session_cookie w l a in
    record { distinct = b.distinct; same_time = b.same_time; same_names = b.same_names }
happen-Agrees cleanup w l a = cleanup-Agrees w l a
happen-Agrees (wait n) w l a = record {
  distinct = a.distinct;
  same_time = ap (λ t. t + n) a.same_time;
  same_names = λ later id le. a.same_names later id (omega arith);
}

happen_all-Agrees :
    (events : List Event) (w : Web) (l : Ledger)
    → Agrees w l
    → Agrees (happen_all events w) (note_all events l)
unfolding happen_all
happen_all-Agrees [] w l a = a
happen_all-Agrees (e ∷ events) w l a =
    happen_all-Agrees events (happen e w) (note e l) (happen-Agrees e w l a)

-- After any sequence of logins, requests, logouts, rounds of the clean-up and waiting, which starts
-- with no session, a cookie gives the name of its last login, unless a logout came after it or seven
-- days have passed: the clean-up and the removal of expired entries are never seen.
pub get_session-happen_all :
    (events : List Event) (w : Web) (r : Request) (id : Text)
    → w.sessions ≡ []
    → r.session_cookie ≡ some id
    → let l = note_all events (w.db.now, λ _. none) in
      (get_session r (happen_all events w)).0 ≡ valid_name l.0 (l.1 id)
unfolding get_session lookup
get_session-happen_all events w r id empty cookie =
    let l = note_all events (w.db.now, λ _. none) in
    let a =
      happen_all-Agrees events w (w.db.now, λ _. none)
        (record {
          distinct = rw empty tt;
          same_time = refl;
          same_names = λ later other le. rw empty refl;
        }) in
    session_of-name r.session_cookie (happen_all events w)
    ∙ ap (λ o. session_name o (happen_all events w)) cookie
    ∙ ap (λ t. valid_name t (lookup id (happen_all events w).sessions)) a.same_time
    ∙ a.same_names l.0 id (omega arith)
