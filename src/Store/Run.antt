-- ===== src/Store/Run.antt =====
-- Running statements one after another, and the rules by which properties of such runs are proved.
use registry_ui_go.Base.{
  ◌+◌, ◌≡◌, refl, Bool, true, false, Option, none, some, [], ◌∷◌, ◌++◌, if◌then◌else◌, if_cases,
}
use registry_ui_go.Store.{Db, DbError, io, no_rows, Result, ok, err, Audit}

-- A piece of a handler: a value, and the database that it leaves.
abbrev pub M {ℓ} : Type ℓ → Type ℓ
M A = Db → A × Db

abbrev pub tick : Db → Db
tick d = record d { clock = d.clock + 1 }

abbrev pub settle {ℓ} : {A : Type ℓ} → Db → Result (A × Db) → Result A × Db
settle d (ok (a, d')) = (ok a, d')
settle d (err e) = (err e, d)

-- One statement, given by what it does where it does not fail.
abbrev pub statement {ℓ} : {A : Type ℓ} → (Db → Result (A × Db)) → M (Result A)
statement f d = if d.fails d.clock then (err io, tick d) else settle (tick d) (f (tick d))

-- A statement that only reads.
abbrev pub query {ℓ} : {A : Type ℓ} → (Db → Result A) → M (Result A)
query f d = if d.fails d.clock then (err io, tick d) else (f (tick d), tick d)

-- A statement that only writes.
abbrev pub execute : (Db → Db) → M (Result (Unit {0}))
execute f d = if d.fails d.clock then (err io, tick d) else (ok tt, f (tick d))

-- The row that a query finds.
abbrev pub row {ℓ} : {A : Type ℓ} → Option A → Result A
row none = err no_rows
row (some a) = ok a

module _ {ℓ} {A : Type ℓ} where
  -- A query that answers found what it answers, and changes nothing but the clock.
  pub query_ok : (f : Db → Result A) (d : Db) (a : A) → (query f d).0 ≡ ok a → f (tick d) ≡ ok a
  query_ok f d a =
      if_cases (λ (r : Result A × Db). r.0 ≡ ok a → f (tick d) ≡ ok a) (d.fails d.clock)
        (err io, tick d) (f (tick d), tick d) (λ _ e. cc) (λ _ e. e)

  pub query-tick : (f : Db → Result A) (d : Db) → (query f d).1 ≡ tick d
  query-tick f d =
      if_cases (λ (r : Result A × Db). r.1 ≡ tick d) (d.fails d.clock) (err io, tick d)
        (f (tick d), tick d) (λ _. refl) (λ _. refl)

  pub row_ok : (o : Option A) (a : A) → row o ≡ ok a → o ≡ some a
  row_ok none a e = cc
  row_ok (some b) a e = cc

abbrev pub pure {ℓ} : {A : Type ℓ} → A → M A
pure a d = (a, d)

infixl 5 ◌>>=◌ ◌>>◌
abbrev pub ◌>>=◌ {ℓ κ} : {A : Type ℓ} {B : Type κ} → M A → (A → M B) → M B
◌>>=◌ m k d = k (m d).0 (m d).1

abbrev pub ◌>>◌ {ℓ κ} : {A : Type ℓ} {B : Type κ} → M A → M B → M B
◌>>◌ m k d = k (m d).1

abbrev pub branch {ℓ κ} : {A : Type ℓ} {B : Type κ} → Result A → (DbError → M B) → (A → M B) → M B
branch (ok a) fail k = k a
branch (err e) fail k = fail e

-- `if err != nil { … return }`, then the rest of the handler.
unfoldable pub on {ℓ κ} :
    {A : Type ℓ} {B : Type κ} → M (Result A) → (DbError → M B) → (A → M B) → M B
on m fail k d = branch (m d).0 fail k (m d).1

module _ {ℓ κ} {A : Type ℓ} {B : Type κ} where
  -- What holds after the error path and after the rest of the handler holds after both.
  pub on_rule {τ} :
      (P : B × Db → Type τ) (m : M (Result A)) (fail : DbError → M B) (k : A → M B) (d : Db)
      → ((e : DbError) → (m d).0 ≡ err e → P (fail e (m d).1))
      → ((a : A) → (m d).0 ≡ ok a → P (k a (m d).1))
      → P (on m fail k d)
  unfolding on
  on_rule P m fail k d h g = cases (m d).0 h g
    where
      cases :
          (r : Result A)
          → ((e : DbError) → r ≡ err e → P (fail e (m d).1))
          → ((a : A) → r ≡ ok a → P (k a (m d).1))
          → P (branch r fail k (m d).1)
      cases (ok a) h g = g a refl
      cases (err e) h g = h e refl

-- A predicate on the database that a piece of a handler keeps.
pub record Keeps {ℓ κ} {A : Type ℓ} (P : Db → Type κ) (m : M A) : Type (ℓ ⊔ κ) where
  pub at : (d : Db) → P d → P (m d).1

module _ {κ} (P : Db → Type κ) where
  pub Keeps-pure {ℓ} : {A : Type ℓ} (a : A) → Keeps P (pure a)
  Keeps-pure a = record { at = λ d h. h }

  pub Keeps-bind {ℓ τ} :
      {A : Type ℓ} {B : Type τ} (m : M A) (k : A → M B)
      → Keeps P m
      → ((a : A) → Keeps P (k a))
      → Keeps P (m >>= k)
  Keeps-bind m k h g = record { at = λ d p. (g (m d).0).at (m d).1 (h.at d p) }

  pub Keeps-then {ℓ τ} :
      {A : Type ℓ} {B : Type τ} (m : M A) (k : M B) → Keeps P m → Keeps P k → Keeps P (m >> k)
  Keeps-then m k h g = record { at = λ d p. g.at (m d).1 (h.at d p) }

  pub Keeps-on {ℓ τ} :
      {A : Type ℓ} {B : Type τ} (m : M (Result A)) (fail : DbError → M B) (k : A → M B)
      → Keeps P m
      → ((e : DbError) → Keeps P (fail e))
      → ((a : A) → Keeps P (k a))
      → Keeps P (on m fail k)
  Keeps-on m fail k h f g = record {
    at = λ d p.
        on_rule (λ r. P r.1) m fail k d (λ e _. (f e).at (m d).1 (h.at d p))
          (λ a _. (g a).at (m d).1 (h.at d p));
  }

  -- A query keeps what the clock does not touch; a statement that only writes, what its write keeps.
  module _ (ticks : (d : Db) → P d → P (tick d)) where
    pub Keeps-query {ℓ} : {A : Type ℓ} (f : Db → Result A) → Keeps P (query f)
    Keeps-query f = record { at = λ d h. rw (query-tick f d) (ticks d h) }

    pub Keeps-execute : (f : Db → Db) → ((d : Db) → P d → P (f d)) → Keeps P (execute f)
    Keeps-execute f keeps = record {
      at = λ d h.
          if_cases (λ (r : Result (Unit {0}) × Db). P r.1) (d.fails d.clock) (err io, tick d)
            (ok tt, f (tick d)) (λ _. ticks d h) (λ _. keeps (tick d) (ticks d h));
    }

  pub Keeps-if {ℓ} :
      {A : Type ℓ} (b : Bool) (m k : M A) → Keeps P m → Keeps P k → Keeps P (if b then m else k)
  Keeps-if true m k h g = h
  Keeps-if false m k h g = g

-- The same at one database, with what the test or the statement told.
module _ {κ ℓ} {B : Type ℓ} (P : Db → Type κ) where
  pub after_if :
      (b : Bool) (m k : M B) (d : Db)
      → (b ≡ true → P (m d).1)
      → (b ≡ false → P (k d).1)
      → P ((if b then m else k) d).1
  after_if true m k d h g = h refl
  after_if false m k d h g = g refl

  pub after_on {τ} :
      {A : Type τ} (m : M (Result A)) (fail : DbError → M B) (k : A → M B) (d : Db)
      → ((e : DbError) → (m d).0 ≡ err e → P (fail e (m d).1).1)
      → ((a : A) → (m d).0 ≡ ok a → P (k a (m d).1).1)
      → P (on m fail k d).1
  after_on m fail k d h g = on_rule (λ r. P r.1) m fail k d h g

-- AddAudit, whose error every caller drops.
unfoldable pub add_audit : Audit → M (Result (Unit {0}))
add_audit a = execute (λ d. record d { audit_logs = d.audit_logs ++ a ∷ [] })
