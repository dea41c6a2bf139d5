-- ===== src/Policy/Saving.antt =====
-- What saving a field of the policy does to a row's column and to the setting.
use registry_ui_go.Base.{
  ℕ, ◌≡◌, refl, ◌∙◌, ◌⊎◌, inl, inr, Bool, true, false, Option, none, some, List, [], ◌∷◌, Text,
  arith, Bool-cases, find, update, any, is_empty, lookup, text_eq_instance, nat_eq_instance,
}
use registry_ui_go.Store.{Db, Repository, Namespace}
use registry_ui_go.Store.Run.{on, tick}
use registry_ui_go.Store.Settings.{
  set_setting, or_empty, valid_setting_value, forget_setting, store_setting,
}
use registry_ui_go.Store.Settings.Cache.{Coherent, set_setting-Coherent}
use registry_ui_go.Store.Repositories.{is_repo, in_namespace, set_column}
use registry_ui_go.Policy.{save_field}

-- No statement fails, and the cache of the settings agrees with the table.
pub record Good (d : Db) : Type 0 where
  pub works : (n : ℕ) → d.fails n ≡ false
  pub coherent : Coherent d

abbrev pub flat : (Repository → Option ℕ) → Option Repository → Option ℕ
flat col none = none
flat col (some r) = col r

-- The number in the column of the row that a split name has.
abbrev pub code_at : (Repository → Option ℕ) → Text × Option Text → Db → Option ℕ
code_at col (ns, none) d = none
code_at col (ns, some repo) d = flat col (find (is_repo d ns repo) d.repositories)

abbrev pub setting_at : Text → Db → Text
setting_at key d = or_empty (lookup key d.settings)

-- The field reads as the code c, or as the text v where there is no row for it.
abbrev pub Shows : (Repository → Option ℕ) → Text → Text × Option Text → ℕ → Text → Db → Type 0
Shows col key p c v d =
    (code_at col p d ≡ some c) ⊎ ((code_at col p d ≡ none) × (setting_at key d ≡ v))

-- An update of the rows that keeps the names, and the column `col`.
pub record Spares (f : Repository → Repository) (col : Repository → Option ℕ) : Type 0 where
  pub same_namespace : (r : Repository) → (f r).namespace_id ≡ r.namespace_id
  pub same_name : (r : Repository) → (f r).name ≡ r.name
  pub same_column : (r : Repository) → col (f r) ≡ col r

abbrev pub with_rows : Text → Text → (Repository → Repository) → Db → Db
with_rows ns repo f d = record (tick d) {
  repositories = update (is_repo d ns repo) f d.repositories;
}

pub is_repo-f :
    (f : Repository → Repository) (col : Repository → Option ℕ) (n : Option Namespace) (repo : Text)
    (r : Repository)
    → Spares f col
    → in_namespace n repo (f r) ≡ in_namespace n repo r
is_repo-f f col none repo r s = refl
is_repo-f f col (some n) repo r s = rw (s.same_namespace r, s.same_name r)

pub find-update :
    (f : Repository → Repository) (col : Repository → Option ℕ) (p q : Repository → Bool)
    (rows : List Repository)
    → ((r : Repository) → p (f r) ≡ p r)
    → ((r : Repository) → col (f r) ≡ col r)
    → flat col (find p (update q f rows)) ≡ flat col (find p rows)
unfolding find update
find-update f col p q [] h k = refl
find-update f col p q (r ∷ rows) h k = ground (arith, h r, k r, find-update f col p q rows h k)

pub find_updated :
    (f : Repository → Repository) (col : Repository → Option ℕ) (c : ℕ) (q : Repository → Bool)
    (rows : List Repository)
    → ((r : Repository) → q (f r) ≡ q r)
    → ((r : Repository) → col (f r) ≡ some c)
    → any q rows ≡ true
    → flat col (find q (update q f rows)) ≡ some c
unfolding find update any
find_updated f col c q [] h k e = cc
find_updated f col c q (r ∷ rows) h k e = ground (arith, h r, k r, find_updated f col c q rows h k)

pub find_missing :
    (col : Repository → Option ℕ) (q : Repository → Bool) (rows : List Repository)
    → any q rows ≡ false
    → flat col (find q rows) ≡ none
unfolding find any
find_missing col q [] e = refl
find_missing col q (r ∷ rows) e = ground (arith, find_missing col q rows)

-- set_setting leaves the rows.
pub code_at-set_setting :
    (col : Repository → Option ℕ) (p : Text × Option Text) (key value : Text) (d : Db)
    → code_at col p (set_setting key value d).1 ≡ code_at col p d
unfolding set_setting forget_setting store_setting
code_at-set_setting col (ns, none) key value d = refl
code_at-set_setting col (ns, some repo) key value d = elim (Bool-cases (is_empty value)) [
  | inl e ↦ rw e (elim (Bool-cases (d.fails d.clock)) [ inl b ↦ rw b refl | inr w ↦ rw w refl ])
  | inr n ↦ rw n (elim (Bool-cases (valid_setting_value key value)) [
    | inr i ↦ rw i refl
    | inl v ↦ rw v (elim (Bool-cases (d.fails d.clock)) [ inl b ↦ rw b refl | inr w ↦ rw w refl ])
  ])
]

set_setting_fails :
    (key value : Text) (d : Db) → (n : ℕ) → (set_setting key value d).1.fails n ≡ d.fails n
unfolding set_setting forget_setting store_setting
set_setting_fails key value d n = elim (Bool-cases (is_empty value)) [
  | inl e ↦ rw e (elim (Bool-cases (d.fails d.clock)) [ inl b ↦ rw b refl | inr w ↦ rw w refl ])
  | inr m ↦ rw m (elim (Bool-cases (valid_setting_value key value)) [
    | inr i ↦ rw i refl
    | inl v ↦ rw v (elim (Bool-cases (d.fails d.clock)) [ inl b ↦ rw b refl | inr w ↦ rw w refl ])
  ])
]

pub set_setting-Good : (key value : Text) (d : Db) → Good d → Good (set_setting key value d).1
set_setting-Good key value d g = record {
  works = λ n. set_setting_fails key value d n ∙ g.works n;
  coherent = (set_setting-Coherent key value).at d g.coherent;
}

-- What holds in each of the three ways that save_field goes holds after it.
pub save_field_rule :
    (P : Db → Type 0) (f : Repository → Repository) (key value : Text) (p : Text × Option Text)
    (d : Db)
    → Good d
    → ((ns repo : Text)
        → p ≡ (ns, some repo)
        → any (is_repo d ns repo) d.repositories ≡ true
        → P (set_setting key [] (with_rows ns repo f d)).1)
    → ((ns repo : Text)
        → p ≡ (ns, some repo)
        → any (is_repo d ns repo) d.repositories ≡ false
        → P (set_setting key value (tick d)).1)
    → ((ns : Text) → p ≡ (ns, none) → P (set_setting key value d).1)
    → P (save_field (λ ns repo. set_column ns repo f) key value p d).1
unfolding save_field on set_column
save_field_rule P f key value (ns, none) d g row no_row single = single ns refl
save_field_rule P f key value (ns, some repo) d g row no_row single =
    rw (g.works d.clock) (elim (Bool-cases (any (is_repo d ns repo) d.repositories)) [
      | inl there ↦ rw there (row ns repo refl there)
      | inr missing ↦ rw missing (no_row ns repo refl missing)
    ])
