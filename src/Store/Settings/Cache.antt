-- ===== src/Store/Settings/Cache.antt =====
-- The cache of the settings shows what the table holds.
use registry_ui_go.Base.{
  ℕ, ◌≡◌, refl, ◌⊎◌, inl, inr, true, false, Option, none, some, List, [], ◌∷◌, Text, arith,
  Bool-cases, Option-cases, lookup, insert, remove_key, lookup-insert, lookup-remove_key,
  text_eq_instance, text_eq, text_eq_iff, if◌then◌else◌, is_empty,
}
use registry_ui_go.Store.{Db, ok}
use registry_ui_go.Store.Run.{Keeps}
use registry_ui_go.Store.Settings.{
  set_setting, get_setting, cached, forget_setting, store_setting, load_setting, or_empty,
  valid_setting_value,
}

abbrev Agrees : Option Text → Option Text → Type 0
Agrees none row = Unit
Agrees (some v) row = v ≡ or_empty row

-- Whatever the cache holds for a key is the value of the key's row, or "" for no row.
pub record Coherent (d : Db) : Type 0 where
  pub at_key : (key : Text) → Agrees (lookup key d.cache) (lookup key d.settings)

Agrees-insert :
    (key v : Text) (settings cache : List (Text × Text))
    → ((j : Text) → Agrees (lookup j cache) (lookup j settings))
    → (j : Text) → Agrees (lookup j (insert key v cache)) (lookup j (insert key v settings))
Agrees-insert key v settings cache h j =
    rw (lookup-insert key j v cache, lookup-insert key j v settings)
      (elim (Bool-cases (text_eq key j)) [ inl e ↦ rw e refl | inr n ↦ rw n (h j) ])

Agrees-remove :
    (key : Text) (settings cache : List (Text × Text))
    → ((j : Text) → Agrees (lookup j cache) (lookup j settings))
    → (j : Text) → Agrees (lookup j (remove_key key cache)) (lookup j (remove_key key settings))
Agrees-remove key settings cache h j =
    rw (lookup-remove_key key j cache, lookup-remove_key key j settings)
      (elim (Bool-cases (text_eq key j)) [ inl e ↦ rw e tt | inr n ↦ rw n (h j) ])

Agrees-load :
    (key : Text) (settings cache : List (Text × Text))
    → ((j : Text) → Agrees (lookup j cache) (lookup j settings))
    → (j : Text)
    → Agrees (lookup j (insert key (or_empty (lookup key settings)) cache)) (lookup j settings)
Agrees-load key settings cache h j =
    rw (lookup-insert key j (or_empty (lookup key settings)) cache)
      (elim (Bool-cases (text_eq key j)) [
        | inl e ↦ rw e (rw ((text_eq_iff key j).0 e) refl)
        | inr n ↦ rw n (h j)
      ])

load_setting-Coherent : (key : Text) → Keeps Coherent (load_setting key)
unfolding load_setting
load_setting-Coherent key = record {
  at = λ d h. elim (Bool-cases (d.fails d.clock)) [
    | inl broken ↦ rw broken (record { at_key = h.at_key })
    | inr works ↦ rw works (record { at_key = Agrees-load key d.settings d.cache h.at_key })
  ];
}

pub get_setting-Coherent : (key : Text) → Keeps Coherent (get_setting key)
unfolding get_setting cached
get_setting-Coherent key = record {
  at = λ d h. elim (Option-cases (lookup key d.cache)) [
    | inl missing ↦ rw missing ((load_setting-Coherent key).at d h)
    | inr (v, found) ↦ rw found h
  ];
}

pub set_setting-Coherent : (key value : Text) → Keeps Coherent (set_setting key value)
unfolding set_setting forget_setting store_setting
set_setting-Coherent key value = record {
  at = λ d h. elim (Bool-cases (is_empty value)) [
    | inl e ↦ rw e (elim (Bool-cases (d.fails d.clock)) [
      | inl broken ↦ rw broken (record { at_key = h.at_key })
      | inr works ↦ rw works (record { at_key = Agrees-remove key d.settings d.cache h.at_key })
    ])
    | inr n ↦ rw n (elim (Bool-cases (valid_setting_value key value)) [
      | inr invalid ↦ rw invalid h
      | inl valid ↦ rw valid (elim (Bool-cases (d.fails d.clock)) [
        | inl broken ↦ rw broken (record { at_key = h.at_key })
        | inr works ↦
            rw works (record { at_key = Agrees-insert key value d.settings d.cache h.at_key })
      ])
    ])
  ];
}

-- Through the cache GetSetting reads the table, where its query works.
pub get_setting_lem :
    (key : Text) (d : Db)
    → Coherent d
    → d.fails d.clock ≡ false
    → (get_setting key d).0 ≡ ok (or_empty (lookup key d.settings))
unfolding get_setting cached load_setting
get_setting_lem key d h works = elim (Option-cases (lookup key d.cache)) [
  | inl missing ↦ rw missing (rw works)
  | inr (v, found) ↦ rw found (ground (arith, h.at_key key))
]

-- A value that deletes the setting, or one that is within the bounds of a numeric setting.
abbrev pub Acceptable : Text → Text → Type 0
Acceptable key value = (value ≡ []) ⊎ (valid_setting_value key value ≡ true)

pub set_setting_settings :
    (key value : Text) (d : Db) (j : Text)
    → d.fails d.clock ≡ false
    → Acceptable key value
    → or_empty (lookup j (set_setting key value d).1.settings)
      ≡ (if text_eq key j then value else or_empty (lookup j d.settings))
unfolding set_setting forget_setting store_setting
set_setting_settings key [] d j works valid =
    rw works (rw (lookup-remove_key key j d.settings) (ground arith))
set_setting_settings key (c ∷ v) d j works (inl e) = cc
set_setting_settings key (c ∷ v) d j works (inr valid) =
    rw (valid, works) (rw (lookup-insert key j (c ∷ v) d.settings) (ground arith))

still_works :
    (key value : Text) (d : Db)
    → ((n : ℕ) → d.fails n ≡ false)
    → (set_setting key value d).1.fails (set_setting key value d).1.clock ≡ false
unfolding set_setting forget_setting store_setting
still_works key value d works = elim (Bool-cases (is_empty value)) [
  | inl e ↦ rw e (rw (works d.clock) (works _))
  | inr n ↦ rw n (elim (Bool-cases (valid_setting_value key value)) [
    | inr invalid ↦ rw invalid (works _)
    | inl valid ↦ rw valid (rw (works d.clock) (works _))
  ])
]

-- A setting that is accepted is read back, and the other settings read as before: from a cache that
-- agrees with the table, with no failing statement, for a value that is within the bounds
-- of its setting, and for "" under every key, also the numeric ones, which deletes the setting.
pub get_setting-set_setting :
    (key value j : Text) (d : Db)
    → Coherent d
    → ((n : ℕ) → d.fails n ≡ false)
    → Acceptable key value
    → (get_setting j (set_setting key value d).1).0
      ≡ ok (if text_eq key j then value else or_empty (lookup j d.settings))
get_setting-set_setting key value j d h works valid =
    rw
      (get_setting_lem j _ ((set_setting-Coherent key value).at d h)
        (still_works key value d works))
      (rw (set_setting_settings key value d j (works d.clock) valid))
