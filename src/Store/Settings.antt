-- ===== src/Store/Settings.antt =====
-- store.go: the settings table behind an in-process cache, and the reading of typed values.
pub mod Cache
pub mod Bounds
mod Tests
use registry_ui_go.Base.{
  ℕ, zero, suc, ◌+◌, Bool, true, false, Option, none, some, List, [], ◌∷◌, if◌then◌else◌, Text,
  codes, ◌==◌, text_eq_instance, ◌||◌, ◌&&◌, not, lookup, insert, is_empty, trim_space, to_lower,
  atoi, ltz, ℤ, pos, contains, remove_key,
}
use registry_ui_go.Store.{Db, Result, ok, err, invalid_setting}
use registry_ui_go.Store.Run.{M, execute, statement, query, on, pure, ◌>>=◌}

-- numericSettingBounds: the least and the greatest value
unfoldable pub numeric_setting_bounds : Text → Option (ℕ × ℕ)
numeric_setting_bounds key =
    if key == codes "recycleGCDays"
    then some (0, 3650)
    else if key == codes "pageSize"
    then some (1, 1000)
    else if key == codes "retention_keep_count"
    then some (0, 100000)
    else none

unfoldable pub within : ℕ × ℕ → Option ℤ → Bool
within (least, greatest) none = false
within (least, greatest) (some n) = not (ltz n (pos least)) && not (ltz (pos greatest) n)

-- validateSettingValue: whether it returns nil
unfoldable pub valid_setting_value : Text → Text → Bool
valid_setting_value key value = elim (numeric_setting_bounds key) [
  | none ↦ true
  | some bounds ↦ within bounds (atoi (trim_space value))
]

unfoldable pub forget_setting : Text → M (Result (Unit {0}))
forget_setting key =
    execute λ d. record d { settings = remove_key key d.settings; cache = remove_key key d.cache }

unfoldable pub store_setting : Text → Text → M (Result (Unit {0}))
store_setting key value =
    execute
      λ d. record d { settings = insert key value d.settings; cache = insert key value d.cache }

-- SetSetting: an empty value deletes the key.
unfoldable pub set_setting : Text → Text → M (Result (Unit {0}))
set_setting key value =
    if is_empty value
    then forget_setting key
    else if valid_setting_value key value
    then store_setting key value
    else pure (err invalid_setting)

-- The value of a row, "" for no row.
abbrev pub or_empty : Option Text → Text
or_empty none = []
or_empty (some v) = v

-- The query of GetSetting: what it reads, an absence included, goes into the cache.
unfoldable pub load_setting : Text → M (Result Text)
load_setting key = statement λ d.
    let v = or_empty (lookup key d.settings) in ok (v, record d { cache = insert key v d.cache })

unfoldable pub cached : Option Text → Text → M (Result Text)
cached (some v) key d = (ok v, d)
cached none key d = load_setting key d

unfoldable pub get_setting : Text → M (Result Text)
get_setting key d = cached (lookup key d.cache) key d

-- `v, _ := s.GetSetting(…)`
abbrev pub text_of : Result Text → Text
text_of (ok v) = v
text_of (err e) = []

abbrev pub int_or : ℤ → Option ℤ → ℤ
int_or def none = def
int_or def (some n) = n

unfoldable pub int_value : ℤ → Text → ℤ
int_value def v = if is_empty v then def else int_or def (atoi v)

unfoldable pub get_setting_int : Text → ℤ → M ℤ
get_setting_int key def = get_setting key >>= (λ r. pure (int_value def (text_of r)))

abbrev pub truthy : List Text
truthy = codes "true" ∷ codes "1" ∷ codes "yes" ∷ codes "on" ∷ []

abbrev pub falsy : List Text
falsy = codes "false" ∷ codes "0" ∷ codes "no" ∷ codes "off" ∷ []

unfoldable pub bool_value : Bool → Text → Bool
bool_value def v =
    if contains truthy (to_lower (trim_space v))
    then true
    else if contains falsy (to_lower (trim_space v))
    then false
    else def

unfoldable pub get_setting_bool : Text → Bool → M Bool
get_setting_bool key def = get_setting key >>= (λ r. pure (bool_value def (text_of r)))
