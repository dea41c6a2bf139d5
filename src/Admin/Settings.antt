-- ===== src/Admin/Settings.antt =====
-- admin.go: handleSettings, over the settings of the store. The order in which Go ranges over the
-- decoded body is the order of the list.
pub mod Whitelist
use registry_ui_go.Base.{
  Bool, true, false, Option, none, some, List, [], ◌∷◌, ◌++◌, if◌then◌else◌, Text, codes, ◌==◌,
  text_eq_instance, ◌&&◌, not, contains, lookup, map, Option-cases, insert,
}
use registry_ui_go.Store.{Db, DbError, io, invalid_setting, no_rows, User, Result, ok}
use registry_ui_go.Store.Run.{M, statement, on, pure, ◌>>=◌}
use registry_ui_go.Store.Settings.{set_setting}
use registry_ui_go.Http.{
  Method, Response, reply, answer, method_not_allowed, forbidden, write_error,
}

-- DefaultSettings
abbrev pub default_settings : List (Text × Text)
default_settings =
    (codes "theme", codes "light")
    ∷ (codes "language", codes "zh")
    ∷ (codes "appLogo", codes "RU")
    ∷ (codes "appTitle", codes "Registry UI")
    ∷ (codes "appSubtitle", [])
    ∷ (codes "pageSize", codes "100")
    ∷ (codes "showAudit", codes "true")
    ∷ (codes "tls_enabled", codes "false")
    ∷ (codes "recycleGCDays", codes "30")
    ∷ (codes "protection_mode", codes "rules")
    ∷ (codes "overwrite_action", codes "recycle")
    ∷ (codes "retention_keep_count", codes "0")
    ∷ (codes "allow_anonymous_pull", codes "false")
    ∷ (codes "push_create_repo", codes "true")
    ∷ []

-- settableSettings
abbrev pub settable_settings : List Text
settable_settings =
    codes "theme"
    ∷ codes "language"
    ∷ codes "appLogo"
    ∷ codes "appTitle"
    ∷ codes "appSubtitle"
    ∷ codes "pageSize"
    ∷ codes "showAudit"
    ∷ codes "tls_enabled"
    ∷ codes "recycleGCDays"
    ∷ codes "protection_mode"
    ∷ codes "overwrite_action"
    ∷ codes "retention_keep_count"
    ∷ codes "allow_anonymous_pull"
    ∷ codes "push_create_repo"
    ∷ []

-- The cache after Settings: every row that was read is put into it.
unfoldable pub seeded : List (Text × Text) → List (Text × Text) → List (Text × Text)
seeded [] cache = cache
seeded ((key, value) ∷ rows) cache = seeded rows (insert key value cache)

unfoldable pub settings : M (Result (List (Text × Text)))
settings = statement (λ d. ok (d.settings, record d { cache = seeded d.settings d.cache }))

unfoldable pub unless_stored : Option Text → Text × Text → List (Text × Text) → List (Text × Text)
unless_stored (some value) entry shown = shown
unless_stored none entry shown = shown ++ entry ∷ []

-- The loop that fills in the defaults.
unfoldable pub with_defaults : List (Text × Text) → List (Text × Text) → List (Text × Text)
with_defaults [] shown = shown
with_defaults ((key, value) ∷ defaults) shown =
    with_defaults defaults (unless_stored (lookup key shown) (key, value) shown)

abbrev pub setting_failed : DbError → M Response
setting_failed invalid_setting = answer 400 (codes "invalid setting")
setting_failed _ = write_error 500

-- The loop over the body: it stops at the first key that is not settable or whose write fails, and
-- what was written before stays.
unfoldable pub set_settings : List (Text × Text) → M Response
set_settings [] = answer 200 []
set_settings ((key, value) ∷ rest) =
    if contains settable_settings key
    then on (set_setting key value) setting_failed (λ _. set_settings rest)
    else answer 400 (codes "unknown or protected setting")

abbrev pub is_turned_away : Option User → Bool
is_turned_away none = false
is_turned_away (some u) = not u.is_admin

unfoldable pub put_settings : Option User → List (Text × Text) → M Response
put_settings user body = if is_turned_away user then forbidden else set_settings body

-- handleSettings: the answer, and the settings that it shows
unfoldable pub handle_settings :
    Method → Option User → List (Text × Text) → M (Response × List (Text × Text))
handle_settings Method.get user body =
    on settings (λ _. pure (reply 500 (codes "error"), []))
      (λ stored. pure (reply 200 [], with_defaults default_settings stored))
handle_settings Method.put user body = put_settings user body >>= (λ response. pure (response, []))
handle_settings _ user body = pure (reply 405 (codes "method not allowed"), [])
