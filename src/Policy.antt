-- ===== src/Policy.antt =====
-- server.go: the policy of a repository, in its row of the repositories table, in a setting of its
-- name, in the global setting, and by default, in this order.
pub mod Saving
pub mod Reading
pub mod Resolving
pub mod Keeping
pub mod RoundTrip
pub mod Unchanged
mod Tests
use registry_ui_go.Base.{
  ℕ, zero, suc, ◌+◌, Bool, true, false, Option, none, some, List, [], ◌∷◌, ◌++◌, if◌then◌else◌,
  Text, codes, ◌==◌, nat_eq_instance, text_eq_instance, ◌&&◌, not, is_empty, cut, atoi, itoa, ℤ,
  pos, negsuc, ltz,
}
use registry_ui_go.Store.{Db, DbError, Result, ok, err}
use registry_ui_go.Store.Run.{M, on, pure, ◌>>=◌, ◌>>◌}
use registry_ui_go.Store.Settings.{
  get_setting, get_setting_bool, get_setting_int, set_setting, text_of, int_or,
}
use registry_ui_go.Store.Repositories.{
  get_repo_protection_mode, get_repo_overwrite_action, get_repo_push_create,
  get_repo_retention_keep_count, is_repo_anonymous_pull_allowed, set_repository_protection_mode,
  set_repository_overwrite_action, set_repository_push_create, set_repository_retention_keep_count,
  set_repository_anonymous_pull,
}
use registry_ui_go.Http.{Method, Response, answer, method_not_allowed, write_error}

unfoldable pub protection_code_to_string : ℕ → Text
protection_code_to_string code =
    if code == 1 then codes "overwrite" else if code == 2 then codes "immutable" else codes "rules"

unfoldable pub protection_string_to_code : Text → Option ℕ
protection_string_to_code s =
    if s == codes "overwrite"
    then some 1
    else if s == codes "immutable"
    then some 2
    else if s == codes "rules"
    then some 0
    else none

unfoldable pub overwrite_code_to_string : ℕ → Text
overwrite_code_to_string code = if code == 1 then codes "keep" else codes "recycle"

unfoldable pub overwrite_string_to_code : Text → Option ℕ
overwrite_string_to_code s =
    if s == codes "keep" then some 1 else if s == codes "recycle" then some 0 else none

-- strings.SplitN(name, "/", 2)
abbrev pub parts : Text → Text × Option Text
parts name = cut b'/' name

-- `err == nil && code >= 0`
abbrev pub set_code : Result (Option ℕ) → Option ℕ
set_code (ok code) = code
set_code (err e) = none

-- The column of the repository's row, for a name with a slash.
unfoldable pub row_code : (Text → Text → M (Result (Option ℕ))) → Text × Option Text → M (Option ℕ)
row_code get (ns, none) = pure none
row_code get (ns, some repo) = get ns repo >>= (λ r. pure (set_code r))

unfoldable pub when_set : Text → (Text → M Text) → M Text → M Text
when_set v with_value rest = if is_empty v then rest else with_value v

-- The repository's own setting, the global one, the default.
unfoldable pub from_settings : Text → Text → Text → M Text
from_settings key name default = get_setting (key ++ b':' ∷ name) >>= λ own.
    when_set (text_of own) pure
      (get_setting key >>= λ global. when_set (text_of global) pure (pure default))

unfoldable pub code_or_settings : (ℕ → Text) → Text → Text → Text → Option ℕ → M Text
code_or_settings show key name default (some code) = pure (show code)
code_or_settings show key name default none = from_settings key name default

unfoldable pub resolve_protection_mode : Text → M Text
resolve_protection_mode name =
    row_code get_repo_protection_mode (parts name)
    >>= code_or_settings protection_code_to_string (codes "protection_mode") name (codes "rules")

unfoldable pub resolve_overwrite_action : Text → M Text
resolve_overwrite_action name =
    row_code get_repo_overwrite_action (parts name)
    >>= code_or_settings overwrite_code_to_string (codes "overwrite_action") name (codes "recycle")

-- The flag of the repository's own setting, or the global one.
unfoldable pub flag_or : Text → Text → Bool → M Bool
flag_or v key default =
    if is_empty v then get_setting_bool key default else pure (v == codes "true")

unfoldable pub push_create_from : Text → Option ℕ → M Bool
push_create_from name (some v) = pure (v == 1)
push_create_from name none =
    get_setting (codes "push_create_repo:" ++ name)
    >>= (λ own. flag_or (text_of own) (codes "push_create_repo") true)

unfoldable pub push_create_allowed : Text → M Bool
push_create_allowed name = row_code get_repo_push_create (parts name) >>= push_create_from name

abbrev pub found : Result Bool → Option Bool
found (ok b) = some b
found (err e) = none

unfoldable pub row_flag : Text × Option Text → M (Option Bool)
row_flag (ns, none) = pure none
row_flag (ns, some repo) = is_repo_anonymous_pull_allowed ns repo >>= (λ r. pure (found r))

unfoldable pub anonymous_from : Text → Option Bool → M Bool
anonymous_from name (some b) = pure b
anonymous_from name none =
    get_setting (codes "allow_anonymous_pull:" ++ name)
    >>= (λ own. flag_or (text_of own) (codes "allow_anonymous_pull") false)

unfoldable pub is_anonymous_pull_allowed : Text → M Bool
is_anonymous_pull_allowed name = row_flag (parts name) >>= anonymous_from name

-- A number that is not negative.
abbrev pub at_least_zero : ℤ → ℕ
at_least_zero (pos n) = n
at_least_zero (negsuc n) = 0

abbrev pub natural_text : Option ℤ → Option ℕ
natural_text (some (pos n)) = some n
natural_text _ = none

unfoldable pub own_keep_count : Option ℕ → M ℕ
own_keep_count (some n) = pure n
own_keep_count none =
    get_setting_int (codes "retention_keep_count") (pos 0) >>= (λ n. pure (at_least_zero n))

unfoldable pub keep_count_from : Text → Option ℕ → M ℕ
keep_count_from name (some n) = pure n
keep_count_from name none =
    get_setting (codes "retention_keep_count:" ++ name)
    >>= (λ own. own_keep_count (natural_text (atoi (text_of own))))

unfoldable pub repo_keep_count : Text → M ℕ
repo_keep_count name = row_code get_repo_retention_keep_count (parts name) >>= keep_count_from name

-- The decoded body of the PUT.
pub record PolicyRequest : Type 0 where
  pub protection_mode : Text
  pub overwrite_action : Text
  pub keep_count : ℤ
  pub anonymous_pull : Option Bool
  pub push_create_repo : Option Bool

-- A field goes to the row, and its old setting away; without a row it goes to the setting.
unfoldable pub save_field :
    (Text → Text → M (Result (Unit {0}))) → Text → Text → Text × Option Text → M (Result (Unit {0}))
save_field set key value (ns, none) = set_setting key value
save_field set key value (ns, some repo) =
    on (set ns repo) (λ _. set_setting key value) (λ _. set_setting key [])

abbrev pub code_or : ℕ → Option ℕ → ℕ
code_or default none = default
code_or default (some code) = code

abbrev pub bool_text : Bool → Text
bool_text true = codes "true"
bool_text false = codes "false"

-- The number for the column; a negative one is unset.
abbrev pub column_number : ℤ → Option ℕ
column_number (pos n) = some n
column_number (negsuc n) = none

-- The keep count of a name with a slash has no setting to fall back to.
unfoldable pub save_keep_count : Text → ℤ → Text × Option Text → M (Result (Unit {0}))
save_keep_count name n (ns, none) =
    set_setting (codes "retention_keep_count:" ++ name) (itoa (at_least_zero n))
save_keep_count name n (ns, some repo) =
    on (set_repository_retention_keep_count ns repo (column_number n)) (λ e. pure (err e))
      λ _. set_setting (codes "retention_keep_count:" ++ name) []

unfoldable pub save_flag :
    (Text → Text → Bool → M (Result (Unit {0}))) → Text → Text → Option Bool → M (Result (Unit {0}))
save_flag set key name none = pure (ok tt)
save_flag set key name (some b) =
    save_field (λ ns repo. set ns repo b) (key ++ name) (bool_text b) (parts name)

abbrev pub push_code : Bool → ℕ
push_code b = if b then 1 else 0

unfoldable pub save_protection : Text → Text → M (Result (Unit {0}))
save_protection name mode =
    let code = code_or 0 (protection_string_to_code mode) in
    save_field (λ ns repo. set_repository_protection_mode ns repo (some code))
      (codes "protection_mode:" ++ name) (protection_code_to_string code) (parts name)

unfoldable pub save_overwrite : Text → Text → M (Result (Unit {0}))
save_overwrite name action =
    let code = code_or 0 (overwrite_string_to_code action) in
    save_field (λ ns repo. set_repository_overwrite_action ns repo (some code))
      (codes "overwrite_action:" ++ name) (overwrite_code_to_string code) (parts name)

unfoldable pub save_policy : Text → PolicyRequest → M Response
save_policy name req = do
  save_protection name req.protection_mode
  save_overwrite name req.overwrite_action
  save_keep_count name req.keep_count (parts name)
  save_flag set_repository_anonymous_pull (codes "allow_anonymous_pull:") name req.anonymous_pull
  save_flag (λ ns repo b. set_repository_push_create ns repo (some (push_code b)))
      (codes "push_create_repo:") name req.push_create_repo
  answer 200 []

-- The GET reads the five fields in the order of the answer.
unfoldable pub read_policy : Text → M Response
read_policy name = do
  resolve_protection_mode name
  resolve_overwrite_action name
  repo_keep_count name
  is_anonymous_pull_allowed name
  push_create_allowed name
  answer 200 []

unfoldable pub handle_repo_tag_policy : Text → Method → Option PolicyRequest → M Response
handle_repo_tag_policy name Method.get body = read_policy name
handle_repo_tag_policy name Method.put none = write_error 400
handle_repo_tag_policy name Method.put (some req) = save_policy name req
handle_repo_tag_policy name _ body = method_not_allowed
