-- ===== src/Auth/Presented/Lookups.antt =====
-- What the statements and the settings that authentication reads leave as it was.
use registry_ui_go.Base.{
  ℕ, ◌≡◌, inl, inr, false, Option, none, some, Text, Bool-cases, ◌==◌, text_eq_instance, find,
  is_empty, if◌then◌else◌, if_cases,
}
use registry_ui_go.Store.{Db, User, ApiToken, Result, ok, err}
use registry_ui_go.Store.Run.{
  tick, row, row_ok, query_ok, query-tick, Keeps, Keeps-pure, Keeps-bind, Keeps-then, Keeps-if,
  pure, ◌>>=◌, ◌>>◌,
}
use registry_ui_go.Store.Users.{get_user_by_username, get_user_by_id, has_id}
use registry_ui_go.Store.Tokens.{get_api_token_by_prefix, touch_api_token}
use registry_ui_go.Policy.Unchanged.{get_setting-Keeps, is_anonymous_pull_allowed-Keeps}
use registry_ui_go.Policy.{is_anonymous_pull_allowed}
use registry_ui_go.RepoPath.{v2_pull_resource_repo_path}
use registry_ui_go.Auth.{Request}
use registry_ui_go.Auth.Passwords.{Crypto}
use registry_ui_go.Auth.ApiTokens.{
  check_api_token_auth, with_parts, with_stored, token_owner, presented_token, token_expired,
}
use registry_ui_go.Auth.BearerTokens.{is_pull_method, pulls_from, anonymous_v2_pull}
use registry_ui_go.Auth.Presented.{named, Reads}

pub named_lem :
    (name : Text) (d : Db) (u : User)
    → (get_user_by_username name d).0 ≡ ok u
    → named name d ≡ some u
unfolding get_user_by_username
named_lem name d u e = row_ok (named name d) u (query_ok (λ d. row (named name d)) d u e)

pub get_user_by_username-tick : (name : Text) (d : Db) → (get_user_by_username name d).1 ≡ tick d
unfolding get_user_by_username
get_user_by_username-tick name d = query-tick (λ d. row (named name d)) d

pub by_id_lem :
    (id : ℕ) (d : Db) (u : User)
    → (get_user_by_id id d).0 ≡ ok u
    → find (has_id id) d.users ≡ some u
unfolding get_user_by_id
by_id_lem id d u e =
    row_ok (find (has_id id) d.users) u (query_ok (λ d. row (find (has_id id) d.users)) d u e)

abbrev pub with_prefix : Text → Db → Option ApiToken
with_prefix prefix d = find (λ x. x.token_prefix == prefix) d.api_tokens

pub by_prefix_lem :
    (prefix : Text) (d : Db) (t : ApiToken)
    → (get_api_token_by_prefix prefix d).0 ≡ ok t
    → with_prefix prefix d ≡ some t
unfolding get_api_token_by_prefix
by_prefix_lem prefix d t e =
    row_ok (with_prefix prefix d) t (query_ok (λ d. row (with_prefix prefix d)) d t e)

pub get_api_token_by_prefix-tick :
    (prefix : Text) (d : Db) → (get_api_token_by_prefix prefix d).1 ≡ tick d
unfolding get_api_token_by_prefix
get_api_token_by_prefix-tick prefix d = query-tick (λ d. row (with_prefix prefix d)) d

module _ (d0 : Db) where
  pulls_from-Reads : (name : Text) → Keeps (Reads d0) (pulls_from name)
  unfolding pulls_from
  pulls_from-Reads name =
      Keeps-if (Reads d0) (is_empty name) (pure false) (is_anonymous_pull_allowed name)
        (Keeps-pure (Reads d0) false)
        (is_anonymous_pull_allowed-Keeps (Reads d0) (λ d h. h)
          (get_setting-Keeps (Reads d0) (λ d h. h) (λ d c h. h)) name)

  pub anonymous_v2_pull-Reads : (r : Request) → Keeps (Reads d0) (anonymous_v2_pull r)
  unfolding anonymous_v2_pull
  anonymous_v2_pull-Reads r =
      Keeps-if (Reads d0) (is_pull_method r.method) (pulls_from (v2_pull_resource_repo_path r.path))
        (pure false) (pulls_from-Reads (v2_pull_resource_repo_path r.path))
        (Keeps-pure (Reads d0) false)

  token_owner-Reads :
      (crypto : Crypto) (t : ApiToken) (a : Result User) → Keeps (Reads d0) (token_owner crypto t a)
  unfolding token_owner touch_api_token
  token_owner-Reads crypto t (err e) = Keeps-pure (Reads d0) none
  token_owner-Reads crypto t (ok u) =
      Keeps-if (Reads d0) u.enabled (touch_api_token t.id >> pure (some u)) (pure none)
        (Keeps-then (Reads d0) (touch_api_token t.id) (pure (some u))
          (record {
            at = λ d h. elim (Bool-cases (d.fails d.clock)) [
              | inl fails ↦ rw fails h
              | inr works ↦ rw works h
            ];
          })
          (Keeps-pure (Reads d0) (some u)))
        (Keeps-pure (Reads d0) none)

  get_user_by_id-Reads : (id : ℕ) → Keeps (Reads d0) (get_user_by_id id)
  unfolding get_user_by_id
  get_user_by_id-Reads id = record {
    at = λ d h. rw (query-tick (λ d. row (find (has_id id) d.users)) d) h;
  }

  with_stored-Reads :
      (crypto : Crypto) (secret : Text) (a : Result ApiToken)
      → Keeps (Reads d0) (with_stored crypto secret a)
  unfolding with_stored
  with_stored-Reads crypto secret (err e) = record { at = λ d h. h }
  with_stored-Reads crypto secret (ok t) = record {
    at = λ d h.
        if_cases (λ (x : Option User × Db). Reads d0 x.1) (token_expired d.now t) (none, d)
          (if crypto.sha256_hex secret == t.token_hash
            then (get_user_by_id t.user_id >>= token_owner crypto t) d
            else (none, d))
          (λ _. h)
          λ _.
            if_cases (λ (x : Option User × Db). Reads d0 x.1)
              (crypto.sha256_hex secret == t.token_hash)
              ((get_user_by_id t.user_id >>= token_owner crypto t) d) (none, d)
              (λ _.
                (token_owner-Reads crypto t (get_user_by_id t.user_id d).0).at _
                  ((get_user_by_id-Reads t.user_id).at d h))
              (λ _. h);
  }

  with_parts-Reads :
      (crypto : Crypto) (o : Option (Text × Text)) → Keeps (Reads d0) (with_parts crypto o)
  unfolding with_parts
  with_parts-Reads crypto none = Keeps-pure (Reads d0) none
  with_parts-Reads crypto (some (prefix, secret)) =
      Keeps-bind (Reads d0) (get_api_token_by_prefix prefix) (with_stored crypto secret)
        (record { at = λ d h. rw (get_api_token_by_prefix-tick prefix d) h })
        (with_stored-Reads crypto secret)

  pub check_api_token_auth-Reads :
      (crypto : Crypto) (r : Request) → Keeps (Reads d0) (check_api_token_auth crypto r)
  unfolding check_api_token_auth
  check_api_token_auth-Reads crypto r = with_parts-Reads crypto (presented_token r.authorization)
