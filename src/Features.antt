-- ===== src/Features.antt =====
-- backend/internal/server/features.go: the handlers of immutable tag rules and of descriptions.
pub mod Rules
mod Tests
pub mod Described
use registry_ui_go.Base.{
  ℕ, Bool, true, false, Option, none, some, [], if◌then◌else◌, Text, codes, ◌&&◌, not, is_empty,
  trim_prefix, trim_suffix,
}
use registry_ui_go.Store.{User}
use registry_ui_go.Store.Run.{M, on, pure, add_audit, ◌>>◌, ◌>>=◌}
use registry_ui_go.Store.Extras.{
  create_immutable_tag_rule, delete_immutable_tag_rule, get_repo_description, set_repo_description,
}
use registry_ui_go.Http.{
  Method, Response, reply, answer, method_not_allowed, not_found, forbidden, write_error, audit,
  is_mutating_method,
}
use registry_ui_go.Access.{user_can_access_repo, user_can_write_repo}
use registry_ui_go.Immutable.{list_immutable_tag_rules}

-- requireAdmin: only a user who is no administrator is turned away
abbrev pub require_admin : Option User → Bool
require_admin none = true
require_admin (some u) = u.is_admin

unfoldable pub post_rule : Text → M Response
post_rule pattern_text =
    if is_empty pattern_text
    then answer 400 (codes "pattern is required")
    else on (create_immutable_tag_rule pattern_text) (λ _. write_error 400) (λ _. answer 201 [])

unfoldable pub rules_by_method : Method → Text → M Response
rules_by_method Method.get pattern_text =
    on list_immutable_tag_rules (λ _. write_error 500) (λ _. answer 200 [])
rules_by_method Method.post pattern_text = post_rule pattern_text
rules_by_method _ pattern_text = method_not_allowed

-- handleImmutableRules, with the pattern of the decoded body
unfoldable pub handle_immutable_rules : Method → Option User → Text → M Response
handle_immutable_rules method user pattern_text =
    if require_admin user then rules_by_method method pattern_text else forbidden

unfoldable pub remove_rule : Option User → ℕ → M Response
remove_rule user id =
    on (delete_immutable_tag_rule id) (λ _. write_error 500)
      λ _.
        add_audit (audit user (codes "immutable-rule.delete") [] [] [] (codes "ok"))
        >> answer 200 []

unfoldable pub rule_by_method : Method → Option User → ℕ → M Response
rule_by_method Method.delete user id = remove_rule user id
rule_by_method _ user id = method_not_allowed

abbrev pub with_rule_id : Method → Option User → Option ℕ → M Response
with_rule_id method user none = not_found
with_rule_id method user (some id) = rule_by_method method user id

-- handleImmutableRuleByID, with the id that parseID reads from the path
unfoldable pub handle_immutable_rule_by_id : Method → Option User → Option ℕ → M Response
handle_immutable_rule_by_id method user id =
    if require_admin user then with_rule_id method user id else forbidden

-- An answer with the description that it shows.
abbrev pub shows : Response → Text → M (Response × Text)
shows response text = pure (response, text)

module _ (user : Option User) (repo : Text) where
  unfoldable pub save_description : Text → M (Response × Text)
  save_description text =
      on (set_repo_description repo text) (λ _. shows (reply 500 (codes "error")) [])
        λ _.
          add_audit (audit user (codes "repo.description") repo [] [] (codes "ok"))
          >> shows (reply 200 []) []

  unfoldable pub description_by_method : Method → Text → M (Response × Text)
  description_by_method Method.get text =
      on (get_repo_description repo) (λ _. shows (reply 500 (codes "error")) [])
        (λ found. shows (reply 200 []) found)
  description_by_method Method.put text = save_description text
  description_by_method _ text = shows (reply 405 (codes "method not allowed")) []

  unfoldable pub if_writable : Method → Text → Bool → M (Response × Text)
  if_writable method text b =
      if b then description_by_method method text else shows (reply 403 (codes "forbidden")) []

  unfoldable pub if_readable : Method → Text → Bool → M (Response × Text)
  if_readable method text b =
      if b
      then if is_mutating_method method
        then user_can_write_repo user repo >>= if_writable method text
        else description_by_method method text
      else shows (reply 403 (codes "forbidden")) []

  unfoldable pub describe : Method → Text → M (Response × Text)
  describe method text =
      if is_empty repo
      then shows (reply 404 (codes "404 page not found")) []
      else user_can_access_repo user repo >>= if_readable method text

abbrev pub described_repo : Text → Text
described_repo path =
    trim_suffix (trim_prefix path (codes "/api/repo-description/")) (codes "/description")

-- handleRepoDescription, with the text of the decoded body
unfoldable pub handle_repo_description : Option User → Method → Text → Text → M (Response × Text)
handle_repo_description user method path text = describe user (described_repo path) method text
