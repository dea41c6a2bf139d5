-- ===== src/Features/Tests.antt =====
-- A rule and a description that an administrator stores.
use registry_ui_go.Base.{
  ◌≡◌, refl, ◌≢◌, false, none, some, [], Text, codes, contains_text, has_prefix, has_suffix,
  trim_suffix, trim_prefix, strip_prefix, arith,
}
use registry_ui_go.Samples.{two_users, root_user}
use registry_ui_go.Store.Run.{on, add_audit}
use registry_ui_go.Store.Extras.{create_immutable_tag_rule, set_repo_description}
use registry_ui_go.Http.{Method, reply, is_mutating_method}
use registry_ui_go.Access.{user_can_access_repo, user_can_write_repo, allowed}
use registry_ui_go.Immutable.{check_immutable_tag}
use registry_ui_go.Immutable.Glob.{Glob, same, take, leave, end}
use registry_ui_go.Features.{
  handle_immutable_rules, rules_by_method, post_rule, handle_repo_description, describe,
  described_repo, if_readable, if_writable, description_by_method, save_description,
}
use registry_ui_go.Features.Rules.{check_immutable_tag-handle_immutable_rules}
use registry_ui_go.Features.Described.{handle_repo_description-saved}

abbrev path : Text
path = codes "/api/repo-description/team/app/description"

described : described_repo path ≡ codes "team/app"
unfolding trim_suffix trim_prefix strip_prefix has_suffix has_prefix
described = refl

saved :
    (handle_repo_description (some root_user) Method.put path (codes "new") two_users).0.0.status
    ≡ 200
unfolding handle_repo_description describe if_readable if_writable description_by_method
    save_description user_can_access_repo user_can_write_repo allowed is_mutating_method on
    set_repo_description add_audit trim_suffix trim_prefix strip_prefix has_suffix has_prefix
saved = refl

created :
    (handle_immutable_rules Method.post (some root_user) (codes "v*") two_users).0.status ≡ 201
unfolding handle_immutable_rules rules_by_method post_rule create_immutable_tag_rule on
created = refl

plain : contains_text (codes "v2") (codes ":") ≡ false
unfolding contains_text has_prefix strip_prefix
plain = refl

works :
    (handle_immutable_rules Method.post (some root_user) (codes "v*") two_users).1.fails
      (handle_immutable_rules Method.post (some root_user) (codes "v*") two_users).1.clock
    ≡ false
unfolding handle_immutable_rules rules_by_method post_rule create_immutable_tag_rule on
works = refl

glob : Glob (codes "v*") (codes "v2")
glob =
    same (λ e. omega arith) (λ e. omega arith) refl (take refl (λ e. omega arith) (leave refl end))

check_immutable_tag-handle_immutable_rules_example :
    (check_immutable_tag
      (codes "v2")
      false
      []
      (handle_immutable_rules Method.post (some root_user) (codes "v*") two_users).1).0.0
    ≢ none
check_immutable_tag-handle_immutable_rules_example =
    check_immutable_tag-handle_immutable_rules (some root_user) (codes "v*") (codes "v2") []
      two_users created refl plain works tt glob

handle_repo_description-saved_example :
    (handle_repo_description
      (some root_user)
      Method.get
      path
      []
      (handle_repo_description (some root_user) Method.put path (codes "new") two_users).1).0
    ≡ (reply 200 [], codes "new")
handle_repo_description-saved_example =
    handle_repo_description-saved (some root_user) path (codes "new") [] two_users (λ n. refl) saved
