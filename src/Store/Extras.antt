-- ===== src/Store/Extras.antt =====
-- store.go: the statements on the tables of immutable tag rules, descriptions, counters and webhooks.
use registry_ui_go.Base.{
  ℕ, ◌+◌, Bool, Option, none, some, List, [], ◌∷◌, ◌++◌, if◌then◌else◌, Text, ◌==◌, nat_eq_instance,
  text_eq_instance, not, any, update, keep, lookup, insert,
}
use registry_ui_go.Store.{Result, ok, ImmutableTagRule, RepoStats, Webhook}
use registry_ui_go.Store.Run.{M, statement, query, execute}

abbrev pub new_rule : ℕ → Text → ImmutableTagRule
new_rule id pattern_text = record { id = id; pattern_text = pattern_text }

unfoldable pub create_immutable_tag_rule : Text → M (Result ImmutableTagRule)
create_immutable_tag_rule pattern_text = statement λ d.
    let rule = new_rule d.next_rule pattern_text in
    ok (
      rule,
      record d {
        immutable_tag_rules = d.immutable_tag_rules ++ rule ∷ [];
        next_rule = d.next_rule + 1;
      },
    )

unfoldable pub delete_immutable_tag_rule : ℕ → M (Result (Unit {0}))
delete_immutable_tag_rule id =
    execute
      λ d. record d { immutable_tag_rules = keep (λ r. not (r.id == id)) d.immutable_tag_rules }

abbrev pub description_or_empty : Option Text → Text
description_or_empty none = []
description_or_empty (some description) = description

unfoldable pub get_repo_description : Text → M (Result Text)
get_repo_description repo = query (λ d. ok (description_or_empty (lookup repo d.descriptions)))

unfoldable pub set_repo_description : Text → Text → M (Result (Unit {0}))
set_repo_description repo description =
    execute (λ d. record d { descriptions = insert repo description d.descriptions })

-- The INSERT … ON CONFLICT of both counters.
unfoldable pub counted :
    Text → RepoStats → (RepoStats → RepoStats) → List RepoStats → List RepoStats
counted repo first f stats =
    if any (λ c. c.repo == repo) stats
    then update (λ c. c.repo == repo) f stats
    else stats ++ first ∷ []

unfoldable pub increment_repo_pull : Text → M (Result (Unit {0}))
increment_repo_pull repo = execute λ d. record d {
  repo_stats =
      counted repo (record { repo = repo; pull_count = 1; push_count = 0 })
        (λ c. record c { pull_count = c.pull_count + 1 }) d.repo_stats;
}

unfoldable pub increment_repo_push : Text → M (Result (Unit {0}))
increment_repo_push repo = execute λ d. record d {
  repo_stats =
      counted repo (record { repo = repo; pull_count = 0; push_count = 1 })
        (λ c. record c { push_count = c.push_count + 1 }) d.repo_stats;
}

unfoldable pub list_webhooks : M (Result (List Webhook))
list_webhooks = query (λ d. ok d.webhooks)

abbrev pub new_webhook : ℕ → Text → Text → Text → Bool → Webhook
new_webhook id url secret_header events enabled = record {
  id = id;
  url = url;
  secret_header = secret_header;
  events = events;
  enabled = enabled;
}

unfoldable pub create_webhook : Text → Text → Text → Bool → M (Result Webhook)
create_webhook url secret_header events enabled = statement λ d.
    let w = new_webhook d.next_webhook url secret_header events enabled in
    ok (w, record d { webhooks = d.webhooks ++ w ∷ []; next_webhook = d.next_webhook + 1 })

unfoldable pub update_webhook : ℕ → Text → Text → Text → Bool → M (Result (Unit {0}))
update_webhook id url secret_header events enabled = execute λ d. record d {
  webhooks =
      update (λ w. w.id == id)
        (λ w. record w {
          url = url;
          secret_header = secret_header;
          events = events;
          enabled = enabled;
        })
        d.webhooks;
}

unfoldable pub delete_webhook : ℕ → M (Result (Unit {0}))
delete_webhook id = execute (λ d. record d { webhooks = keep (λ w. not (w.id == id)) d.webhooks })
