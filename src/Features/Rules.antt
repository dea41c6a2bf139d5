-- ===== src/Features/Rules.antt =====
-- What a new rule does to the tags that its pattern matches.
use registry_ui_go.Base.{
  ◌≡◌, ◌≢◌, refl, inl, inr, subst, false, Option, none, List, [], ◌∷◌, ◌++◌, Text, codes, if_cases,
  is_empty, contains_text, arith, Bool-cases,
}
use registry_ui_go.Store.{Db, User, ImmutableTagRule}
use registry_ui_go.Store.Run.{M, on}
use registry_ui_go.Store.Extras.{create_immutable_tag_rule, new_rule}
use registry_ui_go.Http.{Method, Response, answer, write_error, forbidden}
use registry_ui_go.Immutable.{Cache, check_immutable_tag}
use registry_ui_go.Immutable.Glob.{Glob}
use registry_ui_go.Immutable.Rules.{CacheOk, IsFirstRule, check_immutable_tag-IsFirstRule}
use registry_ui_go.Features.{require_admin, post_rule, rules_by_method, handle_immutable_rules}

last_rule :
    (rules : List ImmutableTagRule) (rule : ImmutableTagRule) (ref : Text) (a : Option Text)
    → IsFirstRule (rules ++ rule ∷ []) ref a
    → Glob rule.pattern_text ref
    → a ≢ none
last_rule [] rule ref a (inl (g, e)) h n = cc
last_rule [] rule ref a (inr (away, e)) h n = away h
last_rule (r ∷ rules) rule ref a (inl (g, e)) h n = cc
last_rule (r ∷ rules) rule ref a (inr (away, later)) h n = last_rule rules rule ref a later h n

-- After a 201 the rule is the last of the table.
abbrev Added : Text → Db → Response × Db → Type 0
Added p d (r, d') =
    r.status ≡ 201 → d'.immutable_tag_rules ≡ d.immutable_tag_rules ++ new_rule d.next_rule p ∷ []

handle_immutable_rules-Added :
    (user : Option User) (p : Text) (d : Db)
    → Added p d (handle_immutable_rules Method.post user p d)
unfolding handle_immutable_rules rules_by_method post_rule create_immutable_tag_rule on
handle_immutable_rules-Added user p d =
    if_cases (λ (m : M Response). Added p d (m d)) (require_admin user) (post_rule p) forbidden
      (λ _.
        if_cases (λ (m : M Response). Added p d (m d)) (is_empty p)
          (answer 400 (codes "pattern is required"))
          (on (create_immutable_tag_rule p) (λ _. write_error 400) (λ _. answer 201 []))
          (λ _ n. absurd (ground arith))
          (λ _. elim (Bool-cases (d.fails d.clock)) [
            | inl fails ↦ rw fails (λ n. absurd (ground arith))
            | inr works ↦ rw works (λ n. refl)
          ]))
      (λ _ n. absurd (ground arith))

-- When a new rule was answered with 201, every tag that is not empty, holds no colon and is matched
-- by the rule's pattern is found immutable afterwards, while the query of the rules works and the
-- cache of compiled patterns is right.
pub check_immutable_tag-handle_immutable_rules :
    (user : Option User) (p ref : Text) (cache : Cache) (d : Db)
    → (handle_immutable_rules Method.post user p d).0.status ≡ 201
    → is_empty ref ≡ false
    → contains_text ref (codes ":") ≡ false
    → (handle_immutable_rules Method.post user p d).1.fails
        (handle_immutable_rules Method.post user p d).1.clock
      ≡ false
    → CacheOk cache
    → Glob p ref
    → (check_immutable_tag ref false cache (handle_immutable_rules Method.post user p d).1).0.0
      ≢ none
check_immutable_tag-handle_immutable_rules user p ref cache d created filled plain works right
      glob =
    let after = (handle_immutable_rules Method.post user p d).1 in
    let answer = (check_immutable_tag ref false cache after).0.0 in
    last_rule d.immutable_tag_rules (new_rule d.next_rule p) ref answer
      (subst (λ rules. IsFirstRule rules ref answer) (handle_immutable_rules-Added user p d created)
        (check_immutable_tag-IsFirstRule ref cache after filled plain works right).0)
      glob
