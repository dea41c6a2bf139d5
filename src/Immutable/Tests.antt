-- ===== src/Immutable/Tests.antt =====
-- Patterns of immutable tags and the check of a tag.
use registry_ui_go.Base.{
  ◌≡◌, refl, true, false, [], ◌∷◌, codes, lookup, contains, contains_text, has_prefix,
}
use registry_ui_go.Store.{Db}
use registry_ui_go.Samples.{empty_db}
use registry_ui_go.Immutable.Regex.{compile, parse, on_char, cons, matches}
use registry_ui_go.Immutable.{
  translate, translate_all, regexp_text, remembered, immutable_pattern_regexp, matches_some,
  match_immutable_tag_pattern, check_immutable_tag,
}
use registry_ui_go.Immutable.Rules.{IsFirstRule, CacheOk, check_immutable_tag-IsFirstRule}

matching : Unit {0}
unfolding match_immutable_tag_pattern immutable_pattern_regexp remembered matches_some regexp_text
    translate_all translate compile parse on_char cons matches lookup contains
matching = tt

release_tags : (match_immutable_tag_pattern (codes "v?.*") (codes "v1.2.0") []).0 ≡ true
unfolding matching
release_tags = refl

-- The dot of a pattern is a dot.
literal_dot : (match_immutable_tag_pattern (codes "v1.2") (codes "v1x2") []).0 ≡ false
unfolding matching
literal_dot = refl

abbrev two_rules : Db
two_rules = record empty_db {
  immutable_tag_rules =
      record { id = 1; pattern_text = codes "prod-*" }
      ∷ record { id = 2; pattern_text = codes "v*" }
      ∷ [];
}

check_immutable_tag-IsFirstRule_example :
    IsFirstRule two_rules.immutable_tag_rules
      (codes "v2")
      (check_immutable_tag (codes "v2") false [] two_rules).0.0
    × CacheOk (check_immutable_tag (codes "v2") false [] two_rules).0.1
unfolding contains_text has_prefix
check_immutable_tag-IsFirstRule_example =
    check_immutable_tag-IsFirstRule (codes "v2") [] two_rules refl refl refl tt
