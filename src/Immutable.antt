-- ===== src/Immutable.antt =====
-- backend/internal/server/features.go: immutable tag rules. A pattern is turned into a regular
-- expression, which Go's regexp package compiles and matches; compiled patterns are kept in a cache.
pub mod Regex
pub mod Glob
pub mod Rules
mod Tests
use registry_ui_go.Base.{
  ℕ, Bool, true, false, Option, none, some, List, [], ◌∷◌, ◌++◌, if◌then◌else◌, Text, codes, ◌==◌,
  nat_eq_instance, text_eq_instance, ◌||◌, contains, contains_text, is_empty, lookup,
}
use registry_ui_go.Store.{Db, Result, ok, err, ImmutableTagRule}
use registry_ui_go.Store.Run.{M, query}
use registry_ui_go.Immutable.Regex.{Regexp, compile, matches}

-- The characters that the translation puts behind a backslash.
abbrev pub specials : Text
specials = codes ".+()[]{}^$|\\"

-- What the loop of immutablePatternRegexp adds for one character of the pattern.
unfoldable pub translate : ℕ → Text
translate ch =
    if ch == b'*'
    then codes ".*"
    else if ch == b'?'
    then codes "."
    else if contains specials ch
    then 92 ∷ ch ∷ []
    else ch ∷ []

unfoldable pub translate_all : Text → Text
translate_all [] = []
translate_all (ch ∷ pattern_text) = translate ch ++ translate_all pattern_text

unfoldable pub regexp_text : Text → Text
regexp_text pattern_text = b'^' ∷ (translate_all pattern_text ++ b'$' ∷ [])

-- immutablePatternCache, with `none` for the nil that stands for a failed compilation
abbrev pub Cache : Type 0
Cache = List (Text × Option Regexp)

unfoldable pub remembered : Option (Option Regexp) → Text → Cache → Option Regexp × Cache
remembered (some re) pattern_text cache = (re, cache)
remembered none pattern_text cache =
    let re = compile (regexp_text pattern_text) in (re, (pattern_text, re) ∷ cache)

unfoldable pub immutable_pattern_regexp : Text → Cache → Option Regexp × Cache
immutable_pattern_regexp pattern_text cache =
    remembered (lookup pattern_text cache) pattern_text cache

-- `re != nil && re.MatchString(tag)`
unfoldable pub matches_some : Option Regexp → Text → Bool
matches_some none tag = false
matches_some (some re) tag = matches re tag

unfoldable pub match_immutable_tag_pattern : Text → Text → Cache → Bool × Cache
match_immutable_tag_pattern pattern_text tag cache =
    let (re, cache') = immutable_pattern_regexp pattern_text cache in (matches_some re tag, cache')

unfoldable pub list_immutable_tag_rules : M (Result (List ImmutableTagRule))
list_immutable_tag_rules = query (λ d. ok d.immutable_tag_rules)

-- The loop of checkImmutableTag: the first rule whose pattern matches.
unfoldable pub first_match : List ImmutableTagRule → Text → Cache → Option Text × Cache
first_match [] ref cache = (none, cache)
first_match (rule ∷ rules) ref cache =
    let (hit, cache') = match_immutable_tag_pattern rule.pattern_text ref cache in
    let rest = first_match rules ref cache' in
    if hit then (some rule.pattern_text, cache') else rest

unfoldable pub among_rules : Result (List ImmutableTagRule) → Text → Cache → Option Text × Cache
among_rules (err e) ref cache = (none, cache)
among_rules (ok rules) ref cache = first_match rules ref cache

-- checkImmutableTag: the pattern for which the tag is immutable, if it is.
unfoldable pub check_immutable_tag : Text → Bool → Cache → M (Option Text × Cache)
check_immutable_tag ref force_immutable cache d =
    if is_empty ref || contains_text ref (codes ":")
    then ((none, cache), d)
    else if force_immutable
    then ((some (codes "repo-immutable"), cache), d)
    else (among_rules (list_immutable_tag_rules d).0 ref cache, (list_immutable_tag_rules d).1)
