-- ===== src/Immutable/Rules.antt =====
-- The rules are applied in order, and the cache of compiled patterns changes no answer.
use registry_ui_go.Base.{
  ◌≡◌, refl, ◌⊎◌, inl, inr, false, Option, none, some, List, [], ◌∷◌, Text, codes, arith,
  Bool-cases, Option-cases, All, lookup, text_eq_instance, text_eq_iff, text_eq, is_empty,
  contains_text, sym, ◌∙◌, subst,
}
use registry_ui_go.Store.{Db, ImmutableTagRule}
use registry_ui_go.Immutable.Regex.{Regexp, compile, matches}
use registry_ui_go.Immutable.Glob.{Glob, atoms, compile-regexp_text, matches_iff}
use registry_ui_go.Immutable.{
  Cache, regexp_text, remembered, immutable_pattern_regexp, matches_some,
  match_immutable_tag_pattern, first_match, among_rules, check_immutable_tag,
  list_immutable_tag_rules,
}

-- Every entry is what the compilation of its pattern gives.
abbrev pub CacheOk : Cache → Type 0
CacheOk = All (λ e. e.1 ≡ compile (regexp_text e.0))

lookup-CacheOk :
    (p : Text) (cache : Cache) {re : Option Regexp}
    → CacheOk cache
    → lookup p cache ≡ some re
    → re ≡ compile (regexp_text p)
unfolding lookup
lookup-CacheOk p [] h e = cc
lookup-CacheOk p ((q, r) ∷ cache) {re} h e = elim (Bool-cases (text_eq q p)) [
  | inl hit ↦ subst (λ t. re ≡ compile (regexp_text t)) ((text_eq_iff q p).0 hit) (ground arith)
  | inr miss ↦ lookup-CacheOk p cache h.1 (ground arith)
]

immutable_pattern_regexp_lem :
    (p : Text) (cache : Cache)
    → CacheOk cache
    → ((immutable_pattern_regexp p cache).0 ≡ compile (regexp_text p))
      × CacheOk (immutable_pattern_regexp p cache).1
unfolding immutable_pattern_regexp remembered
immutable_pattern_regexp_lem p cache h = elim (Option-cases (lookup p cache)) [
  | inl new ↦ rw new (refl, (refl, h))
  | inr (re, old) ↦ rw old (lookup-CacheOk p cache h old, h)
]

match_pattern_lem :
    (p tag : Text) (cache : Cache)
    → CacheOk cache
    → ((match_immutable_tag_pattern p tag cache).0 ≡ matches (atoms p) tag)
      × CacheOk (match_immutable_tag_pattern p tag cache).1
unfolding match_immutable_tag_pattern matches_some
match_pattern_lem p tag cache h =
    let (same, kept) = immutable_pattern_regexp_lem p cache h in
    (rw (same ∙ compile-regexp_text p), kept)

-- The answer is the pattern of the first rule whose pattern matches the tag, if there is one.
abbrev pub IsFirstRule : List ImmutableTagRule → Text → Option Text → Type 0
IsFirstRule [] ref answer = answer ≡ none
IsFirstRule (rule ∷ rules) ref answer =
    (Glob rule.pattern_text ref × (answer ≡ some rule.pattern_text))
    ⊎ ((¬ Glob rule.pattern_text ref) × IsFirstRule rules ref answer)

first_match-IsFirstRule :
    (rules : List ImmutableTagRule) (ref : Text) (cache : Cache)
    → CacheOk cache
    → IsFirstRule rules ref (first_match rules ref cache).0
      × CacheOk (first_match rules ref cache).1
unfolding first_match
first_match-IsFirstRule [] ref cache h = (refl, h)
first_match-IsFirstRule (rule ∷ rules) ref cache h =
    let (same, kept) = match_pattern_lem rule.pattern_text ref cache h in
    let (to, from) = matches_iff rule.pattern_text ref in
    elim (Bool-cases (match_immutable_tag_pattern rule.pattern_text ref cache).0) [
      | inl hit ↦ rw hit (inl (to (sym same ∙ hit), refl), kept)
      | inr miss ↦
          let (later, kept') =
            first_match-IsFirstRule rules ref
              (match_immutable_tag_pattern rule.pattern_text ref cache).1 kept in
          rw miss (inr (λ g. cc (from g), later), kept')
    ]

-- For a tag that is not empty and holds no colon, while the query of the rules works and the
-- repository is not immutable as a whole, the check answers with the first rule whose pattern
-- matches the whole tag, and with none exactly if no rule's pattern does; it keeps the cache of
-- compiled patterns right, and its answer does not depend on what is in it.
pub check_immutable_tag-IsFirstRule :
    (ref : Text) (cache : Cache) (d : Db)
    → is_empty ref ≡ false
    → contains_text ref (codes ":") ≡ false
    → d.fails d.clock ≡ false
    → CacheOk cache
    → IsFirstRule d.immutable_tag_rules ref (check_immutable_tag ref false cache d).0.0
      × CacheOk (check_immutable_tag ref false cache d).0.1
unfolding check_immutable_tag among_rules list_immutable_tag_rules
check_immutable_tag-IsFirstRule ref cache d filled plain works h =
    rw (filled, plain, works) (first_match-IsFirstRule d.immutable_tag_rules ref cache h)
