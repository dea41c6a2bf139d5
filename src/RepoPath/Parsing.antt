-- ===== src/RepoPath/Parsing.antt =====
-- The repository that a /v2/ URL names: repo_path.go read against the URLs that clients build.
use registry_ui_go.Base.{
  ℕ, ◌≡◌, refl, ◌≢◌, inl, inr, true, false, none, some, [], ◌∷◌, ◌++◌, Text, codes, length,
  has_prefix, trim_prefix, last_index, arith, Bool-cases, Option-cases, ap, text_eq_instance,
  text_eq_iff, text_eq, is_empty, subst, sym,
}
use registry_ui_go.RepoPath.{
  later, best_marker, before, repo_before_last_suffix, manifests_marker, blobs_marker,
  tags_list_marker, v2_prefix, v2_sub_path_suffixes, v2_pull_resource_repo_path,
  extract_v2_repo_path, or_whole,
}
use registry_ui_go.RepoPath.Markers.{
  Lacks, last_index-append_some, last_index-append_none, has_prefix-Lacks, last_index-Lacks,
  take-length-append,
}

abbrev slash : ℕ
slash = b'/'

-- In "/manifests/<ref>" the marker is at 0 and the other markers do not occur.
module _ (ref : Text) (h : Lacks slash ref) where
  manifests_in_manifests : last_index (manifests_marker ++ ref) manifests_marker ≡ some 0
  unfolding last_index has_prefix
  manifests_in_manifests =
      rw (last_index-Lacks ref [] (codes "manifests/") slash h)
        (rw (has_prefix-Lacks ref (codes "manifests") [] slash h))

  blobs_in_manifests : last_index (manifests_marker ++ ref) blobs_marker ≡ none
  unfolding last_index has_prefix
  blobs_in_manifests =
      rw (last_index-Lacks ref [] (codes "blobs/") slash h)
        (rw (has_prefix-Lacks ref (codes "blobs") [] slash h))

  tags_in_manifests : last_index (manifests_marker ++ ref) tags_list_marker ≡ none
  unfolding last_index has_prefix
  tags_in_manifests =
      rw (last_index-Lacks ref [] (codes "tags/list") slash h)
        (rw (has_prefix-Lacks ref (codes "tags") (codes "list") slash h))

-- A marker that may only lie inside the repository's name does not move the cut.
later-inside :
    (r x m : Text)
    → last_index x m ≡ none
    → later (some (length r)) (last_index (r ++ x) m) ≡ some (length r)
unfolding later
later-inside r x m h = elim (Option-cases (last_index (r ++ x) m)) [
  | inl none_found ↦ rw none_found
  | inr (i, found) ↦ rw found (ground (arith, last_index-append_none r x m i h found))
]

module _ (r x : Text) (at_zero : last_index x manifests_marker ≡ some 0) where
  first_marker : later none (last_index (r ++ x) manifests_marker) ≡ some (length r)
  unfolding later
  first_marker = rw (last_index-append_some r x manifests_marker 0 at_zero) (ap some (omega arith))

  repo_before-v2 :
      last_index x blobs_marker ≡ none
      → last_index x tags_list_marker ≡ none
      → repo_before_last_suffix (r ++ x) v2_sub_path_suffixes ≡ r
  unfolding repo_before_last_suffix best_marker before
  repo_before-v2 blobs tags =
      rw (first_marker, later-inside r x blobs_marker blobs, later-inside r x tags_list_marker tags)
        (take-length-append r x)

  pub repo_before-pull :
      last_index x blobs_marker ≡ none
      → repo_before_last_suffix (r ++ x) (manifests_marker ∷ blobs_marker ∷ []) ≡ r
  unfolding repo_before_last_suffix best_marker before
  repo_before-pull blobs =
      rw (first_marker, later-inside r x blobs_marker blobs) (take-length-append r x)

-- A text with a slash in it is not one without.
Lacks-append : (s x : Text) (c : ℕ) → ¬ Lacks c (s ++ c ∷ x)
Lacks-append [] x c h = h.0 refl
Lacks-append (y ∷ s) x c h = Lacks-append s x c h.1

ne_catalog : (r x : Text) → text_eq (r ++ slash ∷ x) (codes "_catalog") ≡ false
ne_catalog r x = elim (Bool-cases (text_eq (r ++ slash ∷ x) (codes "_catalog"))) [
  | inl same ↦
      absurd (
        Lacks-append r x slash (subst (Lacks slash) (sym ((text_eq_iff _ _).0 same)) (omega arith)))
  | inr other ↦ other
]

ne_whole : (y : Text) → text_eq y (v2_prefix ++ y) ≡ false
ne_whole y = elim (Bool-cases (text_eq y (v2_prefix ++ y))) [
  | inl same ↦ absurd (omega (arith, ap length ((text_eq_iff _ _).0 same)))
  | inr other ↦ other
]

pub not_empty-append : (r x : Text) (c : ℕ) → is_empty (r ++ c ∷ x) ≡ false
not_empty-append [] x c = refl
not_empty-append (y ∷ r) x c = refl

trim_v2 : (y : Text) → trim_prefix (v2_prefix ++ y) v2_prefix ≡ y
unfolding trim_prefix
trim_v2 y = refl

has_v2 : (y : Text) → has_prefix (v2_prefix ++ y) v2_prefix ≡ true
unfolding has_prefix
has_v2 y = refl

pub extract_v2-cut :
    (r x : Text)
    → r ≢ []
    → has_prefix (r ++ slash ∷ x) (codes "_catalog/") ≡ false
    → repo_before_last_suffix (r ++ slash ∷ x) v2_sub_path_suffixes ≡ r
    → extract_v2_repo_path (v2_prefix ++ (r ++ slash ∷ x)) ≡ r
unfolding extract_v2_repo_path or_whole
extract_v2-cut r x filled no_catalog cut_at = ground (
  arith,
  trim_v2 (r ++ slash ∷ x),
  has_v2 (r ++ slash ∷ x),
  not_empty-append r x slash,
  ne_catalog r x,
)

pub pull-cut :
    (r x : Text)
    → repo_before_last_suffix (r ++ slash ∷ x) (manifests_marker ∷ blobs_marker ∷ []) ≡ r
    → v2_pull_resource_repo_path (v2_prefix ++ (r ++ slash ∷ x)) ≡ r
unfolding v2_pull_resource_repo_path
pull-cut r x cut_at =
    ground (arith, trim_v2 (r ++ slash ∷ x), not_empty-append r x slash, ne_whole (r ++ slash ∷ x))

abbrev pub manifest_url : Text → Text → Text
manifest_url repo ref = v2_prefix ++ (repo ++ (manifests_marker ++ ref))

-- Both parsers find the repository of /v2/<repo>/manifests/<ref>: the repository may have any
-- number of segments, reserved ones such as "tags" and "manifests" included; it is not empty, the
-- reference holds no slash, and the URL does not begin with /v2/_catalog/.
pub extract_v2-manifest_url :
    (repo ref : Text)
    → repo ≢ []
    → Lacks slash ref
    → has_prefix (repo ++ (manifests_marker ++ ref)) (codes "_catalog/") ≡ false
    → (extract_v2_repo_path (manifest_url repo ref) ≡ repo)
      × (v2_pull_resource_repo_path (manifest_url repo ref) ≡ repo)
extract_v2-manifest_url repo ref filled h no_catalog = (
  extract_v2-cut repo _ filled no_catalog (
      repo_before-v2 repo _ (manifests_in_manifests ref h) (blobs_in_manifests ref h)
        (tags_in_manifests ref h)),
  pull-cut repo _
      (repo_before-pull repo _ (manifests_in_manifests ref h) (blobs_in_manifests ref h)),
)
