-- ===== src/RepoPath/PullMarkers.antt =====
-- Where the parser of anonymous pulls and the parser of the permission check part ways.
use registry_ui_go.Base.{
  ℕ, ◌+◌, ◌<◌, ◌≡◌, refl, ◌≢◌, false, Option, none, some, [], ◌∷◌, ◌++◌, Text, codes, length,
  has_prefix, last_index, arith, take, append_assoc, sym, subst,
}
use registry_ui_go.RepoPath.{
  later, best_marker, before, repo_before_last_suffix, manifests_marker, blobs_marker,
  tags_list_marker, v2_prefix, v2_sub_path_suffixes, v2_pull_resource_repo_path,
  extract_v2_repo_path,
}
use registry_ui_go.RepoPath.Markers.{
  last_index-append_some, last_index-append_none, take-length-append,
}
use registry_ui_go.RepoPath.Parsing.{repo_before-pull, extract_v2-cut, pull-cut}

-- "/manifests/x/tags/list": a manifest path to one parser, the tags of ".../manifests/x" to the other.
abbrev pub tags_list_url : Text → Text
tags_list_url repo = v2_prefix ++ (repo ++ codes "/manifests/x/tags/list")

-- An occurrence at the end of the name beats those inside it.
later-at_end :
    (best : Option ℕ) (n : ℕ) → ((i : ℕ) → best ≡ some i → i < n) → later best (some n) ≡ some n
unfolding later
later-at_end none n h = refl
later-at_end (some b) n h = ground (arith, h b refl)

later_below :
    (n : ℕ) (best next : Option ℕ)
    → ((i : ℕ) → best ≡ some i → i < n)
    → ((i : ℕ) → next ≡ some i → i < n)
    → (i : ℕ) → later best next ≡ some i
    → i < n
unfolding later
later_below n none none h k i e = h i e
later_below n (some b) none h k i e = h i e
later_below n none (some j) h k i e = k i e
later_below n (some b) (some j) h k i e = ground (arith, h i, k i)

-- The two other markers lie inside the name, if anywhere.
inside_name :
    (r : Text) (i : ℕ)
    → later
        (later none (last_index (r ++ tags_list_marker) manifests_marker))
        (last_index (r ++ tags_list_marker) blobs_marker)
      ≡ some i
    → i < length r + 0
unfolding last_index has_prefix
inside_name r i e =
    later_below (length r + 0) (later none (last_index (r ++ tags_list_marker) manifests_marker))
      (last_index (r ++ tags_list_marker) blobs_marker)
      (later_below (length r + 0) none (last_index (r ++ tags_list_marker) manifests_marker)
        (λ j k. cc)
        (λ j k. omega (arith, last_index-append_none r tags_list_marker manifests_marker j refl k)))
      (λ j k. omega (arith, last_index-append_none r tags_list_marker blobs_marker j refl k)) i e

tags_at_zero : last_index tags_list_marker tags_list_marker ≡ some 0
unfolding last_index has_prefix
tags_at_zero = refl

repo_before-tags_list :
    (r : Text) → repo_before_last_suffix (r ++ tags_list_marker) v2_sub_path_suffixes ≡ r
unfolding repo_before_last_suffix best_marker before
repo_before-tags_list r =
    rw (last_index-append_some r tags_list_marker tags_list_marker 0 tags_at_zero) (
      rw (later-at_end _ (length r + 0) (inside_name r)) (
        subst (λ n. take n (r ++ tags_list_marker) ≡ r) (omega arith)
          (take-length-append r tags_list_marker)))

pull-tags_list : (repo : Text) → v2_pull_resource_repo_path (tags_list_url repo) ≡ repo
unfolding last_index has_prefix
pull-tags_list repo = pull-cut repo _ (repo_before-pull repo _ refl refl)

extract-tags_list :
    (name : Text)
    → name ≢ []
    → has_prefix (name ++ tags_list_marker) (codes "_catalog/") ≡ false
    → extract_v2_repo_path (v2_prefix ++ (name ++ tags_list_marker)) ≡ name
extract-tags_list name filled no_catalog =
    extract_v2-cut name (codes "tags/list") filled no_catalog (repo_before-tags_list name)

append-ne-nil : (r x : Text) (c : ℕ) → r ++ c ∷ x ≢ []
append-ne-nil [] x c = cc
append-ne-nil (y ∷ r) x c = cc

-- For /v2/<repo>/manifests/x/tags/list, whatever the repository, the check of anonymous pulls reads
-- the repository <repo> and the permission check reads <repo>/manifests/x; the repository is not
-- empty and the URL does not begin with /v2/_catalog/.
pub pull_ne_extract-tags_list :
    (repo : Text)
    → repo ≢ []
    → has_prefix (repo ++ codes "/manifests/x/tags/list") (codes "_catalog/") ≡ false
    → (v2_pull_resource_repo_path (tags_list_url repo) ≡ repo)
      × (extract_v2_repo_path (tags_list_url repo) ≡ repo ++ codes "/manifests/x")
pull_ne_extract-tags_list repo filled no_catalog =
    let name = repo ++ codes "/manifests/x" in
    let regroup = append_assoc repo (codes "/manifests/x") tags_list_marker in
    (
      pull-tags_list repo,
      subst (λ t. extract_v2_repo_path (v2_prefix ++ t) ≡ name) regroup
          (extract-tags_list name (append-ne-nil repo _ b'/')
            (subst (λ t. has_prefix t (codes "_catalog/") ≡ false) (sym regroup) no_catalog)),
    )
