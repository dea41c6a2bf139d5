-- ===== src/RepoPath.antt =====
-- backend/internal/server/repo_path.go: where the repository name ends in a URL, and
-- splitRepoNamespacedName of backend/internal/store/store.go.
pub mod Markers
pub mod Parsing
pub mod PullMarkers
mod Tests
use registry_ui_go.Base.{
  ℕ, zero, suc, Bool, true, false, ◌||◌, Option, none, some, List, [], ◌∷◌, Text, codes, ◌==◌,
  text_eq_instance, if◌then◌else◌, has_prefix, trim_prefix, last_index, cut, take, is_empty, ltb,
}

-- `if idx := strings.LastIndex(path, marker); idx > best { best = idx }`, with `none` for -1
unfoldable pub later : Option ℕ → Option ℕ → Option ℕ
later best none = best
later none (some i) = some i
later (some b) (some i) = if ltb b i then some i else some b

unfoldable pub best_marker : Text → Option ℕ → List Text → Option ℕ
unfolding later last_index
best_marker path best [] = best
best_marker path best (marker ∷ markers) =
    best_marker path (later best (last_index path marker)) markers

-- `if best <= 0 { return "" }; return path[:best]`
unfoldable pub before : Text → Option ℕ → Text
before path none = []
before path (some i) = take i path

unfoldable pub repo_before_last_suffix : Text → List Text → Text
repo_before_last_suffix path markers = before path (best_marker path none markers)

abbrev pub manifests_marker : Text
manifests_marker = codes "/manifests/"

abbrev pub blobs_marker : Text
blobs_marker = codes "/blobs/"

abbrev pub tags_list_marker : Text
tags_list_marker = codes "/tags/list"

abbrev pub v2_prefix : Text
v2_prefix = codes "/v2/"

abbrev pub v2_sub_path_suffixes : List Text
v2_sub_path_suffixes = manifests_marker ∷ blobs_marker ∷ tags_list_marker ∷ []

abbrev pub api_repo_sub_path_suffixes : List Text
api_repo_sub_path_suffixes =
    codes "/tags"
    ∷ manifests_marker
    ∷ blobs_marker
    ∷ codes "/stats"
    ∷ codes "/tag-policy"
    ∷ codes "/init"
    ∷ codes "/manifests/batch-delete"
    ∷ codes "/retention-preview"
    ∷ codes "/retention-run"
    ∷ []

unfoldable pub v2_pull_resource_repo_path : Text → Text
v2_pull_resource_repo_path path =
    let rest = trim_prefix path v2_prefix in
    if is_empty rest || rest == path
    then []
    else repo_before_last_suffix rest (manifests_marker ∷ blobs_marker ∷ [])

-- `if repo := …; repo != "" { return repo }; return rest`
unfoldable pub or_whole : Text → Text → Text
or_whole [] rest = rest
or_whole (c ∷ repo) rest = c ∷ repo

unfoldable pub extract_v2_repo_path : Text → Text
extract_v2_repo_path path =
    let rest = trim_prefix path v2_prefix in
    if has_prefix path v2_prefix
    then if is_empty rest || rest == codes "_catalog" || has_prefix rest (codes "_catalog/")
      then []
      else or_whole (repo_before_last_suffix rest v2_sub_path_suffixes) rest
    else []

unfoldable pub extract_repo_name_from_path : Text → Text
extract_repo_name_from_path path = repo_before_last_suffix path api_repo_sub_path_suffixes

-- store.go: the namespace and the name of "namespace/name", cut at the first slash.
unfoldable pub split_repo_namespaced_name : Text → Text × Text
unfolding cut
split_repo_namespaced_name repo = elim (cut b'/' repo).1 [
  | some name ↦ ((cut b'/' repo).0, name)
  | none ↦ ([], repo)
]
