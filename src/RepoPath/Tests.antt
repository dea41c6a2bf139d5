-- ===== src/RepoPath/Tests.antt =====
-- The parsers of repo_path.go at the paths of repo_path_test.go and beyond.
use registry_ui_go.Base.{◌≡◌, refl, [], ◌++◌, arith, codes, has_prefix, trim_prefix, text_eq}
use registry_ui_go.RepoPath.{
  extract_v2_repo_path, extract_repo_name_from_path, v2_pull_resource_repo_path,
  repo_before_last_suffix, best_marker, before, or_whole, split_repo_namespaced_name,
}
use registry_ui_go.RepoPath.Parsing.{manifest_url, extract_v2-manifest_url}
use registry_ui_go.RepoPath.PullMarkers.{tags_list_url, pull_ne_extract-tags_list}

parsers : Unit {0}
unfolding text_eq extract_v2_repo_path v2_pull_resource_repo_path extract_repo_name_from_path
    repo_before_last_suffix best_marker before or_whole trim_prefix has_prefix
    split_repo_namespaced_name
parsers = tt

deep_manifest :
    extract_v2_repo_path (codes "/v2/a/manifests/b/manifests/v1") ≡ codes "a/manifests/b"
unfolding parsers
deep_manifest = refl

catalog : extract_v2_repo_path (codes "/v2/_catalog") ≡ []
unfolding parsers
catalog = refl

tags_named_repo : extract_repo_name_from_path (codes "team/tags/tags") ≡ codes "team/tags"
unfolding parsers
tags_named_repo = refl

no_pull_of_tags : v2_pull_resource_repo_path (codes "/v2/library/nginx/tags/list") ≡ []
unfolding parsers
no_pull_of_tags = refl

root_namespace : split_repo_namespaced_name (codes "nginx") ≡ ([], codes "nginx")
unfolding parsers
root_namespace = refl

extract_v2-manifest_url_example :
    (extract_v2_repo_path (manifest_url (codes "a/manifests/b") (codes "v1"))
      ≡ codes "a/manifests/b")
    × (v2_pull_resource_repo_path (manifest_url (codes "a/manifests/b") (codes "v1"))
        ≡ codes "a/manifests/b")
unfolding has_prefix
extract_v2-manifest_url_example =
    extract_v2-manifest_url (codes "a/manifests/b") (codes "v1") (cc) (omega arith) refl

pull_ne_extract-tags_list_example :
    (v2_pull_resource_repo_path (tags_list_url (codes "open")) ≡ codes "open")
    × (extract_v2_repo_path (tags_list_url (codes "open")) ≡ codes "open" ++ codes "/manifests/x")
unfolding has_prefix
pull_ne_extract-tags_list_example = pull_ne_extract-tags_list (codes "open") (cc) refl
