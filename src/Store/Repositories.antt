-- ===== src/Store/Repositories.antt =====
-- store.go: the namespaces and repositories tables. Names of namespaces are UNIQUE, and names of
-- repositories within their namespace.
use registry_ui_go.Base.{
  ℕ, ◌+◌, Bool, false, Option, none, some, [], ◌∷◌, ◌++◌, if◌then◌else◌, Text, ◌==◌,
  nat_eq_instance, text_eq_instance, ◌&&◌, not, any, find, update, keep,
}
use registry_ui_go.Store.{Db, no_rows, Result, ok, err, Namespace, Repository}
use registry_ui_go.Store.Run.{M, statement, query, execute, row, on, pure}

abbrev pub in_namespace : Option Namespace → Text → Repository → Bool
in_namespace none name r = false
in_namespace (some n) name r = r.namespace_id == n.id && r.name == name

-- `namespace_id=(SELECT id FROM namespaces WHERE name=?) AND name=?`
abbrev pub is_repo : Db → Text → Text → Repository → Bool
is_repo d ns name = in_namespace (find (λ n. n.name == ns) d.namespaces) name

unfoldable pub find_repo : Text → Text → Db → Option Repository
find_repo ns name d = find (is_repo d ns name) d.repositories

unfoldable pub get_repository_by_namespaced_name : Text → Text → M (Result Repository)
get_repository_by_namespaced_name ns name = query (λ d. row (find_repo ns name d))

-- One column of the row: the body of the four getters.
abbrev pub column {ℓ} : {A : Type ℓ} → (Repository → A) → Option Repository → Result A
column f none = err no_rows
column f (some r) = ok (f r)

unfoldable pub is_repo_anonymous_pull_allowed : Text → Text → M (Result Bool)
is_repo_anonymous_pull_allowed ns name =
    query (λ d. column (λ r. r.anonymous_pull) (find_repo ns name d))

unfoldable pub get_repo_push_create : Text → Text → M (Result (Option ℕ))
get_repo_push_create ns name = query (λ d. column (λ r. r.push_create_repo) (find_repo ns name d))

unfoldable pub get_repo_retention_keep_count : Text → Text → M (Result (Option ℕ))
get_repo_retention_keep_count ns name =
    query (λ d. column (λ r. r.retention_keep_count) (find_repo ns name d))

unfoldable pub get_repo_protection_mode : Text → Text → M (Result (Option ℕ))
get_repo_protection_mode ns name =
    query (λ d. column (λ r. r.protection_mode) (find_repo ns name d))

unfoldable pub get_repo_overwrite_action : Text → Text → M (Result (Option ℕ))
get_repo_overwrite_action ns name =
    query (λ d. column (λ r. r.overwrite_action) (find_repo ns name d))

-- The UPDATE of the five setters; no affected row is the error "repository not found".
unfoldable pub set_column : Text → Text → (Repository → Repository) → M (Result (Unit {0}))
set_column ns name f = statement λ d.
    if any (is_repo d ns name) d.repositories
    then ok (tt, record d { repositories = update (is_repo d ns name) f d.repositories })
    else err no_rows

unfoldable pub set_repository_anonymous_pull : Text → Text → Bool → M (Result (Unit {0}))
set_repository_anonymous_pull ns name v = set_column ns name (λ r. record r { anonymous_pull = v })

unfoldable pub set_repository_push_create : Text → Text → Option ℕ → M (Result (Unit {0}))
set_repository_push_create ns name v = set_column ns name (λ r. record r { push_create_repo = v })

unfoldable pub set_repository_retention_keep_count : Text → Text → Option ℕ → M (Result (Unit {0}))
set_repository_retention_keep_count ns name v =
    set_column ns name (λ r. record r { retention_keep_count = v })

unfoldable pub set_repository_protection_mode : Text → Text → Option ℕ → M (Result (Unit {0}))
set_repository_protection_mode ns name v =
    set_column ns name (λ r. record r { protection_mode = v })

unfoldable pub set_repository_overwrite_action : Text → Text → Option ℕ → M (Result (Unit {0}))
set_repository_overwrite_action ns name v =
    set_column ns name (λ r. record r { overwrite_action = v })

-- INSERT … ON CONFLICT DO NOTHING, then the row.
unfoldable pub insert_namespace : Text → M (Result (Unit {0}))
insert_namespace name = execute λ d.
    if any (λ n. n.name == name) d.namespaces then d else record d {
      namespaces = d.namespaces ++ record { id = d.next_namespace; name = name } ∷ [];
      next_namespace = d.next_namespace + 1;
    }

unfoldable pub get_namespace : Text → M (Result Namespace)
get_namespace name = query (λ d. row (find (λ n. n.name == name) d.namespaces))

unfoldable pub upsert_namespace : Text → M (Result Namespace)
upsert_namespace name = on (insert_namespace name) (λ e. pure (err e)) (λ _. get_namespace name)

abbrev pub has_name : ℕ → Text → Repository → Bool
has_name namespace_id name r = r.namespace_id == namespace_id && r.name == name

abbrev pub new_repository : ℕ → ℕ → Text → Repository
new_repository id namespace_id name = record {
  id = id;
  namespace_id = namespace_id;
  name = name;
  anonymous_pull = false;
  push_create_repo = none;
  retention_keep_count = none;
  protection_mode = none;
  overwrite_action = none;
}

unfoldable pub insert_repository : ℕ → Text → M (Result (Unit {0}))
insert_repository namespace_id name = execute λ d.
    if any (has_name namespace_id name) d.repositories then d else record d {
      repositories = d.repositories ++ new_repository d.next_repository namespace_id name ∷ [];
      next_repository = d.next_repository + 1;
    }

unfoldable pub get_repository_by_namespace_and_name : ℕ → Text → M (Result Repository)
get_repository_by_namespace_and_name namespace_id name =
    query (λ d. row (find (has_name namespace_id name) d.repositories))

unfoldable pub upsert_repository : ℕ → Text → M (Result Repository)
upsert_repository namespace_id name =
    on (insert_repository namespace_id name) (λ e. pure (err e))
      λ _. get_repository_by_namespace_and_name namespace_id name

-- The transaction of DeleteRepository: the images, then the repository.
unfoldable pub delete_repository : ℕ → M (Result (Unit {0}))
delete_repository id = execute λ d. record d {
  images = keep (λ i. not (i.repository_id == id)) d.images;
  repositories = keep (λ r. not (r.id == id)) d.repositories;
}
