-- ===== src/Deletion/Resolving.antt =====
-- Resolving the name of a repository keeps whatever its four statements keep.
use registry_ui_go.Base.{ℕ, Text, cut}
use registry_ui_go.Store.{Db, err, ok}
use registry_ui_go.Store.Run.{on, pure, Keeps, Keeps-pure, Keeps-bind, Keeps-on}
use registry_ui_go.Store.Repositories.{
  insert_namespace, get_namespace, upsert_namespace, insert_repository, upsert_repository,
  get_repository_by_namespace_and_name,
}
use registry_ui_go.Deletion.Records.{resolve_repo, resolve_rid, namespaced, id_or_zero}

module _ {κ} (P : Db → Type κ) (inserts_namespace : (name : Text) → Keeps P (insert_namespace name))
    (gets_namespace : (name : Text) → Keeps P (get_namespace name))
    (inserts_repository : (id : ℕ) (name : Text) → Keeps P (insert_repository id name))
    (gets_repository : (id : ℕ) (name : Text)
      → Keeps P (get_repository_by_namespace_and_name id name)) where
  upsert_namespace-Keeps : (name : Text) → Keeps P (upsert_namespace name)
  unfolding upsert_namespace
  upsert_namespace-Keeps name =
      Keeps-on P (insert_namespace name) (λ e. pure (err e)) (λ _. get_namespace name)
        (inserts_namespace name) (λ e. Keeps-pure P (err e)) (λ _. gets_namespace name)

  upsert_repository-Keeps : (id : ℕ) (name : Text) → Keeps P (upsert_repository id name)
  unfolding upsert_repository
  upsert_repository-Keeps id name =
      Keeps-on P (insert_repository id name) (λ e. pure (err e))
        (λ _. get_repository_by_namespace_and_name id name) (inserts_repository id name)
        (λ e. Keeps-pure P (err e)) (λ _. gets_repository id name)

  pub resolve_rid-Keeps : (name : Text) → Keeps P (resolve_rid name)
  unfolding resolve_rid resolve_repo
  resolve_rid-Keeps name =
      Keeps-bind P (resolve_repo name) (λ r. pure (id_or_zero r))
        (Keeps-on P (upsert_namespace (namespaced (cut b'/' name)).0) (λ e. pure (err e))
          (λ ns.
            on (upsert_repository ns.id (namespaced (cut b'/' name)).1) (λ e. pure (err e))
              (λ repo. pure (ok repo.id)))
          (upsert_namespace-Keeps (namespaced (cut b'/' name)).0) (λ e. Keeps-pure P (err e))
          λ ns.
            Keeps-on P (upsert_repository ns.id (namespaced (cut b'/' name)).1) (λ e. pure (err e))
              (λ repo. pure (ok repo.id))
              (upsert_repository-Keeps ns.id (namespaced (cut b'/' name)).1)
              (λ e. Keeps-pure P (err e)) (λ repo. Keeps-pure P (ok repo.id)))
        (λ r. Keeps-pure P (id_or_zero r))
