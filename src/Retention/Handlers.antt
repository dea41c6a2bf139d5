-- ===== src/Retention/Handlers.antt =====
-- server.go: the request that removes what retention proposes, and the batch that a user selects.
use registry_ui_go.Base.{
  ℕ, zero, suc, Option, none, some, List, [], ◌∷◌, ◌++◌, Text, codes, ℤ, pos, negsuc,
  text_eq_instance,
}
use registry_ui_go.Store.{Db, User, Image, Result, ok, err}
use registry_ui_go.Store.Run.{M, pure, add_audit, ◌>>=◌}
use registry_ui_go.Store.Images.{list_images_by_repo}
use registry_ui_go.Http.{Response, reply, audit}
use registry_ui_go.Registry.{Answer, answered, Client}
use registry_ui_go.Deletion.Records.{TagDelete, resolve_rid}
use registry_ui_go.Deletion.Snapshot.{ImageSize}
use registry_ui_go.Deletion.{delete_tags_aware}
use registry_ui_go.Retention.{Group, retention_candidates}

-- `append(allCandidateTags, c.Tags...)`
unfoldable pub tags_of : List Group → List Text
tags_of [] = []
tags_of (g ∷ groups) = g.tags ++ tags_of groups

-- `images, _ := s.store.ListImagesByRepo(…)`
abbrev pub images_or_none : Result (List Image) → List Image
images_or_none (ok images) = images
images_or_none (err e) = []

unfoldable pub candidates_of : (List Group → List Group) → ℤ → List Text → ℕ → M (List Text)
candidates_of order keep_count listed zero = pure []
candidates_of order keep_count listed (suc n) =
    list_images_by_repo (suc n)
    >>= (λ r. pure (tags_of (retention_candidates order (images_or_none r) keep_count listed)))

-- The tags that a run with the listed tags removes.
unfoldable pub candidate_tags : (List Group → List Group) → Text → ℤ → List Text → M (List Text)
candidate_tags order repo keep_count listed =
    resolve_rid repo >>= candidates_of order keep_count listed

module _ {S : Type 0} (client : Client S) (image_size : ImageSize S)
    (order : List Group → List Group) (caller : Option User) (repo : Text) where
  -- Nothing is called for an empty list.
  unfoldable pub delete_any : List Text → Db × S → (List TagDelete × ℕ) × (Db × S)
  delete_any [] w = (([], 0), w)
  delete_any (tag ∷ tags) w = delete_tags_aware client repo image_size caller (tag ∷ tags) w

  unfoldable pub run_listed : ℤ → Answer (List Text) → Db × S → Response × (Db × S)
  run_listed keep_count (answered listed) w =
      let found = candidate_tags order repo keep_count listed w.0 in
      let done = delete_any found.0 (found.1, w.1) in
      let noted =
        add_audit (audit caller (codes "retention.run") repo [] [] (codes "ok")) done.1.0 in
      (reply 200 [], (noted.1, done.1.1))
  run_listed keep_count _ w = (reply 502 (codes "error"), w)

  unfoldable pub run_with : ℤ → Db × S → Response × (Db × S)
  run_with keep_count w = let r = client.tags repo w.1 in run_listed keep_count r.0 (w.0, r.1)

  -- A count that is not positive removes nothing, and leaves no audit entry.
  unfoldable pub run_counted : ℤ → Db × S → Response × (Db × S)
  run_counted (negsuc n) w = (reply 200 [], w)
  run_counted (pos zero) w = (reply 200 [], w)
  run_counted (pos (suc n)) w = run_with (pos (suc n)) w

  -- handleRetentionRun, from the decoded body on
  unfoldable pub handle_retention_run : Option ℤ → Db × S → Response × (Db × S)
  handle_retention_run none w = (reply 400 (codes "error"), w)
  handle_retention_run (some keep_count) w = run_counted keep_count w

-- handleBatchDelete
unfoldable pub handle_batch_delete :
    {S : Type 0}
    → Client S
    → ImageSize S
    → Option User
    → Text
    → Option (List Text)
    → Db × S
    → Response × (Db × S)
handle_batch_delete client image_size caller repo none w = (reply 400 (codes "error"), w)
handle_batch_delete client image_size caller repo (some tags) w =
    (reply 200 [], (delete_tags_aware client repo image_size caller tags w).1)
