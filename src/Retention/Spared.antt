-- ===== src/Retention/Spared.antt =====
-- What a retention run leaves alone.
use registry_ui_go.Base.{
  ℕ, suc, ◌≡◌, ◌∙◌, false, Option, some, List, [], ◌∷◌, Text, pos, contains, text_eq_instance, ◌≢◌,
}
use registry_ui_go.Store.{Db, User}
use registry_ui_go.Registry.{answered, unreachable, Client}
use registry_ui_go.Deletion.Snapshot.{ImageSize}
use registry_ui_go.Deletion.Documented.{PushDocumented}
use registry_ui_go.Deletion.Survivors.{delete_tags_aware_spares}
use registry_ui_go.Retention.{Group}
use registry_ui_go.Retention.Handlers.{
  candidate_tags, delete_any, run_listed, run_with, run_counted, handle_retention_run,
}

module _ {S : Type 0} (client : Client S) (points_at : Text → Text → S → Option Text)
    (content : Text → Text) (doc : PushDocumented client points_at content)
    (image_size : ImageSize S)
    (size_reads : (repo body other tag : Text) (s : S)
      → points_at other tag (image_size repo body s).1 ≡ points_at other tag s)
    (repo tag digest : Text)
    (reads : (s : S)
      → points_at repo tag s ≡ some digest
      → (client.digest repo tag s).0 ≡ answered digest)
    (puts : (content_type body : Text) (s : S)
      → (client.put_manifest repo tag content_type body s).0 ≡ answered tt)
    (heard : (d : Text) (s : S) → (client.delete_manifest repo d s).0 ≢ unreachable)
    (lists : (s : S) → (ts : List Text) × ((client.tags repo s).0 ≡ answered ts))
    (order : List Group → List Group) (caller : Option User) where
  delete_any_lem :
      (tags : List Text) (w : Db × S)
      → contains tags tag ≡ false
      → points_at repo tag w.1 ≡ some digest
      → points_at repo tag (delete_any client image_size order caller repo tags w).1.1 ≡ some digest
  unfolding delete_any
  delete_any_lem [] w n h = h
  delete_any_lem (t ∷ tags) w n h =
      let (ts, e) = lists w.1 in
      delete_tags_aware_spares client points_at content doc image_size size_reads repo tag digest
        reads puts heard caller (t ∷ tags) ts w n e h

  -- The client behaving as the distribution specification documents it, its answers coming as they do
  -- for the deletion of tags: a retention run leaves every tag that is not among the tags of its
  -- candidates pointing at its digest, in whatever order the map of groups is gone through.
  pub handle_retention_run_spares :
      (keep_count : ℕ) (listed : List Text) (w : Db × S)
      → (client.tags repo w.1).0 ≡ answered listed
      → contains (candidate_tags order repo (pos (suc keep_count)) listed w.0).0 tag ≡ false
      → points_at repo tag w.1 ≡ some digest
      → points_at repo tag
          (handle_retention_run client image_size order caller repo
            (some (pos (suc keep_count)))
            w).1.1
        ≡ some digest
  unfolding handle_retention_run run_counted run_with run_listed
  handle_retention_run_spares keep_count listed w e n h = rw e (
      delete_any_lem (candidate_tags order repo (pos (suc keep_count)) listed w.0).0
        ((candidate_tags order repo (pos (suc keep_count)) listed w.0).1, (client.tags repo w.1).1)
        n (doc.common.tags_reads repo repo tag w.1 ∙ h))
