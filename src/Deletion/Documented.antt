-- ===== src/Deletion/Documented.antt =====
-- What the distribution specification says of the further calls that the deletion of tags makes.
use registry_ui_go.Base.{ℕ, ◌≡◌, ◌≢◌, Option, some, Text}
use registry_ui_go.Registry.{answered, refused, Manifest, Client}
use registry_ui_go.Registry.Documented.{Documented}

module _ {S : Type 0} (client : Client S) where
  -- `content` is the digest of a manifest's bytes. Reading a manifest changes no tag, and one that is
  -- read by the digest of a tag has that digest. Pushing a manifest under a tag makes the tag point
  -- at it, and moves no other tag. A deletion that is refused removes nothing.
  pub record PushDocumented (points_at : Text → Text → S → Option Text) (content : Text → Text)
      : Type 0 where
    pub common : Documented client points_at
    pub raw_reads :
        (repo ref other tag : Text) (s : S)
        → points_at other tag (client.manifest_raw repo ref s).1 ≡ points_at other tag s
    pub raw_content :
        (repo tag digest : Text) (s : S) (raw : Manifest)
        → points_at repo tag s ≡ some digest
        → (client.manifest_raw repo digest s).0 ≡ answered raw
        → content raw.body ≡ digest
    pub put_sets :
        (repo tag content_type body : Text) (s : S)
        → (client.put_manifest repo tag content_type body s).0 ≡ answered tt
        → points_at repo tag (client.put_manifest repo tag content_type body s).1
          ≡ some (content body)
    pub put_others :
        (repo tag other content_type body : Text) (s : S)
        → tag ≢ other
        → points_at repo other (client.put_manifest repo tag content_type body s).1
          ≡ points_at repo other s
    pub refused_deletes :
        (repo digest other tag : Text) (status : ℕ) (s : S)
        → (client.delete_manifest repo digest s).0 ≡ refused status
        → points_at other tag (client.delete_manifest repo digest s).1 ≡ points_at other tag s
