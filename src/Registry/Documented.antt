-- ===== src/Registry/Documented.antt =====
-- What the OCI distribution specification says of the calls that the collector makes.
use registry_ui_go.Base.{◌≡◌, ◌≢◌, Option, none, some, List, Text, In}
use registry_ui_go.Registry.{answered, refused, Client}

module _ {S : Type 0} (client : Client S) where
  -- Reading changes no tag. The list of tags has every tag, and is refused with 404 only for a
  -- repository without tags. Deleting a digest removes no tag that points at another digest or lies
  -- in another repository.
  pub record Documented (points_at : Text → Text → S → Option Text) : Type 0 where
    pub tags_reads :
        (repo other tag : Text) (s : S)
        → points_at other tag (client.tags repo s).1 ≡ points_at other tag s
    pub digest_reads :
        (repo ref other tag : Text) (s : S)
        → points_at other tag (client.digest repo ref s).1 ≡ points_at other tag s
    pub tags_complete :
        (repo tag digest : Text) (s : S) (tags : List Text)
        → points_at repo tag s ≡ some digest
        → (client.tags repo s).0 ≡ answered tags
        → In tag tags
    pub tags_missing :
        (repo tag : Text) (s : S)
        → (client.tags repo s).0 ≡ refused 404
        → points_at repo tag s ≡ none
    pub delete_other_digest :
        (repo digest tag pointed : Text) (s : S)
        → points_at repo tag s ≡ some pointed
        → digest ≢ pointed
        → points_at repo tag (client.delete_manifest repo digest s).1 ≡ some pointed
    pub delete_other_repo :
        (repo digest other tag : Text) (s : S)
        → repo ≢ other
        → points_at other tag (client.delete_manifest repo digest s).1 ≡ points_at other tag s
