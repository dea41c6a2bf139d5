-- ===== src/Deletion/Table.antt =====
-- The small registry behaves as documented for pushes too.
use registry_ui_go.Base.{ℕ, ◌≡◌, refl, ◌≢◌, some, [], Text, arith, find, text_eq_iff, text_eq_refl}
use registry_ui_go.Registry.{Answer, answered, refused, Manifest}
use registry_ui_go.Registry.Table.{Tags, table_client, table_points_at, table_client-Documented}
use registry_ui_go.Deletion.Documented.{PushDocumented}
use registry_ui_go.Deletion.Snapshot.{ImageSize}

-- A manifest of the table is its digest.
abbrev pub as_content : Text → Text
as_content body = body

put_sets_lem :
    (repo tag content_type body : Text) (s : Tags)
    → table_points_at repo tag (table_client.put_manifest repo tag content_type body s).1
      ≡ some body
unfolding find
put_sets_lem repo tag content_type body s = rw (text_eq_refl repo, text_eq_refl tag) refl

put_others_lem :
    (repo tag other content_type body : Text) (s : Tags)
    → tag ≢ other
    → table_points_at repo other (table_client.put_manifest repo tag content_type body s).1
      ≡ table_points_at repo other s
unfolding find
put_others_lem repo tag other content_type body s n = ground (arith, text_eq_iff tag other)

raw_lem :
    (ref : Text) (raw : Manifest) (s : Tags)
    → (table_client.manifest_raw [] ref s).0 ≡ answered raw
    → raw.body ≡ ref
raw_lem ref raw s e = cc

never_refused : (status : ℕ) (a : Answer (Unit {0})) → a ≡ answered tt → a ≢ refused status
never_refused status a h e = cc

pub table_client-PushDocumented : PushDocumented table_client table_points_at as_content
table_client-PushDocumented = record {
  common = table_client-Documented;
  raw_reads = λ repo ref other tag s. refl;
  raw_content = λ repo tag digest s raw h e. raw_lem digest raw s e;
  put_sets = λ repo tag content_type body s e. put_sets_lem repo tag content_type body s;
  put_others =
      λ repo tag other content_type body s n. put_others_lem repo tag other content_type body s n;
  refused_deletes =
      λ repo digest other tag status s e. absurd (never_refused status (answered tt) refl e);
}

abbrev pub no_size : ImageSize Tags
no_size repo body s = (0, s)
