-- ===== src/Registry/Table.antt =====
-- A registry that keeps its tags in one list, to try the client's users on: repository, tag, digest.
use registry_ui_go.Base.{
  ◌≡◌, refl, ◌≢◌, inl, inr, Bool, Option, none, some, List, [], ◌∷◌, Text, arith, Bool-cases,
  text_eq_instance, text_eq, text_eq_iff, ◌&&◌, not, find, keep, In, map, sym, subst,
}
use registry_ui_go.Registry.{Answer, answered, refused, Client}
use registry_ui_go.Registry.Documented.{Documented}

pub record Entry : Type 0 where
  pub repo : Text
  pub tag : Text
  pub digest : Text

abbrev pub Tags : Type 0
Tags = List Entry

abbrev pub pointed : Option Entry → Option Text
pointed none = none
pointed (some e) = some e.digest

abbrev pub is_tag : Text → Text → Entry → Bool
is_tag repo tag e = text_eq e.repo repo && text_eq e.tag tag

abbrev pub table_points_at : Text → Text → Tags → Option Text
table_points_at repo tag s = pointed (find (is_tag repo tag) s)

abbrev digest_answer : Option Text → Answer Text
digest_answer none = refused 404
digest_answer (some d) = answered d

abbrev tags_in : Text → Tags → List Text
tags_in repo s = map (λ e. e.tag) (keep (λ e. text_eq e.repo repo) s)

abbrev without : Text → Text → Tags → Tags
without repo digest s = keep (λ e. not (text_eq e.repo repo && text_eq e.digest digest)) s

abbrev pub table_client : Client Tags
table_client = record {
  tags = λ repo s. (answered (tags_in repo s), s);
  digest = λ repo ref s. (digest_answer (table_points_at repo ref s), s);
  manifest_raw =
      λ repo ref s. (answered (record { digest = ref; content_type = []; body = ref }), s);
  delete_manifest = λ repo digest s. (answered tt, without repo digest s);
  put_manifest = λ repo ref content_type body s.
      (answered tt, record { repo = repo; tag = ref; digest = body } ∷ s);
}

tags_in_complete :
    (repo tag digest : Text) (s : Tags)
    → table_points_at repo tag s ≡ some digest
    → In tag (tags_in repo s)
unfolding find keep
tags_in_complete repo tag digest [] h = cc
tags_in_complete repo tag digest (e ∷ s) h = elim (Bool-cases (text_eq e.repo repo)) [
  | inr away ↦ ground (arith, tags_in_complete repo tag digest s)
  | inl here ↦ elim (Bool-cases (text_eq e.tag tag)) [
    | inl hit ↦ rw here (inl (sym ((text_eq_iff e.tag tag).0 hit)))
    | inr miss ↦ rw here (inr (tags_in_complete repo tag digest s (ground arith)))
  ]
]

without_other_digest :
    (repo digest tag other : Text) (s : Tags)
    → table_points_at repo tag s ≡ some other
    → digest ≢ other
    → table_points_at repo tag (without repo digest s) ≡ some other
unfolding find keep
without_other_digest repo digest tag other [] h n = h
without_other_digest repo digest tag other (e ∷ s) h n =
    ground (arith, without_other_digest repo digest tag other s, text_eq_iff e.digest digest)

without_other_repo :
    (repo digest other tag : Text) (s : Tags)
    → repo ≢ other
    → table_points_at other tag (without repo digest s) ≡ table_points_at other tag s
unfolding find keep
without_other_repo repo digest other tag [] n = refl
without_other_repo repo digest other tag (e ∷ s) n = ground (
  arith,
  without_other_repo repo digest other tag s,
  text_eq_iff e.repo repo,
  text_eq_iff e.repo other,
)

answered_tags : {A : Type 0} (x y : A) → answered x ≡ answered y → x ≡ y
answered_tags x y h = cc

pub table_client-Documented : Documented table_client table_points_at
table_client-Documented = record {
  tags_reads = λ repo other tag s. refl;
  digest_reads = λ repo ref other tag s. refl;
  tags_complete = λ repo tag digest s tags h same.
      subst (λ ts. In tag ts) (answered_tags (tags_in repo s) tags same)
        (tags_in_complete repo tag digest s h);
  tags_missing = λ repo tag s h. cc;
  delete_other_digest =
      λ repo digest tag other s h n. without_other_digest repo digest tag other s h n;
  delete_other_repo = λ repo digest other tag s n. without_other_repo repo digest other tag s n;
}

pub table_reads :
    (repo tag digest : Text) (s : Tags)
    → table_points_at repo tag s ≡ some digest
    → (table_client.digest repo tag s).0 ≡ answered digest
table_reads repo tag digest s h = rw h
