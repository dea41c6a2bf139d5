-- ===== src/Policy/Reading.antt =====
-- Saving a field makes it show, saving another leaves it, and reading it gives what shows.
use registry_ui_go.Base.{
  ℕ, ◌≡◌, refl, ◌∙◌, inl, inr, true, false, Option, none, some, [], Text, text_eq, text_eq_instance,
  text_eq_refl,
}
use registry_ui_go.Store.{Db, Repository}
use registry_ui_go.Store.Run.{tick}
use registry_ui_go.Store.Settings.{set_setting, valid_setting_value}
use registry_ui_go.Store.Settings.Cache.{set_setting_settings}
use registry_ui_go.Store.Repositories.{is_repo, set_column, column}
use registry_ui_go.Policy.{save_field, set_code}
use registry_ui_go.Policy.Saving.{
  Good, flat, code_at, setting_at, Shows, Spares, with_rows, is_repo-f, find-update, find_updated,
  find_missing, code_at-set_setting, set_setting-Good, save_field_rule,
}

rows-Good :
    (ns repo : Text) (f : Repository → Repository) (d : Db) → Good d → Good (with_rows ns repo f d)
rows-Good ns repo f d g = record {
  works = g.works;
  coherent = record { at_key = g.coherent.at_key };
}

pub tick-Good : (d : Db) → Good d → Good (tick d)
tick-Good d g = record { works = g.works; coherent = record { at_key = g.coherent.at_key } }

pub save_field-Good :
    (f : Repository → Repository) (key value : Text) (p : Text × Option Text) (d : Db)
    → Good d
    → Good (save_field (λ ns repo. set_column ns repo f) key value p d).1
save_field-Good f key value p d g =
    save_field_rule Good f key value p d g
      (λ ns repo e there. set_setting-Good key [] _ (rows-Good ns repo f d g))
      (λ ns repo e missing. set_setting-Good key value _ (tick-Good d g))
      (λ ns e. set_setting-Good key value d g)

code_at-rows :
    (f : Repository → Repository) (col : Repository → Option ℕ) (ns repo : Text)
    (p : Text × Option Text) (d : Db)
    → Spares f col
    → code_at col p (with_rows ns repo f d) ≡ code_at col p d
code_at-rows f col ns repo (ns', none) d s = refl
code_at-rows f col ns repo (ns', some repo') d s =
    find-update f col (is_repo d ns' repo') (is_repo d ns repo) d.repositories
      (λ r. is_repo-f f col _ repo' r s) (λ r. s.same_column r)

-- A step that keeps the code and the setting keeps what shows.
Shows-same :
    (col : Repository → Option ℕ) (key : Text) (p : Text × Option Text) (c : ℕ) (v : Text)
    (d e : Db)
    → code_at col p e ≡ code_at col p d
    → setting_at key e ≡ setting_at key d
    → Shows col key p c v d
    → Shows col key p c v e
Shows-same col key p c v d e h k (inl x) = inl (h ∙ x)
Shows-same col key p c v d e h k (inr (x, y)) = inr (h ∙ x, k ∙ y)

other_setting :
    (key value j : Text) (d : Db)
    → Good d
    → valid_setting_value key value ≡ true
    → text_eq key j ≡ false
    → setting_at j (set_setting key value d).1 ≡ setting_at j d
other_setting key value j d g valid differs =
    set_setting_settings key value d j (g.works d.clock) (inr valid) ∙ (rw differs refl)

pub save_field-spares :
    (f : Repository → Repository) (col : Repository → Option ℕ) (key value j : Text)
    (p q : Text × Option Text) (c : ℕ) (v : Text) (d : Db)
    → Good d
    → Spares f col
    → ((w : Text) → valid_setting_value key w ≡ true)
    → text_eq key j ≡ false
    → Shows col j q c v d
    → Shows col j q c v (save_field (λ ns repo. set_column ns repo f) key value p d).1
save_field-spares f col key value j p q c v d g s valid differs h =
    save_field_rule (Shows col j q c v) f key value p d g
      (λ ns repo e there.
        Shows-same col j q c v d _
          (code_at-set_setting col q key [] (with_rows ns repo f d)
            ∙ code_at-rows f col ns repo q d s)
          (other_setting key [] j (with_rows ns repo f d) (rows-Good ns repo f d g) (valid [])
            differs)
          h)
      (λ ns repo e missing.
        Shows-same col j q c v d _ (code_at-set_setting col q key value (tick d) ∙ tick_code q)
          (other_setting key value j (tick d) (tick-Good d g) (valid value) differs) h)
      (λ ns e.
        Shows-same col j q c v d _ (code_at-set_setting col q key value d)
          (other_setting key value j d g (valid value) differs) h)
  where
    tick_code : (q : Text × Option Text) → code_at col q (tick d) ≡ code_at col q d
    tick_code (ns, none) = refl
    tick_code (ns, some repo) = refl

same_setting :
    (key value : Text) (d : Db)
    → Good d
    → valid_setting_value key value ≡ true
    → setting_at key (set_setting key value d).1 ≡ value
same_setting key value d g valid =
    set_setting_settings key value d key (g.works d.clock) (inr valid) ∙ rw (text_eq_refl key) refl

pub save_field-Shows :
    (f : Repository → Repository) (col : Repository → Option ℕ) (key value : Text)
    (p : Text × Option Text) (c : ℕ) (d : Db)
    → Good d
    → Spares f (λ r. none)
    → ((r : Repository) → col (f r) ≡ some c)
    → ((w : Text) → valid_setting_value key w ≡ true)
    → Shows col key p c value (save_field (λ ns repo. set_column ns repo f) key value p d).1
save_field-Shows f col key value p c d g s sets valid =
    save_field_rule (Shows col key p c value) f key value p d g
      (λ ns repo e there. inl (
        code_at-set_setting col p key [] (with_rows ns repo f d)
        ∙ rw e (
            find_updated f col c (is_repo d ns repo) d.repositories
              (λ r. is_repo-f f (λ r. none) _ repo r s) sets there)))
      (λ ns repo e missing. inr (
        code_at-set_setting col p key value (tick d)
            ∙ rw e (find_missing col (is_repo d ns repo) d.repositories missing),
        same_setting key value (tick d) (tick-Good d g) (valid value),
      ))
      (λ ns e. inr (
        code_at-set_setting col p key value d ∙ rw e refl,
        same_setting key value d g (valid value),
      ))

pub flat-column :
    (col : Repository → Option ℕ) (o : Option Repository) → set_code (column col o) ≡ flat col o
flat-column col none = refl
flat-column col (some r) = refl
