-- ===== src/Policy/Keeping.antt =====
-- Every step of the PUT keeps what the field of another step shows.
use registry_ui_go.Base.{
  ℕ, ◌≡◌, refl, inl, inr, Bool, true, false, Option, none, some, [], ◌++◌, Text, codes, Bool-cases,
  any, text_eq, text_eq_instance, ℤ, itoa, subst,
}
use registry_ui_go.Store.{Db, Repository}
use registry_ui_go.Store.Run.{on, tick}
use registry_ui_go.Store.Settings.{valid_setting_value}
use registry_ui_go.Store.Repositories.{
  is_repo, set_column, set_repository_push_create, set_repository_anonymous_pull,
  set_repository_retention_keep_count,
}
use registry_ui_go.Policy.{
  parts, save_field, save_keep_count, save_flag, column_number, at_least_zero, push_code, bool_text,
}
use registry_ui_go.Policy.Saving.{Good, Shows, Spares}
use registry_ui_go.Policy.Reading.{save_field-Good, save_field-spares, tick-Good}

-- The later steps of the PUT keep what a field shows.
pub record Keeping (col : Repository → Option ℕ) (key : Text) (p : Text × Option Text) (c : ℕ)
    (v : Text) (d : Db) : Type 0 where
  pub good : Good d
  pub shows : Shows col key p c v d

Shows-tick :
    (col : Repository → Option ℕ) (key : Text) (p : Text × Option Text) (c : ℕ) (v : Text) (d : Db)
    → Shows col key p c v d
    → Shows col key p c v (tick d)
Shows-tick col key (ns, none) c v d h = h
Shows-tick col key (ns, some repo) c v d h = h

module _ (col : Repository → Option ℕ) (name : Text) (p : Text × Option Text) (key v : Text)
    (c : ℕ) where
  pub keep_field :
      (f : Repository → Repository) (other value : Text) (q : Text × Option Text) (d : Db)
      → Spares f col
      → ((w : Text) → valid_setting_value other w ≡ true)
      → text_eq other key ≡ false
      → Keeping col key p c v d
      → Keeping col key p c v (save_field (λ ns repo. set_column ns repo f) other value q d).1
  keep_field f other value q d s valid differs k = record {
    good = save_field-Good f other value q d k.good;
    shows = save_field-spares f col other value key q p c v d k.good s valid differs k.shows;
  }

  keep_tick : (d : Db) → Keeping col key p c v d → Keeping col key p c v (tick d)
  keep_tick d k = record { good = tick-Good d k.good; shows = Shows-tick col key p c v d k.shows }

  -- The keep count, saved in its own way.
  pub keep_keep_count :
      (n : ℤ) (q : Text × Option Text) (d : Db)
      → Spares (λ r. record r { retention_keep_count = column_number n }) col
      → ((w : Text) → valid_setting_value (codes "retention_keep_count:" ++ name) w ≡ true)
      → text_eq (codes "retention_keep_count:" ++ name) key ≡ false
      → Keeping col key p c v d
      → Keeping col key p c v (save_keep_count name n q d).1
  unfolding save_keep_count save_field on set_repository_retention_keep_count set_column
  keep_keep_count n (ns, none) d s valid differs k =
      keep_field (λ r. r) (codes "retention_keep_count:" ++ name) (itoa (at_least_zero n))
        (ns, none) d
        (record { same_namespace = λ r. refl; same_name = λ r. refl; same_column = λ r. refl })
        valid differs k
  keep_keep_count n (ns, some repo) d s valid differs k =
      elim (Bool-cases (any (is_repo d ns repo) d.repositories)) [
        | inl there ↦ subst (Keeping col key p c v) (rw (k.good.works d.clock) (rw there refl)) (
            keep_field (λ r. record r { retention_keep_count = column_number n })
              (codes "retention_keep_count:" ++ name) [] (ns, some repo) d s valid differs k)
        | inr missing ↦ rw (k.good.works d.clock) (rw missing (keep_tick d k))
      ]

  pub keep_flag_anonymous :
      (b : Option Bool) (d : Db)
      → ((b : Bool) → Spares (λ r. record r { anonymous_pull = b }) col)
      → ((w : Text) → valid_setting_value (codes "allow_anonymous_pull:" ++ name) w ≡ true)
      → text_eq (codes "allow_anonymous_pull:" ++ name) key ≡ false
      → Keeping col key p c v d
      → Keeping col key p c v
          (save_flag set_repository_anonymous_pull (codes "allow_anonymous_pull:") name b d).1
  unfolding save_flag set_repository_anonymous_pull
  keep_flag_anonymous none d s valid differs k = k
  keep_flag_anonymous (some b) d s valid differs k =
      keep_field (λ r. record r { anonymous_pull = b }) (codes "allow_anonymous_pull:" ++ name)
        (bool_text b) (parts name) d (s b) valid differs k

  pub keep_flag_push :
      (b : Option Bool) (d : Db)
      → ((b : Bool) → Spares (λ r. record r { push_create_repo = some (push_code b) }) col)
      → ((w : Text) → valid_setting_value (codes "push_create_repo:" ++ name) w ≡ true)
      → text_eq (codes "push_create_repo:" ++ name) key ≡ false
      → Keeping col key p c v d
      → Keeping col key p c v
          (save_flag
            (λ ns repo b. set_repository_push_create ns repo (some (push_code b)))
            (codes "push_create_repo:")
            name
            b
            d).1
  unfolding save_flag set_repository_push_create
  keep_flag_push none d s valid differs k = k
  keep_flag_push (some b) d s valid differs k =
      keep_field (λ r. record r { push_create_repo = some (push_code b) })
        (codes "push_create_repo:" ++ name) (bool_text b) (parts name) d (s b) valid differs k
