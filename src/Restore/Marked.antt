-- ===== src/Restore/Marked.antt =====
-- The rows of a restored item stay marked.
use registry_ui_go.Base.{
  ℕ, zero, suc, ◌≡◌, refl, inl, inr, Bool, false, Option, some, List, [], ◌∷◌, if_cases, Text,
  Bool-cases, ◌==◌, nat_eq_instance, ◌&&◌, not, any, update, arith, text_eq_instance,
}
use registry_ui_go.Store.{Db, User, Result, ok, RecycleItem, Audit, Status}
use registry_ui_go.Store.Run.{add_audit, ◌>>=◌, Keeps, Keeps-pure, Keeps-bind}
use registry_ui_go.Store.Recycle.{is_restored, mark_recycle_restored}
use registry_ui_go.Store.Repositories.{
  insert_namespace, get_namespace, insert_repository, get_repository_by_namespace_and_name,
}
use registry_ui_go.Store.Images.{sync_image}
use registry_ui_go.Deletion.Records.{resolve_rid}
use registry_ui_go.Deletion.Resolving.{resolve_rid-Keeps}
use registry_ui_go.Registry.{Client}
use registry_ui_go.Restore.{sync_restored}

-- Every row of the item is marked as restored.
abbrev pub AllRestored : ℕ → List RecycleItem → Type 0
AllRestored id bin = any (λ i. i.id == id && not (is_restored i.status)) bin ≡ false

update-AllRestored :
    (id now : ℕ) (bin : List RecycleItem)
    → AllRestored id (
        update
          (λ i. i.id == id)
          (λ i. record i { status = Status.restored; restored_at = some now })
          bin)
unfolding any update
update-AllRestored id now [] = refl
update-AllRestored id now (i ∷ bin) = elim (Bool-cases (i.id == id)) [
  | inl hit ↦ rw hit (rw hit (update-AllRestored id now bin))
  | inr miss ↦ rw miss (rw miss (update-AllRestored id now bin))
]

module _ (id : ℕ) where
  abbrev pub Marked : Db → Type 0
  Marked d = AllRestored id d.recycle_bin

  pub mark-Marked :
      (d : Db) → (mark_recycle_restored id d).0 ≡ ok tt → Marked (mark_recycle_restored id d).1
  unfolding mark_recycle_restored
  mark-Marked d =
      if_cases (λ (r : Result (Unit {0}) × Db). r.0 ≡ ok tt → Marked r.1) (d.fails d.clock) _ _
        (λ _ e. cc) (λ _ e. update-AllRestored id d.now d.recycle_bin)

  insert_namespace-Marked : (name : Text) → Keeps Marked (insert_namespace name)
  unfolding insert_namespace
  insert_namespace-Marked name = record { at = λ d h. ground arith }

  get_namespace-Marked : (name : Text) → Keeps Marked (get_namespace name)
  unfolding get_namespace
  get_namespace-Marked name = record { at = λ d h. ground arith }

  insert_repository-Marked : (n : ℕ) (name : Text) → Keeps Marked (insert_repository n name)
  unfolding insert_repository
  insert_repository-Marked n name = record { at = λ d h. ground arith }

  get_repository-Marked :
      (n : ℕ) (name : Text) → Keeps Marked (get_repository_by_namespace_and_name n name)
  unfolding get_repository_by_namespace_and_name
  get_repository-Marked n name = record { at = λ d h. ground arith }

  pub add_audit-Marked : (a : Audit) → Keeps Marked (add_audit a)
  unfolding add_audit
  add_audit-Marked a = record { at = λ d h. ground arith }

  sync_restored-Marked :
      {S : Type 0} (client : Client S) (blob_unknown : S → Bool) (user : Option User)
      (item : RecycleItem) (rid : ℕ)
      → Keeps Marked (sync_restored client blob_unknown user item rid)
  unfolding sync_restored sync_image
  sync_restored-Marked client blob_unknown user item zero = Keeps-pure Marked (ok tt)
  sync_restored-Marked client blob_unknown user item (suc n) = record { at = λ d h. ground arith }

  pub resolved-Marked :
      {S : Type 0} (client : Client S) (blob_unknown : S → Bool) (user : Option User)
      (item : RecycleItem)
      → Keeps Marked (resolve_rid item.repo >>= sync_restored client blob_unknown user item)
  resolved-Marked client blob_unknown user item =
      Keeps-bind Marked (resolve_rid item.repo) (sync_restored client blob_unknown user item)
        (resolve_rid-Keeps Marked insert_namespace-Marked get_namespace-Marked
          insert_repository-Marked get_repository-Marked item.repo)
        (sync_restored-Marked client blob_unknown user item)
