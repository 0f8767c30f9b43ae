-- ===== src/Durable.antt =====
-- `writeDurable` and `syncDir` of pkg/plugins/sistatement/seq_dir.go, over a file that the system may
-- lose the last renames of. Which system calls fail is a parameter.
use mathlib.Core.Path.{subst⁻¹}
use housegate.Base.{
  ◌≡◌, ◌⊎◌, inl, inr, Bool, true, not, Option, none, some, List, [], ◌∷◌, arith, if◌then◌else◌, All,
}

-- Which system calls of one durable write succeed.
pub record Faults : Type 0 where
  pub opens : Bool
  pub writes : Bool
  pub syncs : Bool
  pub closes : Bool
  pub renames : Bool
  pub dir_opens : Bool
  pub dir_syncs : Bool
  pub dir_closes : Bool

abbrev pub no_faults : Faults
no_faults = record {
  opens = true;
  writes = true;
  syncs = true;
  closes = true;
  renames = true;
  dir_opens = true;
  dir_syncs = true;
  dir_closes = true;
}

pub data WriteError : Type 0 where
  open_tmp write_tmp fsync_tmp close_tmp rename_tmp open_dir fsync_dir close_dir : WriteError
  fsync_and_close_dir : WriteError

-- A path as readers see it, and the earlier contents that a crash may bring back because no
-- directory fsync has followed the renames. `none` is an absent file.
pub record File {ℓ} (A : Type ℓ) : Type ℓ where
  pub visible : Option A
  pub stale : List (Option A)

-- What a restart may read: after a crash any of these, without a crash the first.
abbrev pub candidates {ℓ} : {A : Type ℓ} → File A → List (Option A)
candidates f = f.visible ∷ f.stale

module _ {ℓ} {A : Type ℓ} where
  -- The two errors of `syncDir` are joined; the fsync decides what a crash may undo.
  sync_dir : Faults → File A → File A × Option WriteError
  sync_dir s f =
      if not s.dir_opens
      then (f, some open_dir)
      else if s.dir_syncs
      then (record f { stale = [] }, if s.dir_closes then none else some close_dir)
      else (f, if s.dir_closes then some fsync_dir else some fsync_and_close_dir)

  -- The temporary file is written whole and synced before the rename, so no reader ever sees a part
  -- of the new content.
  unfoldable pub write_durable : Faults → File A → A → File A × Option WriteError
  unfolding sync_dir
  write_durable s f a =
      if not s.opens
      then (f, some open_tmp)
      else if not s.writes
      then (f, some write_tmp)
      else if not s.syncs
      then (f, some fsync_tmp)
      else if not s.closes
      then (f, some close_tmp)
      else if not s.renames
      then (f, some rename_tmp)
      else sync_dir s (record { visible = some a; stale = candidates f })

  -- A write that reports success leaves one thing to read, with or without a crash.
  pub write_durable-candidates :
      (s : Faults) (f : File A) (a : A)
      → (write_durable s f a).1 ≡ none
      → candidates (write_durable s f a).0 ≡ some a ∷ []
  unfolding write_durable
  write_durable-candidates s f a h = ground arith

  -- A write that reports an error has changed nothing, or shows the new content above the old ones,
  -- or shows only the new content.
  pub write_durable-cases :
      (s : Faults) (f : File A) (a : A)
      → ((write_durable s f a).0 ≡ f)
        ⊎ ((write_durable s f a).0 ≡ record { visible = some a; stale = candidates f })
        ⊎ ((write_durable s f a).0 ≡ record { visible = some a; stale = [] })
  unfolding write_durable
  write_durable-cases s f a = ground arith

  pub write_durable-All {κ} :
      (P : Option A → Type κ) (s : Faults) (f : File A) (a : A)
      → All P (candidates f)
      → P (some a)
      → All P (candidates (write_durable s f a).0)
  write_durable-All P s f a old new = elim (write_durable-cases s f a) [
    | inl e ↦ subst_file e old
    | inr (inl e) ↦ subst_file e (new, old)
    | inr (inr e) ↦ subst_file e (new, tt)
  ]
    where
      subst_file : {g h : File A} → g ≡ h → All P (candidates h) → All P (candidates g)
      subst_file e p = subst⁻¹ (λ x. All P (candidates x)) e p

  -- After a write that reports success only the new content has to satisfy what readers rely on.
  pub write_durable-All_new {κ} :
      (P : Option A → Type κ) (s : Faults) (f : File A) (a : A)
      → (write_durable s f a).1 ≡ none
      → P (some a)
      → All P (candidates (write_durable s f a).0)
  write_durable-All_new P s f a e new =
      subst⁻¹ (λ x. All P x) (write_durable-candidates s f a e) (new, tt)
