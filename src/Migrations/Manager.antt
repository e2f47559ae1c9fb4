-- ===== src/Migrations/Manager.antt =====
-- The methods of `Manager` in internal/migrations/migrations.go. The schema is of a type `Schema`, and what
-- the database makes of it by a text of SQL, or that it refuses the text, is the parameter
-- `execute`. Versions are natural numbers. `fails k` says that the k-th statement of the call fails
-- otherwise, Begin and Commit included; in a loop `fails j k` is for its j-th turn.
use Prim.Native.String.{String}
use text.Mathlib.Text.{◌==◌ as str_eq}
use tonkey.Prelude.{
  ℕ, suc, Bool, ◌||◌, ◌&&◌, Option, none, some, List, [], ◌∷◌, ◌++◌, ◌==◌, ltb, leb, if◌then◌else◌,
  is_some, Action, Result, ok, err, panic, pure, modify, gets, or_raise, raise_if, exec,
  transaction, ◌>>=◌, ◌>>◌,
}
use tonkey.Prelude.Int.{ℤ}
use tonkey.Table.{select, select_first, delete_where}
use tonkey.Table.Keys.{has_key}
use tonkey.Table.Order.{order_by}

pub data Error : Type 0 where
  no_migrations migration_not_found : Error
  -- what the driver reports
  database : Error

pub record Migration : Type 0 where
  pub version : ℕ
  pub name : String
  pub up : String
  pub down : String

-- A row of `schema_migrations`.
pub record Applied : Type 0 where
  pub version : ℕ
  pub name : String
  pub applied_at : ℤ

-- The database, and the slice of the manager.
pub record State (Schema : Type 0) : Type 0 where
  pub schema : Schema
  pub applied : List Applied
  pub migrations : List Migration

abbrev pub version_of : Migration → ℕ
version_of m = m.version

abbrev pub row_version : Applied → ℕ
row_version r = r.version

abbrev pub max : ℕ → ℕ → ℕ
max a b = if ltb a b then b else a

-- COALESCE(MAX(version), 0)
unfoldable pub max_version : List Applied → ℕ
max_version [] = 0
max_version (r ∷ rows) = max r.version (max_version rows)

abbrev pub ascending : List Migration → List Migration
ascending = order_by (λ a b. leb a.version b.version)

abbrev pub descending : List Migration → List Migration
descending = order_by (λ a b. leb b.version a.version)

abbrev pub is_above : ℕ → Migration → Bool
is_above current m = ltb current m.version

-- current < version ≤ target
abbrev pub is_between : ℕ → ℕ → Migration → Bool
is_between low high m = ltb low m.version && leb m.version high

abbrev pub M : Type 0 → Type 0 → Type 0
M Schema A = Action (State Schema) Error A

abbrev pub Progress : Type 0 → Type 0
Progress Schema = (List Migration × Option Error) × State Schema

-- A turn of the loop of `Migrate`, with what the turns after it do.
unfoldable pub go_on :
    {Schema : Type 0}
    → Migration
    → Result Error (Unit {0}) × State Schema
    → Progress Schema
    → Progress Schema
go_on m (ok a, t) ((done, e), u) = ((m ∷ done, e), u)
go_on m (err x, t) later = (([], some x), t)
go_on m (panic, t) later = (([], some database), t)

module _ {Schema : Type 0} where
  -- `Register`.
  abbrev pub register : Migration → State Schema → State Schema
  register m s = record s { migrations = s.migrations ++ m ∷ [] }

  -- `CurrentVersion`.
  unfoldable pub current_version : Bool → M Schema ℕ
  current_version fails = do raise_if fails database; gets (λ s. max_version s.applied)

  -- `Pending`, which sorts the slice.
  unfoldable pub pending : Bool → M Schema (List Migration)
  pending fails = do
    current ← current_version fails
    modify (λ s. record s { migrations = ascending s.migrations })
    gets (λ s. select (is_above current) s.migrations)

  abbrev pub add_row : Migration → ℤ → State Schema → State Schema
  add_row m now s = record s {
    applied = s.applied ++ record { version = m.version; name = m.name; applied_at = now } ∷ [];
  }

  abbrev pub remove_row : ℕ → State Schema → State Schema
  remove_row version s = record s { applied = delete_where (has_key row_version version) s.applied }

  -- The column `version` is the primary key.
  abbrev pub is_taken : ℕ → State Schema → Bool
  is_taken version s = is_some (select_first (has_key row_version version) s.applied)

  module _ (execute : String → Schema → Option Schema) where
    -- A text of SQL, where it is not empty.
    unfoldable pub run_text : Bool → String → M Schema (Unit {0})
    run_text fails text =
        if str_eq text ""
        then pure tt
        else raise_if fails database >>= λ _. gets (λ s. execute text s.schema) >>= λ o.
            or_raise o database >>= λ schema. modify (λ s. record s { schema = schema })

    -- `applyMigration`.
    unfoldable pub apply_migration : (ℕ → Bool) → ℤ → Migration → M Schema (Unit {0})
    apply_migration fails now m = transaction (fails 0) database (fails 3) database (do
      run_text (fails 1) m.up
      taken ← gets (is_taken m.version)
      exec (fails 2 || taken) database (add_row m now))

    -- `rollbackMigration`.
    unfoldable pub rollback_migration : (ℕ → Bool) → Migration → M Schema (Unit {0})
    rollback_migration fails m =
        transaction (fails 0) database (fails 3) database
          (do run_text (fails 1) m.down; exec (fails 2) database (remove_row m.version))

    -- The loop of `Migrate` returns what it has applied, with the error that has stopped it.
    unfoldable pub apply_all :
        (ℕ → ℕ → Bool) → (ℕ → ℤ) → List Migration → State Schema → Progress Schema
    apply_all fails times [] s = (([], none), s)
    apply_all fails times (m ∷ ms) s =
        let (r, t) = apply_migration (fails 0) (times 0) m s in
        go_on m (r, t) (apply_all (λ j. fails (suc j)) (λ j. times (suc j)) ms t)

    -- `Migrate` after `Pending`.
    unfoldable pub migrate_pending :
        (ℕ → ℕ → Bool) → (ℕ → ℤ) → Result Error (List Migration) × State Schema → Progress Schema
    migrate_pending fails times (ok ms, s) = apply_all fails times ms s
    migrate_pending fails times (err e, s) = (([], some e), s)
    migrate_pending fails times (panic, s) = (([], some database), s)

    -- `Migrate`.
    unfoldable pub migrate : Bool → (ℕ → ℕ → Bool) → (ℕ → ℤ) → State Schema → Progress Schema
    migrate fails each times s = migrate_pending each times (pending fails s)

    -- The two loops of `MigrateTo`.
    unfoldable pub apply_each : (ℕ → ℕ → Bool) → (ℕ → ℤ) → List Migration → M Schema (Unit {0})
    apply_each fails times [] = pure tt
    apply_each fails times (m ∷ ms) = do
      apply_migration (fails 0) (times 0) m
      apply_each (λ j. fails (suc j)) (λ j. times (suc j)) ms

    unfoldable pub rollback_each : (ℕ → ℕ → Bool) → List Migration → M Schema (Unit {0})
    rollback_each fails [] = pure tt
    rollback_each fails (m ∷ ms) = do
      rollback_migration (fails 0) m
      rollback_each (λ j. fails (suc j)) ms

    unfoldable pub migrate_down : (ℕ → ℕ → Bool) → ℕ → ℕ → M Schema (Unit {0})
    migrate_down fails target current = do
      modify (λ s. record s { migrations = descending s.migrations })
      ms ← gets (λ s. select (is_between target current) s.migrations)
      rollback_each fails ms

    unfoldable pub migrate_up : (ℕ → ℕ → Bool) → (ℕ → ℤ) → ℕ → ℕ → M Schema (Unit {0})
    migrate_up fails times target current = do
      ms ← gets (λ s. select (is_between current target) s.migrations)
      apply_each fails times ms

    unfoldable pub migrate_from : (ℕ → ℕ → Bool) → (ℕ → ℤ) → ℕ → ℕ → M Schema (Unit {0})
    migrate_from each times target current =
        if ltb current target
        then migrate_up each times target current
        else if ltb target current
        then migrate_down each target current
        else pure tt

    -- `MigrateTo`.
    unfoldable pub migrate_to : Bool → (ℕ → ℕ → Bool) → (ℕ → ℤ) → ℕ → M Schema (Unit {0})
    migrate_to fails each times target = do
      current ← current_version fails
      migrate_from each times target current

    -- `Rollback`.
    unfoldable pub rollback : Bool → (ℕ → Bool) → M Schema Migration
    rollback fails each = do
      current ← current_version fails
      raise_if (current == 0) no_migrations
      found ← gets (λ s. select_first (has_key version_of current) s.migrations)
      m ← or_raise found migration_not_found
      rollback_migration each m
      pure m
