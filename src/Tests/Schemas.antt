-- ===== src/Tests/Schemas.antt =====
-- internal/migrations at concrete inputs. The schema is the list of the texts that have run.
use Prim.Native.String.{String}
use text.Mathlib.Text.{◌==◌ as str_eq}
use tonkey.Prelude.{
  ◌<◌, arith, ok, ℕ, ◌≡◌, refl, Bool, false, Option, none, some, List, [], ◌∷◌, ◌++◌, map,
  if◌then◌else◌, transaction, ◌>>=◌, All, inl,
}
use tonkey.Prelude.Int.{ℤ, pos}
use tonkey.Migrations.Manager.{
  ascending, rollback, Error, database, Migration, State, version_of, max_version, current_version,
  pending, run_text, apply_migration, go_on, apply_all, migrate_pending, migrate,
}
use tonkey.Migrations.Complete.{IsAmong, IsGapless, leaves_nothing}
use tonkey.Migrations.Undoing.{rolls_back}
use tonkey.Migrations.Running.{effect, IsAscending, IsRun, due, versions, migrates_in_order}

abbrev run_sql : String → List String → Option (List String)
run_sql text texts = if str_eq text "bad" then none else some (texts ++ text ∷ [])

abbrev step : ℕ → String → Migration
step version up = record { version = version; name = up; up = up; down = "" }

abbrev registered : State (List String)
registered = record {
  schema = [];
  applied = [];
  migrations = step 3 "bad" ∷ step 2 "b" ∷ step 1 "a" ∷ [];
}

abbrev sound : ℕ → ℕ → Bool
sound j k = false

abbrev clock : ℕ → ℤ
clock k = pos k

abbrev outcome : (List Migration × Option Error) × State (List String)
outcome = migrate run_sql false sound clock registered

-- The third migration fails: the first two have run, in order.
stops_at_third :
    (map version_of outcome.0.0 ≡ 1 ∷ 2 ∷ [])
    × (outcome.0.1 ≡ some database)
    × (outcome.1.schema ≡ "a" ∷ "b" ∷ [])
unfolding migrate migrate_pending pending current_version max_version apply_all go_on
    apply_migration run_text transaction ◌>>=◌
stops_at_third = (refl, refl, refl)

migrates_in_order_example :
    IsAscending (due run_sql registered) × IsRun run_sql (due run_sql registered) registered outcome
migrates_in_order_example = migrates_in_order run_sql false sound clock registered

-- A schema with one table, or none.
abbrev one_table : String → Option String → Option (Option String)
one_table text d =
    if str_eq text "CREATE"
    then elim d [ none ↦ some (some "users") | some t ↦ none ]
    else if str_eq text "DROP"
    then elim d [ none ↦ none | some t ↦ some none ]
    else none

abbrev users : Migration
users = record { version = 4; name = "users"; up = "CREATE"; down = "DROP" }

abbrev bare : State (Option String)
bare = record {
  schema = none;
  applied = record { version = 2; name = "b"; applied_at = pos 1 } ∷ [];
  migrations = users ∷ [];
}

abbrev made : State (Option String)
made = (apply_migration one_table (λ _. false) (pos 9) users bare).1

apply_returns : apply_migration one_table (λ _. false) (pos 9) users bare ≡ (ok tt, made)
unfolding apply_migration run_text transaction ◌>>=◌
apply_returns = refl

two_below_four : max_version bare.applied < 4
unfolding max_version
two_below_four = omega arith

drops :
    (d : Option String)
    → effect one_table "CREATE" none ≡ some d
    → effect one_table "DROP" d ≡ some none
drops none e = cc
drops (some t) e = refl

rolls_back_example : rollback one_table false (λ _. false) made ≡ (ok users, bare)
rolls_back_example =
    rolls_back one_table (λ _. false) (pos 9) users bare made two_below_four refl drops
      apply_returns

-- Three migrations, registered in the wrong order; the first one has run before.
abbrev three_registered : State (List String)
three_registered = record {
  schema = "a" ∷ [];
  applied = record { version = 1; name = "a"; applied_at = pos 1 } ∷ [];
  migrations = step 3 "c" ∷ step 2 "b" ∷ step 1 "a" ∷ [];
}

abbrev all_run : State (List String)
all_run = (migrate run_sql false sound clock three_registered).1

migrate_returns :
    migrate run_sql false sound clock three_registered
    ≡ ((step 2 "b" ∷ step 3 "c" ∷ [], none), all_run)
unfolding migrate migrate_pending pending current_version max_version apply_all go_on
    apply_migration run_text transaction ◌>>=◌
migrate_returns = refl

three-IsGapless :
    IsGapless (1 ∷ []) (max_version three_registered.applied) three_registered.migrations
unfolding max_version
three-IsGapless = (λ h. absurd (omega arith), (λ h. absurd (omega arith), (λ h. inl refl, tt)))

leaves_nothing_example :
    (all_run.migrations ≡ ascending three_registered.migrations)
    × All (IsAmong (versions run_sql all_run)) all_run.migrations
    × (due run_sql all_run ≡ [])
leaves_nothing_example =
    leaves_nothing run_sql sound clock three_registered all_run (step 2 "b" ∷ step 3 "c" ∷ [])
      three-IsGapless migrate_returns
