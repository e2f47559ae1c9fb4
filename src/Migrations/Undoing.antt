-- ===== src/Migrations/Undoing.antt =====
-- That `Rollback` of internal/migrations takes back the migration that was applied last.
use Prim.Native.String.{String}
use text.Mathlib.Text.{◌==◌ as str_eq}
use tonkey.Prelude.{
  some_inj, ℕ, ◌≤◌, ◌<◌, ◌≡◌, refl, sym, ap, ◌∙◌, subst, inl, inr, Bool, true, false, Option, some,
  List, [], ◌∷◌, ◌++◌, arith, ◌==◌, All, All-map, Bool-cases, ok, pure, raise_if, gets, or_raise,
  bind_ok, transaction_ok, modify, exec,
}
use tonkey.Prelude.Int.{ℤ}
use tonkey.Prelude.Ensures.{
  Ensures, Ensures-ok, Ensures-pure, Ensures-exec, Ensures-modify, Ensures-transaction, bind_gets,
  bind_or_raise, bind_raise_if, bind_after,
}
use tonkey.Table.{select_first, delete_where}
use tonkey.Table.Keys.{has_key}
use tonkey.Migrations.Manager.{
  database, no_migrations, migration_not_found, Migration, Applied, State, version_of, row_version,
  max_version, current_version, run_text, add_row, apply_migration, rollback_migration, rollback,
}
use tonkey.Migrations.Running.{effect}

max_version-all : (rows : List Applied) → All (λ (r : Applied). r.version ≤ max_version rows) rows
unfolding max_version
max_version-all [] = tt
max_version-all (r ∷ rows) = (
  ground arith,
  All-map (λ (q : Applied). q.version ≤ max_version rows)
      (λ (q : Applied). q.version ≤ max_version (r ∷ rows)) rows (λ q h. ground (arith, h))
      (max_version-all rows),
)

max_version-append :
    (rows : List Applied) (r : Applied)
    → max_version rows < r.version
    → max_version (rows ++ r ∷ []) ≡ r.version
unfolding max_version
max_version-append [] r h = ground (arith, h)
max_version-append (q ∷ rows) r h =
    let rest : max_version (rows ++ r ∷ []) ≡ r.version =
      max_version-append rows r (ground (arith, h)) in
    rw rest (ground (arith, h))

delete_where-added :
    (rows : List Applied) (r : Applied)
    → All (λ (q : Applied). q.version < r.version) rows
    → delete_where (has_key row_version r.version) (rows ++ r ∷ []) ≡ rows
delete_where-added [] r h = let hit : (r.version == r.version) ≡ true = ground arith in rw hit refl
delete_where-added (q ∷ rows) r h =
    let miss : (q.version == r.version) ≡ false = ground (arith, h.0) in
    rw miss (ap (λ xs. q ∷ xs) (delete_where-added rows r h.1))

module _ {Schema : Type 0} (execute : String → Schema → Option Schema) where
  run_text-works :
      (text : String) (s : State Schema) (d : Schema)
      → effect execute text s.schema ≡ some d
      → run_text execute false text s ≡ (ok tt, record s { schema = d })
  unfolding run_text raise_if gets or_raise modify pure
  run_text-works text s d h = elim (Bool-cases (str_eq text "")) [
    | inl e ↦
        let same : s.schema ≡ d = some_inj (rw e at h) in
        rw e (ap (λ (z : Schema). (ok tt, record s { schema = z })) same)
    | inr e ↦
        let made : execute text s.schema ≡ some d = (rw e at h) in
        rw e (
          bind_ok (raise_if false database) _ {s = s} refl
          ∙ bind_ok (gets (λ (z : State Schema). execute text z.schema)) _ {s = s} refl
          ∙ bind_ok (or_raise (execute text s.schema) database) _
              (ap (λ o. or_raise o database s) made))
  ]

  run_text-sets :
      (fails : Bool) (text : String) (s : State Schema)
      → Ensures
          (λ _ t.
            (d : Schema) × (effect execute text s.schema ≡ some d) × (t ≡ record s { schema = d }))
          (λ _. Unit)
          (run_text execute fails text s)
  unfolding run_text
  run_text-sets fails text s = elim (Bool-cases (str_eq text "")) [
    | inl e ↦ rw e (Ensures-pure _ _ (s.schema, refl, refl))
    | inr e ↦ rw e (
        bind_raise_if _ _ _ _ tt λ _.
          bind_gets _ _ _
            (bind_or_raise _ _ _ _ tt λ schema made. Ensures-modify _ _ (schema, made, refl)))
  ]

  -- The database after an `applyMigration` that has returned.
  abbrev after : Migration → ℤ → Schema → State Schema → State Schema
  after m now d s = add_row m now (record s { schema = d })

  rollback_migration-works :
      (m : Migration) (now : ℤ) (d : Schema) (s : State Schema)
      → max_version s.applied < m.version
      → effect execute m.down d ≡ some s.schema
      → rollback_migration execute (λ _. false) m (after m now d s) ≡ (ok tt, s)
  unfolding rollback_migration exec
  rollback_migration-works m now d s new undo = transaction_ok database database _ (
      bind_ok (run_text execute false m.down) _
        (run_text-works m.down (after m now d s) s.schema undo)
      ∙ ap (λ xs. (ok tt, record s { applied = xs }))
          (delete_where-added s.applied _ (
            All-map (λ (q : Applied). q.version ≤ max_version s.applied)
              (λ (q : Applied). q.version < m.version) s.applied (λ q h. omega (arith, h, new))
              (max_version-all s.applied))))

  current :
      (m : Migration) (now : ℤ) (d : Schema) (s : State Schema)
      → max_version s.applied < m.version
      → current_version false (after m now d s) ≡ (ok m.version, after m now d s)
  unfolding current_version raise_if gets
  current m now d s new =
      bind_ok (raise_if false database) _ {s = after m now d s} refl
      ∙ ap (λ n. (ok n, after m now d s)) (max_version-append s.applied _ new)

  rollback-works :
      (m : Migration) (now : ℤ) (d : Schema) (s : State Schema)
      → max_version s.applied < m.version
      → select_first (has_key version_of m.version) s.migrations ≡ some m
      → effect execute m.down d ≡ some s.schema
      → rollback execute false (λ _. false) (after m now d s) ≡ (ok m, s)
  unfolding rollback raise_if gets pure or_raise
  rollback-works m now d s new found undo =
      bind_ok (current_version false) _ (current m now d s new)
      ∙ bind_ok (raise_if (m.version == 0) no_migrations) _
          (ap (λ b. raise_if b no_migrations (after m now d s)) positive)
      ∙ bind_ok
          (gets (λ (z : State Schema). select_first (has_key version_of m.version) z.migrations)) _
          refl
      ∙ bind_ok
          (or_raise (select_first (has_key version_of m.version) s.migrations) migration_not_found)
          _ (ap (λ o. or_raise o migration_not_found (after m now d s)) found)
      ∙ bind_ok (rollback_migration execute (λ _. false) m) _
          (rollback_migration-works m now d s new undo)
    where
      positive : (m.version == 0) ≡ false
      positive = ground (arith, new)

  applied-after :
      (fails : ℕ → Bool) (now : ℤ) (m : Migration) (s : State Schema)
      → Ensures
          (λ _ t. (d : Schema) × (effect execute m.up s.schema ≡ some d) × (t ≡ after m now d s))
          (λ _. Unit)
          (apply_migration execute fails now m s)
  unfolding apply_migration
  applied-after fails now m s = Ensures-transaction _ _ _ _ _ _ tt (
      bind_after _ _ _ (run_text-sets (fails 1) m.up s) λ _ t (d, made, t_is).
        bind_gets _ _ _ (Ensures-exec _ _ _ _ tt λ _. (d, made, ap (add_row m now) t_is)))

  -- Where the version of a migration is above all recorded ones, it is the one registered with that version, and
  -- its text `down` takes back what its text `up` has made of the schema: when `applyMigration` of
  -- it has returned without an error, a `Rollback` whose statements succeed returns it, and the
  -- database and the manager are as before both.
  pub rolls_back :
      (fails : ℕ → Bool) (now : ℤ) (m : Migration) (s t : State Schema)
      → max_version s.applied < m.version
      → select_first (has_key version_of m.version) s.migrations ≡ some m
      → ((d : Schema)
          → effect execute m.up s.schema ≡ some d
          → effect execute m.down d ≡ some s.schema)
      → apply_migration execute fails now m s ≡ (ok tt, t)
      → rollback execute false (λ _. false) t ≡ (ok m, s)
  rolls_back fails now m s t new found undo applied =
      let (d, made, t_is) = Ensures-ok (applied-after fails now m s) applied in
      subst (λ (z : State Schema). rollback execute false (λ _. false) z ≡ (ok m, s)) (sym t_is)
        (rollback-works m now d s new found (undo d made))
