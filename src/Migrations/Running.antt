-- ===== src/Migrations/Running.antt =====
-- What `Migrate` of internal/migrations runs, in which order, and what it leaves when a migration fails.
use Prim.Native.String.{String}
use text.Mathlib.Text.{◌==◌ as str_eq}
use tonkey.Prelude.{
  ℕ, ◌≤◌, ◌≡◌, refl, sym, ap, ◌∙◌, subst, inl, inr, Bool, true, false, Option, none, some, List, [],
  ◌∷◌, ◌++◌, map, arith, leb, All, All-map, Bool-cases, append_nil, append_assoc, if◌then◌else◌,
  Result, ok, err, panic, ◌>>=◌,
}
use tonkey.Prelude.Int.{ℤ}
use tonkey.Prelude.Ensures.{
  Outcome, Ensures, Ensures-pure, Ensures-exec, Ensures-modify, Ensures-transaction, bind_gets,
  bind_or_raise, bind_raise_if, bind_after,
}
use tonkey.Table.{select, All-select}
use tonkey.Table.Order.{insert, All-insert}
use tonkey.Migrations.Manager.{
  Error, database, Migration, Applied, State, version_of, row_version, max_version, ascending,
  is_above, current_version, pending, run_text, apply_migration, apply_all, go_on, migrate_pending,
  migrate,
}

-- No migration has a higher version than one after it.
abbrev pub IsAscending : List Migration → Type 0
IsAscending [] = Unit
IsAscending (m ∷ ms) = All (λ (q : Migration). m.version ≤ q.version) ms × IsAscending ms

abbrev is_lower : Migration → Migration → Bool
is_lower a b = leb a.version b.version

insert-IsAscending :
    (m : Migration) (ms : List Migration) → IsAscending ms → IsAscending (insert is_lower m ms)
insert-IsAscending m [] h = (tt, tt)
insert-IsAscending m (q ∷ ms) h = elim (Bool-cases (is_lower m q)) [
  | inl e ↦
      let less : m.version ≤ q.version = ground (arith, e) in
      rw e (
        (
          less,
          All-map (λ (x : Migration). q.version ≤ x.version)
              (λ (x : Migration). m.version ≤ x.version) ms (λ x k. omega (arith, less, k)) h.0,
        ),
        h,
      )
  | inr e ↦
      let more : q.version ≤ m.version = ground (arith, e) in
      rw e (
        All-insert is_lower (λ (x : Migration). q.version ≤ x.version) m ms more h.0,
        insert-IsAscending m ms h.1,
      )
]

ascending-IsAscending : (ms : List Migration) → IsAscending (ascending ms)
ascending-IsAscending [] = tt
ascending-IsAscending (m ∷ ms) = insert-IsAscending m (ascending ms) (ascending-IsAscending ms)

select-IsAscending :
    (p : Migration → Bool) (ms : List Migration) → IsAscending ms → IsAscending (select p ms)
select-IsAscending p [] h = tt
select-IsAscending p (m ∷ ms) h = elim (Bool-cases (p m)) [
  | inl e ↦ rw e (
    All-map (λ (x : Migration). (m.version ≤ x.version) × (p x ≡ true))
        (λ (x : Migration). m.version ≤ x.version) (select p ms) (λ x k. k.0)
        (All-select p (λ (x : Migration). m.version ≤ x.version) ms h.0),
    select-IsAscending p ms h.1,
  )
  | inr e ↦ rw e (select-IsAscending p ms h.1)
]

module _ {Schema : Type 0} (execute : String → Schema → Option Schema) where
  abbrev pub effect : String → Schema → Option Schema
  effect text schema = if str_eq text "" then some schema else execute text schema

  -- The migrations, run one after another on the first schema, give the second.
  abbrev pub Replays : List Migration → Schema → Schema → Type 0
  Replays [] d e = d ≡ e
  Replays (m ∷ ms) d e = (c : Schema) × (effect m.up d ≡ some c) × Replays ms c e

  abbrev pub versions : State Schema → List ℕ
  versions s = map row_version s.applied

  -- What `Migrate` is to run: the registered migrations above the current version, in order.
  abbrev pub due : State Schema → List Migration
  due s = select (is_above (max_version s.applied)) (ascending s.migrations)

  pub record Migrated (ms : List Migration) (s : State Schema) (done : List Migration)
      (e : Option Error) (t : State Schema) : Type 0 where
    pub rest : List Migration
    pub split : ms ≡ done ++ rest
    pub complete : e ≡ none → rest ≡ []
    pub schema : Replays done s.schema t.schema
    pub recorded : versions t ≡ versions s ++ map version_of done

  run_text-effect :
      (fails : Bool) (text : String) (s : State Schema)
      → Ensures
          (λ _ t. (effect text s.schema ≡ some t.schema) × (t.applied ≡ s.applied))
          (λ _. Unit)
          (run_text execute fails text s)
  unfolding run_text
  run_text-effect fails text s = elim (Bool-cases (str_eq text "")) [
    | inl e ↦ rw e (Ensures-pure _ _ (refl, refl))
    | inr e ↦ rw e (
        bind_raise_if _ _ _ _ tt λ _.
          bind_gets _ _ _ (bind_or_raise _ _ _ _ tt λ schema made. Ensures-modify _ _ (made, refl)))
  ]

  rows_append :
      (m : Migration) (now : ℤ) (xs ys : List Applied)
      → xs ≡ ys
      → map row_version (xs ++ record { version = m.version; name = m.name; applied_at = now } ∷ [])
        ≡ map row_version ys ++ m.version ∷ []
  rows_append m now [] [] e = refl
  rows_append m now [] (y ∷ ys) e = cc
  rows_append m now (x ∷ xs) ys e =
      subst
        (λ zs.
          map row_version
            (x ∷ xs ++ record { version = m.version; name = m.name; applied_at = now } ∷ [])
          ≡ map row_version zs ++ m.version ∷ [])
        e (ap (λ zs. x.version ∷ zs) (rows_append m now xs xs refl))

  apply_migration-runs :
      (fails : ℕ → Bool) (now : ℤ) (m : Migration) (s : State Schema)
      → Ensures
          (λ _ t.
            (effect m.up s.schema ≡ some t.schema) × (versions t ≡ versions s ++ m.version ∷ []))
          (λ t. t ≡ s)
          (apply_migration execute fails now m s)
  unfolding apply_migration
  apply_migration-runs fails now m s = Ensures-transaction _ _ _ _ _ _ refl (
      bind_after _ _ _ (run_text-effect (fails 1) m.up s) λ _ t ran.
        bind_gets _ _ _
          (Ensures-exec _ _ _ _ tt λ _. (ran.0, rows_append m now t.applied s.applied ran.1)))

  abbrev pub IsRun :
      List Migration → State Schema → (List Migration × Option Error) × State Schema → Type 0
  IsRun ms s r = Migrated ms s r.0.0 r.0.1 r.1

  stopped :
      (m : Migration) (ms : List Migration) (s t : State Schema) (e : Error)
      → t ≡ s
      → Migrated (m ∷ ms) s [] (some e) t
  stopped m ms s t e same = record {
    rest = m ∷ ms;
    split = refl;
    complete = λ k. cc;
    schema = ap (λ (z : State Schema). z.schema) (sym same);
    recorded = ap versions same ∙ sym (append_nil (versions s));
  }

  go_on-IsRun :
      (m : Migration) (ms : List Migration) (s : State Schema)
      (r : Result Error (Unit {0}) × State Schema)
      (q : (List Migration × Option Error) × State Schema)
      → Outcome
          (λ _ t.
            (effect m.up s.schema ≡ some t.schema) × (versions t ≡ versions s ++ m.version ∷ []))
          (λ t. t ≡ s)
          r
      → IsRun ms r.1 q
      → IsRun (m ∷ ms) s (go_on m r q)
  unfolding go_on
  go_on-IsRun m ms s (ok a, t) ((done, e), u) h k = record {
    rest = k.rest;
    split = ap (λ xs. m ∷ xs) k.split;
    complete = k.complete;
    schema = (t.schema, h.0, k.schema);
    recorded =
        k.recorded
        ∙ ap (λ xs. xs ++ map version_of done) h.1
        ∙ append_assoc (versions s) m.version (map version_of done);
  }
  go_on-IsRun m ms s (err x, t) q h k = stopped m ms s t x h
  go_on-IsRun m ms s (panic, t) q h k = stopped m ms s t database h

  apply_all-IsRun :
      (fails : ℕ → ℕ → Bool) (times : ℕ → ℤ) (ms : List Migration) (s : State Schema)
      → IsRun ms s (apply_all execute fails times ms s)
  unfolding apply_all
  apply_all-IsRun fails times [] s = record {
    rest = [];
    split = refl;
    complete = λ _. refl;
    schema = refl;
    recorded = sym (append_nil (versions s));
  }
  apply_all-IsRun fails times (m ∷ ms) s =
      go_on-IsRun m ms s (apply_migration execute (fails 0) (times 0) m s) _
        (apply_migration-runs (fails 0) (times 0) m s).outcome
        (apply_all-IsRun _ _ ms (apply_migration execute (fails 0) (times 0) m s).1)

  -- `Migrate` runs the registered migrations above the current version in the order of their versions, all of
  -- them or the first ones up to an error. What it returns is what has run: the schema is what these
  -- make of the one before, one after another, and their versions are added to the recorded ones. When
  -- it returns no error all have run.
  pub migrates_in_order :
      (fails : Bool) (each : ℕ → ℕ → Bool) (times : ℕ → ℤ) (s : State Schema)
      → IsAscending (due s) × IsRun (due s) s (migrate execute fails each times s)
  unfolding migrate migrate_pending pending current_version ◌>>=◌
  migrates_in_order true each times s = (
    select-IsAscending _ _ (ascending-IsAscending s.migrations),
    record {
      rest = due s;
      split = refl;
      complete = λ k. cc;
      schema = refl;
      recorded = sym (append_nil (versions s));
    },
  )
  migrates_in_order false each times s =
      (select-IsAscending _ _ (ascending-IsAscending s.migrations), again)
    where
      again :
          IsRun (due s) s (
            apply_all execute each times (due s) (record s { migrations = ascending s.migrations }))
      again =
          let k =
            apply_all-IsRun each times (due s) (record s { migrations = ascending s.migrations }) in
          record {
            rest = k.rest;
            split = k.split;
            complete = k.complete;
            schema = k.schema;
            recorded = k.recorded;
          }
