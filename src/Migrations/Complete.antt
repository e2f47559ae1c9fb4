-- ===== src/Migrations/Complete.antt =====
-- What a `Migrate` of internal/migrations which returns no error leaves to run.
use Prim.Native.String.{String}
use text.Mathlib.Text.{◌==◌ as str_eq}
use tonkey.Prelude.{
  ℕ, ◌≤◌, ◌≡◌, refl, sym, ap, ◌∙◌, subst, inl, inr, Bool, true, false, Option, none, List, [], ◌∷◌,
  ◌++◌, map, arith, leb, suc, All, All-map, All-both, Any, Bool-cases, append_nil, Result, ok, err,
  panic, ◌>>=◌,
}
use tonkey.Prelude.Int.{ℤ}
use tonkey.Prelude.Ensures.{
  Ensures, Ensures-always, Ensures-pure, Ensures-exec, Ensures-modify, Ensures-transaction,
  bind_gets, bind_or_raise, bind_raise_if, bind_after,
}
use tonkey.Table.{select, select-All}
use tonkey.Table.Order.{All-order_by}
use tonkey.Migrations.Manager.{
  Error, Migration, Applied, State, Progress, version_of, row_version, max, max_version, ascending,
  is_above, current_version, pending, run_text, apply_migration, apply_all, go_on, migrate_pending,
  migrate,
}
use tonkey.Migrations.Running.{due, versions, IsRun, Migrated, migrates_in_order}

abbrev max_of : List ℕ → ℕ
max_of [] = 0
max_of (n ∷ ns) = max n (max_of ns)

max_version-max_of : (rows : List Applied) → max_version rows ≡ max_of (map row_version rows)
unfolding max_version
max_version-max_of [] = refl
max_version-max_of (r ∷ rows) = ap (max r.version) (max_version-max_of rows)

max_of-left : (xs ys : List ℕ) → max_of xs ≤ max_of (xs ++ ys)
max_of-left [] ys = omega arith
max_of-left (x ∷ xs) ys = ground (arith, max_of-left xs ys)

max_of-right :
    (xs : List ℕ) (ms : List Migration)
    → All (λ (m : Migration). m.version ≤ max_of (xs ++ map version_of ms)) ms
max_of-right [] [] = tt
max_of-right [] (m ∷ ms) = (
  ground arith,
  All-map (λ (q : Migration). q.version ≤ max_of (map version_of ms))
      (λ (q : Migration). q.version ≤ max_of (map version_of (m ∷ ms))) ms
      (λ q h. ground (arith, h)) (max_of-right [] ms),
)
max_of-right (x ∷ xs) ms =
    All-map (λ (q : Migration). q.version ≤ max_of (xs ++ map version_of ms))
      (λ (q : Migration). q.version ≤ max_of (x ∷ xs ++ map version_of ms)) ms
      (λ q h. ground (arith, h)) (max_of-right xs ms)

abbrev IsWithin : ℕ → Migration → Type 0
IsWithin n m = m.version ≤ n

old_or_new :
    (low high : ℕ) (m : Migration)
    → low ≤ high
    → (is_above low m ≡ true → m.version ≤ high)
    → m.version ≤ high
old_or_new low high m l h = elim (Bool-cases (is_above low m)) [
  | inl e ↦ h e
  | inr e ↦ ground (arith, l, e)
]

none_above :
    (n : ℕ) (ms : List Migration)
    → All (λ (m : Migration). m.version ≤ n) ms
    → select (is_above n) ms ≡ []
none_above n [] h = refl
none_above n (m ∷ ms) h =
    let miss : is_above n m ≡ false = ground (arith, h.0) in rw miss (none_above n ms h.1)

-- The version of the migration is among these.
abbrev pub IsAmong : List ℕ → Migration → Type 0
IsAmong ns m = Any (λ n. n ≡ m.version) ns

IsAmong-left : (xs ys : List ℕ) (m : Migration) → IsAmong xs m → IsAmong (xs ++ ys) m
IsAmong-left [] ys m h = absurd h
IsAmong-left (x ∷ xs) ys m (inl e) = inl e
IsAmong-left (x ∷ xs) ys m (inr h) = inr (IsAmong-left xs ys m h)

IsAmong-right : (xs : List ℕ) (ms : List Migration) → All (IsAmong (xs ++ map version_of ms)) ms
IsAmong-right [] [] = tt
IsAmong-right [] (m ∷ ms) = (
  inl refl,
  All-map (IsAmong (map version_of ms)) (IsAmong (map version_of (m ∷ ms))) ms (λ q h. inr h)
      (IsAmong-right [] ms),
)
IsAmong-right (x ∷ xs) ms =
    All-map (IsAmong (xs ++ map version_of ms)) (IsAmong (x ∷ xs ++ map version_of ms)) ms
      (λ q h. inr h) (IsAmong-right xs ms)

-- Every migration is recorded that is not above the highest recorded version.
abbrev pub IsGapless : List ℕ → ℕ → List Migration → Type 0
IsGapless ns current ms = All (λ (m : Migration). m.version ≤ current → IsAmong ns m) ms

all-IsAmong :
    (ns : List ℕ) (current : ℕ) (ms done : List Migration)
    → IsGapless ns current ms
    → done ≡ select (is_above current) ms
    → All (IsAmong (ns ++ map version_of done)) ms
all-IsAmong ns current ms done old e =
    All-map
      (λ (m : Migration).
        (m.version ≤ current → IsAmong ns m)
        × (is_above current m ≡ true → IsAmong (ns ++ map version_of done) m))
      (IsAmong (ns ++ map version_of done)) ms
      (λ m h. elim (Bool-cases (is_above current m)) [
        | inl above ↦ h.1 above
        | inr below ↦ IsAmong-left ns (map version_of done) m (h.0 (ground (arith, below)))
      ])
      (All-both (λ (m : Migration). m.version ≤ current → IsAmong ns m)
        (λ (m : Migration). is_above current m ≡ true → IsAmong (ns ++ map version_of done) m) ms
        old
        (select-All (is_above current) (IsAmong (ns ++ map version_of done)) ms
          (subst (All (IsAmong (ns ++ map version_of done))) e (IsAmong-right ns done))))

module _ {Schema : Type 0} (execute : String → Schema → Option Schema) where
  apply_migration-keeps :
      (fails : ℕ → Bool) (now : ℤ) (m : Migration) (s : State Schema)
      → (apply_migration execute fails now m s).1.migrations ≡ s.migrations
  unfolding apply_migration run_text
  apply_migration-keeps fails now m s =
      Ensures-always {P = λ (t : State Schema). t.migrations ≡ s.migrations} (
        Ensures-transaction _ _ _ _ _ _ refl (
          bind_after {R = λ _ (t : State Schema). t.migrations ≡ s.migrations} _ _ _
            (ran (str_eq m.up "")) λ _ t k. bind_gets _ _ _ (Ensures-exec _ _ _ _ tt λ _. k)))
    where
      ran :
          Bool
          → Ensures
              (λ _ (t : State Schema). t.migrations ≡ s.migrations)
              (λ _. Unit)
              (run_text execute (fails 1) m.up s)
      ran _ =
          unfold run_text in
          (elim (Bool-cases (str_eq m.up "")) [
            | inl e ↦ rw e (Ensures-pure _ _ refl)
            | inr e ↦ rw e (
                bind_raise_if _ _ _ _ tt λ _.
                  bind_gets _ _ _ (bind_or_raise _ _ _ _ tt λ schema made. Ensures-modify _ _ refl))
          ])

  go_on-keeps :
      (ms : List Migration) (m : Migration) (r : Result Error (Unit {0}) × State Schema)
      (q : Progress Schema)
      → r.1.migrations ≡ ms
      → q.1.migrations ≡ ms
      → (go_on m r q).1.migrations ≡ ms
  unfolding go_on
  go_on-keeps ms m (ok a, t) q h k = k
  go_on-keeps ms m (err x, t) q h k = h
  go_on-keeps ms m (panic, t) q h k = h

  apply_all-keeps :
      (fails : ℕ → ℕ → Bool) (times : ℕ → ℤ) (ms : List Migration) (s : State Schema)
      → (apply_all execute fails times ms s).1.migrations ≡ s.migrations
  unfolding apply_all
  apply_all-keeps fails times [] s = refl
  apply_all-keeps fails times (m ∷ ms) s =
      let first = apply_migration-keeps (fails 0) (times 0) m s in
      go_on-keeps s.migrations m _ _ first
        (apply_all-keeps (λ j. fails (suc j)) (λ j. times (suc j)) ms _ ∙ first)

  migrate-keeps :
      (each : ℕ → ℕ → Bool) (times : ℕ → ℤ) (s : State Schema)
      → (migrate execute false each times s).1.migrations ≡ ascending s.migrations
  unfolding migrate migrate_pending pending current_version ◌>>=◌
  migrate-keeps each times s =
      apply_all-keeps each times (due execute s) (record s { migrations = ascending s.migrations })

  none_due :
      (each : ℕ → ℕ → Bool) (times : ℕ → ℤ) (s t : State Schema) (done : List Migration)
      → migrate execute false each times s ≡ ((done, none), t)
      → due execute t ≡ []
  none_due each times s t done e =
      let ran : Migrated execute (due execute s) s done none t =
        subst (IsRun execute (due execute s) s) e
          (migrates_in_order execute false each times s).1 in
      let whole : done ≡ due execute s =
        sym (ran.split ∙ ap (λ xs. done ++ xs) (ran.complete refl) ∙ append_nil done) in
      let bound : max_version t.applied ≡ max_of (versions execute s ++ map version_of done) =
        max_version-max_of t.applied ∙ ap max_of ran.recorded in
      let kept : ascending s.migrations ≡ t.migrations =
        sym (migrate-keeps each times s) ∙ ap (λ (r : Progress Schema). r.1.migrations) e in
      let at_end : All (IsWithin (max_of (versions execute s ++ map version_of done)))
          (due execute s) =
        subst (All (IsWithin (max_of (versions execute s ++ map version_of done)))) whole
          (max_of-right (versions execute s) done) in
      let all_within : All (IsWithin (max_of (versions execute s ++ map version_of done)))
          (ascending s.migrations) =
        All-map
          (λ (m : Migration).
            is_above (max_version s.applied) m ≡ true
            → m.version ≤ max_of (versions execute s ++ map version_of done))
          (IsWithin _) (ascending s.migrations)
          (λ m h.
            old_or_new (max_version s.applied) _ m
              (subst (λ n. n ≤ max_of (versions execute s ++ map version_of done))
                (sym (max_version-max_of s.applied))
                (max_of-left (versions execute s) (map version_of done)))
              h)
          (select-All (is_above (max_version s.applied)) (IsWithin _) (ascending s.migrations)
            at_end) in
      none_above (max_version t.applied) (ascending t.migrations) (
        All-order_by (λ a b. leb a.version b.version) (IsWithin (max_version t.applied))
          t.migrations
          (subst (λ n. All (IsWithin n) t.migrations) (sym bound)
            (subst (All (IsWithin _)) kept all_within)))

  -- Where every registered migration whose version is not above the highest recorded one is recorded: after
  -- a `Migrate` that has read the current version and returned no error, the registered migrations are the
  -- same, in the order of their versions, every one of them is recorded, and none is above the
  -- highest recorded version.
  pub leaves_nothing :
      (each : ℕ → ℕ → Bool) (times : ℕ → ℤ) (s t : State Schema) (done : List Migration)
      → IsGapless (versions execute s) (max_version s.applied) s.migrations
      → migrate execute false each times s ≡ ((done, none), t)
      → (t.migrations ≡ ascending s.migrations)
        × All (IsAmong (versions execute t)) t.migrations
        × (due execute t ≡ [])
  leaves_nothing each times s t done gapless e =
      let ran : Migrated execute (due execute s) s done none t =
        subst (IsRun execute (due execute s) s) e
          (migrates_in_order execute false each times s).1 in
      let whole : done ≡ due execute s =
        sym (ran.split ∙ ap (λ xs. done ++ xs) (ran.complete refl) ∙ append_nil done) in
      let kept : ascending s.migrations ≡ t.migrations =
        sym (migrate-keeps each times s) ∙ ap (λ (r : Progress Schema). r.1.migrations) e in
      let among =
        all-IsAmong (versions execute s) (max_version s.applied) (ascending s.migrations) done
          (All-order_by (λ a b. leb a.version b.version)
            (λ (m : Migration). m.version ≤ max_version s.applied → IsAmong (versions execute s) m)
            s.migrations gapless)
          whole in
      (
        sym kept,
        subst (λ ns. All (IsAmong ns) t.migrations) (sym ran.recorded)
            (subst (All (IsAmong (versions execute s ++ map version_of done))) kept among),
        none_due each times s t done e,
      )
