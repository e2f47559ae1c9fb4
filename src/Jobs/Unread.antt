-- ===== src/Jobs/Unread.antt =====
-- What a worker of internal/jobs does where the database driver gives the column `payload` as a string.
use tonkey.Prelude.{
  ℕ, ◌≡◌, refl, Bool, false, Option, none, some, Result, ok, err, panic, pure, is_some,
}
use tonkey.Prelude.Int.{ℤ}
use tonkey.Prelude.Ensures.{
  Outcome, Ensures, Ensures-ok, Ensures-pure, Ensures-if, bind_call, bind_raise_if, bind_gets,
}
use tonkey.Jobs.Store.{Error, strings, Job, Db, Config}
use tonkey.Jobs.Queue.{Handlers, claim, read_running, fetch_job, take_up, work}

-- No job has been read, and the table is `t`.
abbrev ReadsNothing : Db → Result Error (Option Job) × Db → Type 0
ReadsNothing t r = Ensures (λ o u. (o ≡ none) × (u ≡ t)) (λ u. u ≡ t) r

ends_itself : {A : Type 0} (r : Result Error A × Db) → Ensures (λ _ t. t ≡ r.1) (λ t. t ≡ r.1) r
ends_itself (ok a, t) = record { outcome = refl }
ends_itself (err e, t) = record { outcome = refl }
ends_itself (panic, t) = record { outcome = refl }

read_running-ReadsNothing : (b : Bool) (t : Db) → ReadsNothing t (read_running strings b t)
unfolding read_running
read_running-ReadsNothing b t =
    bind_raise_if _ _ _ _ refl λ _.
      bind_gets _ _ _ (bind_raise_if _ _ _ _ refl λ gone. Ensures-pure _ _ (empty _ gone, refl))
  where
    empty : (o : Option Job) → is_some o ≡ false → o ≡ none
    empty none e = refl
    empty (some j) e = cc

fetch_job-ReadsNothing :
    (fails : ℕ → Bool) (now : ℤ) (s : Db)
    → ReadsNothing (claim (fails 0) now s).1 (fetch_job strings fails now s)
unfolding fetch_job
fetch_job-ReadsNothing fails now s = bind_call _ _ _ refl λ b t e.
    let t_is = Ensures-ok (ends_itself (claim (fails 0) now s)) e in
    rw t_is (
      Ensures-if b (read_running strings (fails 1)) (pure none) _
        (λ _. read_running-ReadsNothing (fails 1) _) (λ _. Ensures-pure _ _ (refl, refl)))

take_up-nothing :
    (fails : ℕ → Bool) (config : Config) (handlers : Handlers) (later : ℤ) (t : Db)
    (r : Result Error (Option Job) × Db)
    → Outcome (λ o u. (o ≡ none) × (u ≡ t)) (λ u. u ≡ t) r
    → (take_up fails config handlers later r).1 ≡ t
unfolding take_up
take_up-nothing fails config handlers later t (ok none, u) h = h.1
take_up-nothing fails config handlers later t (ok (some j), u) h = let e = h.0 in cc
take_up-nothing fails config handlers later t (err e, u) h = h
take_up-nothing fails config handlers later t (panic, u) h = h

-- Where the driver gives texts as strings, a turn of a worker leaves the table as its claim has left it, with
-- any handlers and any failures: a job that the claim has marked as running stays so, with its
-- attempts not counted.
pub work-claim :
    (fails : ℕ → Bool) (config : Config) (handlers : Handlers) (now later : ℤ) (s : Db)
    → (work strings fails config handlers now later s).1 ≡ (claim (fails 0) now s).1
unfolding work
work-claim fails config handlers now later s =
    take_up-nothing _ config handlers later _ _ (fetch_job-ReadsNothing fails now s).outcome
