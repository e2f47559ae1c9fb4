-- ===== src/Jobs/Fetching.antt =====
-- Which job `fetchJob` of internal/jobs claims, and which one it returns.
use tonkey.Prelude.{
  ℕ, ◌≡◌, refl, ap, ◌∙◌, ◌⊎◌, inl, inr, Bool, true, false, Option, none, some, List, [], ◌∷◌, arith,
  All, All-map, Bool-cases, Option-cases, ok, ◌>>=◌, bind_ok, pure, raise_if, Result, err,
}
use tonkey.Prelude.Int.{ℤ, ◌≤ℤ◌}
use tonkey.Table.{
  select_first, select, first_by, All-first_by, first_by-first, All-select_first, All-select,
  select-All,
}
use tonkey.Table.Keys.{has_key, UniqueKeys, All-update_found, found-update, All-found}
use tonkey.Jobs.Store.{
  Error, unscannable, Driver, strings, bytes, Job, Db, job_id, is_running, is_due, is_sooner,
  is_later, is_after, is_sooner-IsOrder, is_later-IsOrder,
}
use tonkey.Jobs.Queue.{is_unscannable, change, started, next_due, claim, read_running, fetch_job}

module _ {A : Type 0} (p : A → Bool) where
  first_by-empty : (before : A → A → Bool) (rows : List A) → first_by before rows ≡ none → rows ≡ []
  first_by-empty before [] e = refl
  first_by-empty before (r ∷ rows) e = elim (Option-cases (first_by before rows)) [
    | inl gone ↦ cc (rw gone at e)
    | inr (b, found) ↦ elim (Bool-cases (before b r)) [
      | inl first ↦ cc (rw (found, first) at e)
      | inr later ↦ cc (rw (found, later) at e)
    ]
  ]

abbrev pub NotSooner : Job → Job → Type 0
NotSooner r job =
    (r.priority ≤ℤ job.priority) × (r.priority ≡ job.priority → job.scheduled_at ≤ℤ r.scheduled_at)

unsooner-NotSooner : (r job : Job) → is_sooner r job ≡ false → NotSooner r job
unsooner-NotSooner r job h = (ground arith, λ same. ground arith)

-- `fetchJob` has claimed `job` in the state `s` and left the state `t`.
pub record Claimed (now : ℤ) (s t : Db) : Type 0 where
  pub job : Job
  pub stored : select_first (has_key job_id job.id) s.jobs ≡ some job
  pub due : is_due now job ≡ true
  pub first : All (λ (r : Job). is_due now r ≡ true → NotSooner r job) s.jobs
  pub written : t ≡ change job.id (started now) s

abbrev pub IdleAt : ℤ → Db → Type 0
IdleAt now s = All (λ (r : Job). is_due now r ≡ false) s.jobs

next_due-none : (now : ℤ) (s : Db) → next_due now s ≡ none → IdleAt now s
next_due-none now s e =
    let gone : select (is_due now) s.jobs ≡ [] =
      first_by-empty (is_due now) is_sooner (select (is_due now) s.jobs) e in
    All-map (λ (r : Job). is_due now r ≡ true → ⊥) (λ (r : Job). is_due now r ≡ false) s.jobs
      (λ r h. elim (Bool-cases (is_due now r)) [ inl t ↦ absurd (h t) | inr f ↦ f ])
      (select-All (is_due now) (λ (r : Job). ⊥) s.jobs (rw gone tt))

pub next_due-stored :
    (now : ℤ) (s : Db) (job : Job)
    → UniqueKeys job_id s.jobs
    → next_due now s ≡ some job
    → (select_first (has_key job_id job.id) s.jobs ≡ some job) × (is_due now job ≡ true)
next_due-stored now s job u e =
    All-first_by is_sooner
      (λ (r : Job). (select_first (has_key job_id r.id) s.jobs ≡ some r) × (is_due now r ≡ true))
      (select (is_due now) s.jobs) job
      (All-select (is_due now) (λ (r : Job). select_first (has_key job_id r.id) s.jobs ≡ some r)
        s.jobs (All-found job_id s.jobs u))
      e

next_due-Claimed :
    (now : ℤ) (s : Db) (job : Job)
    → UniqueKeys job_id s.jobs
    → next_due now s ≡ some job
    → Claimed now s (change job.id (started now) s)
next_due-Claimed now s job u e = record {
  job = job;
  stored = (next_due-stored now s job u e).0;
  due = (next_due-stored now s job u e).1;
  first =
      select-All (is_due now) (λ (r : Job). NotSooner r job) s.jobs
        (All-map (λ (r : Job). is_sooner r job ≡ false) (λ (r : Job). NotSooner r job)
          (select (is_due now) s.jobs) (λ r. unsooner-NotSooner r job)
          (first_by-first is_sooner is_sooner-IsOrder (select (is_due now) s.jobs) job e));
  written = refl;
}

-- Where ids are unique, the first statement of `fetchJob`, when it does not fail, either changes nothing
-- and no job is due, or marks one job as running and changes no other. That job is pending and due,
-- and no due job has a higher priority, or the same priority and an earlier schedule.
pub claim_lem :
    (now : ℤ) (s : Db)
    → UniqueKeys job_id s.jobs
    → ((claim false now s ≡ (ok false, s)) × IdleAt now s)
      ⊎ ((t : Db) × (claim false now s ≡ (ok true, t)) × Claimed now s t)
unfolding claim ◌>>=◌
claim_lem now s u = elim (Option-cases (next_due now s)) [
  | inl gone ↦ inl (rw gone refl, next_due-none now s gone)
  | inr (job, e) ↦ inr (change job.id (started now) s, rw e refl, next_due-Claimed now s job u e)
]

-- The claimed job as it then stands in the table.
pub Claimed-row :
    (now : ℤ) (s t : Db) (c : Claimed now s t)
    → select_first (has_key job_id c.job.id) t.jobs ≡ some (started now c.job)
Claimed-row now s t c =
    rw c.written (found-update job_id c.job.id (started now) s.jobs c.job (λ q. refl) c.stored)

-- What is known of the rows after the claim, where the running ones started earlier.
abbrev IsLatest : Job → Job → Type 0
IsLatest job r = is_running r.status ≡ true → (r ≡ job) ⊎ (is_later job r ≡ true)

module _ (now : ℤ) (s t : Db) (u : UniqueKeys job_id s.jobs)
    (earlier : All
      (λ (r : Job). is_running r.status ≡ true → is_after (some now) r.started_at ≡ true)
      s.jobs)
    (c : Claimed now s t) where
  IsLatest-rows : All (IsLatest (started now c.job)) t.jobs
  IsLatest-rows = rw c.written (
      All-update_found job_id (IsLatest (started now c.job)) c.job.id (started now) s.jobs c.job u
        c.stored
        (All-map (λ (r : Job). is_running r.status ≡ true → is_after (some now) r.started_at ≡ true)
          (IsLatest (started now c.job)) s.jobs (λ r h run. inr (h run)) earlier)
        (λ run. inl refl))

  read_claimed :
      first_by is_later (select (λ (j : Job). is_running j.status) t.jobs)
      ≡ some (started now c.job)
  read_claimed =
      let rows = select (λ (j : Job). is_running j.status) t.jobs in
      elim (Option-cases (first_by is_later rows)) [
        | inl gone ↦
            let none_runs =
              select-All (λ (j : Job). is_running j.status) (λ (r : Job). ⊥) t.jobs
                (rw (first_by-empty (λ (j : Job). is_running j.status) is_later rows gone) tt) in
            absurd (
              (All-select_first (λ (r : Job). is_running r.status ≡ true → ⊥)
                  (has_key job_id c.job.id) t.jobs (started now c.job) none_runs
                  (Claimed-row now s t c)).0
                refl)
        | inr (b, found) ↦
            let (latest, runs) =
              All-first_by is_later
                (λ (r : Job). IsLatest (started now c.job) r × (is_running r.status ≡ true)) rows b
                (All-select (λ (j : Job). is_running j.status) (IsLatest (started now c.job)) t.jobs
                  IsLatest-rows)
                found in
            let not_later : is_later (started now c.job) b ≡ false =
              (All-select_first (λ (r : Job). is_running r.status ≡ true → is_later r b ≡ false)
                  (has_key job_id c.job.id) t.jobs (started now c.job)
                  (select-All (λ (j : Job). is_running j.status) (λ (r : Job). is_later r b ≡ false)
                    t.jobs (first_by-first is_later is_later-IsOrder rows b found))
                  (Claimed-row now s t c)).0
                refl in
            elim (latest runs) [ inl same ↦ found ∙ ap (λ (z : Job). some z) same | inr later ↦ cc ]
      ]

pure_is : (s : Db) → pure {S = Db} {E = Error} {A = Option Job} none s ≡ (ok none, s)
unfolding ◌>>=◌
pure_is s = refl

-- What `fetchJob` returns of the job that it reads.
abbrev pub scanned : Driver → Job → Result Error (Option Job)
scanned bytes job = ok (some job)
scanned strings job = err unscannable

read_is :
    (driver : Driver) (t : Db) {job : Job}
    → first_by is_later (select (λ (j : Job). is_running j.status) t.jobs) ≡ some job
    → read_running driver false t ≡ (scanned driver job, t)
unfolding read_running ◌>>=◌
read_is bytes t e = rw e refl
read_is strings t e =
    ap (λ (o : Option Job). (raise_if (is_unscannable strings o) unscannable >>= (λ _. pure o)) t) e

-- Where ids are unique, every job that runs was started before `now`, and no statement fails,
-- `fetchJob` returns nothing and changes nothing when no job is due. Otherwise it claims a job; where the
-- driver gives texts as bytes it returns this very job, as it then stands in the table, and where
-- the driver gives them as strings it returns an error, with the job left as running.
pub fetch_job_lem :
    (driver : Driver) (fails : ℕ → Bool) (now : ℤ) (s : Db)
    → fails 0 ≡ false
    → fails 1 ≡ false
    → UniqueKeys job_id s.jobs
    → All (λ (r : Job). is_running r.status ≡ true → is_after (some now) r.started_at ≡ true) s.jobs
    → ((fetch_job driver fails now s ≡ (ok none, s)) × IdleAt now s)
      ⊎ ((t : Db) × (c : Claimed now s t) × (fetch_job driver fails now s
            ≡ (scanned driver (started now c.job), t)))
unfolding fetch_job
fetch_job_lem driver fails now s sound sound' u earlier =
    rw (sound, sound')
      (elim (claim_lem now s u) [
        | inl (e, idle) ↦ inl (bind_ok (claim false now) _ e ∙ pure_is s, idle)
        | inr (t, e, c) ↦ inr (
          t,
          c,
          bind_ok (claim false now) _ e ∙ read_is driver t (read_claimed now s t u earlier c),
        )
      ])
