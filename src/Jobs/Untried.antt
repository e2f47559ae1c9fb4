-- ===== src/Jobs/Untried.antt =====
-- That the calls of internal/jobs keep a job untried whose type has no handler, with one worker.
use Prim.Native.String.{String}
use tonkey.Prelude.{
  ℕ, suc, ◌<◌, ◌≡◌, ◌≢◌, refl, sym, ap, ◌∙◌, Bool, true, false, not, Option, none, some, List,
  arith, ==→eq, Result, ok, err, panic, pure, ◌>>=◌,
}
use tonkey.Prelude.Int.{ℤ, pos, ltb_ℤ}
use tonkey.Prelude.Ensures.{
  Outcome, Ensures, Ensures-ok, Ensures-always, Ensures-pure, Ensures-if, Ensures-exec,
  Ensures-exec_ignoring, bind_call, bind_read, bind_gets, bind_raise_if, bind_exec,
  bind_exec_ignoring,
}
use tonkey.Table.{select, first_by, All-first_by, All-select}
use tonkey.Table.Keys.{
  has_key, IsTable, IsTable-append, IsTable-update, IsTable-delete, IsTable-found, key-select_first,
}
use tonkey.Jobs.Store.{
  Driver, Error, JobStatus, pending, running, completed, failed, retrying, Job, Db, Config, Handler,
  job_id, is_running, is_failed, is_later,
}
use tonkey.Jobs.Queue.{
  M, Handlers, change, started, start, next_due, claim, read_running, fetch_job, complete_job,
  fail_job, finish, process_with, process_job, take_up, work, with_attempts, done, after_failure,
  no_handler,
}
use tonkey.Jobs.Admin.{EnqueueOption, enqueue, retry_job, reset, is_old, cleanup}
use tonkey.Jobs.Abandoned.{get_job-reads, get_job-found}

abbrev pub IsOpen : JobStatus → Type 0
IsOpen pending = Unit
IsOpen running = Unit
IsOpen _ = ⊥

-- No attempt is counted, and the job is not at its end.
abbrev pub IsUntried : String → Job → Type 0
IsUntried job_type r =
    (r.job_type ≡ job_type)
    × (r.attempts ≡ 0)
    × (ltb_ℤ (pos 0) r.max_attempts ≡ true)
    × IsOpen r.status

module _ (id : ℕ) (job_type : String) where
  abbrev pub Holds : Job → Type 0
  Holds r = r.id ≡ id → IsUntried job_type r

  pub record Inv (s : Db) : Type 0 where
    pub table : IsTable job_id Holds s.next_job s.jobs
    pub given : id < s.next_job

  change-Inv :
      (s : Db) (k : ℕ) (f : Job → Job)
      → Inv s
      → ((q : Job) → (f q).id ≡ q.id)
      → ((q : Job) → IsUntried job_type q → k ≡ id → IsUntried job_type (f q))
      → Inv (change k f s)
  change-Inv s k f h same keep = record {
    table = IsTable-update job_id h.table (has_key job_id k) f same (λ r untried hit ids.
        let r_id = sym (same r) ∙ ids in keep r (untried r_id) (sym (==→eq _ _ hit) ∙ r_id));
    given = h.given;
  }

  start-Inv : (now : ℤ) (o : Option Job) (s : Db) → Inv s → Inv (start now o s)
  start-Inv now none s h = h
  start-Inv now (some j) s h =
      change-Inv s j.id (started now) h (λ q. refl) (λ q u _. (u.0, u.1, u.2, tt))

  abbrev Given : Option Job → Type 0
  Given none = Unit
  Given (some job) = Holds job

  Given-running :
      (s : Db) (o : Option Job)
      → Inv s
      → first_by is_later (select (λ (j : Job). is_running j.status) s.jobs) ≡ o
      → Given o
  Given-running s none h e = tt
  Given-running s (some job) h e =
      (All-first_by is_later (λ (r : Job). Holds r × (is_running r.status ≡ true)) _ job
        (All-select (λ (j : Job). is_running j.status) Holds s.jobs h.table.all) e).0

  claim-Inv :
      (fails : Bool) (now : ℤ) (s : Db) → Inv s → Ensures (λ _ t. Inv t) Inv (claim fails now s)
  unfolding claim
  claim-Inv fails now s h =
      bind_gets _ _ _
        (bind_exec _ _ _ _ _ h λ _. Ensures-pure _ _ (start-Inv now (next_due now s) s h))

  read_running-Inv :
      (driver : Driver) (fails : Bool) (s : Db)
      → Inv s
      → Ensures (λ o t. Inv t × Given o) Inv (read_running driver fails s)
  unfolding read_running
  read_running-Inv driver fails s h = bind_raise_if _ _ _ _ h λ _.
      bind_gets _ _ _ (bind_raise_if _ _ _ _ h λ _. Ensures-pure _ _ (h, Given-running s _ h refl))

  fetch_job-Inv :
      (driver : Driver) (fails : ℕ → Bool) (now : ℤ) (s : Db)
      → Inv s
      → Ensures (λ o t. Inv t × Given o) Inv (fetch_job driver fails now s)
  unfolding fetch_job
  fetch_job-Inv driver fails now s h =
      let claimed = claim-Inv (fails 0) now s h in
      bind_call _ _ _ (Ensures-always claimed) λ b t e.
        let h' = Ensures-ok claimed e in
        Ensures-if b (read_running driver (fails 1)) (pure none) t
          (λ _. read_running-Inv driver (fails 1) t h') (λ _. Ensures-pure _ _ (h', tt))

  -- A change by a copy of the job that leaves an untried row untried, when the copy is of the id.
  finish-Inv :
      (fails : Bool) (config : Config) (now : ℤ) (job : Job) (o : Option String) (s : Db)
      → Inv s
      → job.id ≢ id
      → Ensures (λ _ t. Inv t) Inv (finish fails config now job o s)
  unfolding finish complete_job fail_job
  finish-Inv fails config now job none s h other =
      Ensures-exec_ignoring _ _ _ (λ _. h)
        (λ _. change-Inv s job.id (done now) h (λ q. refl) (λ q u ids. absurd (other ids)))
  finish-Inv fails config now job (some error) s h other =
      Ensures-exec_ignoring _ _ _ (λ _. h)
        (λ _.
          change-Inv s job.id (after_failure config now job error) h (λ q. ground arith)
            (λ q u ids. absurd (other ids)))

  postponed-IsUntried :
      (config : Config) (now : ℤ) (job : Job) (error : String) (q : Job)
      → IsUntried job_type job
      → IsUntried job_type q
      → IsUntried job_type (after_failure config now job error q)
  postponed-IsUntried config now job error q u v =
      let again : ltb_ℤ (pos job.attempts) job.max_attempts ≡ true = rw (u.1) u.2 in
      rw again (v.0, v.1, v.2, tt)

  process_with-Inv :
      (fails : ℕ → Bool) (config : Config) (now : ℤ) (job : Job) (o : Option Handler) (s : Db)
      → Inv s
      → Holds job
      → (job.id ≡ id → o ≡ none)
      → Ensures (λ _ t. Inv t) Inv (process_with fails config now job o s)
  unfolding process_with fail_job
  process_with-Inv fails config now job none s h u lacks =
      Ensures-exec_ignoring _ _ _ (λ _. h)
        (λ _.
          change-Inv s job.id (after_failure config now job (no_handler job.job_type)) h
            (λ q. ground arith)
            (λ q v ids. postponed-IsUntried config now job (no_handler job.job_type) q (u ids) v))
  process_with-Inv fails config now job (some handler) s h u lacks =
      let counted = with_attempts (suc job.attempts) job in
      let other : job.id ≢ id = λ ids. some_is_none (lacks ids) in
      bind_exec_ignoring _ _ _ _
        (λ _. finish-Inv (fails 1) config now counted (handler counted) s h other)
        (λ _.
          finish-Inv (fails 1) config now counted (handler counted) _
            (change-Inv s job.id (with_attempts (suc job.attempts)) h (λ q. refl)
              (λ q v ids. absurd (other ids)))
            other)
    where
      some_is_none : {A : Type 0} {a : A} → some a ≡ none → ⊥
      some_is_none e = cc

  take_up-Inv :
      (fails : ℕ → Bool) (config : Config) (handlers : Handlers) (now : ℤ)
      (r : Result Error (Option Job) × Db)
      → handlers job_type ≡ none
      → Outcome (λ o t. Inv t × Given o) Inv r
      → Inv (take_up fails config handlers now r).1
  unfolding take_up process_job
  take_up-Inv fails config handlers now (ok none, t) lacks h = h.0
  take_up-Inv fails config handlers now (ok (some job), t) lacks h =
      let process : M (Unit {0}) = process_with fails config now job (handlers job.job_type) in
      let ran =
        process_with-Inv fails config now job (handlers job.job_type) t h.0 h.1
          (λ ids. ap handlers (h.1 ids).0 ∙ lacks) in
      let both : Ensures (λ _ u. Inv u) Inv ((process >>= λ _. pure true) t) =
        bind_call process (λ _. pure true) t (Ensures-always ran)
          (λ a u e. Ensures-pure true u (Ensures-ok ran e)) in
      Ensures-always both
  take_up-Inv fails config handlers now (err e, t) lacks h = h
  take_up-Inv fails config handlers now (panic, t) lacks h = h

  pub work-Inv :
      (driver : Driver) (fails : ℕ → Bool) (config : Config) (handlers : Handlers) (now later : ℤ)
      (s : Db)
      → handlers job_type ≡ none
      → Inv s
      → Inv (work driver fails config handlers now later s).1
  unfolding work
  work-Inv driver fails config handlers now later s lacks h =
      take_up-Inv _ config handlers later _ lacks (fetch_job-Inv driver fails now s h).outcome

  pub enqueue-Inv :
      (fails : ℕ → Bool) (config : Config) (name encoded : String) (opts : List EnqueueOption)
      (now later : ℤ) (s : Db)
      → Inv s
      → Ensures (λ _ t. Inv t) Inv (enqueue fails config name encoded opts now later s)
  unfolding enqueue
  enqueue-Inv fails config name encoded opts now later s h = bind_raise_if _ _ _ _ h λ _.
      bind_gets _ _ _ (
        bind_exec _ _ _ _ _ h λ _. Ensures-pure _ _ (record {
          table = IsTable-append job_id h.table _ refl (λ same. absurd (fresh same h.given));
          given = omega (arith, h.given);
        }))
    where
      fresh : s.next_job ≡ id → id < s.next_job → ⊥
      fresh same less = omega arith

  open-unfailed : (status : JobStatus) → IsOpen status → not (is_failed status) ≡ false → ⊥
  open-unfailed pending u e = cc
  open-unfailed running u e = cc
  open-unfailed completed u e = u
  open-unfailed failed u e = u
  open-unfailed retrying u e = u

  pub retry_job-Inv :
      (driver : Driver) (fails : ℕ → Bool) (k : ℕ) (now : ℤ) (s : Db)
      → Inv s
      → Ensures (λ _ t. Inv t) Inv (retry_job driver fails k now s)
  unfolding retry_job
  retry_job-Inv driver fails k now s h = bind_read _ _ _ (get_job-reads driver _ _ s) h λ j got.
      bind_raise_if _ _ _ _ h λ over. Ensures-exec _ _ _ _ h λ _.
        let found = get_job-found driver _ k s got in
        change-Inv s k (reset now) h (λ q. refl)
          (λ q u ids.
            let untried =
              IsTable-found job_id h.table (has_key job_id k) j found
                (key-select_first job_id k s.jobs j found ∙ ids) in
            absurd (open-unfailed j.status untried.3 over))

  pub cleanup-Inv :
      (fails : Bool) (cutoff : ℤ) (s : Db)
      → Inv s
      → Ensures (λ _ t. Inv t) Inv (cleanup fails cutoff s)
  unfolding cleanup
  cleanup-Inv fails cutoff s h = bind_gets _ _ _ (
      bind_exec _ _ _ _ _ h λ _.
        Ensures-pure _ _
          (record { table = IsTable-delete job_id h.table (is_old cutoff); given = h.given }))
