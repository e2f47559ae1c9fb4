-- ===== src/Jobs/Abandoned.antt =====
-- A job of internal/jobs that is marked as running, when its worker does not come back to it. The calls
-- are those of several workers and users in any order, a claim and the run of a job being separate.
use Prim.Native.String.{String}
use tonkey.Prelude.{
  ℕ, suc, ◌≡◌, ◌≢◌, refl, sym, ap, ◌∙◌, subst, Bool, true, false, not, Option, none, some, some_inj,
  List, [], ◌∷◌, arith, All, Result, ok, ◌>>=◌,
}
use tonkey.Prelude.Int.{ℤ}
use tonkey.Prelude.Ensures.{
  Ensures, Ensures-always, Ensures-pure, Ensures-exec, Ensures-exec_ignoring, bind_read, bind_gets,
  bind_raise_if, bind_exec, bind_exec_ignoring,
}
use tonkey.Table.{select_first, select_first-append_some, select_first-delete_where}
use tonkey.Table.Keys.{
  has_key, IsTable, IsTable-append, IsTable-update, IsTable-delete, found-update_other,
}
use tonkey.Jobs.Store.{
  Driver, strings, bytes, Error, JobStatus, pending, running, Job, Db, Config, Handler, job_id,
  is_pending, is_running, is_failed, is_due,
}
use tonkey.Jobs.Queue.{
  Handlers, change, started, start, next_due, claim, complete_job, fail_job, finish, process_with,
  process_job, with_attempts, done, after_failure, no_handler,
}
use tonkey.Jobs.Admin.{EnqueueOption, enqueue, get_job, retry_job, reset, is_old, cleanup}
use tonkey.Jobs.Fetching.{next_due-stored}

pub data Call : Type 0 where
  enqueueing : (ℕ → Bool) → Config → String → String → List EnqueueOption → ℤ → ℤ → Call
  claiming : Bool → ℤ → Call
  processing : (ℕ → Bool) → Config → Handlers → ℤ → Job → Call
  retrying : Driver → (ℕ → Bool) → ℕ → ℤ → Call
  cleaning : Bool → ℤ → Call

-- The table after a call, whether it returned or not.
unfoldable pub perform : Call → Db → Db
perform (enqueueing fails config job_type encoded opts now later) s =
    (enqueue fails config job_type encoded opts now later s).1
perform (claiming fails now) s = (claim fails now s).1
perform (processing fails config handlers now job) s =
    (process_job fails config handlers now job s).1
perform (retrying driver fails id now) s = (retry_job driver fails id now s).1
perform (cleaning fails cutoff) s = (cleanup fails cutoff s).1

unfoldable pub run : List Call → Db → Db
run [] s = s
run (c ∷ calls) s = run calls (perform c s)

-- No worker finishes a job of this id.
abbrev pub IsAway : ℕ → Call → Type 0
IsAway id (processing fails config handlers now job) = job.id ≢ id
IsAway id _ = Unit

abbrev pub IsNumbered : Db → Type 0
IsNumbered s = IsTable job_id (λ (r : Job). Unit) s.next_job s.jobs

record Holds (id : ℕ) (r : Job) (s : Db) : Type 0 where
  numbered : IsNumbered s
  found : select_first (has_key job_id id) s.jobs ≡ some r

-- What a call does to the row, which runs.
abbrev Spares : ℕ → Job → {A : Type 0} → Result Error A × Db → Type 0
Spares id r x = Ensures (λ _ t. Holds id r t) (Holds id r) x

pub get_job-reads : (driver : Driver) (b : Bool) (id : ℕ) (s : Db) → (get_job driver b id s).1 ≡ s
unfolding get_job ◌>>=◌
get_job-reads strings b id s = ground arith
get_job-reads bytes b id s = ground arith

pub get_job-found :
    (driver : Driver) (b : Bool) (id : ℕ) (s : Db) {j : Job} {t : Db}
    → get_job driver b id s ≡ (ok j, t)
    → select_first (has_key job_id id) s.jobs ≡ some j
unfolding get_job ◌>>=◌
get_job-found strings b id s e = ground arith
get_job-found bytes b id s e = ground arith

module _ (id : ℕ) (r : Job) (runs : is_running r.status ≡ true) (s : Db) (h : Holds id r s) where
  change-Holds :
      (k : ℕ) (f : Job → Job) → ((q : Job) → (f q).id ≡ q.id) → k ≢ id → Holds id r (change k f s)
  change-Holds k f same other = record {
    numbered = IsTable-update job_id h.numbered (has_key job_id k) f same (λ q x y. tt);
    found = found-update_other job_id id k f s.jobs r same other h.found;
  }

  enqueue-Spares :
      (fails : ℕ → Bool) (config : Config) (job_type encoded : String) (opts : List EnqueueOption)
      (now later : ℤ)
      → Spares id r (enqueue fails config job_type encoded opts now later s)
  unfolding enqueue
  enqueue-Spares fails config job_type encoded opts now later = bind_raise_if _ _ _ _ h λ _.
      bind_gets _ _ _ (
        bind_exec _ _ _ _ _ h λ _. Ensures-pure _ _ (record {
          numbered = IsTable-append job_id h.numbered _ refl tt;
          found = select_first-append_some (has_key job_id id) s.jobs _ h.found;
        }))

  start-Holds : (now : ℤ) (o : Option Job) → next_due now s ≡ o → Holds id r (start now o s)
  start-Holds now none e = h
  start-Holds now (some j) e =
      let (stored, is_ready) = next_due-stored now s j h.numbered.unique e in
      change-Holds j.id (started now) (λ q. refl)
        (λ ids.
          let one : some j ≡ some r =
            sym stored ∙ ap (λ (n : ℕ). select_first (has_key job_id n) s.jobs) ids ∙ h.found in
          let due : is_due now r ≡ true =
            subst (λ (z : Job). is_due now z ≡ true) (some_inj one) is_ready in
          absurd (unready r.status runs (ground arith)))
    where
      unready : (status : JobStatus) → is_running status ≡ true → is_pending status ≡ true → ⊥
      unready running e k = cc
      unready pending e k = cc
      unready _ e k = cc

  claim-Spares : (fails : Bool) (now : ℤ) → Spares id r (claim fails now s)
  unfolding claim
  claim-Spares fails now =
      bind_gets _ _ _
        (bind_exec _ _ _ _ _ h λ _. Ensures-pure _ _ (start-Holds now (next_due now s) refl))

  cleanup-Spares : (fails : Bool) (cutoff : ℤ) → Spares id r (cleanup fails cutoff s)
  unfolding cleanup
  cleanup-Spares fails cutoff = bind_gets _ _ _ (
      bind_exec _ _ _ _ _ h λ _. Ensures-pure _ _ (record {
        numbered = IsTable-delete job_id h.numbered (is_old cutoff);
        found =
            select_first-delete_where (has_key job_id id) (is_old cutoff) s.jobs r h.found
              (young r.status runs);
      }))
    where
      young :
          (status : JobStatus)
          → is_running status ≡ true
          → is_old cutoff (record r { status = status }) ≡ false
      young running e = refl
      young _ e = cc

  retry_job-Spares :
      (driver : Driver) (fails : ℕ → Bool) (k : ℕ) (now : ℤ)
      → Spares id r (retry_job driver fails k now s)
  unfolding retry_job
  retry_job-Spares driver fails k now = bind_read _ _ _ (get_job-reads driver _ _ s) h λ j got.
      bind_raise_if _ _ _ _ h λ over. Ensures-exec _ _ _ _ h λ _.
        change-Holds k (reset now) (λ q. refl)
          (λ ids.
            let one : some j ≡ some r =
              sym (get_job-found driver _ k s got)
              ∙ ap (λ (n : ℕ). select_first (has_key job_id n) s.jobs) ids
              ∙ h.found in
            let ended : not (is_failed r.status) ≡ false =
              subst (λ (z : Job). not (is_failed z.status) ≡ false) (some_inj one) over in
            absurd (unfailed r.status runs ended))
    where
      unfailed :
          (status : JobStatus) → is_running status ≡ true → not (is_failed status) ≡ false → ⊥
      unfailed running e k = cc
      unfailed _ e k = cc

finish-Spares :
    (id : ℕ) (r : Job) (runs : is_running r.status ≡ true) (s : Db) (h : Holds id r s)
    (fails : Bool) (config : Config) (now : ℤ) (job : Job) (o : Option String)
    → job.id ≢ id
    → Spares id r (finish fails config now job o s)
unfolding finish complete_job fail_job
finish-Spares id r runs s h fails config now job none other =
    Ensures-exec_ignoring _ _ _ (λ _. h)
      (λ _. change-Holds id r runs s h job.id (done now) (λ q. refl) other)
finish-Spares id r runs s h fails config now job (some error) other =
    Ensures-exec_ignoring _ _ _ (λ _. h)
      (λ _.
        change-Holds id r runs s h job.id (after_failure config now job error) (λ q. ground arith)
          other)

process_with-Spares :
    (id : ℕ) (r : Job) (runs : is_running r.status ≡ true) (s : Db) (h : Holds id r s)
    (fails : ℕ → Bool) (config : Config) (now : ℤ) (job : Job) (o : Option Handler)
    → job.id ≢ id
    → Spares id r (process_with fails config now job o s)
unfolding process_with finish
process_with-Spares id r runs s h fails config now job none other =
    finish-Spares id r runs s h (fails 0) config now job (some (no_handler job.job_type)) other
process_with-Spares id r runs s h fails config now job (some handler) other =
    let counted = with_attempts (suc job.attempts) job in
    bind_exec_ignoring _ _ _ _
      (λ _. finish-Spares id r runs s h (fails 1) config now counted (handler counted) other)
      (λ _.
        finish-Spares id r runs _
          (change-Holds id r runs s h job.id (with_attempts (suc job.attempts)) (λ q. refl) other)
          (fails 1) config now counted (handler counted) other)

perform-Holds :
    (id : ℕ) (r : Job) (runs : is_running r.status ≡ true) (c : Call) (s : Db)
    → Holds id r s
    → IsAway id c
    → Holds id r (perform c s)
unfolding perform process_job
perform-Holds id r runs (enqueueing fails config job_type encoded opts now later) s h away =
    Ensures-always (enqueue-Spares id r runs s h fails config job_type encoded opts now later)
perform-Holds id r runs (claiming fails now) s h away =
    Ensures-always (claim-Spares id r runs s h fails now)
perform-Holds id r runs (processing fails config handlers now job) s h away =
    Ensures-always
      (process_with-Spares id r runs s h fails config now job (handlers job.job_type) away)
perform-Holds id r runs (retrying driver fails k now) s h away =
    Ensures-always (retry_job-Spares id r runs s h driver fails k now)
perform-Holds id r runs (cleaning fails cutoff) s h away =
    Ensures-always (cleanup-Spares id r runs s h fails cutoff)

run-Holds :
    (id : ℕ) (r : Job) (runs : is_running r.status ≡ true) (calls : List Call) (s : Db)
    → Holds id r s
    → All (IsAway id) calls
    → Holds id r (run calls s)
unfolding run
run-Holds id r runs [] s h away = h
run-Holds id r runs (c ∷ calls) s h away =
    run-Holds id r runs calls (perform c s) (perform-Holds id r runs c s h away.0) away.1

-- Where ids are as the database gives them, a row that is running stays in the table exactly as it is
-- over any `Enqueue`, claims, runs of jobs, `RetryJob` and `Cleanup`, in any order and with any
-- failures, as long as no worker runs a job of its id.
pub run-IsRunning :
    (calls : List Call) (id : ℕ) (r : Job) (s : Db)
    → IsNumbered s
    → select_first (has_key job_id id) s.jobs ≡ some r
    → r.status ≡ running
    → All (IsAway id) calls
    → select_first (has_key job_id id) (run calls s).jobs ≡ some r
run-IsRunning calls id r s numbered found runs away =
    let h =
      run-Holds id r (rw runs refl) calls s (record { numbered = numbered; found = found }) away in
    h.found
