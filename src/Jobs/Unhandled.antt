-- ===== src/Jobs/Unhandled.antt =====
-- A job of internal/jobs whose type has no handler, with one worker, under any calls.
use Prim.Native.String.{String}
use tonkey.Prelude.{ℕ, ◌<◌, ◌≡◌, Bool, none, some, List, [], ◌∷◌, All}
use tonkey.Prelude.Int.{ℤ}
use tonkey.Prelude.Ensures.{Ensures-always}
use tonkey.Table.{select_first}
use tonkey.Table.Keys.{has_key, IsTable, IsTable-found, key-select_first}
use tonkey.Jobs.Store.{Driver, Job, Db, Config, job_id}
use tonkey.Jobs.Queue.{Handlers, work}
use tonkey.Jobs.Admin.{EnqueueOption, enqueue, retry_job, cleanup}
use tonkey.Jobs.Untried.{IsUntried, Holds, Inv, work-Inv, enqueue-Inv, retry_job-Inv, cleanup-Inv}

pub data Call : Type 0 where
  enqueueing : (ℕ → Bool) → Config → String → String → List EnqueueOption → ℤ → ℤ → Call
  working : Driver → (ℕ → Bool) → Config → Handlers → ℤ → ℤ → Call
  asking : Driver → (ℕ → Bool) → ℕ → ℤ → Call
  cleaning : Bool → ℤ → Call

-- The table after a call, whether it returned or not.
unfoldable pub perform : Call → Db → Db
perform (enqueueing fails config job_type encoded opts now later) s =
    (enqueue fails config job_type encoded opts now later s).1
perform (working driver fails config handlers now later) s =
    (work driver fails config handlers now later s).1
perform (asking driver fails id now) s = (retry_job driver fails id now s).1
perform (cleaning fails cutoff) s = (cleanup fails cutoff s).1

unfoldable pub run : List Call → Db → Db
run [] s = s
run (c ∷ calls) s = run calls (perform c s)

-- The worker has no handler for jobs of this type.
abbrev pub Lacks : String → Call → Type 0
Lacks job_type (working driver fails config handlers now later) = handlers job_type ≡ none
Lacks job_type _ = Unit

module _ (id : ℕ) (job_type : String) where
  perform-Inv :
      (c : Call) (s : Db) → Lacks job_type c → Inv id job_type s → Inv id job_type (perform c s)
  unfolding perform
  perform-Inv (enqueueing fails config name encoded opts now later) s lacks h =
      Ensures-always (enqueue-Inv id job_type fails config name encoded opts now later s h)
  perform-Inv (working driver fails config handlers now later) s lacks h =
      work-Inv id job_type driver fails config handlers now later s lacks h
  perform-Inv (asking driver fails k now) s lacks h =
      Ensures-always (retry_job-Inv id job_type driver fails k now s h)
  perform-Inv (cleaning fails cutoff) s lacks h =
      Ensures-always (cleanup-Inv id job_type fails cutoff s h)

  run-Inv :
      (calls : List Call) (s : Db)
      → All (Lacks job_type) calls
      → Inv id job_type s
      → Inv id job_type (run calls s)
  unfolding run
  run-Inv [] s lacks h = h
  run-Inv (c ∷ calls) s lacks h = run-Inv calls (perform c s) lacks.1 (perform-Inv c s lacks.0 h)

-- With one worker that never has a handler for a type of jobs: when the row of an id is of that type, may
-- be tried at least once, has no attempt counted and is pending or running, then after any calls, with
-- any failures, the row of that id, where it is still there, is so too.
pub run-IsUntried :
    (calls : List Call) (id : ℕ) (job_type : String) (s : Db) (r : Job)
    → IsTable job_id (Holds id job_type) s.next_job s.jobs
    → id < s.next_job
    → All (Lacks job_type) calls
    → select_first (has_key job_id id) (run calls s).jobs ≡ some r
    → IsUntried job_type r
run-IsUntried calls id job_type s r table given lacks found =
    let h = run-Inv id job_type calls s lacks (record { table = table; given = given }) in
    IsTable-found job_id h.table (has_key job_id id) r found
      (key-select_first job_id id (run calls s).jobs r found)
