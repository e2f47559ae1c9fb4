-- ===== src/Batch/Once.antt =====
-- What the provider is asked for over any calls of the methods of internal/batch.
use Prim.Native.String.{String}
use tonkey.Prelude.{
  ℕ, ◌≡◌, refl, Bool, true, false, not, ◌||◌, Option, List, [], ◌∷◌, arith, Bool-cases, inl, inr,
}
use tonkey.Prelude.Int.{ℤ}
use tonkey.Prelude.Ensures.{
  Ensures, Ensures-always, Ensures-pure, Ensures-exec, Ensures-raise, Ensures-gets, bind_read,
  bind_gets, bind_raise_if, bind_exec, bind_after,
}
use tonkey.Table.{cut_off, select}
use tonkey.Table.Texts.{Distinct}
use tonkey.Batch.Store.{State, Payment, batch_processing}
use tonkey.Batch.Manager.{
  create, add_transactions, is_taken, process, process_batch, cancel, change, begun, ended,
  called_off, is_waiting_in, Provider, is_pending, Tally, by_time, is_of, no_tally,
  get_transactions,
}
use tonkey.Batch.Sending.{get-reads, get-found, release-Ensures}
use tonkey.Batch.Sent.{
  sent_id, IsOnce, IsOnward, add_batch-IsOnce, add_transaction-IsOnce, change-IsOnce,
  mark_where-IsOnce, set_processing-IsOnce,
}
use tonkey.Batch.Ready.{IsReady, begun-IsReady, send_all-IsOnce}

pub data Call : Type 0 where
  creating : (ℕ → Bool) → (ℕ → ℕ → String) → ℕ → Option ℕ → List Payment → ℤ → Call
  processing : Provider → (ℕ → Bool) → Option ℕ → ℤ → ℤ → ℕ → Call
  cancelling : (ℕ → Bool) → ℤ → ℕ → ℕ → Call

-- The state after a call, whether it returned or not.
unfoldable pub perform : Call → State → State
perform (creating fails names user org payments now) s =
    (create fails names user org payments now s).1
perform (processing provider fails cut now later id) s =
    (process provider fails cut now later id s).1
perform (cancelling fails now id user) s = (cancel fails now id user s).1

unfoldable pub run : List Call → State → State
run [] s = s
run (c ∷ calls) s = run calls (perform c s)

abbrev pub start : State
start = record { batches = []; next_batch = 1; txs = []; processing = λ _. false; sent = [] }

add_transactions-IsOnce :
    (fails : ℕ → Bool) (names : ℕ → String) (user : ℕ) (org : Option ℕ) (batch : ℕ) (now : ℤ)
    (payments : List Payment) (s : State)
    → IsOnce s
    → Ensures (λ _ t. IsOnce t) IsOnce (add_transactions fails names user org batch now payments s)
unfolding add_transactions
add_transactions-IsOnce fails names user org batch now [] s h = Ensures-pure _ _ h
add_transactions-IsOnce fails names user org batch now (p ∷ payments) s h = bind_gets _ _ _ (
    bind_exec _ _ _ _ _ h λ sound. add_transactions-IsOnce _ _ user org batch now payments _ (
      add_transaction-IsOnce (names 0) user org batch p now s
        (free (fails 0) (is_taken (names 0) s) sound) h))
  where
    free : (a b : Bool) → (a || b) ≡ false → b ≡ false
    free true b e = cc
    free false b e = e

create-IsOnce :
    (fails : ℕ → Bool) (names : ℕ → ℕ → String) (user : ℕ) (org : Option ℕ)
    (payments : List Payment) (now : ℤ) (s : State)
    → IsOnce s
    → Ensures (λ _ t. IsOnce t) IsOnce (create fails names user org payments now s)
unfolding create
create-IsOnce fails names user org payments now s h = bind_raise_if _ _ _ _ h λ _.
    bind_raise_if _ _ _ _ h λ _. bind_gets _ _ _ (
      let added = add_batch-IsOnce user org payments now s h in
      bind_exec _ _ _ _ _ h λ _.
        bind_after _ _ _ (add_transactions-IsOnce _ _ user org s.next_batch now payments _ added)
          λ _ t k. Ensures-pure _ _ k)

ended-IsOnward : (c : Tally) (later : ℤ) → IsOnward (ended c later)
ended-IsOnward c later = record { same_id = λ b. refl; shut = λ b e. ground arith }

process_batch-IsOnce :
    (provider : Provider) (fails : ℕ → Bool) (cut : Option ℕ) (now later : ℤ) (id : ℕ) (s : State)
    → IsOnce s
    → Ensures (λ _ t. IsOnce t) IsOnce (process_batch provider fails cut now later id s)
unfolding process_batch
process_batch-IsOnce provider fails cut now later id s h =
    bind_read _ _ _ (get-reads _ _ s) h λ b got. bind_raise_if _ _ _ _ h λ waits.
      let ready =
        begun-IsReady id now b s h (get-found _ id s got) (pending (is_pending b.status) waits)
          cut in
      bind_exec _ _ _ _ _ h λ _. bind_after _ _ _ (read ready) λ ts u k.
        bind_after _ _ _ (send_all-IsOnce provider _ id ts no_tally u k) λ c v held.
          Ensures-exec _ _ _ _ held
            λ _. change-IsOnce id (ended c later) v (ended-IsOnward c later) held
  where
    read :
        IsReady id (cut_off cut (by_time (select (is_of id) s.txs))) (change id (begun now) s)
        → Ensures
            (λ ts u. IsReady id ts u)
            IsOnce
            (get_transactions cut (fails 2) id (change id (begun now) s))
    read k = unfold get_transactions in (bind_raise_if _ _ _ _ (k).once λ _. Ensures-gets _ _ k)

    pending : (b : Bool) → not b ≡ false → b ≡ true
    pending true e = refl
    pending false e = cc

process-IsOnce :
    (provider : Provider) (fails : ℕ → Bool) (cut : Option ℕ) (now later : ℤ) (id : ℕ) (s : State)
    → IsOnce s
    → Ensures (λ _ t. IsOnce t) IsOnce (process provider fails cut now later id s)
unfolding process
process-IsOnce provider fails cut now later id s h = elim (Bool-cases (s.processing id)) [
  | inl busy ↦ rw busy (Ensures-raise batch_processing s h)
  | inr idle ↦ rw idle (
      release-Ensures id _
        (process_batch-IsOnce provider fails cut now later id _ (set_processing-IsOnce id true s h))
        (λ _ t k. set_processing-IsOnce id false t k) (λ t k. set_processing-IsOnce id false t k))
]

cancel-IsOnce :
    (fails : ℕ → Bool) (now : ℤ) (id user : ℕ) (s : State)
    → IsOnce s
    → Ensures (λ _ t. IsOnce t) IsOnce (cancel fails now id user s)
unfolding cancel
cancel-IsOnce fails now id user s h = bind_read _ _ _ (get-reads _ _ s) h λ b got.
    bind_raise_if _ _ _ _ h λ _. bind_raise_if _ _ _ _ h λ _. bind_gets _ _ _ (
      bind_raise_if _ _ _ _ h λ _.
        let called =
          change-IsOnce id (called_off now) s (record { same_id = λ b. refl; shut = λ b e. refl })
            h in
        bind_exec _ _ _ _ _ h
          λ _. Ensures-exec _ _ _ _ called λ _. mark_where-IsOnce (is_waiting_in id) _ _ called)

perform-IsOnce : (c : Call) (s : State) → IsOnce s → IsOnce (perform c s)
unfolding perform
perform-IsOnce (creating fails names user org payments now) s h =
    Ensures-always (create-IsOnce fails names user org payments now s h)
perform-IsOnce (processing provider fails cut now later id) s h =
    Ensures-always (process-IsOnce provider fails cut now later id s h)
perform-IsOnce (cancelling fails now id user) s h =
    Ensures-always (cancel-IsOnce fails now id user s h)

run-IsOnce : (calls : List Call) (s : State) → IsOnce s → IsOnce (run calls s)
unfolding run
run-IsOnce [] s h = h
run-IsOnce (c ∷ calls) s h = run-IsOnce calls (perform c s) (perform-IsOnce c s h)

-- Over any `Create`, `Process` and `Cancel` on empty tables, in any order, with any answers of the
-- provider and with any failures, reads that break off included, the provider is asked to send each transaction once at most.
pub sends_once : (calls : List Call) → Distinct sent_id (run calls start).sent
sends_once calls =
    let h = run-IsOnce calls start (record { once = tt; spent = tt; unique = tt; below = tt }) in
    h.once
