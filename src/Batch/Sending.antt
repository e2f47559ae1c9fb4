-- ===== src/Batch/Sending.antt =====
-- What `Process` of internal/batch asks the provider for.
use Prim.Native.String.{String}
use tonkey.Prelude.{
  append_nil, append_assoc, ℕ, suc, ◌+◌, ◌≡◌, ◌<◌, refl, sym, ap, ◌∙◌, subst, Bool, true, false,
  Option, none, some, List, [], ◌∷◌, ◌++◌, map, arith, ◌⊎◌, inl, inr, length, Bool-cases, Result,
  ok, err, panic, pure, exec_ignoring, ◌>>=◌, ◌*◌,
}
use tonkey.Prelude.Int.{ℤ}
use tonkey.Prelude.Ensures.{
  Ensures, Ensures-pure, Ensures-exec, Ensures-raise, bind_after, bind_read, bind_modify,
  bind_raise_if, bind_exec, bind_exec_ignoring, weaken, Ensures-never, Ensures-gets,
}
use tonkey.Table.{cut_off, select, select_first}
use tonkey.Table.Keys.{has_key, found-update}
use tonkey.Batch.Store.{
  Error, batch_processing, completed, failed, partial, Batch, Payment, Transaction, State,
}
use tonkey.Batch.Manager.{
  batch_id, is_waiting, is_of, by_time, get, get_transactions, change, mark, Provider, Tally, seen,
  count, outcome, send, with_count, send_one, send_all, begun, ended, no_tally, process_batch,
  set_processing, release, process,
}

-- What is sent for a transaction.
abbrev pub asked : Transaction → String × Payment
asked t = (t.id, t.payment)

abbrev pub is_waiting_tx : Transaction → Bool
is_waiting_tx t = is_waiting t.status

-- The pending transactions among the ones of a batch that are read, oldest first.
abbrev pub due : Option ℕ → ℕ → State → List Transaction
due cut id s = select is_waiting_tx (cut_off cut (by_time (select (is_of id) s.txs)))

-- How many of the payments the provider refuses, from its k-th answer on.
abbrev pub refusal : Option String → ℕ
refusal none = 0
refusal (some e) = 1

abbrev pub refusals : Provider → ℕ → List Transaction → ℕ
refusals provider k [] = 0
refusals provider k (t ∷ ts) = refusal (provider k t.payment) + refusals provider (suc k) ts

abbrev pub Stored : ℕ → State → Type 0
Stored id s = (b : Batch) × (select_first (has_key batch_id id) s.batches ≡ some b)

change-Stored :
    (id : ℕ) (f : Batch → Batch) (s : State)
    → ((b : Batch) → (f b).id ≡ b.id)
    → Stored id s
    → Stored id (change id f s)
change-Stored id f s same (b, e) = (f b, found-update batch_id id f s.batches b same e)

-- What a part of the loop does that sends for `ts`.
record Looped (provider : Provider) (id : ℕ) (ts : List Transaction) (s : State) (c d : Tally)
    (t : State) : Type 0 where
  sent : t.sent ≡ s.sent ++ map asked ts
  failures : d.failures ≡ c.failures + refusals provider (seen c) ts
  all : seen d ≡ seen c + length ts
  stored : Stored id t

abbrev Loops : Provider → ℕ → List Transaction → State → Tally → Result Error Tally × State → Type 0
Loops provider id ts s c r = Ensures (λ d t. Looped provider id ts s c d t) (λ _. ⊥) r

module _ (provider : Provider) (fails : ℕ → Bool) (id : ℕ) where
  counted-Looped :
      (t : Transaction) (c : Tally) (s u : State)
      → u.sent ≡ s.sent ++ asked t ∷ []
      → Stored id u
      → Looped provider id (t ∷ []) s c (count (provider (seen c) t.payment) c) u
  counted-Looped t c s u e h = record {
    sent = e;
    failures = (counted (provider (seen c) t.payment) c).0;
    all = (counted (provider (seen c) t.payment) c).1;
    stored = h;
  }
    where
      counted :
          (o : Option String) (c : Tally)
          → ((count o c).failures ≡ c.failures + (refusal o + 0)) × (seen (count o c) ≡ seen c + 1)
      counted none c = (omega arith, omega arith)
      counted (some x) c = (omega arith, omega arith)

  send_one-Loops :
      (t : Transaction) (c : Tally) (s : State)
      → Stored id s
      → Loops provider id (t ∷ []) s c (send_one provider fails id t c s)
  unfolding send_one
  send_one-Loops t c s h = bind_modify _ _ _ (
      bind_exec_ignoring _ _ _ _ (λ _. progress (send t s) refl h)
        (λ _. progress (mark t.id (outcome (provider (seen c) t.payment)) (send t s)) refl h))
    where
      progress :
          (u : State)
          → u.sent ≡ s.sent ++ asked t ∷ []
          → Stored id u
          → Loops provider id (t ∷ []) s c (
              (exec_ignoring
                    (fails (suc (2 * seen c)))
                    (change id (with_count (seen (count (provider (seen c) t.payment) c))))
                  >>= λ _. pure (count (provider (seen c) t.payment) c))
                u)
      progress u e k =
          bind_exec_ignoring _ _ _ _ (λ _. Ensures-pure _ _ (counted-Looped t c s u e k))
            (λ _. Ensures-pure _ _ (counted-Looped t c s _ e (change-Stored id _ u (λ b. refl) k)))

  join-Looped :
      (t : Transaction) (ts : List Transaction) (s u v : State) (c d e : Tally)
      → Looped provider id (t ∷ []) s c d u
      → Looped provider id ts u d e v
      → Looped provider id (t ∷ ts) s c e v
  join-Looped t ts s u v c d e h k = record {
    sent =
        k.sent
        ∙ ap (λ xs. xs ++ map asked ts) h.sent
        ∙ append_assoc s.sent (asked t) (map asked ts);
    failures =
        let next : seen d ≡ suc (seen c) = omega (arith, h.all) in
        let later = subst (λ n. e.failures ≡ d.failures + refusals provider n ts) next k.failures in
        omega (arith, h.failures, later);
    all = omega (arith, h.all, k.all);
    stored = k.stored;
  }

  send_all-Loops :
      (ts : List Transaction) (c : Tally) (s : State)
      → Stored id s
      → Loops provider id (select is_waiting_tx ts) s c (send_all provider fails id ts c s)
  unfolding send_all
  send_all-Loops [] c s h = Ensures-pure _ _ (record {
    sent = sym (append_nil s.sent);
    failures = omega arith;
    all = omega arith;
    stored = h;
  })
  send_all-Loops (t ∷ ts) c s h = elim (Bool-cases (is_waiting t.status)) [
    | inl waits ↦ rw waits (
        bind_after (send_one provider fails id t c) (send_all provider fails id ts) s
          (send_one-Loops t c s h)
          (λ d u one.
            weaken (λ x v k. join-Looped t _ s u v c d x one k) (send_all-Loops ts d u one.stored)))
    | inr done ↦ rw done (
        bind_after (pure c) (send_all provider fails id ts) s
          (Ensures-pure {Q = λ d u. (d ≡ c) × (u ≡ s)} c s (refl, refl))
          (λ d u e. rw (e.0, e.1) (send_all-Loops ts c s h)))
  ]

-- What `Process` has done when it returns.
pub record Processed (provider : Provider) (cut : Option ℕ) (id : ℕ) (s t : State) : Type 0 where
  pub sent : t.sent ≡ s.sent ++ map asked (due cut id s)
  pub batch : Batch
  pub found : select_first (has_key batch_id id) t.batches ≡ some batch
  pub completes : refusals provider 0 (due cut id s) ≡ 0 → batch.status ≡ completed
  pub fails :
      refusals provider 0 (due cut id s) ≡ length (due cut id s)
      → 0 < length (due cut id s)
      → batch.status ≡ failed
  pub splits :
      0 < refusals provider 0 (due cut id s)
      → refusals provider 0 (due cut id s) < length (due cut id s)
      → batch.status ≡ partial

-- What it has sent when it stops.
abbrev pub AllOrNothing : Option ℕ → ℕ → State → State → Type 0
AllOrNothing cut id s t = (t.sent ≡ s.sent) ⊎ (t.sent ≡ s.sent ++ map asked (due cut id s))

pub get-reads : (b : Bool) (id : ℕ) (s : State) → (get b id s).1 ≡ s
unfolding get ◌>>=◌
get-reads b id s = ground arith

pub get-found :
    (b : Bool) (id : ℕ) (s : State) {x : Batch} {t : State}
    → get b id s ≡ (ok x, t)
    → select_first (has_key batch_id id) s.batches ≡ some x
unfolding get ◌>>=◌
get-found b id s e = ground arith

ended-Processed :
    (provider : Provider) (cut : Option ℕ) (id : ℕ) (s v : State) (c : Tally) (later : ℤ)
    → Looped provider id (due cut id s) s no_tally c v
    → Processed provider cut id s (change id (ended c later) v)
ended-Processed provider cut id s v c later h =
    let (b, found) = h.stored in
    record {
      sent = h.sent;
      batch = ended c later b;
      found = found-update batch_id id (ended c later) v.batches b (λ q. refl) found;
      completes = λ e. ground (arith, h.failures, e);
      fails = λ e l. ground (arith, h.failures, h.all, e, l);
      splits = λ l k. ground (arith, h.failures, h.all, l, k);
    }

module _ (provider : Provider) (fails : ℕ → Bool) (cut : Option ℕ) (now later : ℤ) (id : ℕ)
    (s : State) where
  read_due :
      Ensures
        (λ ts v.
          (ts ≡ cut_off cut (by_time (select (is_of id) s.txs))) × (v ≡ change id (begun now) s))
        (AllOrNothing cut id s)
        (get_transactions cut (fails 2) id (change id (begun now) s))
  unfolding get_transactions
  read_due = bind_raise_if _ _ _ _ (inl refl) λ _. Ensures-gets _ _ (refl, refl)

  process_batch-sends :
      Ensures
        (λ _ t. Processed provider cut id s t)
        (AllOrNothing cut id s)
        (process_batch provider fails cut now later id s)
  unfolding process_batch
  process_batch-sends = bind_read _ _ _ (get-reads _ _ s) (inl refl) λ b got.
      bind_raise_if _ _ _ _ (inl refl) λ _. bind_exec _ _ _ _ _ (inl refl) λ _.
        bind_after _ _ _ read_due λ ts u same.
          let stored = change-Stored id (begun now) s (λ q. refl) (b, get-found _ id s got) in
          let begin = change id (begun now) s in
          let loop =
            Ensures-never (AllOrNothing cut id s)
              (send_all provider (λ k. fails (k + 4)) id
                (cut_off cut (by_time (select (is_of id) s.txs))) no_tally begin)
              (send_all-Loops provider (λ k. fails (k + 4)) id
                (cut_off cut (by_time (select (is_of id) s.txs))) no_tally begin stored) in
          rw (same.0, same.1)
            (bind_after _ _ _ loop λ c v looped. Ensures-exec _ _ _ _ (inr looped.sent) λ _.
              ended-Processed provider cut id s v c later (record {
                sent = looped.sent;
                failures = looped.failures;
                all = looped.all;
                stored = looped.stored;
              }))

pub release-Ensures :
    {A : Type 0} {Q R : A → State → Type 0} {X Y : State → Type 0} (id : ℕ)
    (r : Result Error A × State)
    → Ensures Q X r
    → ((a : A) (t : State) → Q a t → R a (set_processing id false t))
    → ((t : State) → X t → Y (set_processing id false t))
    → Ensures R Y (release id r)
release-Ensures id (ok a, t) h f g = record { outcome = f a t h.outcome }
release-Ensures id (err e, t) h f g = record { outcome = g t h.outcome }
release-Ensures id (panic, t) h f g = record { outcome = g t h.outcome }

-- A `Process` asks the provider for nothing, or for all transactions that are pending among the ones of
-- the batch that it reads, each once and in the order of their times, after what was sent before. It
-- reads all transactions of the batch, or only the first ones when the reading breaks off, which
-- it does not notice. When it returns without an error it has asked for all pending ones that it has
-- read, and the batch is completed if the provider has refused none of them, failed if it has
-- refused all of at least one, and partial if it has refused some but not all.
pub process_sends :
    (provider : Provider) (fails : ℕ → Bool) (cut : Option ℕ) (now later : ℤ) (id : ℕ) (s : State)
    → Ensures
        (λ _ t. Processed provider cut id s t)
        (AllOrNothing cut id s)
        (process provider fails cut now later id s)
unfolding process
process_sends provider fails cut now later id s =
    let locked = set_processing id true s in
    let ran = process_batch-sends provider fails cut now later id locked in
    elim (Bool-cases (s.processing id)) [
      | inl busy ↦ rw busy (Ensures-raise batch_processing s (inl refl))
      | inr idle ↦ rw idle (
          release-Ensures id _ ran
            (λ _ t h. record {
              sent = h.sent;
              batch = h.batch;
              found = h.found;
              completes = h.completes;
              fails = h.fails;
              splits = h.splits;
            })
            (λ t h. h))
    ]
