-- ===== src/Batch/Creating.antt =====
-- What a returned `Create` of internal/batch has checked and written.
use Prim.Native.String.{String}
use tonkey.Prelude.{
  append_nil, append_assoc, sym, ℕ, suc, ◌^◌, ◌≤◌, ◌<◌, ◌≡◌, refl, ap, ◌∙◌, Bool, true, false,
  Option, some, List, [], ◌∷◌, ◌++◌, map, arith, All, length, ok, ◌==◌, ltb,
}
use tonkey.Prelude.Int.{ℤ, pos, ◌+ℤ◌, int_laws}
use tonkey.Prelude.Ensures.{
  Ensures, Ensures-ok, Ensures-pure, bind_gets, bind_raise_if, bind_exec, bind_after, weaken,
}
use tonkey.Batch.Store.{Batch, pending, Payment, Transaction, State}
use tonkey.Batch.Totals.{sum, IsWithin, total_from-sum}
use tonkey.Batch.Manager.{create, add_transactions, new_transaction, add_transaction, is_waiting}

-- The rows that the second loop writes.
abbrev rows_of : (ℕ → String) → ℕ → Option ℕ → ℕ → ℤ → List Payment → List Transaction
rows_of names user org batch now [] = []
rows_of names user org batch now (p ∷ payments) =
    new_transaction (names 0) user org batch p now
    ∷ rows_of (λ k. names (suc k)) user org batch now payments

pub record Created (user : ℕ) (payments : List Payment) (s t : State) (b : Batch) : Type 0 where
  pub sized : (0 < length payments) × (length payments ≤ 100)
  pub added : t.batches ≡ s.batches ++ b ∷ []
  pub fresh : (b.id ≡ s.next_batch) × (b.user_id ≡ user) × (b.status ≡ pending)
  pub counted : b.tx_count ≡ length payments
  pub total :
      All (λ (p : Payment). IsWithin (2 ^ 56) p.amount) payments → b.total_amount ≡ sum payments
  pub rows : List Transaction
  pub logged : t.txs ≡ s.txs ++ rows
  pub same : map (λ (r : Transaction). r.payment) rows ≡ payments
  pub waiting :
      All
        (λ (r : Transaction).
          (r.batch_id ≡ some b.id) × (r.user_id ≡ some user) × (is_waiting r.status ≡ true))
        rows

rows_of-same :
    (names : ℕ → String) (user : ℕ) (org : Option ℕ) (batch : ℕ) (now : ℤ) (payments : List Payment)
    → map (λ (r : Transaction). r.payment) (rows_of names user org batch now payments) ≡ payments
rows_of-same names user org batch now [] = refl
rows_of-same names user org batch now (p ∷ payments) =
    ap (λ ps. p ∷ ps) (rows_of-same _ user org batch now payments)

rows_of-waiting :
    (names : ℕ → String) (user : ℕ) (org : Option ℕ) (batch : ℕ) (now : ℤ) (payments : List Payment)
    → All
        (λ (r : Transaction).
          (r.batch_id ≡ some batch) × (r.user_id ≡ some user) × (is_waiting r.status ≡ true))
        (rows_of names user org batch now payments)
rows_of-waiting names user org batch now [] = tt
rows_of-waiting names user org batch now (p ∷ payments) =
    ((refl, refl, refl), rows_of-waiting _ user org batch now payments)

add_transactions-logs :
    (fails : ℕ → Bool) (names : ℕ → String) (user : ℕ) (org : Option ℕ) (batch : ℕ) (now : ℤ)
    (payments : List Payment) (s : State)
    → Ensures
        (λ _ t.
          (t.batches ≡ s.batches) × (t.txs ≡ s.txs ++ rows_of names user org batch now payments))
        (λ _. Unit)
        (add_transactions fails names user org batch now payments s)
unfolding add_transactions
add_transactions-logs fails names user org batch now [] s =
    Ensures-pure _ _ (refl, sym (append_nil s.txs))
add_transactions-logs fails names user org batch now (p ∷ payments) s = bind_gets _ _ _ (
    bind_exec _ _ _ _ _ tt λ _.
      weaken
        (λ _ t k. (
          k.0,
          k.1
              ∙ append_assoc s.txs (new_transaction (names 0) user org batch p now)
                  (rows_of (λ k. names (suc k)) user org batch now payments),
        ))
        (add_transactions-logs _ (λ k. names (suc k)) user org batch now payments
          (add_transaction (names 0) user org batch p now s)))

create-Created :
    (fails : ℕ → Bool) (names : ℕ → ℕ → String) (user : ℕ) (org : Option ℕ)
    (payments : List Payment) (now : ℤ) (s : State)
    → Ensures
        (λ b t. Created user payments s t b)
        (λ _. Unit)
        (create fails names user org payments now s)
unfolding create
create-Created fails names user org payments now s = bind_raise_if _ _ _ _ tt λ some_there.
    bind_raise_if _ _ _ _ tt λ few. bind_gets _ _ _ (
      bind_exec _ _ _ _ _ tt λ _.
        bind_after _ _ _ (add_transactions-logs _ _ user org s.next_batch now payments _)
          λ _ t done. Ensures-pure _ _ (record {
            sized = sizes (length payments) some_there few;
            added = done.0;
            fresh = (refl, refl, refl);
            counted = refl;
            total = λ small.
                total_from-sum 0 (pos 0) payments (omega arith)
                  (omega (arith, (sizes (length payments) some_there few).1)) small
                ∙ zero_sum;
            rows = rows_of (names s.next_batch) user org s.next_batch now payments;
            logged = done.1;
            same = rows_of-same _ user org s.next_batch now payments;
            waiting = rows_of-waiting _ user org s.next_batch now payments;
          }))
  where
    sizes : (n : ℕ) → (n == 0) ≡ false → ltb 100 n ≡ false → (0 < n) × (n ≤ 100)
    sizes n e k = (ground arith, ground arith)

    zero_sum : pos 0 +ℤ sum payments ≡ sum payments
    zero_sum = omega int_laws

-- A `Create` that returns was given 1 to 100 payments. It adds the batch that it returns, pending, and a
-- pending transaction of it and of the user for each payment, in their order. The recorded total is the sum of the
-- amounts when each of them is at most 2 ^ 56 in absolute value.
pub create_adds :
    (fails : ℕ → Bool) (names : ℕ → ℕ → String) (user : ℕ) (org : Option ℕ)
    (payments : List Payment) (now : ℤ) (s t : State) (b : Batch)
    → create fails names user org payments now s ≡ (ok b, t)
    → Created user payments s t b
create_adds fails names user org payments now s t b e =
    Ensures-ok (create-Created fails names user org payments now s) e
