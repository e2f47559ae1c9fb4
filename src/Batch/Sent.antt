-- ===== src/Batch/Sent.antt =====
-- What holds of the tables of internal/batch and of what the provider was asked for, and the statements
-- that keep it.
use Prim.Native.String.{String}
use tonkey.Prelude.{
  ℕ, ◌<◌, ◌≡◌, refl, sym, ◌∙◌, Bool, false, Option, some, List, [], ◌∷◌, arith, inl, inr, All,
  All-append, All-map, Bool-cases, if◌then◌else◌,
}
use tonkey.Prelude.Int.{ℤ}
use tonkey.Table.{
  select_first, update_where, All-update_where, select_first-append_some, select_first-update_where,
}
use tonkey.Table.Keys.{has_key, Below, Below-append, Below-update}
use tonkey.Table.Texts.{Lacks, Distinct, Distinct-append, Distinct-update, Lacks-free}
use tonkey.Batch.Store.{Batch, TxStatus, Payment, Transaction, State}
use tonkey.Batch.Manager.{
  batch_id, tx_id, has_id, is_pending, add_batch, add_transaction, new_transaction, is_taken,
  change, set_processing, send, new_batch,
}

abbrev pub sent_id : String × Payment → String
sent_id e = e.0

-- No batch with this number is pending, or will be added.
pub record IsShut (b : ℕ) (s : State) : Type 0 where
  pub given : b < s.next_batch
  pub begun : All (λ (r : Batch). r.id ≡ b → is_pending r.status ≡ false) s.batches

-- The transaction with this id is of that batch.
pub record IsIn (b : ℕ) (i : String) (s : State) : Type 0 where
  pub row : Transaction
  pub found : select_first (has_id i) s.txs ≡ some row
  pub batch : row.batch_id ≡ some b

-- The transaction is of a batch that is not pending any more.
abbrev pub IsSpent : String → State → Type 0
IsSpent i s = (b : ℕ) × IsIn b i s × IsShut b s

-- Whatever was sent was sent for different transactions, of batches that are not pending.
pub record IsOnce (s : State) : Type 0 where
  pub once : Distinct sent_id s.sent
  pub spent : All (λ (e : String × Payment). IsSpent e.0 s) s.sent
  pub unique : Distinct tx_id s.txs
  pub below : Below batch_id s.next_batch s.batches

IsSpent-map :
    (s t : State)
    → ((b : ℕ) (i : String) → IsIn b i s → IsIn b i t)
    → ((b : ℕ) → IsShut b s → IsShut b t)
    → IsOnce s
    → All (λ (e : String × Payment). IsSpent e.0 t) s.sent
IsSpent-map s t f g h =
    All-map (λ (e : String × Payment). IsSpent e.0 s) (λ (e : String × Payment). IsSpent e.0 t)
      s.sent (λ e k. (k.0, f k.0 e.0 k.1, g k.0 k.2)) h.spent

pub set_processing-IsOnce :
    (id : ℕ) (b : Bool) (s : State) → IsOnce s → IsOnce (set_processing id b s)
set_processing-IsOnce id b s h = record {
  once = h.once;
  spent =
      IsSpent-map s _ (λ b i k. record { row = k.row; found = k.found; batch = k.batch })
        (λ b shut. record { given = shut.given; begun = shut.begun }) h;
  unique = h.unique;
  below = h.below;
}

pub add_batch-IsOnce :
    (user : ℕ) (org : Option ℕ) (payments : List Payment) (now : ℤ) (s : State)
    → IsOnce s
    → IsOnce (add_batch user org payments now s)
add_batch-IsOnce user org payments now s h =
    let b = new_batch s.next_batch user org payments now in
    record {
      once = h.once;
      spent =
          IsSpent-map s _ (λ b i k. record { row = k.row; found = k.found; batch = k.batch })
            (λ k shut. record {
              given = omega (arith, shut.given);
              begun =
                  All-append (λ (r : Batch). r.id ≡ k → is_pending r.status ≡ false) s.batches
                    (b ∷ []) shut.begun ((λ e. absurd (fresh k shut e)), tt);
            })
            h;
      unique = h.unique;
      below = Below-append batch_id s.next_batch s.batches b h.below refl;
    }
  where
    fresh : (k : ℕ) → IsShut k s → s.next_batch ≡ k → ⊥
    fresh k shut e = omega (arith, shut.given)

pub add_transaction-IsOnce :
    (id : String) (user : ℕ) (org : Option ℕ) (batch : ℕ) (p : Payment) (now : ℤ) (s : State)
    → is_taken id s ≡ false
    → IsOnce s
    → IsOnce (add_transaction id user org batch p now s)
add_transaction-IsOnce id user org batch p now s free h = record {
  once = h.once;
  spent =
      IsSpent-map s _
        (λ b i k. record {
          row = k.row;
          found =
              select_first-append_some (has_id i) s.txs (new_transaction id user org batch p now)
                k.found;
          batch = k.batch;
        })
        (λ b shut. record { given = shut.given; begun = shut.begun }) h;
  unique =
      Distinct-append tx_id s.txs (new_transaction id user org batch p now) h.unique
        (Lacks-free tx_id id s.txs free);
  below = h.below;
}

-- A change of a batch that does not make it pending.
pub record IsOnward (f : Batch → Batch) : Type 0 where
  pub same_id : (b : Batch) → (f b).id ≡ b.id
  pub shut : (b : Batch) → is_pending b.status ≡ false → is_pending (f b).status ≡ false

pub change-IsShut :
    (id b : ℕ) (f : Batch → Batch) (s : State) → IsOnward f → IsShut b s → IsShut b (change id f s)
change-IsShut id b f s o h = record {
  given = h.given;
  begun =
      All-update_where (λ (r : Batch). r.id ≡ b → is_pending r.status ≡ false) (has_key batch_id id)
        f s.batches h.begun (λ r k _ e. o.shut r (k (sym (o.same_id r) ∙ e)));
}

pub change-IsOnce :
    (id : ℕ) (f : Batch → Batch) (s : State) → IsOnward f → IsOnce s → IsOnce (change id f s)
change-IsOnce id f s o h = record {
  once = h.once;
  spent =
      IsSpent-map s _ (λ b i k. record { row = k.row; found = k.found; batch = k.batch })
        (λ b. change-IsShut id b f s o) h;
  unique = h.unique;
  below = Below-update batch_id (has_key batch_id id) f s.next_batch s.batches o.same_id h.below;
}

-- UPDATE tx_log SET status = … WHERE …
abbrev pub mark_where : (Transaction → Bool) → TxStatus → State → State
mark_where p status s = record s { txs = update_where p (λ t. record t { status = status }) s.txs }

pub mark_where-IsIn :
    (p : Transaction → Bool) (status : TxStatus) (s : State) (b : ℕ) (i : String)
    → IsIn b i s
    → IsIn b i (mark_where p status s)
mark_where-IsIn p status s b i h =
    let f : Transaction → Transaction = λ t. record t { status = status } in
    record {
      row = if p h.row then f h.row else h.row;
      found = select_first-update_where (has_id i) p f s.txs (λ r. refl) ∙ rw h.found refl;
      batch = elim (Bool-cases (p h.row)) [ inl e ↦ rw e h.batch | inr e ↦ rw e h.batch ];
    }

pub mark_where-IsOnce :
    (p : Transaction → Bool) (status : TxStatus) (s : State)
    → IsOnce s
    → IsOnce (mark_where p status s)
mark_where-IsOnce p status s h = record {
  once = h.once;
  spent =
      IsSpent-map s _ (mark_where-IsIn p status s)
        (λ b shut. record { given = shut.given; begun = shut.begun }) h;
  unique = Distinct-update tx_id p _ s.txs (λ r. refl) h.unique;
  below = h.below;
}

pub send-IsOnce :
    (t : Transaction) (b : ℕ) (s : State)
    → IsIn b t.id s
    → IsShut b s
    → Lacks sent_id t.id s.sent
    → IsOnce s
    → IsOnce (send t s)
send-IsOnce t b s here shut new h = record {
  once = Distinct-append sent_id s.sent (t.id, t.payment) h.once new;
  spent =
      All-append (λ (e : String × Payment). IsSpent e.0 (send t s)) s.sent ((t.id, t.payment) ∷ [])
        (IsSpent-map s (send t s)
          (λ b i k. record { row = k.row; found = k.found; batch = k.batch })
          (λ b k. record { given = k.given; begun = k.begun }) h)
        (
          (
            b,
            record { row = here.row; found = here.found; batch = here.batch },
            record { given = shut.given; begun = shut.begun },
          ),
          tt,
        );
  unique = h.unique;
  below = h.below;
}
