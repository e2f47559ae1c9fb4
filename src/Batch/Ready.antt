-- ===== src/Batch/Ready.antt =====
-- The loop of `Process` in internal/batch sends each of its transactions for the first time.
use Prim.Native.String.{String}
use tonkey.Prelude.{
  ℕ, suc, ◌*◌, ◌<◌, ◌≡◌, ◌≢◌, refl, sym, ap, ◌∙◌, subst, Bool, true, false, Option, none, some,
  some_inj, List, [], ◌∷◌, arith, inl, inr, ◌==◌, ==→eq, All, All-append, All-map, All-both,
  Bool-cases, pure, exec_ignoring, ◌>>=◌,
}
use tonkey.Prelude.Int.{ℤ, leb_ℤ}
use tonkey.Prelude.Ensures.{Ensures, Ensures-pure, bind_modify, bind_exec_ignoring, bind_after}
use tonkey.Table.{
  cut_off, All-cut_off, select_first, select, update_where, All-select, All-select_first,
}
use tonkey.Table.Keys.{has_key, key-select_first}
use tonkey.Table.Texts.{Distinct-cut_off, Lacks, Distinct, Distinct-select, Distinct-found}
use tonkey.Table.Order.{All-order_by, Distinct-order_by}
use tonkey.Batch.Store.{Error, Batch, TxStatus, Payment, Transaction, State}
use tonkey.Batch.Manager.{
  batch_id, tx_id, has_id, is_of, is_pending, is_waiting, by_time, change, send, mark, Provider,
  Tally, seen, count, outcome, with_count, send_one, send_all, begun,
}
use tonkey.Batch.Sent.{
  sent_id, IsShut, IsIn, IsSpent, IsOnce, IsOnward, change-IsShut, change-IsOnce, mark_where-IsIn,
  mark_where-IsOnce, send-IsOnce,
}

abbrev is_earlier : Transaction → Transaction → Bool
is_earlier t u = leb_ℤ t.created_at u.created_at

-- The transactions of a batch that is not pending any more, none of which was sent.
pub record IsReady (id : ℕ) (ts : List Transaction) (s : State) : Type 0 where
  pub once : IsOnce s
  pub shut : IsShut id s
  pub distinct : Distinct tx_id ts
  pub rows : All (λ (t : Transaction). IsIn id t.id s) ts
  pub unsent : All (λ (t : Transaction). Lacks sent_id t.id s.sent) ts

IsReady-tail :
    (id : ℕ) (t : Transaction) (ts : List Transaction) (s : State)
    → IsReady id (t ∷ ts) s
    → IsReady id ts s
IsReady-tail id t ts s h = record {
  once = h.once;
  shut = h.shut;
  distinct = h.distinct.1;
  rows = h.rows.1;
  unsent = h.unsent.1;
}

send-IsReady :
    (id : ℕ) (t : Transaction) (ts : List Transaction) (s : State)
    → IsReady id (t ∷ ts) s
    → IsReady id ts (send t s)
send-IsReady id t ts s h = record {
  once = send-IsOnce t id s h.rows.0 h.shut h.unsent.0 h.once;
  shut = record { given = h.shut.given; begun = h.shut.begun };
  distinct = h.distinct.1;
  rows =
      All-map (λ (u : Transaction). IsIn id u.id s) (λ (u : Transaction). IsIn id u.id (send t s))
        ts (λ u k. record { row = k.row; found = k.found; batch = k.batch }) h.rows.1;
  unsent =
      All-map (λ (u : Transaction). (u.id ≢ t.id) × Lacks sent_id u.id s.sent)
        (λ (u : Transaction). Lacks sent_id u.id (send t s).sent) ts
        (λ u k.
          All-append (λ (e : String × Payment). e.0 ≢ u.id) s.sent ((t.id, t.payment) ∷ []) k.1
            ((λ e. k.0 (sym e)), tt))
        (All-both (λ (u : Transaction). u.id ≢ t.id)
          (λ (u : Transaction). Lacks sent_id u.id s.sent) ts h.distinct.0 h.unsent.1);
}

mark-IsReady :
    (id : ℕ) (i : String) (status : TxStatus) (ts : List Transaction) (s : State)
    → IsReady id ts s
    → IsReady id ts (mark i status s)
mark-IsReady id i status ts s h = record {
  once = mark_where-IsOnce (has_id i) status s h.once;
  shut = record { given = h.shut.given; begun = h.shut.begun };
  distinct = h.distinct;
  rows =
      All-map (λ (u : Transaction). IsIn id u.id s)
        (λ (u : Transaction). IsIn id u.id (mark i status s)) ts
        (λ u k. mark_where-IsIn (has_id i) status s id u.id k) h.rows;
  unsent = h.unsent;
}

change-IsReady :
    (id : ℕ) (f : Batch → Batch) (ts : List Transaction) (s : State)
    → IsOnward f
    → IsReady id ts s
    → IsReady id ts (change id f s)
change-IsReady id f ts s o h = record {
  once = change-IsOnce id f s o h.once;
  shut = change-IsShut id id f s o h.shut;
  distinct = h.distinct;
  rows =
      All-map (λ (u : Transaction). IsIn id u.id s)
        (λ (u : Transaction). IsIn id u.id (change id f s)) ts
        (λ u k. record { row = k.row; found = k.found; batch = k.batch }) h.rows;
  unsent = h.unsent;
}

module _ (provider : Provider) (fails : ℕ → Bool) (id : ℕ) where
  send_one-IsReady :
      (t : Transaction) (ts : List Transaction) (c : Tally) (s : State)
      → IsReady id (t ∷ ts) s
      → Ensures (λ _ u. IsReady id ts u) IsOnce (send_one provider fails id t c s)
  unfolding send_one
  send_one-IsReady t ts c s h =
      let answer = provider (seen c) t.payment in
      let sent = send-IsReady id t ts s h in
      bind_modify _ _ _ (
        bind_exec_ignoring _ _ _ _ (λ _. progress (send t s) sent)
          (λ _. progress _ (mark-IsReady id t.id (outcome answer) ts (send t s) sent)))
    where
      progress :
          (u : State)
          → IsReady id ts u
          → Ensures {E = Error}
              (λ _ v. IsReady id ts v)
              IsOnce
              ((exec_ignoring
                    (fails (suc (2 * seen c)))
                    (change id (with_count (seen (count (provider (seen c) t.payment) c))))
                  >>= λ _. pure (count (provider (seen c) t.payment) c))
                u)
      progress u k =
          bind_exec_ignoring _ _ _ _ (λ _. Ensures-pure _ _ k)
            (λ _.
              Ensures-pure _ _
                (change-IsReady id _ ts u (record { same_id = λ b. refl; shut = λ b e. e }) k))

  pub send_all-IsOnce :
      (ts : List Transaction) (c : Tally) (s : State)
      → IsReady id ts s
      → Ensures (λ _ u. IsOnce u) IsOnce (send_all provider fails id ts c s)
  unfolding send_all
  send_all-IsOnce [] c s h = Ensures-pure _ _ h.once
  send_all-IsOnce (t ∷ ts) c s h = elim (Bool-cases (is_waiting t.status)) [
    | inl waits ↦
        rw waits (bind_after _ _ _ (send_one-IsReady t ts c s h) λ d u k. send_all-IsOnce ts d u k)
    | inr done ↦ rw done (
        bind_after _ _ _ (Ensures-pure {Q = λ _ u. IsReady id ts u} c s (IsReady-tail id t ts s h))
          λ d u k. send_all-IsOnce ts d u k)
  ]

IsShut-begun :
    (id : ℕ) (now : ℤ) (rows : List Batch)
    → All
        (λ (r : Batch). r.id ≡ id → is_pending r.status ≡ false)
        (update_where (has_key batch_id id) (begun now) rows)
IsShut-begun id now [] = tt
IsShut-begun id now (r ∷ rows) = elim (Bool-cases (r.id == id)) [
  | inl e ↦ rw e ((λ _. refl), IsShut-begun id now rows)
  | inr e ↦ rw e ((λ same. absurd (other e same)), IsShut-begun id now rows)
]
  where
    other : (r.id == id) ≡ false → r.id ≡ id → ⊥
    other e same = ground arith

is_of-eq : (id : ℕ) (t : Transaction) → is_of id t ≡ true → t.batch_id ≡ some id
is_of-eq id t e = go t.batch_id e
  where
    go : (o : Option ℕ) → elim o [ none ↦ false | some b ↦ b == id ] ≡ true → o ≡ some id
    go none k = cc
    go (some b) k = ap (λ n. some n) (==→eq b id k)

-- What `Process` reads of a batch that was pending.
module _ (id : ℕ) (now : ℤ) (b : Batch) (s : State) (h : IsOnce s)
    (found : select_first (has_key batch_id id) s.batches ≡ some b)
    (waits : is_pending b.status ≡ true) where
  begun-IsShut : IsShut id (change id (begun now) s)
  begun-IsShut = record {
    given =
        let ids = key-select_first batch_id id s.batches b found in
        let less =
          (All-select_first (λ (r : Batch). r.id < s.next_batch) (has_key batch_id id) s.batches b
            h.below found).0 in
        subst (λ n. n < s.next_batch) ids less;
    begun = IsShut-begun id now s.batches;
  }

  unshut : IsShut id s → ⊥
  unshut k =
      let over =
        (All-select_first (λ (r : Batch). r.id ≡ id → is_pending r.status ≡ false)
          (has_key batch_id id) s.batches b k.begun found).0 in
      cc (over (key-select_first batch_id id s.batches b found), waits)

  new :
      (t : Transaction)
      → select_first (has_id t.id) s.txs ≡ some t
      → t.batch_id ≡ some id
      → Lacks sent_id t.id s.sent
  new t stored inside =
      All-map (λ (e : String × Payment). IsSpent e.0 s) (λ (e : String × Payment). e.0 ≢ t.id)
        s.sent (λ e k same. unshut (subst (λ n. IsShut n s) (one k.0 e.0 k.1 same) k.2)) h.spent
    where
      one : (n : ℕ) (i : String) → IsIn n i s → i ≡ t.id → n ≡ id
      one n i k same =
          let row_is : some k.row ≡ some t =
            sym k.found ∙ ap (λ z. select_first (has_id z) s.txs) same ∙ stored in
          some_inj (sym k.batch ∙ ap (λ (z : Transaction). z.batch_id) (some_inj row_is) ∙ inside)

  pub begun-IsReady :
      (cut : Option ℕ)
      → IsReady id (cut_off cut (by_time (select (is_of id) s.txs))) (change id (begun now) s)
  begun-IsReady cut =
      let rows =
        All-cut_off (λ t. (select_first (has_id t.id) s.txs ≡ some t) × (is_of id t ≡ true)) cut _
          (All-order_by is_earlier
            (λ t. (select_first (has_id t.id) s.txs ≡ some t) × (is_of id t ≡ true))
            (select (is_of id) s.txs)
            (All-select (is_of id) (λ t. select_first (has_id t.id) s.txs ≡ some t) s.txs
              (Distinct-found tx_id s.txs h.unique))) in
      record {
        once =
            change-IsOnce id (begun now) s (record { same_id = λ b. refl; shut = λ b e. refl }) h;
        shut = begun-IsShut;
        distinct = Distinct-cut_off tx_id cut _ (
            Distinct-order_by is_earlier tx_id (select (is_of id) s.txs)
              (Distinct-select tx_id (is_of id) s.txs h.unique));
        rows =
            All-map (λ t. (select_first (has_id t.id) s.txs ≡ some t) × (is_of id t ≡ true))
              (λ (t : Transaction). IsIn id t.id (change id (begun now) s)) _
              (λ t k. record { row = t; found = k.0; batch = is_of-eq id t k.1 }) rows;
        unsent =
            All-map (λ t. (select_first (has_id t.id) s.txs ≡ some t) × (is_of id t ≡ true))
              (λ (t : Transaction). Lacks sent_id t.id s.sent) _
              (λ t k. new t k.0 (is_of-eq id t k.1)) rows;
      }
