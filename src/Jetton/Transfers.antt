-- ===== src/Jetton/Transfers.antt =====
-- `Transfer` of internal/jetton/jetton.go: who holds what after it.
use tonkey.Prelude.{
  ℕ, ◌≡◌, ◌≢◌, sym, ap, ◌∙◌, subst, Bool-cases, some_inj, ==_refl, inl, inr, Bool, false, some,
  List, arith, ◌==◌, if◌then◌else◌, ok,
}
use tonkey.Prelude.Int.{
  ℤ, pos, ◌+ℤ◌, ◌-ℤ◌, ◌≤ℤ◌, ltb_ℤ, +ℤ_same, +ℤ_zero, +ℤ_grown, +ℤ_shift, zero-+ℤ,
}
use tonkey.Prelude.Ensures.{
  Ensures, Ensures-ok, Ensures-exec, weaken, bind_read, bind_call, bind_raise_if, bind_deref,
  bind_or_raise, bind_exec,
}
use tonkey.Table.{select_first}
use tonkey.Jetton.Decimal.{Decimal}
use tonkey.Jetton.Store.{Wallet, Db, TransferRequest}
use tonkey.Jetton.Lookup.{is_wallet_of, set_balance}
use tonkey.Jetton.Tokens.{move, transfer}
use tonkey.Jetton.Wallets.{held, balance_in, worth, value, same_key}
use tonkey.Jetton.Opening.{IsKept, get_or_create_wallet-Opened}
use tonkey.Jetton.Writes.{
  UniqueIds-write, below-write, balance_in-writes, held-writes, held-writes_self,
}
use tonkey.Jetton.Reads.{get-reads, positive_amount-reads, positive_amount-read}

module _ (d : Decimal) where
  open d use {Text, parse, print, parse-print}

  pub value-print : (z : ℤ) → value d (print z) ≡ z
  value-print z = rw (parse-print z, value)

  pub value-read : (text : Text) (z : ℤ) → parse text ≡ some z → value d text ≡ z
  value-read text z e = rw (e, value)

  -- A transfer of `amount` of the jetton `j` from the user `from` to the user `to`.
  pub record Moved (j from to : ℕ) (amount : ℤ) (s t : Db d) : Type 0 where
    pub kept : IsKept d t
    pub covered : amount ≤ℤ balance_in d j from s.wallets
    pub balances :
        (j' u : ℕ)
        → balance_in d j' u t.wallets ≡ (
            if same_key d j to j' u
            then balance_in d j to s.wallets +ℤ amount
            else if same_key d j from j' u
            then balance_in d j from s.wallets -ℤ amount
            else balance_in d j' u s.wallets)
    pub conserved : from ≢ to → (j' : ℕ) → held d j' t.wallets ≡ held d j' s.wallets
    pub inflated :
        from ≡ to
        → (j' : ℕ)
        → held d j' t.wallets ≡ held d j' s.wallets +ℤ (if j == j' then amount else pos 0)

  module _ (fails : ℕ → Bool) (req : TransferRequest d) (from to : ℕ) (v w : Wallet d)
      (x y amount : ℤ) (s₀ s : Db d) (kept : IsKept d s)
      (balances : (j' u' : ℕ) → balance_in d j' u' s.wallets ≡ balance_in d j' u' s₀.wallets)
      (holdings : (j' : ℕ) → held d j' s.wallets ≡ held d j' s₀.wallets)
      (found_v : select_first (is_wallet_of d req.jetton_id from) s.wallets ≡ some v)
      (found_w : select_first (is_wallet_of d req.jetton_id to) s.wallets ≡ some w)
      (read_x : parse v.balance ≡ some x) (read_y : parse w.balance ≡ some y)
      (enough : ltb_ℤ x amount ≡ false) where
    x_is : balance_in d req.jetton_id from s₀.wallets ≡ x
    x_is = sym (balances _ _) ∙ ap (worth d) found_v ∙ value-read _ _ read_x

    y_is : balance_in d req.jetton_id to s₀.wallets ≡ y
    y_is = sym (balances _ _) ∙ ap (worth d) found_w ∙ value-read _ _ read_y

    v_is : value d v.balance ≡ x
    v_is = value-read v.balance x read_x

    w_is : value d w.balance ≡ y
    w_is = value-read w.balance y read_y

    abbrev paid : Text
    paid = print (x -ℤ amount)

    abbrev received : Text
    received = print (y +ℤ amount)

    abbrev after : List (Wallet d)
    after = (set_balance d w.id received (set_balance d v.id paid s)).wallets

    balances_after :
        (j' u : ℕ)
        → balance_in d j' u after ≡ (
            if same_key d req.jetton_id to j' u
            then balance_in d req.jetton_id to s₀.wallets +ℤ amount
            else if same_key d req.jetton_id from j' u
            then balance_in d req.jetton_id from s₀.wallets -ℤ amount
            else balance_in d j' u s₀.wallets)
    balances_after j' u =
        balance_in-writes d s.wallets req.jetton_id from to v w paid received kept.unique found_v
          found_w j' u
        ∙ rw (x_is, y_is, value-print (y +ℤ amount), value-print (x -ℤ amount), balances j' u)

    conserved_after : from ≢ to → (j' : ℕ) → held d j' after ≡ held d j' s₀.wallets
    conserved_after ne j' =
        let h =
          held-writes d s.wallets req.jetton_id from to v w paid received kept.unique found_v
            found_w ne j' in
        elim (Bool-cases (req.jetton_id == j')) [
          | inl e ↦
              +ℤ_same _ _ _ _ (rw e at h) (
                rw (v_is, w_is, value-print (x -ℤ amount), value-print (y +ℤ amount))
                  (+ℤ_shift x y amount))
              ∙ holdings j'
          | inr e ↦ +ℤ_zero _ _ (rw e at h) ∙ holdings j'
        ]

    inflated_after :
        from ≡ to
        → (j' : ℕ)
        → held d j' after ≡ held d j' s₀.wallets +ℤ (if req.jetton_id == j' then amount else pos 0)
    inflated_after eq j' =
        let h =
          held-writes_self d s.wallets req.jetton_id from to v w paid received kept.unique found_v
            found_w eq j' in
        let xy : x ≡ y =
          sym x_is ∙ ap (λ (u : ℕ). balance_in d req.jetton_id u s₀.wallets) eq ∙ y_is in
        elim (Bool-cases (req.jetton_id == j')) [
          | inl e ↦
              rw (e, ← holdings j')
                (+ℤ_grown _ _ _ _ _ (rw (e, value-print (y +ℤ amount)) at h) (v_is ∙ xy))
          | inr e ↦ rw (e, ← holdings j') (+ℤ_zero _ _ (rw e at h) ∙ sym (zero-+ℤ _))
        ]

    move-Moved :
        Ensures
          (λ _ t. Moved req.jetton_id from to amount s₀ t)
          (λ _. Unit)
          (move d fails req v w x y amount s)
    unfolding move
    move-Moved = bind_exec _ _ _ _ _ tt λ _. bind_exec _ _ _ _ _ tt λ _.
        Ensures-exec _ _ _ _ tt λ _. record {
          kept = record {
            unique =
                UniqueIds-write d w.id received _
                  (UniqueIds-write d v.id paid s.wallets kept.unique);
            fresh =
                below-write d w.id s.next_wallet received _
                  (below-write d v.id s.next_wallet paid s.wallets kept.fresh);
          };
          covered = rw x_is (ground arith);
          balances = balances_after;
          conserved = conserved_after;
          inflated = inflated_after;
        }

  transfer-Ensures :
      (fails : ℕ → Bool) (from : ℕ) (req : TransferRequest d) (s : Db d)
      → IsKept d s
      → Ensures
          (λ _ t.
            (to : ℕ) × (amount : ℤ) × (req.to_user_id ≡ some to)
            × (parse req.amount ≡ some amount)
            × (pos 1 ≤ℤ amount)
            × Moved req.jetton_id from to amount s t)
          (λ _. Unit)
          (transfer d fails from req s)
  unfolding transfer
  transfer-Ensures fails from req s kept = bind_read _ _ _ (get-reads d _ _ s) tt λ jetton got.
      bind_raise_if _ _ _ _ tt λ enabled.
        bind_read _ _ _ (positive_amount-reads d req.amount s) tt λ amount positive.
          bind_call _ _ _ tt λ v s₁ e₁. bind_raise_if _ _ _ _ tt λ thawed.
            bind_deref _ _ _ tt λ x read_x. bind_raise_if _ _ _ _ tt λ enough.
              bind_or_raise _ _ _ _ tt λ to is_to. bind_call _ _ _ tt λ w s₂ e₂.
                bind_deref _ _ _ tt λ y read_y.
                  let o₁ = get_or_create_wallet-Opened d _ _ _ _ s v s₁ kept e₁ in
                  let o₂ = get_or_create_wallet-Opened d _ _ _ _ s₁ w s₂ o₁.kept e₂ in
                  let (read, pos_amount) = positive_amount-read d req.amount s amount positive in
                  weaken (λ _ t m. (to, amount, is_to, read, pos_amount, m))
                    (move-Moved fails req from to v w x y amount s s₂ o₂.kept
                      (λ j' u. o₂.balances j' u ∙ o₁.balances j' u)
                      (λ j'. o₂.holdings j' ∙ o₁.holdings j') (o₂.lookups _ v o₁.found) o₂.found
                      read_x read_y enough)

  -- A positive amount that `from` covers went to `to`, and no other balance changed.
  abbrev pub Paid : ℕ → ℕ → TransferRequest d → Db d → Db d → Type 0
  Paid from to req s t =
      (amount : ℤ) × (parse req.amount ≡ some amount)
      × (pos 1 ≤ℤ amount)
      × (amount ≤ℤ balance_in d req.jetton_id from s.wallets)
      × ((j u : ℕ)
          → balance_in d j u t.wallets ≡ (
              if same_key d req.jetton_id to j u
              then balance_in d req.jetton_id to s.wallets +ℤ amount
              else if same_key d req.jetton_id from j u
              then balance_in d req.jetton_id from s.wallets -ℤ amount
              else balance_in d j u s.wallets))

  -- The jetton's wallets together hold the positive amount more.
  abbrev pub Inflated : TransferRequest d → Db d → Db d → Type 0
  Inflated req s t =
      (amount : ℤ) × (parse req.amount ≡ some amount)
      × (pos 1 ≤ℤ amount)
      × (held d req.jetton_id t.wallets ≡ held d req.jetton_id s.wallets +ℤ amount)

  module _ (fails : ℕ → Bool) (from to : ℕ) (req : TransferRequest d) (s t : Db d)
      (kept : IsKept d s) (to_is : req.to_user_id ≡ some to)
      (returned : transfer d fails from req s ≡ (ok tt, t)) where
    transferred :
        (amount : ℤ) × (parse req.amount ≡ some amount)
        × (pos 1 ≤ℤ amount)
        × Moved req.jetton_id from to amount s t
    transferred =
        let (to', amount, is_to, read, positive, moved) =
          Ensures-ok (transfer-Ensures fails from req s kept) returned in
        let same : to' ≡ to = some_inj (sym is_to ∙ to_is) in
        (
          amount,
          read,
          positive,
          subst (λ (u : ℕ). Moved req.jetton_id from u amount s t) same moved,
        )

    -- When `Transfer` returns, the amount was positive and covered, the recipient holds that much
    -- more than before, the sender (if another user) that much less, and all other balances, of
    -- this and of other jettons, are as before.
    pub transfer_balances : Paid from to req s t
    transfer_balances =
        let (amount, read, positive, moved) = transferred in
        (amount, read, positive, moved.covered, moved.balances)

    -- When `Transfer` to another user returns, the wallets of every jetton together hold what they
    -- held before.
    pub transfer_conserves : from ≢ to → (j : ℕ) → held d j t.wallets ≡ held d j s.wallets
    transfer_conserves = transferred.3.conserved

    -- When `Transfer` of a user to the same user returns, the jetton's wallets together hold the
    -- amount more than before: the call makes tokens out of nothing.
    pub self_transfer_inflates : from ≡ to → Inflated req s t
    self_transfer_inflates same =
        let (amount, read, positive, moved) = transferred in
        (amount, read, positive, rw (==_refl req.jetton_id) at (moved.inflated same req.jetton_id))
