-- ===== src/Jetton/Minting.antt =====
-- `Mint` and `Burn` of internal/jetton/jetton.go.
use tonkey.Prelude.{
  ℕ, ◌≡◌, refl, sym, ap, ◌∙◌, Bool, true, Option, none, some, some_inj, arith, ==_refl,
  if◌then◌else◌, ok, ◌>>=◌,
}
use tonkey.Prelude.Int.{ℤ, pos, ◌+ℤ◌, ◌-ℤ◌, ◌≤ℤ◌, +ℤ_zero, +ℤ_grown, int_laws}
use tonkey.Prelude.Ensures.{
  Ensures, Ensures-ok, Ensures-exec, Ensures-raise_if, bind_read, bind_call, bind_raise_if,
  bind_deref, bind_exec,
}
use tonkey.Table.{select_first}
use tonkey.Jetton.Decimal.{Decimal}
use tonkey.Jetton.Store.{Jetton, Wallet, Db, MintRequest, BurnRequest}
use tonkey.Jetton.Lookup.{has_id, set_balance, set_total_supply}
use tonkey.Jetton.Tokens.{check_mint, or_minter, issue, mint, destroy, burn}
use tonkey.Jetton.Wallets.{held, balance_in, worth, same_key}
use tonkey.Jetton.Opening.{IsKept, Opened, get_or_create_wallet-Opened}
use tonkey.Jetton.Reads.{get-reads, get-found, positive_amount-reads, positive_amount-read}
use tonkey.Jetton.Transfers.{value-read}
use tonkey.Jetton.Supply.{
  IsBalanced, supply-IsBalanced, written-IsKept, written-balances, written-holdings,
}

module _ (d : Decimal) where
  open d use {Text, parse, print}

  Opened-IsBalanced :
      (j u : ℕ) (w : Wallet d) (s t : Db d) → Opened d j u w s t → IsBalanced d s → IsBalanced d t
  Opened-IsBalanced j u w s t o b = record {
    backed = λ id jt e. rw (o.holdings id) (b.backed id jt (rw o.jettons at e));
  }

  check_mint-reads :
      (m : Option Text) (total : Text) (amount : ℤ) (s : Db d)
      → (check_mint d m total amount s).1 ≡ s
  unfolding ◌>>=◌
  check_mint-reads none total amount s = refl
  check_mint-reads (some text) total amount s = ground arith

  -- What `Mint` has checked of the maximum.
  abbrev pub Capped : Option Text → ℤ → Type 0
  Capped none total = Unit
  Capped (some text) total = (cap : ℤ) × (parse text ≡ some cap) × (total ≤ℤ cap)

  check_mint-Capped :
      (m : Option Text) (text : Text) (total amount : ℤ) (s : Db d)
      → parse text ≡ some total
      → check_mint d m text amount s ≡ (ok tt, s)
      → Capped m (total +ℤ amount)
  check_mint-Capped none text total amount s read e = tt
  check_mint-Capped (some max) text total amount s read e = Ensures-ok checked e
    where
      checked :
          Ensures
            (λ _ _. Capped (some max) (total +ℤ amount))
            (λ _. Unit {0})
            (check_mint d (some max) text amount s)
      checked = bind_deref _ _ _ tt λ cap read_cap. bind_deref _ _ _ tt λ total' read_total.
          Ensures-raise_if _ _ _ tt λ fits.
            let same : total' ≡ total = some_inj (sym read_total ∙ read) in
            (cap, read_cap, rw (← same) (ground arith))

  -- The jetton `id` has `change` more tokens, which the user `u` holds.
  pub record Issued (id u : ℕ) (change : ℤ) (s t : Db d) : Type 0 where
    pub kept : IsKept d t
    pub balances :
        (j u' : ℕ)
        → balance_in d j u' t.wallets ≡ (
            if same_key d id u j u'
            then balance_in d id u s.wallets +ℤ change
            else balance_in d j u' s.wallets)
    pub balanced : IsBalanced d s → IsBalanced d t
    pub total : held d id t.wallets ≡ held d id s.wallets +ℤ change

  module _ (id u : ℕ) (jetton : Jetton d) (w : Wallet d) (x total : ℤ) (s₀ s : Db d)
      (o : Opened d id u w s₀ s) (got : select_first (has_id d id) s₀.jettons ≡ some jetton)
      (read_x : parse w.balance ≡ some x)
      (read_total : parse jetton.total_supply ≡ some total) where
    x_is : balance_in d id u s₀.wallets ≡ x
    x_is = sym (o.balances id u) ∙ ap (worth d) o.found ∙ value-read d w.balance x read_x

    -- The two writes of `Mint` and `Burn`, to the wallet and to the total supply.
    abbrev both : ℤ → ℤ → Db d
    both y total' = set_total_supply d id (print total') (set_balance d w.id (print y) s)

    both-Issued :
        (change y total' : ℤ) (t : Db d)
        → t.wallets ≡ (both y total').wallets
        → t.next_wallet ≡ s.next_wallet
        → t.jettons ≡ (both y total').jettons
        → x +ℤ change ≡ y
        → total +ℤ change ≡ total'
        → Issued id u change s₀ t
    both-Issued change y total' t wallets next jettons y_is total_is = record {
      kept = written-IsKept d s id u w x y o.kept o.found read_x t wallets next;
      balances = λ j u'.
          rw (wallets, x_is, y_is, ← o.balances j u')
            (written-balances d s id u w x y o.kept o.found read_x j u');
      total = total_after;
      balanced = λ b.
          let b' = Opened-IsBalanced id u w s₀ s o b in
          let backed : total ≡ held d id s₀.wallets =
            some_inj (sym read_total ∙ b.backed id jetton got) in
          supply-IsBalanced d s t id total' b' jettons (total_after ∙ rw (← backed) total_is)
            (λ k differ. rw wallets (
              +ℤ_zero _ _
                (rw differ at (written-holdings d s id u w x y o.kept o.found read_x k))));
    }
      where
        total_after : held d id t.wallets ≡ held d id s₀.wallets +ℤ change
        total_after =
            let h = rw (==_refl id) at (written-holdings d s id u w x y o.kept o.found read_x id) in
            rw (wallets, ← o.holdings id)
              (+ℤ_grown _ _ x x change (h ∙ ap (λ (z : ℤ). held d id s.wallets +ℤ z) (sym y_is))
                refl)

  -- What a returned `Mint` has checked and done.
  abbrev pub Minted : ℕ → MintRequest d → Db d → Db d → Type 0
  Minted minter req s t =
      (jetton : Jetton d) × (amount total : ℤ) × (select_first (has_id d req.jetton_id) s.jettons
        ≡ some jetton)
      × (jetton.owner_id ≡ minter)
      × (jetton.minting_enabled ≡ true)
      × (parse req.amount ≡ some amount)
      × (pos 1 ≤ℤ amount)
      × (parse jetton.total_supply ≡ some total)
      × Capped jetton.max_supply (total +ℤ amount)
      × Issued req.jetton_id (or_minter d req.to_user_id minter) amount s t

  -- What a returned `Burn` has checked and done.
  abbrev pub Burned : ℕ → BurnRequest d → Db d → Db d → Type 0
  Burned burner req s t =
      (amount : ℤ) × (parse req.amount ≡ some amount)
      × (pos 1 ≤ℤ amount)
      × (amount ≤ℤ balance_in d req.jetton_id burner s.wallets)
      × Issued req.jetton_id burner (pos 0 -ℤ amount) s t

  mint-Ensures :
      (fails : ℕ → Bool) (minter : ℕ) (req : MintRequest d) (s : Db d)
      → IsKept d s
      → Ensures (λ _ t. Minted minter req s t) (λ _. Unit) (mint d fails minter req s)
  unfolding mint issue
  mint-Ensures fails minter req s kept = bind_read _ _ _ (get-reads d _ _ s) tt λ jetton got.
      bind_raise_if _ _ _ _ tt λ owner. bind_raise_if _ _ _ _ tt λ enabled.
        bind_read _ _ _ (positive_amount-reads d req.amount s) tt λ amount positive.
          bind_read _ _ _ (check_mint-reads jetton.max_supply jetton.total_supply amount s) tt
            λ _ checked. bind_call _ _ _ tt λ w s₁ opened. bind_deref _ _ _ tt λ x read_x.
              bind_exec _ _ _ _ _ tt λ _. bind_deref _ _ _ tt λ total read_total.
                bind_exec _ _ _ _ _ tt λ _. Ensures-exec _ _ _ _ tt λ _.
                  let o = get_or_create_wallet-Opened d _ _ _ _ s w s₁ kept opened in
                  let found = get-found d _ req.jetton_id s jetton got in
                  let (read, pos_amount) = positive_amount-read d req.amount s amount positive in
                  (
                    jetton,
                    amount,
                    total,
                    found,
                    ground arith,
                    ground arith,
                    read,
                    pos_amount,
                    read_total,
                    check_mint-Capped jetton.max_supply jetton.total_supply total amount s
                        read_total checked,
                    both-Issued _ _ jetton w x total s s₁ o found read_x read_total amount
                        (x +ℤ amount) (total +ℤ amount) _ refl refl refl refl refl,
                  )

  burn-Ensures :
      (fails : ℕ → Bool) (burner : ℕ) (req : BurnRequest d) (s : Db d)
      → IsKept d s
      → Ensures (λ _ t. Burned burner req s t) (λ _. Unit) (burn d fails burner req s)
  unfolding burn destroy
  burn-Ensures fails burner req s kept = bind_read _ _ _ (get-reads d _ _ s) tt λ jetton got.
      bind_raise_if _ _ _ _ tt λ enabled.
        bind_read _ _ _ (positive_amount-reads d req.amount s) tt λ amount positive.
          bind_call _ _ _ tt λ w s₁ opened. bind_deref _ _ _ tt λ x read_x.
            bind_raise_if _ _ _ _ tt λ enough. bind_exec _ _ _ _ _ tt λ _.
              bind_deref _ _ _ tt λ total read_total. bind_exec _ _ _ _ _ tt λ _.
                Ensures-exec _ _ _ _ tt λ _.
                  let o = get_or_create_wallet-Opened d _ _ _ _ s w s₁ kept opened in
                  let found = get-found d _ req.jetton_id s jetton got in
                  let (read, pos_amount) = positive_amount-read d req.amount s amount positive in
                  (
                    amount,
                    read,
                    pos_amount,
                    rw (x_is _ _ jetton w x total s s₁ o found read_x read_total) (ground arith),
                    both-Issued _ _ jetton w x total s s₁ o found read_x read_total
                        (pos 0 -ℤ amount) (x -ℤ amount) (total -ℤ amount) _ refl refl refl
                        (omega int_laws) (omega int_laws),
                  )

  -- When `Mint` returns, the caller owns the jetton, minting is enabled, the new total is within
  -- the maximum if there is one, the recipient holds the positive amount more and nobody else's
  -- balance has changed; and if every recorded total supply was backed by the wallets, it still is.
  pub mint_lem :
      (fails : ℕ → Bool) (minter : ℕ) (req : MintRequest d) (s t : Db d)
      → IsKept d s
      → mint d fails minter req s ≡ (ok tt, t)
      → Minted minter req s t
  mint_lem fails minter req s t kept e = Ensures-ok (mint-Ensures fails minter req s kept) e

  -- When `Burn` returns, the amount was positive and the caller held it; the caller holds that much
  -- less and nobody else's balance has changed; and if every recorded total supply was backed by
  -- the wallets, it still is.
  pub burn_lem :
      (fails : ℕ → Bool) (burner : ℕ) (req : BurnRequest d) (s t : Db d)
      → IsKept d s
      → burn d fails burner req s ≡ (ok tt, t)
      → Burned burner req s t
  burn_lem fails burner req s t kept e = Ensures-ok (burn-Ensures fails burner req s kept) e
