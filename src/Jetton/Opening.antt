-- ===== src/Jetton/Opening.antt =====
-- `getOrCreateWallet` of internal/jetton/jetton.go: it finds or adds a wallet, and nobody's balance
-- changes by that.
use tonkey.Prelude.{
  ℕ, suc, ◌<◌, ◌≡◌, ◌≢◌, refl, sym, ap, subst, ◌⊎◌, inl, inr, Bool, ◌&&◌, none, some, ==_refl, List,
  [], ◌∷◌, ◌++◌, arith, ◌==◌, All, All-append, All-map, Bool-cases, Option-cases, ok,
}
use tonkey.Prelude.Int.{pos, pos_part, neg_part, int_laws}
use tonkey.Table.{select_first, select_first-append_none, select_first-append_some}
use tonkey.Jetton.Decimal.{Decimal}
use tonkey.Jetton.Store.{Wallet, Db}
use tonkey.Jetton.Lookup.{is_wallet_of, new_wallet, add_wallet, get_or_create_wallet}
use tonkey.Jetton.Wallets.{UniqueIds, held, balance_in, value}

module _ (d : Decimal) where
  open d use {Text, parse, zero_text, parse-zero_text}

  -- AUTOINCREMENT: ids are unique, and the next one is new.
  pub record IsKept (s : Db d) : Type 0 where
    pub unique : UniqueIds d s.wallets
    pub fresh : All (λ (w : Wallet d). w.id < s.next_wallet) s.wallets

  pub opened_cases :
      (q i : Bool) (j u : ℕ) (s : Db d) (w : Wallet d) (t : Db d)
      → get_or_create_wallet d q i j u s ≡ (ok w, t)
      → ((select_first (is_wallet_of d j u) s.wallets ≡ some w) × (t ≡ s))
        ⊎ ((select_first (is_wallet_of d j u) s.wallets ≡ none)
            × (w ≡ new_wallet d s.next_wallet j u)
            × (t ≡ add_wallet d j u s))
  unfolding get_or_create_wallet
  opened_cases q i j u s w t e = ground arith

  value-zero : value d zero_text ≡ pos 0
  value-zero = rw (parse-zero_text, value)

  UniqueIds-append :
      (n : ℕ) (ws : List (Wallet d)) (w : Wallet d)
      → UniqueIds d ws
      → All (λ (v : Wallet d). v.id < n) ws
      → w.id ≡ n
      → UniqueIds d (ws ++ w ∷ [])
  UniqueIds-append n [] w u f e = (tt, tt)
  UniqueIds-append n (x ∷ ws) w u f e = (
    All-append (λ (v : Wallet d). v.id ≢ x.id) ws (w ∷ []) u.0 (omega arith, tt),
    UniqueIds-append n ws w u.1 f.1 e,
  )

  held-append :
      (j : ℕ) (ws : List (Wallet d)) (n j' u' : ℕ)
      → held d j (ws ++ new_wallet d n j' u' ∷ []) ≡ held d j ws
  held-append j [] n j' u' = elim (Bool-cases (j' == j)) [
    | inl e ↦ rw e (omega (int_laws, ap pos_part value-zero, ap neg_part value-zero))
    | inr e ↦ rw e (omega int_laws)
  ]
  held-append j (x ∷ ws) n j' u' = rw (held-append j ws n j' u')

  balance_in-append :
      (j u : ℕ) (ws : List (Wallet d)) (n j' u' : ℕ)
      → balance_in d j u (ws ++ new_wallet d n j' u' ∷ []) ≡ balance_in d j u ws
  balance_in-append j u ws n j' u' = elim (Option-cases (select_first (is_wallet_of d j u) ws)) [
    | inl absent ↦
        rw (select_first-append_none (is_wallet_of d j u) ws (new_wallet d n j' u') absent, absent)
          (elim (Bool-cases (j' == j && u' == u)) [ inl e ↦ rw e value-zero | inr e ↦ rw e ])
    | inr (w, found) ↦
        rw (select_first-append_some (is_wallet_of d j u) ws (new_wallet d n j' u') found, found)
  ]

  -- What a call that returned the wallet `w` has done to the tables.
  pub record Opened (j u : ℕ) (w : Wallet d) (s t : Db d) : Type 0 where
    pub kept : IsKept t
    pub found : select_first (is_wallet_of d j u) t.wallets ≡ some w
    pub lookups :
        (p : Wallet d → Bool) (v : Wallet d)
        → select_first p s.wallets ≡ some v
        → select_first p t.wallets ≡ some v
    pub balances : (j' u' : ℕ) → balance_in d j' u' t.wallets ≡ balance_in d j' u' s.wallets
    pub holdings : (j' : ℕ) → held d j' t.wallets ≡ held d j' s.wallets
    pub jettons : t.jettons ≡ s.jettons

  add_wallet-Opened :
      (j u : ℕ) (s : Db d)
      → IsKept s
      → select_first (is_wallet_of d j u) s.wallets ≡ none
      → Opened j u (new_wallet d s.next_wallet j u) s (add_wallet d j u s)
  add_wallet-Opened j u s k absent = record {
    kept = record {
      unique = UniqueIds-append s.next_wallet s.wallets _ k.unique k.fresh refl;
      fresh =
          All-append (λ (w : Wallet d). w.id < suc s.next_wallet) s.wallets
            (new_wallet d s.next_wallet j u ∷ [])
            (All-map (λ (w : Wallet d). w.id < s.next_wallet)
              (λ (w : Wallet d). w.id < suc s.next_wallet) s.wallets (λ w h. omega arith) k.fresh)
            (omega arith, tt);
    };
    found = rw (
      select_first-append_none (is_wallet_of d j u) s.wallets (new_wallet d s.next_wallet j u)
          absent,
      ==_refl,
      ==_refl,
    );
    lookups = λ p v h. select_first-append_some p s.wallets (new_wallet d s.next_wallet j u) h;
    balances = λ j' u'. balance_in-append j' u' s.wallets s.next_wallet j u;
    holdings = λ j'. held-append j' s.wallets s.next_wallet j u;
    jettons = refl;
  }

  pub get_or_create_wallet-Opened :
      (q i : Bool) (j u : ℕ) (s : Db d) (w : Wallet d) (t : Db d)
      → IsKept s
      → get_or_create_wallet d q i j u s ≡ (ok w, t)
      → Opened j u w s t
  get_or_create_wallet-Opened q i j u s w t k e = elim (opened_cases q i j u s w t e) [
    | inl (found, same) ↦ subst (Opened j u w s) (sym same) (record {
      kept = k;
      found = found;
      lookups = λ p v h. h;
      balances = λ j' u'. refl;
      holdings = λ j'. refl;
      jettons = refl;
    })
    | inr (absent, w_is, t_is) ↦ rw (w_is, t_is) (add_wallet-Opened j u s k absent)
  ]
