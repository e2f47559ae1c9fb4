-- ===== src/Jetton/Writes.antt =====
-- Two balance writes in a row, as `Transfer` of internal/jetton/jetton.go makes them.
use tonkey.Prelude.{
  ℕ, ◌<◌, ◌≡◌, ◌≢◌, refl, sym, ap, ◌∙◌, inl, inr, true, false, some, some_inj, List, [], ◌∷◌, arith,
  ◌==◌, ==→eq, if◌then◌else◌, All, Bool-cases,
}
use tonkey.Prelude.Int.{pos, ◌+ℤ◌, +ℤ_join, +ℤ_replace}
use tonkey.Table.{select_first, update_where, select_first-update_where}
use tonkey.Jetton.Decimal.{Decimal}
use tonkey.Jetton.Store.{Wallet}
use tonkey.Jetton.Lookup.{is_wallet_of, is_wallet_id}
use tonkey.Jetton.Wallets.{
  UniqueIds, held, balance_in, value, with_balance, same_key, held-set_balance,
  balance_in-set_balance, select-is_wallet_of, eq_of_id,
}

module _ (d : Decimal) where
  open d use {Text}

  abbrev write : Wallet d → Text → List (Wallet d) → List (Wallet d)
  write w text ws = update_where (is_wallet_id d w.id) (with_balance d text) ws

  ids-write :
      (i k : ℕ) (text : Text) (ws : List (Wallet d))
      → All (λ (v : Wallet d). v.id ≢ k) ws
      → All (λ (v : Wallet d). v.id ≢ k) (update_where (is_wallet_id d i) (with_balance d text) ws)
  ids-write i k text [] h = tt
  ids-write i k text (x ∷ ws) h = (ground (arith, h.0), ids-write i k text ws h.1)

  pub UniqueIds-write :
      (i : ℕ) (text : Text) (ws : List (Wallet d))
      → UniqueIds d ws
      → UniqueIds d (update_where (is_wallet_id d i) (with_balance d text) ws)
  UniqueIds-write i text [] u = tt
  UniqueIds-write i text (x ∷ ws) u = elim (Bool-cases (x.id == i)) [
    | inl e ↦ rw e (ids-write i x.id text ws u.0, UniqueIds-write i text ws u.1)
    | inr e ↦ rw e (ids-write i x.id text ws u.0, UniqueIds-write i text ws u.1)
  ]

  pub below-write :
      (i n : ℕ) (text : Text) (ws : List (Wallet d))
      → All (λ (v : Wallet d). v.id < n) ws
      → All (λ (v : Wallet d). v.id < n) (update_where (is_wallet_id d i) (with_balance d text) ws)
  below-write i n text [] h = tt
  below-write i n text (x ∷ ws) h = (ground (arith, h.0), below-write i n text ws h.1)

  -- A lookup by owner still finds the wallet after a write, with the text if it was written.
  pub found-write :
      (j u i : ℕ) (text : Text) (ws : List (Wallet d)) (w : Wallet d)
      → select_first (is_wallet_of d j u) ws ≡ some w
      → select_first (is_wallet_of d j u) (update_where (is_wallet_id d i) (with_balance d text) ws)
        ≡ some (if w.id == i then with_balance d text w else w)
  found-write j u i text ws w e = rw (
    select_first-update_where (is_wallet_of d j u) (is_wallet_id d i) (with_balance d text) ws
        (λ r. refl),
    e,
  )

  module _ (ws : List (Wallet d)) (j a b : ℕ) (v w : Wallet d) (text text' : Text)
      (unique : UniqueIds d ws) (found_v : select_first (is_wallet_of d j a) ws ≡ some v)
      (found_w : select_first (is_wallet_of d j b) ws ≡ some w) where
    abbrev rewritten : Wallet d
    rewritten = if w.id == v.id then with_balance d text w else w

    rewritten-id : rewritten.id ≡ w.id
    rewritten-id = ground arith

    -- What everyone holds after both writes; the second one stands where they meet.
    pub balance_in-writes :
        (j' u' : ℕ)
        → balance_in d j' u' (write w text' (write v text ws)) ≡ (
            if same_key d j b j' u'
            then value d text'
            else if same_key d j a j' u'
            then value d text
            else balance_in d j' u' ws)
    balance_in-writes j' u' =
        let second =
          balance_in-set_balance d j b (write v text ws) rewritten text' j' u'
            (UniqueIds-write v.id text ws unique) (found-write j b v.id text ws w found_w) in
        let first = balance_in-set_balance d j a ws v text j' u' unique found_v in
        rw rewritten-id at (rw first at second)

    key_v : (v.jetton_id ≡ j) × (v.user_id ≡ a)
    key_v = select-is_wallet_of d j a ws v found_v

    key_w : (w.jetton_id ≡ j) × (w.user_id ≡ b)
    key_w = select-is_wallet_of d j b ws w found_w

    ids_apart : a ≢ b → (w.id == v.id) ≡ false
    ids_apart ne = elim (Bool-cases (w.id == v.id)) [
      | inl e ↦
          let one =
            eq_of_id d (is_wallet_of d j b) (is_wallet_of d j a) ws w v unique found_w found_v
              (==→eq _ _ e) in
          absurd (ne (sym key_v.1 ∙ sym (ap (λ (z : Wallet d). z.user_id) one) ∙ key_w.1))
      | inr n ↦ n
    ]

    one_wallet : a ≡ b → v ≡ w
    one_wallet e = some_inj (sym found_v ∙ rw e found_w)

    first_shift :
        (j' : ℕ)
        → held d j' (write v text ws) +ℤ (if j == j' then value d v.balance else pos 0)
          ≡ held d j' ws +ℤ (if j == j' then value d text else pos 0)
    first_shift j' =
        rw key_v.0 at (held-set_balance d (is_wallet_of d j a) ws v text j' unique found_v)

    second_shift :
        (x : Wallet d)
        → x.jetton_id ≡ j
        → select_first (is_wallet_of d j b) (write v text ws) ≡ some x
        → (j' : ℕ)
        → held d j' (write x text' (write v text ws))
            +ℤ (if j == j' then value d x.balance else pos 0)
          ≡ held d j' (write v text ws) +ℤ (if j == j' then value d text' else pos 0)
    second_shift x key found j' = rw key at (
        held-set_balance d (is_wallet_of d j b) (write v text ws) x text' j'
          (UniqueIds-write v.id text ws unique) found)

    found_apart : a ≢ b → select_first (is_wallet_of d j b) (write v text ws) ≡ some w
    found_apart ne = rw (ids_apart ne) at (found-write j b v.id text ws w found_w)

    -- The sum of one jetton's wallets after writes to two users' wallets.
    pub held-writes :
        a ≢ b
        → (j' : ℕ)
        → held d j' (write w text' (write v text ws))
            +ℤ (if j == j' then value d v.balance +ℤ value d w.balance else pos 0)
          ≡ held d j' ws +ℤ (if j == j' then value d text +ℤ value d text' else pos 0)
    held-writes ne j' =
        let first = first_shift j' in
        let second = second_shift w key_w.0 (found_apart ne) j' in
        elim (Bool-cases (j == j')) [
          | inl e ↦ rw e (+ℤ_join _ _ _ _ _ _ _ (rw e at first) (rw e at second))
          | inr e ↦ rw e (+ℤ_replace _ _ _ _ _ _ (rw e at first) (rw e at second))
        ]

    -- The sum after two writes to one wallet: the first is lost.
    pub held-writes_self :
        a ≡ b
        → (j' : ℕ)
        → held d j' (write w text' (write v text ws))
            +ℤ (if j == j' then value d v.balance else pos 0)
          ≡ held d j' ws +ℤ (if j == j' then value d text' else pos 0)
    held-writes_self eq j' =
        let first = first_shift j' in
        let same_id : v.id ≡ w.id = ap (λ (z : Wallet d). z.id) (one_wallet eq) in
        let ids : (w.id == v.id) ≡ true = ground arith in
        let found = rw ids at (found-write j b v.id text ws w found_w) in
        let second = second_shift (with_balance d text w) key_w.0 found j' in
        elim (Bool-cases (j == j')) [
          | inl e ↦ rw e (+ℤ_replace _ _ _ _ _ _ (rw e at first) (rw e at second))
          | inr e ↦ rw e (+ℤ_replace _ _ _ _ _ _ (rw e at first) (rw e at second))
        ]
