-- ===== src/Jetton/Wallets.antt =====
-- Facts about the wallet table of internal/jetton: what a wallet and a jetton hold, and how the
-- writes of jetton.go change it.
use mathlib.Core.Option
use tonkey.Prelude.{
  ℕ, ◌≡◌, ◌≢◌, refl, sym, ap, ◌∙◌, subst, inl, inr, Bool, false, ◌&&◌, Option, none, some, some_inj,
  ==_refl, List, [], ◌∷◌, arith, ◌==◌, ==→eq, if◌then◌else◌, All, Bool-cases,
}
use tonkey.Prelude.Int.{ℤ, pos, ◌+ℤ◌, +ℤ_under, int_laws}
use tonkey.Table.{select_first, update_where, All-select_first, select_first-update_where}
use tonkey.Jetton.Decimal.{Decimal}
use tonkey.Jetton.Store.{Wallet}
use tonkey.Jetton.Lookup.{is_wallet_of, is_wallet_id}

module _ (d : Decimal) where
  open d use {Text, parse}

  -- What a text amounts to.
  abbrev pub value : Text → ℤ
  value text = elim (parse text) [ none ↦ pos 0 | some z ↦ z ]

  -- The sum of the balances of a jetton's wallets.
  abbrev pub held : ℕ → List (Wallet d) → ℤ
  held j [] = pos 0
  held j (w ∷ ws) = (if w.jetton_id == j then value w.balance else pos 0) +ℤ held j ws

  -- No two wallets have one id.
  abbrev pub UniqueIds : List (Wallet d) → Type 0
  UniqueIds [] = Unit
  UniqueIds (w ∷ ws) = All (λ (v : Wallet d). v.id ≢ w.id) ws × UniqueIds ws

  abbrev pub with_balance : Text → Wallet d → Wallet d
  with_balance text w = record w { balance = text }

  update-absent :
      (i : ℕ) (f : Wallet d → Wallet d) (ws : List (Wallet d))
      → All (λ (v : Wallet d). v.id ≢ i) ws
      → update_where (is_wallet_id d i) f ws ≡ ws
  update-absent i f [] h = refl
  update-absent i f (w ∷ ws) h = ground (arith, update-absent i f ws h.1)

  -- Where a lookup finds a wallet with an id, a wallet found past the head has another id.
  found_ne :
      (p : Wallet d → Bool) (x : Wallet d) (ws : List (Wallet d)) (w : Wallet d)
      → UniqueIds (x ∷ ws)
      → select_first p ws ≡ some w
      → w.id ≢ x.id
  found_ne p x ws w u e = (All-select_first (λ (y : Wallet d). y.id ≢ x.id) p ws w u.0 e).0

  -- A wallet that a lookup finds is the only one with its id.
  pub eq_of_id :
      (p q : Wallet d → Bool) (ws : List (Wallet d)) (v w : Wallet d)
      → UniqueIds ws
      → select_first p ws ≡ some v
      → select_first q ws ≡ some w
      → v.id ≡ w.id
      → v ≡ w
  eq_of_id p q [] v w u a b e = cc
  eq_of_id p q (x ∷ ws) v w u a b e = elim (Bool-cases (p x)) [
    | inl px ↦
        let v_is : x ≡ v = some_inj (rw px at a) in
        elim (Bool-cases (q x)) [
          | inl qx ↦ sym v_is ∙ some_inj (rw qx at b)
          | inr qx ↦
              absurd
                (found_ne q x ws w u (rw qx at b) (sym e ∙ ap (λ (y : Wallet d). y.id) (sym v_is)))
        ]
    | inr px ↦ elim (Bool-cases (q x)) [
      | inl qx ↦
          let w_is : x ≡ w = some_inj (rw qx at b) in
          absurd (found_ne p x ws v u (rw px at a) (e ∙ ap (λ (y : Wallet d). y.id) (sym w_is)))
      | inr qx ↦ eq_of_id p q ws v w u.1 (rw px at a) (rw qx at b) e
    ]
  ]

  abbrev share : ℕ → Wallet d → Text → ℤ
  share j w text = if w.jetton_id == j then value text else pos 0

  abbrev Shifts : Text → ℕ → List (Wallet d) → Wallet d → Type 0
  Shifts text j ws w =
      held j (update_where (is_wallet_id d w.id) (with_balance text) ws) +ℤ share j w w.balance
      ≡ held j ws +ℤ share j w text

  Shifts-head :
      (x : Wallet d) (ws : List (Wallet d)) (text : Text) (j : ℕ)
      → UniqueIds (x ∷ ws)
      → Shifts text j (x ∷ ws) x
  Shifts-head x ws text j u =
      rw (==_refl x.id, update-absent x.id (with_balance text) ws u.0) (omega int_laws)

  -- Writing a wallet's balance changes what its jetton's wallets hold by the difference.
  pub held-set_balance :
      (p : Wallet d → Bool) (ws : List (Wallet d)) (w : Wallet d) (text : Text) (j : ℕ)
      → UniqueIds ws
      → select_first p ws ≡ some w
      → held j (update_where (is_wallet_id d w.id) (with_balance text) ws)
          +ℤ (if w.jetton_id == j then value w.balance else pos 0)
        ≡ held j ws +ℤ (if w.jetton_id == j then value text else pos 0)
  held-set_balance p [] w text j u e = cc
  held-set_balance p (x ∷ ws) w text j u e = elim (Bool-cases (p x)) [
    | inl px ↦
        let w_is : x ≡ w = some_inj (rw px at e) in
        subst (Shifts text j (x ∷ ws)) w_is (Shifts-head x ws text j u)
    | inr px ↦
        let ih = held-set_balance p ws w text j u.1 (rw px at e) in
        let ne : (x.id == w.id) ≡ false = ground (arith, found_ne p x ws w u (rw px at e)) in
        rw ne (+ℤ_under (share j x x.balance) _ (share j w w.balance) _ (share j w text) ih)
  ]

  abbrev pub worth : Option (Wallet d) → ℤ
  worth none = pos 0
  worth (some w) = value w.balance

  -- What a user holds of a jetton; a user with no wallet holds nothing.
  abbrev pub balance_in : ℕ → ℕ → List (Wallet d) → ℤ
  balance_in j u ws = worth (select_first (is_wallet_of d j u) ws)

  abbrev pub same_key : ℕ → ℕ → ℕ → ℕ → Bool
  same_key j u j' u' = j == j' && u == u'

  pub select-is_wallet_of :
      (j u : ℕ) (ws : List (Wallet d)) (w : Wallet d)
      → select_first (is_wallet_of d j u) ws ≡ some w
      → (w.jetton_id ≡ j) × (w.user_id ≡ u)
  select-is_wallet_of j u [] w e = cc
  select-is_wallet_of j u (x ∷ ws) w e = ground (arith, select-is_wallet_of j u ws w)

  module _ (j u : ℕ) (ws : List (Wallet d)) (w : Wallet d) (text : Text) (j' u' : ℕ)
      (unique : UniqueIds ws) (found : select_first (is_wallet_of d j u) ws ≡ some w) where
    worth-rewritten :
        (o : Option (Wallet d))
        → select_first (is_wallet_of d j' u') ws ≡ o
        → worth (Option.map (λ r. if r.id == w.id then with_balance text r else r) o)
          ≡ (if same_key j u j' u' then value text else worth o)
    worth-rewritten none e = elim (Bool-cases (same_key j u j' u')) [
      | inl same ↦
          let ej : j ≡ j' = ground arith in
          let eu : u ≡ u' = ground arith in cc (rw (ej, eu) at found)
      | inr differ ↦ rw differ
    ]
    worth-rewritten (some r) e = elim (Bool-cases (same_key j u j' u')) [
      | inl same ↦
          let ej : j ≡ j' = ground arith in
          let eu : u ≡ u' = ground arith in
          let eq : w ≡ r = some_inj (sym (rw (ej, eu) at found) ∙ e) in
          rw same (
            subst
              (λ (z : Wallet d).
                worth (some (if z.id == w.id then with_balance text z else z)) ≡ value text)
              eq (rw (==_refl w.id)))
      | inr differ ↦
          let key_r = select-is_wallet_of j' u' ws r e in
          let key_w = select-is_wallet_of j u ws w found in
          let ne : (r.id == w.id) ≡ false = elim (Bool-cases (r.id == w.id)) [
            | inl eq ↦
                let one : r ≡ w =
                  eq_of_id (is_wallet_of d j' u') (is_wallet_of d j u) ws r w unique e found
                    (==→eq _ _ eq) in
                let oj : r.jetton_id ≡ w.jetton_id = ap (λ (z : Wallet d). z.jetton_id) one in
                let ou : r.user_id ≡ w.user_id = ap (λ (z : Wallet d). z.user_id) one in
                ground arith
            | inr n ↦ n
          ] in
          rw (differ, ne)
    ]

    -- A write to one wallet is seen in its owner's balance, and in no other.
    pub balance_in-set_balance :
        balance_in j' u' (update_where (is_wallet_id d w.id) (with_balance text) ws)
        ≡ (if same_key j u j' u' then value text else balance_in j' u' ws)
    balance_in-set_balance =
        rw
          (select_first-update_where (is_wallet_of d j' u') (is_wallet_id d w.id)
            (with_balance text) ws (λ r. refl))
          (worth-rewritten (select_first (is_wallet_of d j' u') ws) refl)
