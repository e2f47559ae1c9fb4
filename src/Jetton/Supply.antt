-- ===== src/Jetton/Supply.antt =====
-- `Mint` and `Burn` of internal/jetton/jetton.go: the recorded total supply of a jetton is what its
-- wallets hold.
use mathlib.Core.Option
use tonkey.Prelude.{
  ℕ, ◌≡◌, refl, sym, ap, ◌∙◌, subst, Bool-cases, inl, inr, true, false, Option, none, some,
  some_inj, List, [], ◌∷◌, arith, ◌==◌, ==→eq, if◌then◌else◌,
}
use tonkey.Prelude.Int.{ℤ, pos, ◌+ℤ◌}
use tonkey.Table.{select_first, select_first-update_where}
use tonkey.Jetton.Decimal.{Decimal}
use tonkey.Jetton.Store.{Jetton, Wallet, Db}
use tonkey.Jetton.Lookup.{has_id, is_wallet_of, set_balance, set_total_supply}
use tonkey.Jetton.Wallets.{
  held, balance_in, same_key, held-set_balance, balance_in-set_balance, select-is_wallet_of,
}
use tonkey.Jetton.Opening.{IsKept}
use tonkey.Jetton.Writes.{UniqueIds-write, below-write}
use tonkey.Jetton.Transfers.{value-print, value-read}

module _ (d : Decimal) where
  open d use {Text, parse, print, parse-print}

  -- Every jetton's recorded total supply is the sum of its wallets' balances.
  pub record IsBalanced (s : Db d) : Type 0 where
    pub backed :
        (id : ℕ) (j : Jetton d)
        → select_first (has_id d id) s.jettons ≡ some j
        → parse j.total_supply ≡ some (held d id s.wallets)

  abbrev set_total : ℕ → ℤ → Jetton d → Jetton d
  set_total id total j = if j.id == id then record j { total_supply = print total } else j

  select-has_id :
      (k : ℕ) (js : List (Jetton d)) (j : Jetton d)
      → select_first (has_id d k) js ≡ some j
      → j.id ≡ k
  select-has_id k [] j e = cc
  select-has_id k (x ∷ js) j e = ground (arith, select-has_id k js j)

  -- One wallet of the jetton `id` was written, and its total supply set to what the wallets hold.
  pub supply-IsBalanced :
      (s t : Db d) (id : ℕ) (total : ℤ)
      → IsBalanced s
      → t.jettons ≡ (set_total_supply d id (print total) s).jettons
      → held d id t.wallets ≡ total
      → ((k : ℕ) → (id == k) ≡ false → held d k t.wallets ≡ held d k s.wallets)
      → IsBalanced t
  supply-IsBalanced s t id total b tables sum others = record {
    backed = λ k j e. go k j (select_first (has_id d k) s.jettons) refl (sym (moved k) ∙ e);
  }
    where
      moved :
          (k : ℕ)
          → select_first (has_id d k) t.jettons
            ≡ Option.map (set_total id total) (select_first (has_id d k) s.jettons)
      moved k = rw tables (
          select_first-update_where (has_id d k) (has_id d id)
            (λ (j : Jetton d). record j { total_supply = print total }) s.jettons (λ r. refl))

      go :
          (k : ℕ) (j : Jetton d) (o : Option (Jetton d))
          → select_first (has_id d k) s.jettons ≡ o
          → Option.map (set_total id total) o ≡ some j
          → parse j.total_supply ≡ some (held d k t.wallets)
      go k j none found e = cc
      go k j (some j₀) found e =
          let key = select-has_id k s.jettons j₀ found in
          elim (Bool-cases (id == k)) [
            | inl same ↦
                let ids : id ≡ k = ==→eq id k same in
                let hit : (j₀.id == id) ≡ true = ground arith in
                let j_is : record j₀ { total_supply = print total } ≡ j = some_inj (rw hit at e) in
                subst (λ (z : Jetton d). parse z.total_supply ≡ some (held d k t.wallets)) j_is
                  (parse-print total ∙ ap some (sym sum ∙ ap (λ (z : ℕ). held d z t.wallets) ids))
            | inr differ ↦
                let miss : (j₀.id == id) ≡ false = ground arith in
                let j_is : j₀ ≡ j = some_inj (rw miss at e) in
                subst (λ (z : Jetton d). parse z.total_supply ≡ some (held d k t.wallets)) j_is
                  (b.backed k j₀ found ∙ ap some (sym (others k differ)))
          ]

  -- A write of `value + change` to one wallet of the jetton `id`.
  module _ (s : Db d) (id u : ℕ) (w : Wallet d) (x y : ℤ) (kept : IsKept d s)
      (found : select_first (is_wallet_of d id u) s.wallets ≡ some w)
      (read : parse w.balance ≡ some x) where
    abbrev written : Db d
    written = set_balance d w.id (print y) s

    pub written-IsKept :
        (t : Db d) → t.wallets ≡ written.wallets → t.next_wallet ≡ s.next_wallet → IsKept d t
    written-IsKept t e n = record {
      unique = rw e (UniqueIds-write d w.id (print y) s.wallets kept.unique);
      fresh = rw (e, n) (below-write d w.id s.next_wallet (print y) s.wallets kept.fresh);
    }

    pub written-balances :
        (j' u' : ℕ)
        → balance_in d j' u' written.wallets
          ≡ (if same_key d id u j' u' then y else balance_in d j' u' s.wallets)
    written-balances j' u' =
        balance_in-set_balance d id u s.wallets w (print y) j' u' kept.unique found
        ∙ rw (value-print d y)

    pub written-holdings :
        (j' : ℕ)
        → held d j' written.wallets +ℤ (if id == j' then x else pos 0)
          ≡ held d j' s.wallets +ℤ (if id == j' then y else pos 0)
    written-holdings j' =
        let key = select-is_wallet_of d id u s.wallets w found in
        rw (key.0, value-read d w.balance x read, value-print d y) at
          (held-set_balance d (is_wallet_of d id u) s.wallets w (print y) j' kept.unique found)
