-- ===== src/Jetton/Drafts.antt =====
-- Jettons that `Create` of internal/jetton/jetton.go makes and that are not deployed.
use tonkey.Prelude.{
  ℕ, ◌≡◌, refl, sym, ap, ◌∙◌, subst, Bool, Option, none, some, [], ◌∷◌, ◌++◌, arith, Result, ok,
  ◌>>=◌, ==_refl,
}
use tonkey.Prelude.Int.{ℤ}
use tonkey.Prelude.Ensures.{
  Refused, refused, Ensures, Ensures-ok, Ensures-pure, bind_call, bind_read, bind_exec,
  bind_exec_ignoring, bind_gets,
}
use tonkey.Table.{select_first, select_first-append_none}
use tonkey.Jetton.Decimal.{Decimal}
use tonkey.Jetton.Store.{
  Error, Jetton, Wallet, Db, CreateJettonRequest, TransferRequest, MintRequest, BurnRequest,
}
use tonkey.Jetton.Lookup.{M, has_id, get, get_or_create_wallet, unsigned_amount}
use tonkey.Jetton.Reads.{get-reads}
use Prim.Native.String.{String}
use tonkey.Jetton.Admin.{new_jetton, check_initial, create, deploy}
use tonkey.Jetton.Tokens.{transfer, mint, burn}

module _ (d : Decimal) where
  -- A row with no address, as `Create` leaves it.
  abbrev pub IsDraft : ℕ → Db d → Type 0
  IsDraft id s =
      (j : Jetton d) × (select_first (has_id d id) s.jettons ≡ some j) × (j.address ≡ none)

  -- AUTOINCREMENT: the next id is no row's.
  abbrev pub NextIsNew : Db d → Type 0
  NextIsNew s = select_first (has_id d s.next_jetton) s.jettons ≡ none

  wallet_keeps-jettons :
      (q i : Bool) (id u : ℕ) (s : Db d) → (get_or_create_wallet d q i id u s).1.jettons ≡ s.jettons
  unfolding get_or_create_wallet
  wallet_keeps-jettons q i id u s = ground arith

  unsigned_amount-reads : (text : d.Text) (s : Db d) → (unsigned_amount d text s).1 ≡ s
  unfolding ◌>>=◌
  unsigned_amount-reads text s = ground arith

  check_initial-reads :
      (max : Option d.Text) (initial : ℤ) (s : Db d) → (check_initial d max initial s).1 ≡ s
  unfolding ◌>>=◌
  check_initial-reads none initial s = refl
  check_initial-reads (some text) initial s = ground arith

  create-Ensures :
      (fails : ℕ → Bool) (user : ℕ) (org : Option ℕ) (req : CreateJettonRequest d) (s : Db d)
      → NextIsNew s
      → Ensures (λ j t. IsDraft j.id t) (λ _. Unit) (create d fails user org req s)
  unfolding create
  create-Ensures fails user org req s fresh =
      bind_read _ _ _ (unsigned_amount-reads req.initial_supply s) tt λ initial _.
        bind_read _ _ _ (check_initial-reads req.max_supply initial s) tt λ _ _. bind_gets _ _ _ (
          bind_exec _ _ _ _ _ tt λ _. bind_call _ _ _ tt λ w t opened.
            let row = new_jetton d s.next_jetton user org req in
            let tables : t.jettons ≡ s.jettons ++ row ∷ [] =
              sym (ap (λ (r : Result Error (Wallet d) × Db d). r.1.jettons) opened)
              ∙ wallet_keeps-jettons _ _ _ _ _ in
            let stored : select_first (has_id d s.next_jetton) t.jettons ≡ some row = rw tables (
              rw
                (select_first-append_none (has_id d s.next_jetton) s.jettons row fresh, ==_refl)) in
            bind_exec_ignoring _ _ _ _ (λ _. Ensures-pure _ _ (row, stored, refl))
              (λ _. Ensures-pure _ _ (row, stored, refl)))

  -- `Get` does not return a draft.
  draft_unreadable :
      (b : Bool) (id : ℕ) (s : Db d) {j : Jetton d} {t : Db d}
      → IsDraft id s
      → get d b id s ≡ (ok j, t)
      → ⊥
  unfolding get ◌>>=◌
  draft_unreadable b id s (j, found, blank) e = ground arith

  -- No method that reads the jetton `id` first returns, and none changes anything.
  abbrev pub Stuck : (ℕ → Bool) → ℕ → ℕ → Db d → Type 0
  Stuck fails caller id t =
      Refused (get d (fails 0) id t) t
      × ((deployment : Option (String × String)) (now : ℕ)
          → Refused (deploy d fails deployment now caller id t) t)
      × ((r : TransferRequest d) → r.jetton_id ≡ id → Refused (transfer d fails caller r t) t)
      × ((r : MintRequest d) → r.jetton_id ≡ id → Refused (mint d fails caller r t) t)
      × ((r : BurnRequest d) → r.jetton_id ≡ id → Refused (burn d fails caller r t) t)

  get_first :
      {A : Type 0} (b : Bool) (id : ℕ) (s : Db d) (f : Jetton d → M d A)
      → IsDraft id s
      → Refused ((get d b id >>= f) s) s
  get_first b id s f draft =
      refused s _ (
        bind_read _ _ _ (get-reads d b id s) refl (λ j e. absurd (draft_unreadable b id s draft e)))

  -- A jetton that `Create` has returned can be read by no method: with the id of that jetton `Get`,
  -- `Deploy`, `Transfer`, `Mint` and `Burn` return an error and change nothing, whoever calls
  -- them and whatever statements fail.
  pub created_is_Stuck :
      (fails : ℕ → Bool) (user : ℕ) (org : Option ℕ) (req : CreateJettonRequest d) (s t : Db d)
      (j : Jetton d)
      → NextIsNew s
      → create d fails user org req s ≡ (ok j, t)
      → (fails' : ℕ → Bool) (caller : ℕ) → Stuck fails' caller j.id t
  unfolding deploy transfer mint burn
  created_is_Stuck fails user org req s t j fresh e fails' caller =
      let draft : IsDraft j.id t = Ensures-ok (create-Ensures fails user org req s fresh) e in
      (
        (get-reads d _ _ t, λ a e. draft_unreadable _ j.id t draft (pair e (get-reads d _ _ t))),
        (λ deployment now. get_first _ _ _ _ draft),
        (λ r same. get_first _ _ _ _ (subst (λ (i : ℕ). IsDraft i t) (sym same) draft)),
        (λ r same. get_first _ _ _ _ (subst (λ (i : ℕ). IsDraft i t) (sym same) draft)),
        (λ r same. get_first _ _ _ _ (subst (λ (i : ℕ). IsDraft i t) (sym same) draft)),
      )
    where
      pair :
          {r : Result Error (Jetton d) × Db d} {a : Jetton d} {u : Db d}
          → r.0 ≡ ok a
          → r.1 ≡ u
          → r ≡ (ok a, u)
      pair p q = λ i. (p i, q i)
