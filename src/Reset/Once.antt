-- ===== src/Reset/Once.antt =====
-- A token of internal/reset that has been used, over any later calls.
use Prim.Native.String.{String}
use text.Mathlib.Text.{◌==◌ as str_eq}
use tonkey.Prelude.{
  ap, ℕ, ◌≡◌, ◌≢◌, refl, inl, inr, Bool, true, false, Option, none, some, List, [], ◌∷◌, All,
  All-append, Bool-cases, is_some, Result, ok,
}
use tonkey.Prelude.Int.{ℤ, pos, ◌-ℤ◌}
use tonkey.Prelude.Ensures.{
  Ensures, Ensures-ok, Ensures-always, Ensures-pure, Ensures-exec, Ensures-transaction, Refused,
  refused, bind_read, bind_gets, bind_or_raise, bind_raise_if, bind_exec,
}
use tonkey.Table.{select_first, update_where, All-update_where, All-delete_where, All-select_first}
use tonkey.Table.Texts.{has_text, str_eq→eq, eq→str_eq}
use tonkey.Reset.Manager.{
  Error, Token, User, Db, hash_of, create_token, create_if, create_for, is_reachable,
  validate_token, check_row, write_reset, finish_reset, reset_password, cleanup, mark_used, used,
  set_password, is_unused_of, is_over,
}

module _ (hash_token : String → String) where
  -- A password reset that has returned can be told from the table.
  abbrev IsUsed : String → Token → Type 0
  IsUsed hash t = t.token_hash ≡ hash → is_some t.used_at ≡ true

  abbrev pub IsSpent : String → Db → Type 0
  IsSpent token s = All (IsUsed (hash_token token)) s.tokens

  validate_token-reads :
      (b : Bool) (now : ℤ) (token : String) (s : Db)
      → (validate_token hash_token b now token s).1 ≡ s
  unfolding validate_token check_row
  validate_token-reads b now token s = Ensures-always {P = λ t. t ≡ s} (
      bind_raise_if _ _ _ _ refl λ _. bind_gets _ _ _ (
        bind_or_raise _ _ _ _ refl λ t _.
          bind_raise_if _ _ _ _ refl λ _. bind_raise_if _ _ _ _ refl λ _. Ensures-pure _ _ refl))

  pub spent-Refused :
      (b : Bool) (now : ℤ) (token : String) (s : Db)
      → IsSpent token s
      → Refused (validate_token hash_token b now token s) s
  unfolding validate_token check_row
  spent-Refused b now token s h = refused s _ (
      bind_raise_if _ _ _ _ refl λ _. bind_gets _ _ _ (
        bind_or_raise _ _ _ _ refl λ t found. bind_raise_if _ _ _ _ refl λ unused.
          let (is_used, same) =
            All-select_first (IsUsed (hash_token token)) (has_text hash_of (hash_token token))
              s.tokens t h found in
          absurd
            (both t.used_at (is_used (str_eq→eq t.token_hash (hash_token token) same)) unused)))
    where
      both : (o : Option ℤ) → is_some o ≡ true → is_some o ≡ false → ⊥
      both none e k = cc
      both (some n) e k = cc

  mark-IsSpent :
      (p : Token → Bool) (now : ℤ) (token : String) (s : Db)
      → IsSpent token s
      → IsSpent token (mark_used p now s)
  mark-IsSpent p now token s h =
      All-update_where (IsUsed (hash_token token)) p (used now) s.tokens h (λ r _ _ _. refl)

  marked :
      (now : ℤ) (hash : String) (rows : List Token)
      → All (IsUsed hash) (update_where (has_text hash_of hash) (used now) rows)
  marked now hash [] = tt
  marked now hash (r ∷ rows) = elim (Bool-cases (str_eq r.token_hash hash)) [
    | inl e ↦ rw e ((λ _. refl), marked now hash rows)
    | inr e ↦ rw e ((λ same. absurd (other r same e)), marked now hash rows)
  ]
    where
      other : (r : Token) → r.token_hash ≡ hash → str_eq r.token_hash hash ≡ false → ⊥
      other r same e = cc (eq→str_eq r.token_hash hash same, e)

  -- A reset leaves its token spent, and all spent tokens too.
  write_reset-IsSpent :
      (fails : ℕ → Bool) (now : ℤ) (token : String) (user : ℕ) (hash : String) (s : Db)
      → Ensures
          (λ _ t. IsSpent token t)
          (λ _. Unit)
          (write_reset hash_token fails now token user hash s)
  unfolding write_reset
  write_reset-IsSpent fails now token user hash s = bind_exec _ _ _ _ _ tt λ _.
      bind_exec _ _ _ _ _ tt λ _. Ensures-exec _ _ _ _ tt λ _.
        mark-IsSpent (is_unused_of user) now token
          (mark_used (has_text hash_of (hash_token token)) now (set_password user hash s))
          (marked now (hash_token token) s.tokens)

  pub finish_reset-IsSpent :
      (fails : ℕ → Bool) (now : ℤ) (token : String) (hashed : Option String) (user : ℕ) (s : Db)
      → Ensures
          (λ _ t. IsSpent token t)
          (λ _. Unit)
          (finish_reset hash_token fails now token hashed user s)
  unfolding finish_reset
  finish_reset-IsSpent fails now token hashed user s =
      bind_or_raise _ _ _ _ tt λ hash _.
        Ensures-transaction _ _ _ _ _ _ tt (write_reset-IsSpent fails now token user hash s)

  write_reset-keeps :
      (spent : String) (fails : ℕ → Bool) (now : ℤ) (token : String) (user : ℕ) (hash : String)
      (s : Db)
      → IsSpent spent s
      → Ensures
          (λ _ t. IsSpent spent t)
          (λ _. Unit)
          (write_reset hash_token fails now token user hash s)
  unfolding write_reset
  write_reset-keeps spent fails now token user hash s h = bind_exec _ _ _ _ _ tt λ _.
      bind_exec _ _ _ _ _ tt λ _. Ensures-exec _ _ _ _ tt λ _.
        mark-IsSpent (is_unused_of user) now spent
          (mark_used (has_text hash_of (hash_token token)) now (set_password user hash s))
          (mark-IsSpent (has_text hash_of (hash_token token)) now spent (set_password user hash s)
            h)

  -- What its transaction ensures a reset does, and otherwise it changes nothing.
  pub reset_password-writes :
      {Q X : Db → Type 0} (fails : ℕ → Bool) (now later : ℤ) (token : String)
      (hashed : Option String) (s : Db)
      → X s
      → ((user : ℕ) (hash : String)
          → (validate_token hash_token (fails 0) now token s).0 ≡ ok user
          → hashed ≡ some hash
          → Ensures (λ _ t. Q t) (λ _. Unit) (write_reset hash_token fails later token user hash s))
      → Ensures (λ _ t. Q t) X (reset_password hash_token fails now later token hashed s)
  unfolding reset_password finish_reset
  reset_password-writes fails now later token hashed s x h =
      bind_read _ _ _ (validate_token-reads _ _ _ s) x λ user got.
        bind_or_raise _ _ _ _ x λ hash made.
          Ensures-transaction _ _ _ _ _ _ x
            (h user hash (ap (λ (r : Result Error ℕ × Db). r.0) got) made)

  reset_password-Refused :
      (fails : ℕ → Bool) (now later : ℤ) (token : String) (hashed : Option String) (s : Db)
      → IsSpent token s
      → Refused (reset_password hash_token fails now later token hashed s) s
  unfolding reset_password
  reset_password-Refused fails now later token hashed s h = refused s _ (
      bind_read _ _ _ (validate_token-reads _ _ _ s) refl (λ user got. absurd (
        (spent-Refused (fails 0) now token s h).1 user
          (ap (λ (r : Result Error ℕ × Db). r.0) got))))

  create_token-keeps :
      (spent : String) (fails : ℕ → Bool) (entropy : Option String) (expiration checked now : ℤ)
      (email : String) (s : Db)
      → ((token : String) → entropy ≡ some token → hash_token token ≢ hash_token spent)
      → IsSpent spent s
      → Ensures
          (λ _ t. IsSpent spent t)
          (IsSpent spent)
          (create_token hash_token fails entropy expiration checked now email s)
  unfolding create_token
  create_token-keeps spent fails entropy expiration checked now email s other h =
      bind_raise_if _ _ _ _ h
        λ _. bind_gets _ _ _ (created (select_first (is_reachable email) s.users))
    where
      created :
          (o : Option User)
          → Ensures
              (λ _ t. IsSpent spent t)
              (IsSpent spent)
              (create_if hash_token fails entropy expiration checked now o s)
      created none = unfold create_if in (Ensures-pure _ _ h)
      created (some u) =
          unfold create_if create_for in
          (bind_raise_if _ _ _ _ h λ _. bind_gets _ _ _ (
            bind_raise_if _ _ _ _ h λ _. bind_or_raise _ _ _ _ h λ token drawn. bind_gets _ _ _ (
              bind_exec _ _ _ _ _ h λ _. Ensures-pure _ _ (
                All-append (IsUsed (hash_token spent)) s.tokens (_ ∷ []) h
                  ((λ same. absurd (other token drawn same)), tt)))))

pub data Call : Type 0 where
  creating : (ℕ → Bool) → Option String → ℤ → ℤ → ℤ → String → Call
  resetting : (ℕ → Bool) → ℤ → ℤ → String → Option String → Call
  cleaning : Bool → ℤ → Call

-- The tables after a call, whether it returned or not.
unfoldable pub perform : (String → String) → Call → Db → Db
perform hash_token (creating fails entropy expiration checked now email) s =
    (create_token hash_token fails entropy expiration checked now email s).1
perform hash_token (resetting fails now later token hashed) s =
    (reset_password hash_token fails now later token hashed s).1
perform hash_token (cleaning fails now) s = (cleanup fails now s).1

unfoldable pub run : (String → String) → List Call → Db → Db
run hash_token [] s = s
run hash_token (c ∷ calls) s = run hash_token calls (perform hash_token c s)

-- No token with the hash of this one is drawn.
abbrev pub IsOther : (String → String) → String → Call → Type 0
IsOther hash_token spent (creating fails entropy expiration checked now email) =
    (token : String) → entropy ≡ some token → hash_token token ≢ hash_token spent
IsOther hash_token spent _ = Unit

perform-IsSpent :
    (hash_token : String → String) (spent : String) (c : Call) (s : Db)
    → IsOther hash_token spent c
    → IsSpent hash_token spent s
    → IsSpent hash_token spent (perform hash_token c s)
unfolding perform cleanup
perform-IsSpent hash_token spent (creating fails entropy expiration checked now email) s o h =
    Ensures-always
      (create_token-keeps hash_token spent fails entropy expiration checked now email s o h)
perform-IsSpent hash_token spent (resetting fails now later token hashed) s o h = Ensures-always (
    reset_password-writes hash_token fails now later token hashed s h
      (λ user hash _ _. write_reset-keeps hash_token spent fails later token user hash s h))
perform-IsSpent hash_token spent (cleaning fails now) s o h =
    Ensures-always {P = IsSpent hash_token spent} (
      bind_gets _ _ _ (
        bind_exec _ _ _ _ _ h λ _. Ensures-pure _ _ (
          All-delete_where (IsUsed hash_token (hash_token spent)) (is_over (now -ℤ pos 86400))
            s.tokens h)))

run-IsSpent :
    (hash_token : String → String) (spent : String) (calls : List Call) (s : Db)
    → All (IsOther hash_token spent) calls
    → IsSpent hash_token spent s
    → IsSpent hash_token spent (run hash_token calls s)
unfolding run
run-IsSpent hash_token spent [] s o h = h
run-IsSpent hash_token spent (c ∷ calls) s o h =
    run-IsSpent hash_token spent calls (perform hash_token c s) o.1
      (perform-IsSpent hash_token spent c s o.0 h)

-- Once `ResetPassword` has returned without an error for a token, every later `ResetPassword` and
-- `ValidateToken` with it returns an error and changes nothing, whatever calls come between and
-- whatever statements fail, where no `CreateToken` of those draws a token with the same hash.
pub resets_once :
    (hash_token : String → String) (fails : ℕ → Bool) (now later : ℤ) (token : String)
    (hashed : Option String) (s t : Db)
    → reset_password hash_token fails now later token hashed s ≡ (ok tt, t)
    → (calls : List Call) → All (IsOther hash_token token) calls
    → (fails' : ℕ → Bool) (now' later' : ℤ) (hashed' : Option String)
    → let u = run hash_token calls t in
      Refused (reset_password hash_token fails' now' later' token hashed' u) u
      × Refused (validate_token hash_token (fails' 0) now' token u) u
resets_once hash_token fails now later token hashed s t returned calls other fails' now' later'
      hashed' =
    let spent =
      Ensures-ok
        (reset_password-writes hash_token {X = λ _. Unit} fails now later token hashed s tt
          (λ user hash _ _. write_reset-IsSpent hash_token fails later token user hash s))
        returned in
    let still = run-IsSpent hash_token token calls t other spent in
    (
      reset_password-Refused hash_token fails' now' later' token hashed' (run hash_token calls t)
          still,
      spent-Refused hash_token (fails' 0) now' token (run hash_token calls t) still,
    )
