-- ===== src/Reset/Requests.antt =====
-- What a returned `CreateToken` of internal/reset has checked, and that its token is accepted.
use Prim.Native.String.{String}
use tonkey.Prelude.{
  bind_ok, or_raise, ℕ, ◌≡◌, refl, ap, ◌∙◌, subst, ◌||◌, Bool, true, false, Option, none, some,
  some_inj, List, [], ◌∷◌, ◌++◌, All, All-map, is_some, ok, ◌>>=◌, arith,
}
use tonkey.Prelude.Int.{ℤ, ◌+ℤ◌, ◌≤ℤ◌, ltb_ℤ, int_laws}
use tonkey.Prelude.Ensures.{
  Ensures, Ensures-ok, Ensures-pure, bind_gets, bind_or_raise, bind_raise_if, bind_exec,
}
use tonkey.Table.{select, select_first, select_first-append_none, select-All}
use tonkey.Table.Texts.{has_text, eq→str_eq}
use tonkey.Reset.Manager.{
  Token, User, Db, ResetRequest, hash_of, is_of, is_reachable, last_request, is_too_soon, newest,
  new_token, add_token, token_not_found, create_token, create_if, create_for, validate_token,
  check_row, min_request_interval,
}

newest-≤ℤ : (c k : ℤ) → (c ≤ℤ newest c (some k)) × (k ≤ℤ newest c (some k))
newest-≤ℤ c k = (ground arith, ground arith)

≤ℤ_trans : (a b c : ℤ) → a ≤ℤ b → b ≤ℤ c → a ≤ℤ c
≤ℤ_trans a b c h k = omega (arith, h, k)

-- The newest request is not before any other.
last_request-latest :
    (rows : List Token) (o : Option ℤ)
    → last_request rows ≡ o
    → All (λ (t : Token). elim o [ none ↦ ⊥ | some m ↦ t.created_at ≤ℤ m ]) rows
unfolding last_request
last_request-latest [] o e = tt
last_request-latest (t ∷ rows) none e = cc
last_request-latest (t ∷ rows) (some m) e =
    subst (λ z. All (λ (q : Token). q.created_at ≤ℤ z) (t ∷ rows)) (some_inj e)
      (go (last_request rows) (last_request-latest rows (last_request rows) refl))
  where
    go :
        (o : Option ℤ)
        → All (λ (t : Token). elim o [ none ↦ ⊥ | some m ↦ t.created_at ≤ℤ m ]) rows
        → (t.created_at ≤ℤ newest t.created_at o)
          × All (λ (q : Token). q.created_at ≤ℤ newest t.created_at o) rows
    go none h = (
      omega arith,
      All-map (λ _. ⊥) (λ (q : Token). q.created_at ≤ℤ t.created_at) rows (λ q k. absurd k) h,
    )
    go (some k) h = (
      (newest-≤ℤ t.created_at k).0,
      All-map (λ (q : Token). q.created_at ≤ℤ k)
          (λ (q : Token). q.created_at ≤ℤ newest t.created_at (some k)) rows
          (λ q l. ≤ℤ_trans q.created_at k _ l (newest-≤ℤ t.created_at k).1) h,
    )

late_enough :
    (now c m : ℤ)
    → ltb_ℤ now (m +ℤ min_request_interval) ≡ false
    → c ≤ℤ m
    → c +ℤ min_request_interval ≤ℤ now
late_enough now c m e l =
    let limit = not_before now (m +ℤ min_request_interval) e in omega (int_laws, limit, l)
  where
    not_before : (a b : ℤ) → ltb_ℤ a b ≡ false → b ≤ℤ a
    not_before a b k = ground arith

spaced_out :
    (now : ℤ) (rows : List Token)
    → is_too_soon now (last_request rows) ≡ false
    → All (λ (q : Token). q.created_at +ℤ min_request_interval ≤ℤ now) rows
spaced_out now rows e = go (last_request rows) e (last_request-latest rows (last_request rows) refl)
  where
    go :
        (o : Option ℤ)
        → is_too_soon now o ≡ false
        → All (λ (t : Token). elim o [ none ↦ ⊥ | some m ↦ t.created_at ≤ℤ m ]) rows
        → All (λ (q : Token). q.created_at +ℤ min_request_interval ≤ℤ now) rows
    go none k h =
        All-map (λ _. ⊥) (λ (q : Token). q.created_at +ℤ min_request_interval ≤ℤ now) rows
          (λ q x. absurd x) h
    go (some m) k h =
        All-map (λ (q : Token). q.created_at ≤ℤ m)
          (λ (q : Token). q.created_at +ℤ min_request_interval ≤ℤ now) rows
          (λ q l. late_enough now q.created_at m k l) h

-- What CreateToken found in `s` and left in `t` for a request.
pub record Requested (hash_token : String → String) (checked now : ℤ) (email : String) (s t : Db)
    (r : ResetRequest) : Type 0 where
  pub user : User
  pub found : select_first (is_reachable email) s.users ≡ some user
  pub spaced :
      All
        (λ (q : Token). is_of user.id q ≡ true → q.created_at +ℤ min_request_interval ≤ℤ checked)
        s.tokens
  pub added :
      t.tokens
      ≡ s.tokens ++ new_token s.next_token user.id (hash_token r.token) r.expires_at now ∷ []
  pub kept : t.users ≡ s.users
  pub accepted :
      (later : ℤ)
      → ltb_ℤ r.expires_at later ≡ false
      → validate_token hash_token false later r.token t ≡ (ok user.id, t)

validate_token-accepts :
    (hash_token : String → String) (now : ℤ) (token : String) (s : Db) (row : Token)
    → select_first (has_text hash_of (hash_token token)) s.tokens ≡ some row
    → is_some row.used_at ≡ false
    → ltb_ℤ row.expires_at now ≡ false
    → validate_token hash_token false now token s ≡ (ok row.user_id, s)
unfolding validate_token check_row ◌>>=◌
validate_token-accepts hash_token now token s row found unused timely =
    bind_ok (or_raise (select_first (has_text hash_of (hash_token token)) s.tokens) token_not_found)
      (check_row now) (ap (λ o. or_raise o token_not_found s) found)
    ∙ checked
  where
    checked : check_row now row s ≡ (ok row.user_id, s)
    checked = rw (unused, timely) refl

-- The row that is added is found by its hash.
looked :
    (b : Bool) (hash : String) (rows : List Token) (row : Token)
    → row.token_hash ≡ hash
    → (b || is_some (select_first (has_text hash_of hash) rows)) ≡ false
    → select_first (has_text hash_of hash) (rows ++ row ∷ []) ≡ some row
looked b hash rows row same e =
    select_first-append_none (has_text hash_of hash) rows row
      (free b (select_first (has_text hash_of hash) rows) e)
    ∙ rw (eq→str_eq row.token_hash hash same) refl
  where
    free : (b : Bool) (o : Option Token) → (b || is_some o) ≡ false → o ≡ none
    free true o e = cc
    free false none e = refl
    free false (some t) e = cc

create_token-Requested :
    (hash_token : String → String) (fails : ℕ → Bool) (entropy : Option String)
    (expiration checked now : ℤ) (email : String) (s : Db)
    → Ensures
        (λ o t. (r : ResetRequest) → o ≡ some r → Requested hash_token checked now email s t r)
        (λ _. Unit)
        (create_token hash_token fails entropy expiration checked now email s)
unfolding create_token
create_token-Requested hash_token fails entropy expiration checked now email s =
    bind_raise_if _ _ _ _ tt
      λ _. bind_gets _ _ _ (created (select_first (is_reachable email) s.users) refl)
  where
    created :
        (o : Option User)
        → select_first (is_reachable email) s.users ≡ o
        → Ensures
            (λ o t. (r : ResetRequest) → o ≡ some r → Requested hash_token checked now email s t r)
            (λ _. Unit)
            (create_if hash_token fails entropy expiration checked now o s)
    created none found = unfold create_if in (Ensures-pure _ _ (λ r e. cc))
    created (some u) found =
        unfold create_if create_for in
        (bind_raise_if _ _ _ _ tt λ _. bind_gets _ _ _ (
          bind_raise_if _ _ _ _ tt λ spaced. bind_or_raise _ _ _ _ tt λ token drawn.
            bind_gets _ _ _ (
              bind_exec _ _ _ _ _ tt λ free. Ensures-pure _ _ (λ r e.
                subst
                  (Requested hash_token checked now email s
                    (add_token u.id (hash_token token) (now +ℤ expiration) now s))
                  (some_inj e)
                  (record {
                    user = u;
                    found = found;
                    spaced =
                        select-All (is_of u.id)
                          (λ (q : Token). q.created_at +ℤ min_request_interval ≤ℤ checked) s.tokens
                          (spaced_out checked (select (is_of u.id) s.tokens) spaced);
                    added = refl;
                    kept = refl;
                    accepted = λ later timely.
                        validate_token-accepts hash_token later token _
                          (new_token s.next_token u.id (hash_token token) (now +ℤ expiration) now)
                          (looked (fails 2) (hash_token token) s.tokens _ refl free) refl timely;
                  })))))

-- A `CreateToken` that returns a request found an active user with the email whose tokens were all made at
-- least five minutes before its test. It adds the token of the request for that user and changes no user, and
-- `ValidateToken` takes that token for this user up to the time that the request names.
pub requests_token :
    (hash_token : String → String) (fails : ℕ → Bool) (entropy : Option String)
    (expiration checked now : ℤ) (email : String) (s t : Db) (r : ResetRequest)
    → create_token hash_token fails entropy expiration checked now email s ≡ (ok (some r), t)
    → Requested hash_token checked now email s t r
requests_token hash_token fails entropy expiration checked now email s t r e =
    Ensures-ok (create_token-Requested hash_token fails entropy expiration checked now email s) e r
      refl
