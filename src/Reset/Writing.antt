-- ===== src/Reset/Writing.antt =====
-- What `ResetPassword` of internal/reset writes, alone and in a race.
use Prim.Native.String.{String}
use tonkey.Prelude.{
  transaction, subst, ℕ, ◌≡◌, ◌≢◌, refl, ◌&&◌, not, Bool, true, false, Option, none, some, some_inj,
  List, [], ◌∷◌, All, Bool-cases, inl, inr, ◌==◌, is_some, ok, ◌>>=◌, arith,
}
use tonkey.Prelude.Int.{ℤ, ltb_ℤ}
use tonkey.Prelude.Ensures.{
  Ensures, Ensures-value, Ensures-ok, Refused, Ensures-pure, Ensures-exec, bind_gets, bind_or_raise,
  bind_raise_if, bind_exec,
}
use tonkey.Table.{select_first, update_where}
use tonkey.Table.Keys.{has_key, select_first-update_other, All-update_key}
use tonkey.Table.Texts.{has_text}
use tonkey.Reset.Manager.{
  Token, User, Db, hash_of, user_id, validate_token, check_row, write_reset, finish_reset,
  reset_password, mark_used, used, set_password, is_unused_of,
}
use tonkey.Reset.Once.{reset_password-writes, spent-Refused, finish_reset-IsSpent}

abbrev pub OwnedBy : ℕ → Token → Type 0
OwnedBy user r = (r.user_id ≡ user) × (is_some r.used_at ≡ false)

-- What a reset with this token has found in `s` and left in `t`.
pub record Written (hash_token : String → String) (now : ℤ) (token : String) (hash : String)
    (s t : Db) : Type 0 where
  pub row : Token
  pub found : select_first (has_text hash_of (hash_token token)) s.tokens ≡ some row
  pub unused : is_some row.used_at ≡ false
  pub timely : ltb_ℤ row.expires_at now ≡ false
  pub changed : All (λ (u : User). u.id ≡ row.user_id → u.password_hash ≡ hash) t.users
  pub kept :
      (k : ℕ)
      → k ≢ row.user_id
      → select_first (has_key user_id k) t.users ≡ select_first (has_key user_id k) s.users
  pub closed : All (λ (r : Token). r.user_id ≡ row.user_id → is_some r.used_at ≡ true) t.tokens

-- An open token of this user that ValidateToken found.
record Valid (hash_token : String → String) (now : ℤ) (token : String) (s : Db) (user : ℕ)
    : Type 0 where
  row : Token
  found : select_first (has_text hash_of (hash_token token)) s.tokens ≡ some row
  unused : is_some row.used_at ≡ false
  timely : ltb_ℤ row.expires_at now ≡ false
  owner : row.user_id ≡ user

validate_token-Valid :
    (hash_token : String → String) (b : Bool) (now : ℤ) (token : String) (s : Db)
    → Ensures
        (λ user _. Valid hash_token now token s user)
        (λ _. Unit)
        (validate_token hash_token b now token s)
unfolding validate_token check_row
validate_token-Valid hash_token b now token s = bind_raise_if _ _ _ _ tt λ _. bind_gets _ _ _ (
    bind_or_raise _ _ _ _ tt λ row found. bind_raise_if _ _ _ _ tt λ unused.
      bind_raise_if _ _ _ _ tt λ timely.
        Ensures-pure _ _
          (record { row = row; found = found; unused = unused; timely = timely; owner = refl }))

closes :
    (user : ℕ) (now : ℤ) (rows : List Token)
    → All
        (λ (r : Token). r.user_id ≡ user → is_some r.used_at ≡ true)
        (update_where (is_unused_of user) (used now) rows)
closes user now [] = tt
closes user now (r ∷ rows) = elim (Bool-cases (is_unused_of user r)) [
  | inl e ↦ rw e ((λ _. refl), closes user now rows)
  | inr e ↦ rw e ((λ same. over r.used_at r.user_id same e), closes user now rows)
]
  where
    over :
        (o : Option ℤ) (k : ℕ)
        → k ≡ user
        → (k == user && not (is_some o)) ≡ false
        → is_some o ≡ true
    over none k same e = ground (arith, same, e)
    over (some n) k same e = refl

write_reset-Written :
    (hash_token : String → String) (fails : ℕ → Bool) (now later : ℤ) (token : String) (user : ℕ)
    (hash : String) (s : Db)
    → Valid hash_token now token s user
    → Ensures
        (λ _ t. Written hash_token now token hash s t)
        (λ _. Unit)
        (write_reset hash_token fails later token user hash s)
unfolding write_reset
write_reset-Written hash_token fails now later token user hash s v = bind_exec _ _ _ _ _ tt λ _.
    bind_exec _ _ _ _ _ tt λ _. Ensures-exec _ _ _ _ tt λ _. record {
      row = (v).row;
      found = (v).found;
      unused = (v).unused;
      timely = (v).timely;
      changed = rw (v).owner (
          All-update_key user_id (λ (u : User). u.password_hash ≡ hash) user _ s.users (λ u. refl));
      kept = λ k other.
          select_first-update_other user_id k user _ s.users (λ u. refl) (rw⁻¹ (v).owner other);
      closed = rw (v).owner (closes user later _);
    }

-- A `ResetPassword` that returns an error changes nothing. One that returns without an error was given a
-- token that is stored, not used and not past its expiry. All users with the id of its owner have
-- the new password, other users are as before, and no token of the owner is open any more.
pub resets_or_keeps :
    (hash_token : String → String) (fails : ℕ → Bool) (now later : ℤ) (token : String)
    (hash : String) (s : Db)
    → Ensures
        (λ _ t. Written hash_token now token hash s t)
        (λ t. t ≡ s)
        (reset_password hash_token fails now later token (some hash) s)
resets_or_keeps hash_token fails now later token hash s =
    reset_password-writes hash_token fails now later token (some hash) s refl
      (λ user made valid same.
        subst
          (λ (z : String).
            Ensures (λ _ t. Written hash_token now token hash s t) (λ _. Unit)
              (write_reset hash_token fails later token user z s))
          (some_inj same)
          (write_reset-Written hash_token fails now later token user hash s
            (Ensures-value (validate_token-Valid hash_token (fails 0) now token s) valid)))

-- When two `ResetPassword` have passed `ValidateToken` with one token before either writes, and the first
-- one then returns without an error, `ValidateToken` refuses the token from then on, and yet the
-- second one returns too, where none of its statements fails, and its password replaces that of the
-- first: the token is used twice.
pub resets_twice :
    (hash_token : String → String) (fails : ℕ → Bool) (now : ℤ) (token first : String) (user : ℕ)
    (s t : Db)
    → finish_reset hash_token fails now token (some first) user s ≡ (ok tt, t)
    → (b : Bool) (later : ℤ) (second : String)
    → Refused (validate_token hash_token b later token t) t
      × (u : Db) × (finish_reset hash_token (λ _. false) later token (some second) user t
          ≡ (ok tt, u))
      × All (λ (r : User). r.id ≡ user → r.password_hash ≡ second) u.users
unfolding finish_reset write_reset transaction ◌>>=◌
resets_twice hash_token fails now token first user s t returned b later second = (
  spent-Refused hash_token b later token t
      (Ensures-ok (finish_reset-IsSpent hash_token fails now token (some first) user s) returned),
  mark_used (is_unused_of user) later
      (mark_used (has_text hash_of (hash_token token)) later (set_password user second t)),
  refl,
  All-update_key user_id (λ (u : User). u.password_hash ≡ second) user _ t.users (λ u. refl),
)
