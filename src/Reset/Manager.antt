-- ===== src/Reset/Manager.antt =====
-- The methods of `Manager` in internal/reset/reset.go. The hash of a token (SHA-256 in hex) and of a
-- password (bcrypt, which may fail) are parameters, and `entropy` is the token that CreateToken draws,
-- or none where rand.Read fails. `fails k` says that the k-th statement of the call fails, numbered in the
-- order of the text; a failed statement changes nothing. Times are Unix seconds.
use Prim.Native.String.{String}
use text.Mathlib.Text.{◌==◌ as str_eq}
use tonkey.Prelude.{
  ℕ, suc, Bool, false, not, ◌||◌, ◌&&◌, Option, none, some, List, [], ◌∷◌, ◌++◌, ◌==◌,
  if◌then◌else◌, is_some, Action, pure, gets, or_raise, raise_if, exec, transaction, ◌>>=◌, ◌>>◌,
}
use tonkey.Prelude.Int.{ℤ, pos, ◌+ℤ◌, ◌-ℤ◌, ltb_ℤ}
use tonkey.Table.{select, select_first, update_where, delete_where, count_where}
use tonkey.Table.Keys.{has_key}
use tonkey.Table.Texts.{has_text}

pub data Error : Type 0 where
  token_not_found token_expired token_used rate_limited : Error
  -- what the driver, rand.Read and bcrypt report
  database random hashing : Error

-- The columns of `users` that these methods use.
pub record User : Type 0 where
  pub id : ℕ
  pub username : String
  pub email : Option String
  pub is_active : Bool
  pub password_hash : String

-- A row of `password_reset_tokens`.
pub record Token : Type 0 where
  pub id : ℕ
  pub user_id : ℕ
  pub token_hash : String
  pub expires_at : ℤ
  pub used_at : Option ℤ
  pub created_at : ℤ

pub record Db : Type 0 where
  pub users : List User
  pub tokens : List Token
  pub next_token : ℕ

abbrev pub M : Type 0 → Type 0
M A = Action Db Error A

-- `MinRequestInterval`, five minutes.
abbrev pub min_request_interval : ℤ
min_request_interval = pos 300

abbrev pub user_id : User → ℕ
user_id u = u.id

abbrev pub hash_of : Token → String
hash_of t = t.token_hash

-- WHERE email = ? AND is_active = 1
abbrev pub is_reachable : String → User → Bool
is_reachable email u = elim u.email [ none ↦ false | some e ↦ str_eq e email && u.is_active ]

abbrev pub is_of : ℕ → Token → Bool
is_of user t = t.user_id == user

abbrev pub newest : ℤ → Option ℤ → ℤ
newest time none = time
newest time (some m) = if ltb_ℤ m time then time else m

-- SELECT MAX(created_at)
unfoldable pub last_request : List Token → Option ℤ
last_request [] = none
last_request (t ∷ tokens) = some (newest t.created_at (last_request tokens))

-- `time.Since(lastTime) < MinRequestInterval`, where there is a last time.
abbrev pub is_too_soon : ℤ → Option ℤ → Bool
is_too_soon now none = false
is_too_soon now (some last) = ltb_ℤ now (last +ℤ min_request_interval)

abbrev pub new_token : ℕ → ℕ → String → ℤ → ℤ → Token
new_token id user hash expires now = record {
  id = id;
  user_id = user;
  token_hash = hash;
  expires_at = expires;
  used_at = none;
  created_at = now;
}

abbrev pub add_token : ℕ → String → ℤ → ℤ → Db → Db
add_token user hash expires now s = record s {
  tokens = s.tokens ++ new_token s.next_token user hash expires now ∷ [];
  next_token = suc s.next_token;
}

-- `ResetRequest`.
pub record ResetRequest : Type 0 where
  pub token : String
  pub expires_at : ℤ

abbrev pub used : ℤ → Token → Token
used now t = record t { used_at = some now }

abbrev pub mark_used : (Token → Bool) → ℤ → Db → Db
mark_used p now s = record s { tokens = update_where p (used now) s.tokens }

abbrev pub set_password : ℕ → String → Db → Db
set_password user hash s = record s {
  users = update_where (has_key user_id user) (λ u. record u { password_hash = hash }) s.users;
}

abbrev pub is_unused_of : ℕ → Token → Bool
is_unused_of user t = t.user_id == user && not (is_some t.used_at)

-- What `ValidateToken` makes of the row that it finds.
unfoldable pub check_row : ℤ → Token → M ℕ
check_row now t = do
  raise_if (is_some t.used_at) token_used
  raise_if (ltb_ℤ t.expires_at now) token_expired
  pure t.user_id

module _ (hash_token : String → String) where
  -- `CreateToken` for the user that was found, with the times of the test and of the token. The column `token_hash` is unique.
  unfoldable pub create_for : (ℕ → Bool) → Option String → ℤ → ℤ → ℤ → ℕ → M (Option ResetRequest)
  create_for fails entropy expiration checked now user = do
    raise_if (fails 1) database
    last ← gets (λ s. last_request (select (is_of user) s.tokens))
    raise_if (is_too_soon checked last) rate_limited
    token ← or_raise entropy random
    taken ← gets (λ s. is_some (select_first (has_text hash_of (hash_token token)) s.tokens))
    exec (fails 2 || taken) database (add_token user (hash_token token) (now +ℤ expiration) now)
    pure (some (record { token = token; expires_at = now +ℤ expiration }))

  unfoldable pub create_if :
      (ℕ → Bool) → Option String → ℤ → ℤ → ℤ → Option User → M (Option ResetRequest)
  create_if fails entropy expiration checked now none = pure none
  create_if fails entropy expiration checked now (some u) =
      create_for fails entropy expiration checked now u.id

  -- `CreateToken`. It returns none where the code returns neither a request nor an error.
  unfoldable pub create_token :
      (ℕ → Bool) → Option String → ℤ → ℤ → ℤ → String → M (Option ResetRequest)
  create_token fails entropy expiration checked now email = do
    raise_if (fails 0) database
    found ← gets (λ s. select_first (is_reachable email) s.users)
    create_if fails entropy expiration checked now found

  -- `ValidateToken`.
  unfoldable pub validate_token : Bool → ℤ → String → M ℕ
  validate_token fails now token = do
    raise_if fails database
    row ← gets (λ s. select_first (has_text hash_of (hash_token token)) s.tokens)
    t ← or_raise row token_not_found
    check_row now t

  -- The statements of the transaction in `ResetPassword`.
  unfoldable pub write_reset : (ℕ → Bool) → ℤ → String → ℕ → String → M (Unit {0})
  write_reset fails now token user hash = do
    exec (fails 2) database (set_password user hash)
    exec (fails 3) database (mark_used (has_text hash_of (hash_token token)) now)
    exec (fails 4) database (mark_used (is_unused_of user) now)

  -- `ResetPassword` after `ValidateToken` has returned.
  unfoldable pub finish_reset : (ℕ → Bool) → ℤ → String → Option String → ℕ → M (Unit {0})
  finish_reset fails now token hashed user = do
    hash ← or_raise hashed hashing
    transaction (fails 1) database (fails 5) database (write_reset fails now token user hash)

  -- `ResetPassword`; `hashed` is what bcrypt makes of the new password.
  unfoldable pub reset_password : (ℕ → Bool) → ℤ → ℤ → String → Option String → M (Unit {0})
  reset_password fails now later token hashed = do
    user ← validate_token (fails 0) now token
    finish_reset fails later token hashed user

  -- `GetUserByResetToken`.
  unfoldable pub get_user_by_reset_token : (ℕ → Bool) → ℤ → String → M (ℕ × String)
  get_user_by_reset_token fails now token = do
    user ← validate_token (fails 0) now token
    raise_if (fails 1) database
    row ← gets (λ s. select_first (has_key user_id user) s.users)
    u ← or_raise row database
    pure (user, u.username)

-- expires_at < ? OR used_at IS NOT NULL
abbrev pub is_over : ℤ → Token → Bool
is_over cutoff t = ltb_ℤ t.expires_at cutoff || is_some t.used_at

-- `Cleanup`, which keeps a token for a day after its expiry.
unfoldable pub cleanup : Bool → ℤ → M ℕ
cleanup fails now = do
  n ← gets (λ s. count_where (is_over (now -ℤ pos 86400)) s.tokens)
  exec fails database
      (λ s. record s { tokens = delete_where (is_over (now -ℤ pos 86400)) s.tokens })
  pure n
