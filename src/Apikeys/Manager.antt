-- ===== src/Apikeys/Manager.antt =====
-- The methods of `Manager` in internal/apikeys/apikeys.go that change keys or check one. `hash_key` is
-- the SHA-256 of the key in hexadecimal, a parameter. `plain_key` is what the random source gives in
-- hexadecimal, `cutoff` what `AddDate` gives. `fails k` says that the k-th statement of the call, or
-- the step before it that may fail, does; a failed statement changes nothing.
use tonkey.Prelude.{
  ℕ, suc, Bool, true, false, not, ◌&&◌, ◌||◌, Option, none, some, List, [], ◌∷◌, ◌++◌, ◌==◌, ltb,
  take, Action, pure, gets, or_raise, raise_if, exec, exec_ignoring, ◌>>=◌, ◌>>◌,
}
use tonkey.Prelude.Int.{ℤ, ltb_ℤ}
use tonkey.Table.{select_first, update_where, delete_where, count_where}
use tonkey.Table.Keys.{has_key}
use tonkey.Apikeys.Text.{Text, eq_text, len, trim_prefix}
use tonkey.Apikeys.Scopes.{scopes_json, parse_scopes}

pub data Error : Type 0 where
  key_not_found key_expired key_inactive invalid_scope rate_limited : Error
  -- what the driver and the random source report
  database : Error

-- A row of `api_keys`.
pub record Row : Type 0 where
  pub id : ℕ
  pub user_id : ℕ
  pub org_id : Option ℕ
  pub key_hash : Text
  pub key_prefix : Text
  pub name : Text
  pub scopes : Text
  pub rate_limit : Option ℤ
  pub last_used : Option ℤ
  pub use_count : ℕ
  pub expires_at : Option ℤ
  pub is_active : Bool
  pub created_at : ℤ

-- What the methods return of a row.
pub record Key : Type 0 where
  pub id : ℕ
  pub user_id : ℕ
  pub org_id : Option ℕ
  pub key_prefix : Text
  pub name : Text
  pub scopes : List Text
  pub rate_limit : Option ℤ
  pub last_used : Option ℤ
  pub use_count : ℕ
  pub expires_at : Option ℤ
  pub is_active : Bool
  pub created_at : ℤ

pub record Db : Type 0 where
  pub keys : List Row
  pub next_key : ℕ

abbrev pub M : Type 0 → Type 0
M A = Action Db Error A

abbrev pub key_id : Row → ℕ
key_id r = r.id

abbrev pub key_of : List Text → Row → Key
key_of scopes r = record {
  id = r.id;
  user_id = r.user_id;
  org_id = r.org_id;
  key_prefix = r.key_prefix;
  name = r.name;
  scopes = scopes;
  rate_limit = r.rate_limit;
  last_used = r.last_used;
  use_count = r.use_count;
  expires_at = r.expires_at;
  is_active = r.is_active;
  created_at = r.created_at;
}

-- `expiresAt.Valid && time.Now().Unix() > expiresAt.Int64`
abbrev pub is_past : Option ℤ → ℤ → Bool
is_past none now = false
is_past (some e) now = ltb_ℤ e now

-- "tk_"
abbrev pub key_mark : Text
key_mark = 116 ∷ 107 ∷ 95 ∷ []

abbrev pub used : ℤ → Row → Row
used now r = record r { last_used = some now; use_count = suc r.use_count }

abbrev pub inactive : Row → Row
inactive r = record r { is_active = false }

abbrev pub change : (Row → Bool) → (Row → Row) → Db → Db
change p f s = record s { keys = update_where p f s.keys }

abbrev pub remove : (Row → Bool) → Db → Db
remove p s = record s { keys = delete_where p s.keys }

-- WHERE id = ? AND user_id = ?
abbrev pub is_owned : ℕ → ℕ → Row → Bool
is_owned id user_id r = r.id == id && r.user_id == user_id

-- `Revoke`.
unfoldable pub revoke : Bool → ℕ → ℕ → M (Unit {0})
revoke fails id user_id = do
  affected ← gets (λ s. count_where (is_owned id user_id) s.keys)
  exec fails database (change (is_owned id user_id) inactive)
  raise_if (affected == 0) key_not_found

-- `Delete`.
unfoldable pub delete : Bool → ℕ → ℕ → M (Unit {0})
delete fails id user_id = do
  affected ← gets (λ s. count_where (is_owned id user_id) s.keys)
  exec fails database (remove (is_owned id user_id))
  raise_if (affected == 0) key_not_found

abbrev pub is_worn : ℤ → ℤ → Row → Bool
is_worn now cutoff r = is_past r.expires_at now || not r.is_active && ltb_ℤ r.created_at cutoff

-- `Cleanup`, which returns the number of keys that it removed.
unfoldable pub cleanup : Bool → ℤ → ℤ → M ℕ
cleanup fails now cutoff = do
  affected ← gets (λ s. count_where (is_worn now cutoff) s.keys)
  exec fails database (remove (is_worn now cutoff))
  pure affected

module _ (hash_key : Text → Text) where
  abbrev pub new_row : ℕ → ℕ → Option ℕ → Text → List Text → Option ℤ → Option ℤ → Text → ℤ → Row
  new_row id user_id org_id name scopes rate_limit expires_at plain_key now = record {
    id = id;
    user_id = user_id;
    org_id = org_id;
    key_hash = hash_key plain_key;
    key_prefix = take 8 plain_key;
    name = name;
    scopes = scopes_json scopes;
    rate_limit = rate_limit;
    last_used = none;
    use_count = 0;
    expires_at = expires_at;
    is_active = true;
    created_at = now;
  }

  abbrev pub add_row : ℕ → Option ℕ → Text → List Text → Option ℤ → Option ℤ → Text → ℤ → Db → Db
  add_row user_id org_id name scopes rate_limit expires_at plain_key now s = record s {
    keys =
        s.keys
        ++ new_row s.next_key user_id org_id name scopes rate_limit expires_at plain_key now ∷ [];
    next_key = suc s.next_key;
  }

  -- `Create`: the key's record, and the text that is shown once.
  unfoldable pub create :
      (ℕ → Bool) → ℕ → Option ℕ → Text → List Text → Option ℤ → Option ℤ → Text → ℤ → M (Key × Text)
  create fails user_id org_id name scopes rate_limit expires_at plain_key now = do
    raise_if (fails 0) database
    id ← gets (λ s. s.next_key)
    exec (fails 1) database (add_row user_id org_id name scopes rate_limit expires_at plain_key now)
    raise_if (fails 2) database
    pure (
      key_of scopes (new_row id user_id org_id name scopes rate_limit expires_at plain_key now),
      key_mark ++ plain_key,
    )

  -- `Validate`.
  unfoldable pub validate : (ℕ → Bool) → Text → ℤ → ℤ → M Key
  validate fails api_key now later = do
    let plain_key = trim_prefix key_mark api_key
    raise_if (ltb (len plain_key) 16) key_not_found
    raise_if (fails 0) database
    row ←
        or_raise
          (← gets (λ s. select_first (λ (r : Row). eq_text r.key_hash (hash_key plain_key)) s.keys))
          key_not_found
    raise_if (not row.is_active) key_inactive
    raise_if (is_past row.expires_at now) key_expired
    exec_ignoring (fails 1) (change (has_key key_id row.id) (used later))
    pure (key_of (parse_scopes row.scopes) row)
