-- ===== src/Tests/Access.antt =====
-- internal/apikeys at concrete inputs, with the text itself for its hash.
use tonkey.Prelude.{
  ℕ, ◌≡◌, ◌≢◌, refl, Bool, true, false, none, some, List, [], ◌∷◌, ◌++◌, ok, err, arith, ◌>>=◌,
}
use tonkey.Prelude.Int.{pos}
use tonkey.Apikeys.Text.{Text}
use tonkey.Apikeys.Scopes.{scopes_json, parse_scopes, has_scope}
use tonkey.Apikeys.Roundtrip.{parse_scopes-scopes_json}
use tonkey.Apikeys.Manager.{key_inactive, key_mark, Key, Db, create, validate, revoke, cleanup}
use tonkey.Apikeys.Revoking.{
  IsNumbered, Call, creating, validating, revoking, cleaning, perform, run, revoked_for_good,
}

-- "a:*" and "b c".
abbrev scopes : List Text
scopes = (97 ∷ 58 ∷ 42 ∷ []) ∷ (98 ∷ 32 ∷ 99 ∷ []) ∷ []

parse_scopes-scopes_json_example : parse_scopes (scopes_json scopes) ≡ scopes
parse_scopes-scopes_json_example = parse_scopes-scopes_json scopes (
  (refl, ((refl, refl), ((refl, refl), ((refl, refl), tt)))),
  ((refl, ((refl, refl), ((refl, refl), ((refl, refl), tt)))), tt),
)

-- "a:b" is allowed, "b" is not.
some_allowed : (has_scope scopes (97 ∷ 58 ∷ 98 ∷ []) ≡ true) × (has_scope scopes (98 ∷ []) ≡ false)
unfolding has_scope
some_allowed = (refl, refl)

-- A key created for the one scope "" is read back as one without scopes, which is good for everything.
blank_scope : has_scope (parse_scopes (scopes_json ([] ∷ []))) (98 ∷ []) ≡ true
unfolding has_scope parse_scopes scopes_json
blank_scope = refl

abbrev steady : ℕ → Bool
steady k = false

abbrev own_text : Text → Text
own_text s = s

abbrev plain : Text
plain = 97 ∷ 97 ∷ 97 ∷ 97 ∷ 97 ∷ 97 ∷ 97 ∷ 97 ∷ 97 ∷ 97 ∷ 97 ∷ 97 ∷ 97 ∷ 97 ∷ 97 ∷ 98 ∷ []

abbrev no_keys : Db
no_keys = record { keys = []; next_key = 1 }

abbrev one_key : Db
one_key = (create own_text steady 7 none [] scopes none none plain (pos 10) no_keys).1

abbrev revoked : Db
revoked = (revoke false 1 7 one_key).1

one_key-IsNumbered : IsNumbered one_key
unfolding create ◌>>=◌
one_key-IsNumbered = record { unique = (tt, tt); below = omega arith; all = (tt, tt) }

revoke_returns : revoke false 1 7 one_key ≡ (ok tt, revoked)
unfolding create revoke ◌>>=◌
revoke_returns = refl

revoked_inactive :
    (validate own_text steady (key_mark ++ plain) (pos 20) (pos 20) revoked).0 ≡ err key_inactive
unfolding create revoke validate ◌>>=◌
revoked_inactive = refl

abbrev another : Text
another = 98 ∷ plain

abbrev since : List (Call own_text)
since =
    creating steady 7 none [] [] none none another (pos 30)
    ∷ revoking false 5 7
    ∷ validating steady another (pos 31) (pos 31)
    ∷ cleaning false (pos 40) (pos 5)
    ∷ []

abbrev now_open : Db
now_open = (validate own_text steady another (pos 50) (pos 50) (run own_text since revoked)).1

abbrev fresh_key : Key
fresh_key = record {
  id = 2;
  user_id = 7;
  org_id = none;
  key_prefix = 98 ∷ 97 ∷ 97 ∷ 97 ∷ 97 ∷ 97 ∷ 97 ∷ 97 ∷ [];
  name = [];
  scopes = [];
  rate_limit = none;
  last_used = some (pos 31);
  use_count = 1;
  expires_at = none;
  is_active = true;
  created_at = pos 30;
}

another_valid :
    validate own_text steady another (pos 50) (pos 50) (run own_text since revoked)
    ≡ (ok fresh_key, now_open)
unfolding create revoke validate cleanup perform run scopes_json parse_scopes ◌>>=◌
another_valid = refl

revoked_for_good_example : fresh_key.id ≢ 1
revoked_for_good_example =
    revoked_for_good own_text false 1 7 one_key revoked one_key-IsNumbered revoke_returns since
      steady another (pos 50) (pos 50) fresh_key now_open another_valid
