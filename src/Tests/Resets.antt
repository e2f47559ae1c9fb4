-- ===== src/Tests/Resets.antt =====
-- internal/reset at concrete inputs.
use Prim.Native.String.{String}
use text.Mathlib.Text.{◌==◌ as str_eq}
use tonkey.Prelude.{
  ap, ◌∙◌, ℕ, ◌≡◌, ◌≢◌, refl, Bool, true, false, some, some_inj, List, [], ◌∷◌, All, if◌then◌else◌,
  ok, err, transaction, ◌>>=◌,
}
use tonkey.Prelude.Int.{pos, ◌+ℤ◌}
use tonkey.Prelude.Ensures.{Ensures, Refused}
use tonkey.Reset.Manager.{
  rate_limited, User, Db, ResetRequest, create_token, create_if, create_for, last_request,
  validate_token, check_row, reset_password, finish_reset, write_reset,
}
use tonkey.Reset.Once.{Call, creating, resetting, run, resets_once}
use tonkey.Reset.Writing.{Written, resets_or_keeps, resets_twice}
use tonkey.Reset.Requests.{Requested, requests_token}

abbrev hash : String → String
hash s = if str_eq s "t1" then "h1" else if str_eq s "t2" then "h2" else "h3"

abbrev sound : ℕ → Bool
sound k = false

abbrev ann : User
ann = record {
  id = 5;
  username = "ann";
  email = some "ann@x";
  is_active = true;
  password_hash = "old";
}

abbrev start : Db
start = record { users = ann ∷ []; tokens = []; next_token = 1 }

abbrev requested : Db
requested = (create_token hash sound (some "t1") (pos 3600) (pos 1000) (pos 1000) "ann@x" start).1

abbrev request : ResetRequest
request = record { token = "t1"; expires_at = pos 4600 }

request_returns :
    create_token hash sound (some "t1") (pos 3600) (pos 1000) (pos 1000) "ann@x" start
    ≡ (ok (some request), requested)
unfolding create_token create_if create_for last_request ◌>>=◌ ◌+ℤ◌
request_returns = refl

requests_token_example : Requested hash (pos 1000) (pos 1000) "ann@x" start requested request
requests_token_example =
    requests_token hash sound (some "t1") (pos 3600) (pos 1000) (pos 1000) "ann@x" start requested
      request request_returns

again_too_soon :
    (create_token hash sound (some "t2") (pos 3600) (pos 1299) (pos 1299) "ann@x" requested).0
    ≡ err rate_limited
unfolding create_token create_if create_for last_request ◌>>=◌ ◌+ℤ◌
again_too_soon = refl

abbrev changed : Db
changed = (reset_password hash sound (pos 2000) (pos 2000) "t1" (some "new") requested).1

reset_returns :
    reset_password hash sound (pos 2000) (pos 2000) "t1" (some "new") requested ≡ (ok tt, changed)
unfolding create_token create_if create_for last_request reset_password validate_token check_row
    finish_reset write_reset transaction ◌>>=◌ ◌+ℤ◌
reset_returns = refl

abbrev calls : List Call
calls =
    creating sound (some "t2") (pos 3600) (pos 2500) (pos 2500) "ann@x"
    ∷ resetting sound (pos 2600) (pos 2600) "t2" (some "newer")
    ∷ []

apart : (token : String) → some "t2" ≡ some token → hash token ≢ hash "t1"
apart token e k =
    let texts : "h2" ≡ "h1" = ap hash (some_inj e) ∙ k in
    let tests : true ≡ false = ap (λ z. str_eq "h2" z) texts in true_false tests
  where
    true_false : true ≡ false → ⊥
    true_false p = cc

resets_once_example :
    Refused
      (reset_password hash sound (pos 3000) (pos 3000) "t1" (some "mine") (run hash calls changed))
      (run hash calls changed)
    × Refused
        (validate_token hash false (pos 3000) "t1" (run hash calls changed))
        (run hash calls changed)
resets_once_example =
    resets_once hash sound (pos 2000) (pos 2000) "t1" (some "new") requested changed reset_returns
      calls (apart, (tt, tt)) sound (pos 3000) (pos 3000) (some "mine")

resets_or_keeps_example :
    Ensures
      (λ _ t. Written hash (pos 2000) "t1" "new" requested t)
      (λ t. t ≡ requested)
      (reset_password hash sound (pos 2000) (pos 2000) "t1" (some "new") requested)
resets_or_keeps_example = resets_or_keeps hash sound (pos 2000) (pos 2000) "t1" "new" requested

abbrev first_done : Db
first_done = (finish_reset hash sound (pos 2000) "t1" (some "one") 5 requested).1

first_returns :
    finish_reset hash sound (pos 2000) "t1" (some "one") 5 requested ≡ (ok tt, first_done)
unfolding create_token create_if create_for last_request finish_reset write_reset transaction ◌>>=◌
    ◌+ℤ◌
first_returns = refl

resets_twice_example :
    Refused (validate_token hash false (pos 2001) "t1" first_done) first_done
    × (u : Db) × (finish_reset hash (λ _. false) (pos 2001) "t1" (some "two") 5 first_done
        ≡ (ok tt, u))
    × All (λ (r : User). r.id ≡ 5 → r.password_hash ≡ "two") u.users
resets_twice_example =
    resets_twice hash sound (pos 2000) "t1" "one" 5 requested first_done first_returns false
      (pos 2001) "two"
