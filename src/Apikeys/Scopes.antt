-- ===== src/Apikeys/Scopes.antt =====
-- The scopes of a key in internal/apikeys/apikeys.go: how `Create` writes them, how `parseScopes` reads
-- them, and what `HasScope` allows.
use tonkey.Prelude.{ℕ, Bool, true, false, ◌&&◌, ◌||◌, List, [], ◌∷◌, ◌++◌, ◌==◌, if◌then◌else◌}
use tonkey.Apikeys.Text.{
  Text, is_empty, eq_text, has_prefix, has_suffix, trim_suffix, trim, trim_space, split, join,
}

abbrev pub quote : ℕ
quote = 34

abbrev pub star : ℕ
star = 42

abbrev pub comma : ℕ
comma = 44

abbrev pub colon : ℕ
colon = 58

abbrev pub left_bracket : ℕ
left_bracket = 91

abbrev pub right_bracket : ℕ
right_bracket = 93

abbrev pub no_scopes : Text
no_scopes = left_bracket ∷ right_bracket ∷ []

-- The text that `Create` stores.
unfoldable pub scopes_json : List Text → Text
scopes_json [] = no_scopes
scopes_json (scope ∷ scopes) =
    left_bracket
    ∷ quote
    ∷ (join (scope ∷ scopes) (quote ∷ comma ∷ quote ∷ []) ++ quote ∷ right_bracket ∷ [])

abbrev pub is_bracket : ℕ → Bool
is_bracket c = c == left_bracket || c == right_bracket

abbrev pub is_quote : ℕ → Bool
is_quote c = c == quote

-- The loop of `parseScopes` over the parts.
abbrev pub scopes_of : List Text → List Text
scopes_of [] = []
scopes_of (part ∷ parts) =
    let rest = scopes_of parts in
    let scope = trim is_quote (trim_space part) in if is_empty scope then rest else scope ∷ rest

-- `parseScopes`.
unfoldable pub parse_scopes : Text → List Text
parse_scopes json =
    let inner = trim is_bracket json in
    if is_empty json || eq_text json no_scopes
    then []
    else if is_empty inner
    then []
    else scopes_of (split comma inner)

-- A scope allows itself, `*` everything, and one that ends in `:*` all that begins as it does.
abbrev pub allows : Text → Text → Bool
allows scope required =
    eq_text scope (star ∷ [])
    || eq_text scope required
    || has_suffix (colon ∷ star ∷ []) scope && has_prefix (trim_suffix (star ∷ []) scope) required

abbrev pub any_allows : List Text → Text → Bool
any_allows [] required = false
any_allows (scope ∷ scopes) required = allows scope required || any_allows scopes required

-- `HasScope`.
unfoldable pub has_scope : List Text → Text → Bool
has_scope [] required = true
has_scope (scope ∷ scopes) required = any_allows (scope ∷ scopes) required
