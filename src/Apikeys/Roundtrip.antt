-- ===== src/Apikeys/Roundtrip.antt =====
-- What `parseScopes` of internal/apikeys reads from what `Create` has written.
use tonkey.Prelude.{
  ℕ, ◌≡◌, refl, ap, ◌∙◌, Bool, true, false, ◌||◌, List, [], ◌∷◌, ◌++◌, ◌==◌, arith, All, All-map,
  All-append, map,
}
use tonkey.Apikeys.Text.{
  Text, is_empty, eq_text, trim_right, trim, trim_space, is_space, split, join,
}
use tonkey.Apikeys.Scopes.{
  quote, comma, right_bracket, no_scopes, scopes_json, is_bracket, is_quote, scopes_of,
  parse_scopes,
}

-- A scope that is not empty and has neither quotes nor commas.
abbrev pub IsPlain : Text → Type 0
IsPlain s = (is_empty s ≡ false) × All (λ (c : ℕ). (is_quote c ≡ false) × ((c == comma) ≡ false)) s

abbrev quoted : Text → Text
quoted s = quote ∷ (s ++ quote ∷ [])

is_empty-append : (s : Text) (c : ℕ) → is_empty (s ++ c ∷ []) ≡ false
is_empty-append [] c = refl
is_empty-append (d ∷ s) c = refl

trim_right-last :
    (cut : ℕ → Bool) (s : Text) (c : ℕ) → cut c ≡ false → trim_right cut (s ++ c ∷ []) ≡ s ++ c ∷ []
trim_right-last cut [] c h = rw h refl
trim_right-last cut (d ∷ s) c h = rw (trim_right-last cut s c h, is_empty-append s c) (ground arith)

trim_right-cut :
    (cut : ℕ → Bool) (s : Text) (c d : ℕ)
    → cut c ≡ false
    → cut d ≡ true
    → trim_right cut (s ++ c ∷ d ∷ []) ≡ s ++ c ∷ []
trim_right-cut cut [] c d h k = rw (k, h) refl
trim_right-cut cut (x ∷ s) c d h k =
    rw (trim_right-cut cut s c d h k, is_empty-append s c) (ground arith)

trim_right-kept :
    (cut : ℕ → Bool) (s : Text) → All (λ (c : ℕ). cut c ≡ false) s → trim_right cut s ≡ s
trim_right-kept cut [] h = refl
trim_right-kept cut (c ∷ s) h = rw (h.0, trim_right-kept cut s h.1) refl

trim_right-All :
    (cut : ℕ → Bool) (s : Text) (d : ℕ)
    → All (λ (c : ℕ). cut c ≡ false) s
    → cut d ≡ true
    → trim_right cut (s ++ d ∷ []) ≡ s
trim_right-All cut [] d h k = rw k refl
trim_right-All cut (c ∷ s) d h k = rw (h.0, trim_right-All cut s d h.1 k) refl

-- One part, as `scopes_of` reads it.
trim-quoted : (s : Text) → IsPlain s → trim is_quote (trim_space (quoted s)) ≡ s
trim-quoted [] h = cc
trim-quoted (c ∷ s) h =
    ap (trim is_quote) (trim_right-last is_space (quote ∷ c ∷ s) quote refl)
    ∙ unquoted c s h.1.0.0 (
        trim_right-All is_quote (c ∷ s) quote
          (All-map (λ (d : ℕ). (is_quote d ≡ false) × ((d == comma) ≡ false))
            (λ (d : ℕ). is_quote d ≡ false) (c ∷ s) (λ d k. k.0) h.1)
          refl)
  where
    unquoted :
        (c : ℕ) (s : Text)
        → is_quote c ≡ false
        → trim_right is_quote (c ∷ (s ++ quote ∷ [])) ≡ c ∷ s
        → trim is_quote (quoted (c ∷ s)) ≡ c ∷ s
    unquoted c s h e = rw h e

scopes_of-quoted :
    (scopes : List Text) → All IsPlain scopes → scopes_of (map quoted scopes) ≡ scopes
scopes_of-quoted [] h = refl
scopes_of-quoted (s ∷ scopes) h =
    read (quoted s) (map quoted scopes) (trim-quoted s h.0) (scopes_of-quoted scopes h.1) h.0.0
  where
    read :
        (part : Text) (parts : List Text) {t : Text} {rest : List Text}
        → trim is_quote (trim_space part) ≡ t
        → scopes_of parts ≡ rest
        → is_empty t ≡ false
        → scopes_of (part ∷ parts) ≡ t ∷ rest
    read part parts e f g = rw (e, f, g) refl

IsFree : Text → Type 0
IsFree s = All (λ (c : ℕ). (c == comma) ≡ false) s

split-part : (s t : Text) → IsFree s → split comma (s ++ comma ∷ t) ≡ s ∷ split comma t
unfolding IsFree
split-part [] t h = refl
split-part (c ∷ s) t h = rw (split-part s t h.1, h.0) refl

split-end : (s : Text) → IsFree s → split comma s ≡ s ∷ []
unfolding IsFree
split-end [] h = refl
split-end (c ∷ s) h = rw (split-end s h.1, h.0) refl

quoted-IsFree : (s : Text) → IsPlain s → IsFree (quoted s)
unfolding IsFree
quoted-IsFree s h = (
  refl,
  All-append (λ (c : ℕ). (c == comma) ≡ false) s (quote ∷ [])
      (All-map (λ (d : ℕ). (is_quote d ≡ false) × ((d == comma) ≡ false))
        (λ (c : ℕ). (c == comma) ≡ false) s (λ d k. k.1) h.1)
      (refl, tt),
)

abbrev between : Text
between = quote ∷ comma ∷ quote ∷ []

abbrev inside : Text → List Text → Text
inside s scopes = quote ∷ (join (s ∷ scopes) between ++ quote ∷ [])

inside-next :
    (s t : Text) (scopes : List Text) → inside s (t ∷ scopes) ≡ quoted s ++ comma ∷ inside t scopes
inside-next s t scopes = ap (λ (x : Text). quote ∷ x) (shift s (join (t ∷ scopes) between))
  where
    shift :
        (s x : Text)
        → (s ++ between ++ x) ++ quote ∷ [] ≡ (s ++ quote ∷ []) ++ comma ∷ quote ∷ (x ++ quote ∷ [])
    shift [] x = refl
    shift (c ∷ s) x = ap (λ (y : Text). c ∷ y) (shift s x)

split-inside :
    (s : Text) (scopes : List Text)
    → All IsPlain (s ∷ scopes)
    → split comma (inside s scopes) ≡ map quoted (s ∷ scopes)
split-inside s [] h = split-end (quoted s) (quoted-IsFree s h.0)
split-inside s (t ∷ scopes) h =
    ap (split comma) (inside-next s t scopes)
    ∙ split-part (quoted s) (inside t scopes) (quoted-IsFree s h.0)
    ∙ ap (λ (rest : List Text). quoted s ∷ rest) (split-inside t scopes h.1)

-- The brackets that `Create` adds are the only ones that `parseScopes` takes off.
trim-scopes_json :
    (s : Text) (scopes : List Text) → trim is_bracket (scopes_json (s ∷ scopes)) ≡ inside s scopes
unfolding scopes_json
trim-scopes_json s scopes =
    trim_right-cut is_bracket (quote ∷ join (s ∷ scopes) between) quote right_bracket refl refl

parse_scopes-read :
    (json : Text) {inner : Text} {parts scopes : List Text}
    → (is_empty json || eq_text json no_scopes) ≡ false
    → trim is_bracket json ≡ inner
    → is_empty inner ≡ false
    → split comma inner ≡ parts
    → scopes_of parts ≡ scopes
    → parse_scopes json ≡ scopes
unfolding parse_scopes
parse_scopes-read json a b c d e = rw (a, b, c, d) e

scopes_json-filled :
    (s : Text) (scopes : List Text)
    → (is_empty (scopes_json (s ∷ scopes)) || eq_text (scopes_json (s ∷ scopes)) no_scopes) ≡ false
unfolding scopes_json
scopes_json-filled s scopes = refl

-- Scopes that are not empty and have neither quotes nor commas are read back by `parseScopes` exactly as
-- `Create` was given them, in their order.
pub parse_scopes-scopes_json :
    (scopes : List Text) → All IsPlain scopes → parse_scopes (scopes_json scopes) ≡ scopes
unfolding parse_scopes scopes_json
parse_scopes-scopes_json [] h = refl
parse_scopes-scopes_json (s ∷ scopes) h =
    parse_scopes-read (scopes_json (s ∷ scopes)) (scopes_json-filled s scopes)
      (trim-scopes_json s scopes) refl (split-inside s scopes h) (scopes_of-quoted (s ∷ scopes) h)
