-- ===== src/Apikeys/Text.antt =====
-- The functions of Go's package strings that internal/apikeys calls. A text is the list of its Unicode
-- code points.
use tonkey.Prelude.{
  ℕ, ◌+◌, Bool, true, false, ◌&&◌, ◌||◌, List, [], ◌∷◌, ◌++◌, ◌==◌, ltb, leb, if◌then◌else◌,
}

abbrev pub Text : Type 0
Text = List ℕ

abbrev pub is_empty : Text → Bool
is_empty [] = true
is_empty (c ∷ s) = false

abbrev pub eq_text : Text → Text → Bool
eq_text [] [] = true
eq_text [] (d ∷ t) = false
eq_text (c ∷ s) [] = false
eq_text (c ∷ s) (d ∷ t) = c == d && eq_text s t

-- `len`: the bytes of the text in UTF-8.
abbrev pub len : Text → ℕ
len [] = 0
len (c ∷ s) =
    (if ltb c 128 then 1 else if ltb c 2048 then 2 else if ltb c 65536 then 3 else 4) + len s

-- `HasPrefix`, `HasSuffix`, `TrimPrefix` and `TrimSuffix`, the affix first.
abbrev pub has_prefix : Text → Text → Bool
has_prefix [] s = true
has_prefix (p ∷ prefix) [] = false
has_prefix (p ∷ prefix) (c ∷ s) = p == c && has_prefix prefix s

abbrev pub has_suffix : Text → Text → Bool
has_suffix suffix [] = is_empty suffix
has_suffix suffix (c ∷ s) = eq_text suffix (c ∷ s) || has_suffix suffix s

abbrev pub trim_suffix : Text → Text → Text
trim_suffix suffix [] = []
trim_suffix suffix (c ∷ s) =
    let rest = trim_suffix suffix s in if eq_text suffix (c ∷ s) then [] else c ∷ rest

abbrev pub drop_prefix : Text → Text → Text
drop_prefix [] s = s
drop_prefix (p ∷ prefix) [] = []
drop_prefix (p ∷ prefix) (c ∷ s) = drop_prefix prefix s

abbrev pub trim_prefix : Text → Text → Text
trim_prefix prefix s = if has_prefix prefix s then drop_prefix prefix s else s

-- `Trim`, with the cutset as a test.
abbrev pub trim_left : (ℕ → Bool) → Text → Text
trim_left cut [] = []
trim_left cut (c ∷ s) = let rest = trim_left cut s in if cut c then rest else c ∷ s

abbrev pub trim_right : (ℕ → Bool) → Text → Text
trim_right cut [] = []
trim_right cut (c ∷ s) =
    let rest = trim_right cut s in if cut c && is_empty rest then [] else c ∷ rest

abbrev pub trim : (ℕ → Bool) → Text → Text
trim cut s = trim_right cut (trim_left cut s)

-- `unicode.IsSpace`.
abbrev pub is_space : ℕ → Bool
is_space c =
    leb 9 c && leb c 13
    || c == 32
    || c == 133
    || c == 160
    || c == 5760
    || leb 8192 c && leb c 8202
    || c == 8232
    || c == 8233
    || c == 8239
    || c == 8287
    || c == 12288

abbrev pub trim_space : Text → Text
trim_space s = trim is_space s

abbrev pub put_first : ℕ → List Text → List Text
put_first c [] = (c ∷ []) ∷ []
put_first c (part ∷ parts) = (c ∷ part) ∷ parts

-- `Split` at a single character.
abbrev pub split : ℕ → Text → List Text
split separator [] = [] ∷ []
split separator (c ∷ s) =
    let rest = split separator s in if c == separator then [] ∷ rest else put_first c rest

-- `Join`.
abbrev pub join : List Text → Text → Text
join [] separator = []
join (part ∷ []) separator = part
join (part ∷ next ∷ parts) separator = part ++ separator ++ join (next ∷ parts) separator
