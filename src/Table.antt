-- ===== src/Table.antt =====
-- SQL tables as lists of rows, and the statements that the code sends to them.
pub mod Keys
pub mod Texts
pub mod Order
use mathlib.Core.Option
use mathlib.Core.Option.{some-injective}
use tonkey.Prelude.{
  subst, ap, ℕ, zero, suc, take, ◌≡◌, refl, Bool, true, Option, none, some, List, [], ◌∷◌, ◌++◌,
  if◌then◌else◌, All, inl, inr, Bool-cases, Option-cases, some_inj, All-map, false,
}

module _ {A : Type 0} where
  -- SELECT … WHERE, at most one row.
  abbrev pub select_first : (A → Bool) → List A → Option A
  select_first p [] = none
  select_first p (r ∷ rows) = if p r then some r else select_first p rows

  -- SELECT … WHERE.
  abbrev pub select : (A → Bool) → List A → List A
  select p [] = []
  select p (r ∷ rows) = let rest = select p rows in if p r then r ∷ rest else rest

  -- UPDATE … SET … WHERE.
  abbrev pub update_where : (A → Bool) → (A → A) → List A → List A
  update_where p f [] = []
  update_where p f (r ∷ rows) = (if p r then f r else r) ∷ update_where p f rows

  -- DELETE … WHERE.
  abbrev pub delete_where : (A → Bool) → List A → List A
  delete_where p [] = []
  delete_where p (r ∷ rows) = let rest = delete_where p rows in if p r then rest else r ∷ rest

  -- SELECT COUNT(*) … WHERE, and the rows that an UPDATE or DELETE affects.
  abbrev pub count_where : (A → Bool) → List A → ℕ
  count_where p [] = 0
  count_where p (r ∷ rows) = let rest = count_where p rows in if p r then suc rest else rest

  -- The rows that a loop over `rows.Next` reads: all of them, or, where the reading breaks off after some,
  -- those. The loops of the code do not ask `rows.Err` which of the two it was.
  abbrev pub cut_off : Option ℕ → List A → List A
  cut_off none rows = rows
  cut_off (some n) rows = take n rows

  All-take : (P : A → Type 0) (n : ℕ) (rows : List A) → All P rows → All P (take n rows)
  All-take P zero rows h = tt
  All-take P (suc n) [] h = tt
  All-take P (suc n) (r ∷ rows) h = (h.0, All-take P n rows h.1)

  pub All-cut_off :
      (P : A → Type 0) (cut : Option ℕ) (rows : List A) → All P rows → All P (cut_off cut rows)
  All-cut_off P none rows h = h
  All-cut_off P (some n) rows h = All-take P n rows h

  pub All-update_where :
      (P : A → Type 0) (p : A → Bool) (f : A → A) (rows : List A)
      → All P rows
      → ((r : A) → P r → p r ≡ true → P (f r))
      → All P (update_where p f rows)
  All-update_where P p f [] h k = tt
  All-update_where P p f (r ∷ rows) h k = elim (Bool-cases (p r)) [
    | inl e ↦ rw e (k r h.0 e, All-update_where P p f rows h.1 k)
    | inr e ↦ rw e (h.0, All-update_where P p f rows h.1 k)
  ]

  pub All-delete_where :
      (P : A → Type 0) (p : A → Bool) (rows : List A) → All P rows → All P (delete_where p rows)
  All-delete_where P p [] h = tt
  All-delete_where P p (r ∷ rows) h = elim (Bool-cases (p r)) [
    | inl e ↦ rw e (All-delete_where P p rows h.1)
    | inr e ↦ rw e (h.0, All-delete_where P p rows h.1)
  ]

  pub All-select :
      (p : A → Bool) (P : A → Type 0) (rows : List A)
      → All P rows
      → All (λ (r : A). P r × (p r ≡ true)) (select p rows)
  All-select p P [] h = tt
  All-select p P (r ∷ rows) h = elim (Bool-cases (p r)) [
    | inl e ↦ rw e ((h.0, e), All-select p P rows h.1)
    | inr e ↦ rw e (All-select p P rows h.1)
  ]

  pub select-All :
      (p : A → Bool) (P : A → Type 0) (rows : List A)
      → All P (select p rows)
      → All (λ (r : A). p r ≡ true → P r) rows
  select-All p P [] h = tt
  select-All p P (r ∷ rows) h = elim (Bool-cases (p r)) [
    | inl e ↦
        let h' : All P (r ∷ select p rows) = (rw e at h) in ((λ _. h'.0), select-All p P rows h'.1)
    | inr e ↦ let h' : All P (select p rows) = (rw e at h) in ((λ t. cc), select-All p P rows h')
  ]

  pub All-select_first :
      (P : A → Type 0) (p : A → Bool) (rows : List A) (r : A)
      → All P rows
      → select_first p rows ≡ some r
      → P r × (p r ≡ true)
  All-select_first P p [] r h e = cc
  All-select_first P p (x ∷ rows) r h e = elim (Bool-cases (p x)) [
    | inl t ↦ let q : x ≡ r = cc (rw t at e) in subst (λ z. P z × (p z ≡ true)) q (h.0, t)
    | inr t ↦ All-select_first P p rows r h.1 (rw t at e)
  ]

  -- A lookup after an UPDATE that keeps the columns of its WHERE clause.
  pub select_first-update_where :
      (p q : A → Bool) (f : A → A) (rows : List A)
      → ((r : A) → p (f r) ≡ p r)
      → select_first p (update_where q f rows)
        ≡ Option.map (λ r. if q r then f r else r) (select_first p rows)
  select_first-update_where p q f [] same = refl
  select_first-update_where p q f (x ∷ rows) same = elim (Bool-cases (q x)) [
    | inl a ↦ elim (Bool-cases (p x)) [
      | inl b ↦ rw (a, same, b, a)
      | inr b ↦ rw (a, same, b) (select_first-update_where p q f rows same)
    ]
    | inr a ↦ elim (Bool-cases (p x)) [
      | inl b ↦ rw (a, b, a)
      | inr b ↦ rw (a, b) (select_first-update_where p q f rows same)
    ]
  ]

  -- A lookup after an INSERT.
  pub select_first-append_none :
      (p : A → Bool) (rows : List A) (r : A)
      → select_first p rows ≡ none
      → select_first p (rows ++ r ∷ []) ≡ (if p r then some r else none)
  select_first-append_none p [] r h = refl
  select_first-append_none p (x ∷ rows) r h = elim (Bool-cases (p x)) [
    | inl a ↦ cc (rw a at h)
    | inr a ↦ rw a (select_first-append_none p rows r (rw a at h))
  ]

  pub select_first-append_some :
      (p : A → Bool) (rows : List A) (r : A) {w : A}
      → select_first p rows ≡ some w
      → select_first p (rows ++ r ∷ []) ≡ some w
  select_first-append_some p [] r h = cc
  select_first-append_some p (x ∷ rows) r h = elim (Bool-cases (p x)) [
    | inl a ↦ rw a (rw a at h)
    | inr a ↦ rw a (select_first-append_some p rows r (rw a at h))
  ]

-- What ORDER BY compares: `before a b` when `a` comes strictly before `b`.
pub record IsOrder {A : Type 0} (before : A → A → Bool) : Type 0 where
  pub asymmetric : (a b : A) → before a b ≡ true → before b a ≡ false
  pub between : (a b c : A) → before a b ≡ false → before b c ≡ false → before a c ≡ false

module _ {A : Type 0} (before : A → A → Bool) where
  -- SELECT … ORDER BY … LIMIT 1. Of rows that compare equal the first in the table is taken.
  abbrev pub first_by : List A → Option A
  first_by [] = none
  first_by (r ∷ rows) = elim (first_by rows) [
    | none ↦ some r
    | some b ↦ if before b r then some b else some r
  ]

  pub All-first_by :
      (P : A → Type 0) (rows : List A) (b : A) → All P rows → first_by rows ≡ some b → P b
  All-first_by P [] b h e = cc
  All-first_by P (r ∷ rows) b h e = elim (Option-cases (first_by rows)) [
    | inl gone ↦ subst P (some_inj (rw gone at e)) h.0
    | inr (c, found) ↦ elim (Bool-cases (before c r)) [
      | inl first ↦ subst P (some_inj (rw (found, first) at e)) (All-first_by P rows c h.1 found)
      | inr not_first ↦ subst P (some_inj (rw (found, not_first) at e)) h.0
    ]
  ]

  -- No row comes before the one that is taken.
  pub first_by-first :
      IsOrder before
      → (rows : List A) (b : A) → first_by rows ≡ some b
      → All (λ (r : A). before r b ≡ false) rows
  first_by-first o [] b e = tt
  first_by-first o (r ∷ rows) b e = elim (Option-cases (first_by rows)) [
    | inl gone ↦
        subst (λ (z : A). All (λ (q : A). before q z ≡ false) (r ∷ rows)) (some_inj (rw gone at e))
          (irreflexive r, first_by-none rows gone r)
    | inr (c, found) ↦ elim (Bool-cases (before c r)) [
      | inl first ↦
          subst (λ (z : A). All (λ (q : A). before q z ≡ false) (r ∷ rows))
            (some_inj (rw (found, first) at e))
            (o.asymmetric c r first, first_by-first o rows c found)
      | inr not_first ↦
          subst (λ (z : A). All (λ (q : A). before q z ≡ false) (r ∷ rows))
            (some_inj (rw (found, not_first) at e))
            (
              irreflexive r,
              All-map (λ (q : A). before q c ≡ false) (λ (q : A). before q r ≡ false) rows
                  (λ q k. o.between q c r k not_first) (first_by-first o rows c found),
            )
    ]
  ]
    where
      irreflexive : (r : A) → before r r ≡ false
      irreflexive r = elim (Bool-cases (before r r)) [ inl e ↦ o.asymmetric r r e | inr e ↦ e ]

      first_by-none :
          (rows : List A)
          → first_by rows ≡ none
          → (r : A) → All (λ (q : A). before q r ≡ false) rows
      first_by-none [] e r = tt
      first_by-none (q ∷ rows) e r = elim (Option-cases (first_by rows)) [
        | inl gone ↦ cc (rw gone at e)
        | inr (c, found) ↦ elim (Bool-cases (before c q)) [
          | inl first ↦ cc (rw (found, first) at e)
          | inr not_first ↦ cc (rw (found, not_first) at e)
        ]
      ]

-- A lookup after a DELETE that spares what it finds.
pub select_first-delete_where :
    {A : Type 0} (p q : A → Bool) (rows : List A) (r : A)
    → select_first p rows ≡ some r
    → q r ≡ false
    → select_first p (delete_where q rows) ≡ some r
select_first-delete_where p q [] r e h = cc
select_first-delete_where p q (x ∷ rows) r e h = elim (Bool-cases (p x)) [
  | inl hit ↦
      let same : x ≡ r = some_inj (rw hit at e) in
      let spared : q x ≡ false = rw same h in rw (spared, hit) (ap (λ z. some z) same)
  | inr miss ↦
      let e' = (rw miss at e) in
      elim (Bool-cases (q x)) [
        | inl gone ↦ rw gone (select_first-delete_where p q rows r e' h)
        | inr spared ↦ rw (spared, miss) (select_first-delete_where p q rows r e' h)
      ]
]
