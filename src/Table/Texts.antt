-- ===== src/Table/Texts.antt =====
-- Tables whose primary key is a text.
use Prim.Native.String.{String}
use text.Mathlib.Text.{◌==◌ as str_eq}
use text.Mathlib.TextEquality.{eq_iff}
use tonkey.Prelude.{
  ℕ, zero, suc, take, Option, none, ◌≡◌, ◌≢◌, refl, sym, Bool, true, false, some, List, [], ◌∷◌,
  ◌++◌, inl, inr, All, All-append, All-map, Bool-cases, is_some,
}
use tonkey.Table.{cut_off, All-cut_off, select_first, select, All-select, update_where}

pub str_eq→eq : (s t : String) → str_eq s t ≡ true → s ≡ t
str_eq→eq s t = (eq_iff s t).0

pub eq→str_eq : (s t : String) → s ≡ t → str_eq s t ≡ true
eq→str_eq s t = (eq_iff s t).1

pub str_eq_refl : (s : String) → str_eq s s ≡ true
str_eq_refl s = (eq_iff s s).1 refl

pub str_eq-other : (s t : String) → s ≢ t → str_eq s t ≡ false
str_eq-other s t h = elim (Bool-cases (str_eq s t)) [
  | inl e ↦ absurd (h (str_eq→eq s t e))
  | inr e ↦ e
]

module _ {A : Type 0} (key : A → String) where
  abbrev pub has_text : String → A → Bool
  has_text i r = str_eq (key r) i

  abbrev pub Lacks : String → List A → Type 0
  Lacks i rows = All (λ (q : A). key q ≢ i) rows

  -- No two rows have the same key.
  abbrev pub Distinct : List A → Type 0
  Distinct [] = Unit
  Distinct (r ∷ rows) = Lacks (key r) rows × Distinct rows

  pub Distinct-append :
      (rows : List A) (r : A) → Distinct rows → Lacks (key r) rows → Distinct (rows ++ r ∷ [])
  Distinct-append [] r h l = (tt, tt)
  Distinct-append (x ∷ rows) r h l = (
    All-append (λ (q : A). key q ≢ key x) rows (r ∷ []) h.0 ((λ e. l.0 (sym e)), tt),
    Distinct-append rows r h.1 l.1,
  )

  Distinct-take : (n : ℕ) (rows : List A) → Distinct rows → Distinct (take n rows)
  Distinct-take zero rows h = tt
  Distinct-take (suc n) [] h = tt
  Distinct-take (suc n) (r ∷ rows) h =
      (All-cut_off (λ (q : A). key q ≢ key r) (some n) rows h.0, Distinct-take n rows h.1)

  pub Distinct-cut_off :
      (cut : Option ℕ) (rows : List A) → Distinct rows → Distinct (cut_off cut rows)
  Distinct-cut_off none rows h = h
  Distinct-cut_off (some n) rows h = Distinct-take n rows h

  pub Distinct-select : (p : A → Bool) (rows : List A) → Distinct rows → Distinct (select p rows)
  Distinct-select p [] h = tt
  Distinct-select p (r ∷ rows) h = elim (Bool-cases (p r)) [
    | inl e ↦ rw e (
      All-map (λ q. (key q ≢ key r) × (p q ≡ true)) (λ q. key q ≢ key r) (select p rows)
          (λ q k. k.0) (All-select p (λ q. key q ≢ key r) rows h.0),
      Distinct-select p rows h.1,
    )
    | inr e ↦ rw e (Distinct-select p rows h.1)
  ]

  Lacks-update :
      (i : String) (p : A → Bool) (f : A → A) (rows : List A)
      → ((r : A) → key (f r) ≡ key r)
      → Lacks i rows
      → Lacks i (update_where p f rows)
  Lacks-update i p f [] same h = tt
  Lacks-update i p f (r ∷ rows) same h = elim (Bool-cases (p r)) [
    | inl e ↦ rw e (rw (same r) h.0, Lacks-update i p f rows same h.1)
    | inr e ↦ rw e (h.0, Lacks-update i p f rows same h.1)
  ]

  pub Distinct-update :
      (p : A → Bool) (f : A → A) (rows : List A)
      → ((r : A) → key (f r) ≡ key r)
      → Distinct rows
      → Distinct (update_where p f rows)
  Distinct-update p f [] same h = tt
  Distinct-update p f (r ∷ rows) same h = elim (Bool-cases (p r)) [
    | inl e ↦
        rw (e, same r) (Lacks-update (key r) p f rows same h.0, Distinct-update p f rows same h.1)
    | inr e ↦ rw e (Lacks-update (key r) p f rows same h.0, Distinct-update p f rows same h.1)
  ]

  pub Lacks-free :
      (i : String) (rows : List A) → is_some (select_first (has_text i) rows) ≡ false → Lacks i rows
  Lacks-free i [] h = tt
  Lacks-free i (r ∷ rows) h = elim (Bool-cases (str_eq (key r) i)) [
    | inl e ↦ cc (rw e at h)
    | inr e ↦ ((λ same. cc (str_eq_refl i, e, same)), Lacks-free i rows (rw e at h))
  ]

  -- Each row is the one that its key finds.
  pub Distinct-found :
      (rows : List A)
      → Distinct rows
      → All (λ r. select_first (has_text (key r)) rows ≡ some r) rows
  Distinct-found [] h = tt
  Distinct-found (r ∷ rows) h =
      (rw (str_eq_refl (key r)) refl, go rows h.0 (Distinct-found rows h.1))
    where
      go :
          (qs : List A)
          → Lacks (key r) qs
          → All (λ q. select_first (has_text (key q)) rows ≡ some q) qs
          → All (λ q. select_first (has_text (key q)) (r ∷ rows) ≡ some q) qs
      go [] l k = tt
      go (q ∷ qs) l k = (rw (str_eq-other (key r) (key q) (λ e. l.0 (sym e))) k.0, go qs l.1 k.1)
