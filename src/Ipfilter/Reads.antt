-- ===== src/Ipfilter/Reads.antt =====
-- What `getRules` of internal/ipfilter returns, and what it leaves in the cache.
use tonkey.Prelude.{
  ◌≢◌, ℕ, ◌≡◌, refl, sym, ap, ◌∙◌, inl, inr, Bool, true, false, Option, none, some, some_inj, List,
  ==→eq, Bool-cases, Option-cases, Result, ok, panic, ◌>>=◌,
}
use tonkey.Prelude.Ensures.{Ensures}
use tonkey.Table.{cut_off}
use tonkey.Ipfilter.Filter.{
  Error, Rule, State, eq_key, listed, load_rules, cached, is_fresh, store, refill, serve, get_rules,
}

-- The rules are what a read in `W` makes of the table.
abbrev pub IsRead : (Option ℕ → Type 0) → Option ℕ → State → List Rule → Type 0
IsRead W org s rules = (c : Option ℕ) × W c × (rules ≡ cut_off c (listed org s))

-- What is cached for an organisation is what a read makes of the table as it is.
pub record IsCurrent (W : Option ℕ → Type 0) (s : State) : Type 0 where
  pub current :
      (org : Option ℕ) (rules : List Rule) → s.cache org ≡ some rules → IsRead W org s rules

pub uncached : {rules : List Rule} → ◌≡◌ {A = Option (List Rule)} none (some rules) → ⊥
uncached e = cc

eq_key-eq : (a b : Option ℕ) → eq_key a b ≡ true → a ≡ b
eq_key-eq none none e = refl
eq_key-eq none (some b) e = cc
eq_key-eq (some a) none e = cc
eq_key-eq (some a) (some b) e = ap (λ n. some n) (==→eq a b e)

store-IsCurrent :
    (W : Option ℕ → Type 0) (cut : Option ℕ) (org : Option ℕ) (now : ℕ) (s : State)
    → W cut
    → IsCurrent W s
    → IsCurrent W (store org (cut_off cut (listed org s)) now s)
store-IsCurrent W cut org now s w h = record {
  current = λ k rules e. elim (Bool-cases (eq_key k org)) [
    | inl same ↦ (
      cut,
      w,
      sym (some_inj (rw same at e))
          ∙ ap (λ z. cut_off cut (listed z s)) (sym (eq_key-eq k org same)),
    )
    | inr other ↦ let (c, v, is) = h.current k rules (rw other at e) in (c, v, is)
  ];
}

cached-current :
    (W : Option ℕ → Type 0) (now : ℕ) (org : Option ℕ) (s : State) (rules : List Rule)
    → IsCurrent W s
    → cached now org s ≡ some rules
    → IsRead W org s rules
cached-current W now org s rules h e = elim (Bool-cases (is_fresh now s.cache_time)) [
  | inl is_new ↦ h.current org rules (rw is_new at e)
  | inr old ↦ absurd (uncached (rw old at e))
]

refill-IsCurrent :
    (W : Option ℕ → Type 0) (cut : Option ℕ) (fails : Bool) (now : ℕ) (org : Option ℕ) (s : State)
    → W cut
    → IsCurrent W s
    → Ensures
        (λ rules t. IsCurrent W t × IsRead W org s rules)
        (λ t. (t ≡ s) × (fails ≡ true))
        (refill cut fails now org s)
unfolding refill load_rules ◌>>=◌
refill-IsCurrent W cut true now org s w h = record { outcome = (refl, refl) }
refill-IsCurrent W cut false now org s w h = record {
  outcome = (store-IsCurrent W cut org now s w h, (cut, w, refl));
}

-- `getRules` finds the organisation in the cache, or does not.
pub get_rules-hit :
    (cut : Option ℕ) (fails : Bool) (now later : ℕ) (org : Option ℕ) (s : State) (rules : List Rule)
    → cached now org s ≡ some rules
    → get_rules cut fails now later org s ≡ (ok rules, s)
unfolding get_rules serve ◌>>=◌
get_rules-hit cut fails now later org s rules hit = ap (λ o. serve cut fails later org o s) hit

pub get_rules-miss :
    (cut : Option ℕ) (fails : Bool) (now later : ℕ) (org : Option ℕ) (s : State)
    → cached now org s ≡ none
    → get_rules cut fails now later org s ≡ refill cut fails later org s
unfolding get_rules serve ◌>>=◌
get_rules-miss cut fails now later org s miss = ap (λ o. serve cut fails later org o s) miss

pub refill-stores :
    (cut : Option ℕ) (fails : Bool) (now : ℕ) (org : Option ℕ) (s : State) {rules : List Rule}
    {t : State}
    → refill cut fails now org s ≡ (ok rules, t)
    → t ≡ store org (cut_off cut (listed org s)) now s
unfolding refill load_rules ◌>>=◌
refill-stores cut true now org s e = cc
refill-stores cut false now org s e = sym (ap (λ (r : Result Error (List Rule) × State). r.1) e)

refill_safe :
    (cut : Option ℕ) (fails : Bool) (now : ℕ) (org : Option ℕ) (s : State)
    → (refill cut fails now org s).0 ≢ panic
unfolding refill load_rules ◌>>=◌
refill_safe cut true now org s e = cc
refill_safe cut false now org s e = cc

pub get_rules-IsCurrent :
    (W : Option ℕ → Type 0) (cut : Option ℕ) (fails : Bool) (now later : ℕ) (org : Option ℕ)
    (s : State)
    → W cut
    → IsCurrent W s
    → Ensures
        (λ rules t. IsCurrent W t × IsRead W org s rules)
        (λ t. (t ≡ s) × (fails ≡ true))
        (get_rules cut fails now later org s)
get_rules-IsCurrent W cut fails now later org s w h = elim (Option-cases (cached now org s)) [
  | inl miss ↦
      rw (get_rules-miss cut fails now later org s miss)
        (refill-IsCurrent W cut fails later org s w h)
  | inr (rules, hit) ↦
      rw (get_rules-hit cut fails now later org s rules hit)
        (record { outcome = (h, cached-current W now org s rules h hit) })
]

pub get_rules-safe :
    (cut : Option ℕ) (fails : Bool) (now later : ℕ) (org : Option ℕ) (s : State)
    → (get_rules cut fails now later org s).0 ≢ panic
get_rules-safe cut fails now later org s e = elim (Option-cases (cached now org s)) [
  | inl miss ↦
      (refill_safe cut fails later org s (
        ap (λ (r : Result Error (List Rule) × State). r.0)
          (sym (get_rules-miss cut fails now later org s miss))
        ∙ e))
  | inr (rules, hit) ↦ ended (
      ap (λ (r : Result Error (List Rule) × State). r.0)
        (sym (get_rules-hit cut fails now later org s rules hit))
      ∙ e)
]
  where
    ended : {rules : List Rule} → ◌≡◌ {A = Result Error (List Rule)} (ok rules) panic → ⊥
    ended k = cc
