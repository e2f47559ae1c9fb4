-- ===== src/Ipfilter/Verdict.antt =====
-- What the rules of internal/ipfilter say of an address, whatever their order.
use tonkey.Prelude.{
  ◌≡◌, refl, ◌↔◌, ◌⊎◌, inl, inr, Bool, true, false, ◌||◌, none, some, List, [], ◌∷◌, if◌then◌else◌,
  All, Any, Bool-cases,
}
use tonkey.Prelude.Int.{ℤ}
use tonkey.Ipfilter.Filter.{
  Rule, Net, is_block, is_allow, matches_rule, is_blocked, check_allowed, judge, not_allowed,
}

module _ (net : Net) (default_deny : Bool) (now : ℤ) (ip : net.Ip) where
  abbrev pub Spares : Rule → Type 0
  Spares r = is_block r ≡ true → matches_rule net now ip r ≡ false

  abbrev pub Admits : Rule → Type 0
  Admits r = (is_allow r ≡ true) × (matches_rule net now ip r ≡ true)

  -- No rule is an allow rule, and the default is to let pass.
  abbrev pub IsUnruled : List Rule → Type 0
  IsUnruled rules = All (λ (r : Rule). is_allow r ≡ false) rules × (default_deny ≡ false)

  blocked-Spares : (rules : List Rule) → is_blocked net now ip rules ≡ false ↔ All Spares rules
  unfolding is_blocked
  blocked-Spares rules = (to rules, from rules)
    where
      to : (rules : List Rule) → is_blocked net now ip rules ≡ false → All Spares rules
      to [] e = tt
      to (r ∷ rules) e = elim (Bool-cases (is_block r)) [
        | inl b ↦ elim (Bool-cases (matches_rule net now ip r)) [
          | inl m ↦ cc (rw (b, m) at e)
          | inr m ↦ ((λ _. m), to rules (rw (b, m) at e))
        ]
        | inr b ↦ ((λ k. cc), to rules (rw b at e))
      ]

      from : (rules : List Rule) → All Spares rules → is_blocked net now ip rules ≡ false
      from [] h = refl
      from (r ∷ rules) h = elim (Bool-cases (is_block r)) [
        | inl b ↦ rw (b, h.0 b) (from rules h.1)
        | inr b ↦ rw b (from rules h.1)
      ]

  undenied : (b : Bool) → (if b then some not_allowed else none) ≡ none → b ≡ false
  undenied true e = cc
  undenied false e = refl

  or_true : (b : Bool) → (b || true) ≡ true
  or_true true = refl
  or_true false = refl

  or_false : (b : Bool) → (b || false) ≡ b
  or_false true = refl
  or_false false = refl

  allowed-Admits :
      (has : Bool) (rules : List Rule)
      → check_allowed net default_deny now ip has rules ≡ none
        ↔ Any Admits rules ⊎ ((has ≡ false) × IsUnruled rules)
  unfolding check_allowed
  allowed-Admits has rules = (to has rules, from has rules)
    where
      to :
          (has : Bool) (rules : List Rule)
          → check_allowed net default_deny now ip has rules ≡ none
          → Any Admits rules ⊎ ((has ≡ false) × IsUnruled rules)
      to true [] e = cc
      to false [] e = inr (refl, (tt, (undenied default_deny e)))
      to has (r ∷ rules) e = elim (Bool-cases (is_allow r)) [
        | inl a ↦ elim (Bool-cases (matches_rule net now ip r)) [
          | inl m ↦ inl (inl (a, m))
          | inr m ↦ elim (to true rules (rw (a, m, or_true has) at e)) [
            | inl some_rule ↦ inl (inr some_rule)
            | inr k ↦ cc k.0
          ]
        ]
        | inr a ↦ elim (to has rules (rw (a, or_false has) at e)) [
          | inl some_rule ↦ inl (inr some_rule)
          | inr k ↦ inr (k.0, ((a, k.1.0), k.1.1))
        ]
      ]

      from :
          (has : Bool) (rules : List Rule)
          → Any Admits rules ⊎ ((has ≡ false) × IsUnruled rules)
          → check_allowed net default_deny now ip has rules ≡ none
      from has [] (inl h) = absurd h
      from has [] (inr h) = rw (h.0, h.1.1) refl
      from has (r ∷ rules) (inl (inl k)) = rw (k.0, k.1) refl
      from has (r ∷ rules) (inl (inr k)) = elim (Bool-cases (is_allow r)) [
        | inl a ↦ elim (Bool-cases (matches_rule net now ip r)) [
          | inl m ↦ rw (a, m) refl
          | inr m ↦ rw (a, m, or_true has) (from true rules (inl k))
        ]
        | inr a ↦ rw (a, or_false has) (from has rules (inl k))
      ]
      from has (r ∷ rules) (inr k) =
          rw (k.1.0.0, or_false has) (from has rules (inr (k.0, (k.1.0.1, k.1.1))))

  -- `Check` lets an address pass by a list of rules just when no block rule matches it and either an
  -- allow rule matches it or there is no allow rule and the default mode is not deny.
  pub judge-passes :
      (rules : List Rule)
      → judge net default_deny now ip rules ≡ none
        ↔ (All Spares rules × (Any Admits rules ⊎ IsUnruled rules))
  unfolding judge
  judge-passes rules = elim (Bool-cases (is_blocked net now ip rules)) [
    | inl b ↦ (λ e. cc (rw b at e), λ h. cc ((blocked-Spares rules).1 h.0, b))
    | inr b ↦ (
      λ e. ((blocked-Spares rules).0 b, unruled ((allowed-Admits false rules).0 (rw b at e))),
      λ h. rw b ((allowed-Admits false rules).1 (flagged h.1)),
    )
  ]
    where
      unruled : {A B : Type 0} → A ⊎ ((false ≡ false) × B) → A ⊎ B
      unruled (inl a) = inl a
      unruled (inr k) = inr k.1

      flagged : {A B : Type 0} → A ⊎ B → A ⊎ ((false ≡ false) × B)
      flagged (inl a) = inl a
      flagged (inr k) = inr (refl, k)
