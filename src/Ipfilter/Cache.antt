-- ===== src/Ipfilter/Cache.antt =====
-- That the cache of internal/ipfilter does not show in the answers of `Check`, where the table is changed by
-- the methods of one filter alone and they run one after another.
use Prim.Native.String.{String}
use tonkey.Prelude.{
  All, ◌≢◌, ℕ, ◌≡◌, refl, ap, ◌⊎◌, inl, inr, Bool, true, not, Option, none, some, List, [], ◌∷◌,
  if◌then◌else◌, Bool-cases, Option-cases, Result, ok, err, panic,
}
use tonkey.Prelude.Ensures.{
  Outcome, Ensures-always, Ensures-pure, Ensures-modify, bind_gets, bind_modify, bind_raise_if,
  bind_exec,
}
use tonkey.Table.{cut_off}
use tonkey.Ipfilter.Reads.{IsRead, IsCurrent, uncached, get_rules-IsCurrent, get_rules-safe}
use tonkey.Ipfilter.Filter.{
  Error, Rule, Net, Config, State, listed, parse_address, judge, check_rules, check, add_rule,
  remove_rule, invalidate, unix,
}

pub data Call : Type 0 where
  checking : Config → Option ℕ → Bool → ℕ → ℕ → String → Option ℕ → Call
  adding : Bool → ℕ → Rule → Call
  removing : Bool → ℕ → Call
  invalidating : Call

-- The filter after a call, whether it returned or not.
unfoldable pub perform : Net → Call → State → State
perform net (checking config cut fails now later ip org) s =
    (check net config cut fails now later ip org s).1
perform net (adding fails now rule) s = (add_rule net fails now rule s).1
perform net (removing fails id) s = (remove_rule fails id s).1
perform net invalidating s = invalidate s

unfoldable pub run : Net → List Call → State → State
run net [] s = s
run net (c ∷ calls) s = run net calls (perform net c s)

-- `Check` without a cache, with where the reading of the rules breaks off.
abbrev pub plain_check : Net → Config → Option ℕ → ℕ → String → Option ℕ → State → Option Error
plain_check net config cut now ip org s =
    if not config.enabled then none else elim (parse_address net ip) [
      | none ↦ none
      | some a ↦ judge net config.default_deny (unix now) a (cut_off cut (listed org s))
    ]

-- The reads of a call are in `W`.
abbrev pub Reads : (Option ℕ → Type 0) → Call → Type 0
Reads W (checking config cut fails now later ip org) = W cut
Reads W _ = Unit

-- What `Check` returns: what it would without a cache, or nil when the query has failed.
abbrev pub IsAnswer : Bool → Option Error → Result Error (Option Error) → Type 0
IsAnswer fails answer r = (r ≡ ok answer) ⊎ ((fails ≡ true) × (r ≡ ok none))

module _ (W : Option ℕ → Type 0) (net : Net) (deny : Bool) (now : ℕ) (ip : net.Ip) (org : Option ℕ)
    (cut : Option ℕ) (fails : Bool) (s : State) (w : W cut) (h : IsCurrent W s) where
  abbrev Read : Result Error (List Rule) × State → Type 0
  Read r =
      Outcome (λ rules t. IsCurrent W t × IsRead W org s rules) (λ t. (t ≡ s) × (fails ≡ true)) r

  check_rules-IsCurrent :
      (r : Result Error (List Rule) × State)
      → Read r
      → IsCurrent W (check_rules net deny (unix now) ip r).1
  unfolding check_rules
  check_rules-IsCurrent (ok rules, t) k = k.0
  check_rules-IsCurrent (err e, t) k = rw k.0 h
  check_rules-IsCurrent (panic, t) k = rw k.0 h

  check_rules-IsAnswer :
      (r : Result Error (List Rule) × State)
      → Read r
      → r.0 ≢ panic
      → (c : Option ℕ) × W c
        × IsAnswer fails
            (judge net deny (unix now) ip (cut_off c (listed org s)))
            (check_rules net deny (unix now) ip r).0
  unfolding check_rules
  check_rules-IsAnswer (ok rules, t) k safe =
      let (c, v, is) = k.1 in (c, v, inl (ap (λ z. ok (judge net deny (unix now) ip z)) is))
  check_rules-IsAnswer (err e, t) k safe = (cut, w, inr (k.1, refl))
  check_rules-IsAnswer (panic, t) k safe = absurd (safe refl)

module _ (W : Option ℕ → Type 0) (net : Net) where
  check-IsCurrent :
      (config : Config) (cut : Option ℕ) (fails : Bool) (now later : ℕ) (ip : String)
      (org : Option ℕ) (s : State)
      → W cut
      → IsCurrent W s
      → IsCurrent W (check net config cut fails now later ip org s).1
  unfolding check
  check-IsCurrent config cut fails now later ip org s w h = elim (Bool-cases config.enabled) [
    | inr off ↦ rw off h
    | inl on ↦ elim (Option-cases (parse_address net ip)) [
      | inl unread ↦ rw (on, unread) h
      | inr (a, parsed) ↦
          rw (on, parsed)
            (check_rules-IsCurrent W net config.default_deny later a org cut fails s w h _
              (get_rules-IsCurrent W cut fails now later org s w h).outcome)
    ]
  ]

  check-IsAnswer :
      (config : Config) (cut : Option ℕ) (fails : Bool) (now later : ℕ) (ip : String)
      (org : Option ℕ) (s : State)
      → W cut
      → IsCurrent W s
      → (c : Option ℕ) × W c
        × IsAnswer fails
            (plain_check net config c later ip org s)
            (check net config cut fails now later ip org s).0
  unfolding check
  check-IsAnswer config cut fails now later ip org s w h = elim (Bool-cases config.enabled) [
    | inr off ↦ (cut, w, rw off (inl refl))
    | inl on ↦ elim (Option-cases (parse_address net ip)) [
      | inl unread ↦ (cut, w, rw (on, unread) (inl refl))
      | inr (a, parsed) ↦
          rw (on, parsed)
            (check_rules-IsAnswer W net config.default_deny later a org cut fails s w h _
              (get_rules-IsCurrent W cut fails now later org s w h).outcome
              (get_rules-safe cut fails now later org s))
    ]
  ]

  perform-IsCurrent :
      (c : Call) (s : State) → Reads W c → IsCurrent W s → IsCurrent W (perform net c s)
  unfolding perform add_rule remove_rule
  perform-IsCurrent (checking config cut fails now later ip org) s w h =
      check-IsCurrent config cut fails now later ip org s w h
  perform-IsCurrent (adding fails now rule) s w h = Ensures-always {P = IsCurrent W} (
      bind_raise_if _ _ _ _ h λ _. bind_gets _ _ _ (
        bind_exec _ _ _ _ _ h λ _.
          bind_modify _ _ _
            (Ensures-pure _ _ (record { current = λ org rules e. absurd (uncached e) }))))
  perform-IsCurrent (removing fails id) s w h = Ensures-always {P = IsCurrent W} (
      bind_exec _ _ _ _ _ h
        λ _. Ensures-modify _ _ (record { current = λ org rules e. absurd (uncached e) }))
  perform-IsCurrent invalidating s w h = record { current = λ org rules e. absurd (uncached e) }

  run-IsCurrent :
      (calls : List Call) (s : State)
      → All (Reads W) calls
      → IsCurrent W s
      → IsCurrent W (run net calls s)
  unfolding run
  run-IsCurrent [] s w h = h
  run-IsCurrent (c ∷ calls) s w h =
      run-IsCurrent calls (perform net c s) w.1 (perform-IsCurrent c s w.0 h)

-- A filter as `NewFilter` makes it, on any table.
abbrev pub new_filter : List Rule → ℕ → State
new_filter rules next = record {
  rules = rules;
  next_rule = next;
  cache = λ _. none;
  cache_time = none;
}

-- Let `W` say of reads of the rules how they may break off, and let it hold of all reads of some calls of
-- `Check`, `AddRule`, `RemoveRule` and `InvalidateCache` on a new filter, which run one after another
-- and with any failures, and of a `Check` after them. This `Check` returns what it would return without
-- a cache by a read, of which `W` holds, of the table as it then is, or nil when its query fails. When
-- `W` says that a read is whole, it is a read of the whole table.
pub check_by_table :
    (W : Option ℕ → Type 0) (net : Net) (rules : List Rule) (next : ℕ) (calls : List Call)
    (config : Config) (cut : Option ℕ) (fails : Bool) (now later : ℕ) (ip : String) (org : Option ℕ)
    → All (Reads W) calls
    → W cut
    → let s = run net calls (new_filter rules next) in
      (c : Option ℕ) × W c
      × IsAnswer fails
          (plain_check net config c later ip org s)
          (check net config cut fails now later ip org s).0
check_by_table W net rules next calls config cut fails now later ip org reads w =
    check-IsAnswer W net config cut fails now later ip org _ w (
      run-IsCurrent W net calls (new_filter rules next) reads
        (record { current = λ org rules e. absurd (uncached e) }))
