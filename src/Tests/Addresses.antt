-- ===== src/Tests/Addresses.antt =====
-- internal/ipfilter at concrete inputs.
use text.Mathlib.Text.{◌==◌ as str_eq}
use tonkey.Prelude.{
  ℕ, ◌≡◌, refl, ◌↔◌, ◌⊎◌, true, false, Option, none, some, List, [], ◌∷◌, ◌==◌, ◌/◌, ◌+◌,
  if◌then◌else◌, arith, All, Any, ok, ◌>>=◌, ◌^◌, ◌*◌,
}
use tonkey.Prelude.Int.{pos}
use tonkey.Ipfilter.Filter.{
  blocked, not_allowed, Rule, Net, Config, State, check, judge, is_blocked, check_allowed,
  check_rules, get_rules, serve, refill, load_rules, add_rule, store, listed,
}
use tonkey.Ipfilter.Verdict.{Spares, Admits, IsUnruled, judge-passes}
use tonkey.Ipfilter.Cache.{
  Call, checking, adding, perform, run, new_filter, plain_check, IsAnswer, check_by_table,
}
use tonkey.Ipfilter.Revival.{revives}

-- Two addresses, and the network of the first.
abbrev net : Net
net = record {
  Ip = ℕ;
  Network = ℕ;
  parse_ip =
      λ s. if str_eq s "10.0.0.1" then some 1 else if str_eq s "10.0.1.1" then some 257 else none;
  split_host_port = λ s. if str_eq s "10.0.1.1:80" then some "10.0.1.1" else none;
  parse_cidr = λ s. if str_eq s "10.0.0.0/24" then some 0 else none;
  contains = λ n ip. ip / 256 == n;
  equal = λ a b. a == b;
}

abbrev office : Rule
office = record {
  id = 1;
  org_id = none;
  cidr = "10.0.0.0/24";
  rule_type = "allow";
  is_active = true;
  created_at = 0;
  expires_at = some (pos 100);
}

abbrev config : Config
config = record { enabled = true; default_deny = false }

office_passes : judge net false (pos 5) 1 (office ∷ []) ≡ none
unfolding judge is_blocked check_allowed
office_passes = refl

outside_refused : judge net false (pos 5) 257 (office ∷ []) ≡ some not_allowed
unfolding judge is_blocked check_allowed
outside_refused = refl

-- The rule is past its expiry, and no address passes.
expired_refused : judge net false (pos 101) 1 (office ∷ []) ≡ some not_allowed
unfolding judge is_blocked check_allowed
expired_refused = refl

judge-passes_example : judge net false (pos 5) 1 (office ∷ []) ≡ none ↔ (
    All (Spares net false (pos 5) 1) (office ∷ [])
    × (Any (Admits net false (pos 5) 1) (office ∷ [])
        ⊎ IsUnruled net false (pos 5) 1 (office ∷ [])))
judge-passes_example = judge-passes net false (pos 5) 1 (office ∷ [])

abbrev second : ℕ
second = 10 ^ 9

abbrev calls : List Call
calls =
    checking config none false second second "10.0.1.1:80" none
    ∷ adding false (2 * second) office
    ∷ []

refused_later :
    (check net config none false
      (3 * second)
      (3 * second)
      "10.0.1.1:80"
      none
      (run net calls (new_filter [] 1))).0
    ≡ ok (some not_allowed)
unfolding check run perform add_rule check_rules get_rules serve refill load_rules judge is_blocked
    check_allowed ◌>>=◌
refused_later = refl

-- All reads are whole.
check_by_table_example :
    (c : Option ℕ) × (c ≡ none)
    × IsAnswer false
        (plain_check net config c (3 * second) "10.0.1.1:80" none (run net calls (new_filter [] 1)))
        (check net config none false
          (3 * second)
          (3 * second)
          "10.0.1.1:80"
          none
          (run net calls (new_filter [] 1))).0
check_by_table_example =
    check_by_table (λ c. c ≡ none) net [] 1 calls config none false (3 * second) (3 * second)
      "10.0.1.1:80" none (refl, (tt, tt)) refl

abbrev banned : Rule
banned = record office { id = 2; cidr = "10.0.1.1"; rule_type = "block" }

-- The first read breaks off before the rule that blocks the address. The next `Check` takes it from the
-- cache and lets the address pass, which it would refuse by the table.
abbrev after_cut : State
after_cut =
    run net (checking config (some 0) false second second "10.0.1.1" none ∷ [])
      (new_filter (banned ∷ []) 3)

lets_pass :
    ((check net config none false (2 * second) (2 * second) "10.0.1.1" none after_cut).0 ≡ ok none)
    × (plain_check net config none (2 * second) "10.0.1.1" none after_cut ≡ some blocked)
unfolding check run perform check_rules get_rules serve refill load_rules judge is_blocked
    check_allowed ◌>>=◌
lets_pass = (refl, refl)

-- The rule is cached for organisation 4, and one hour later organisation 5 is looked up.
abbrev warm : State
warm = store (some 4) (office ∷ []) second (new_filter (office ∷ []) 2)

abbrev hour : ℕ
hour = 3600 * second

misses :
    get_rules none false hour hour (some 5) warm
    ≡ (ok (office ∷ []), store (some 5) (listed (some 5) warm) hour warm)
unfolding get_rules serve refill load_rules ◌>>=◌
misses = refl

revives_example :
    get_rules none false
      (hour + second)
      hour
      (some 4)
      (record (store (some 5) (listed (some 5) warm) hour warm) { rules = [] })
    ≡ (ok (office ∷ []), record (store (some 5) (listed (some 5) warm) hour warm) { rules = [] })
revives_example =
    revives hour hour (some 4) (some 5) none false warm
      (store (some 5) (listed (some 5) warm) hour warm) (office ∷ []) (office ∷ []) refl refl refl
      misses [] none false (hour + second) hour (ground arith)
