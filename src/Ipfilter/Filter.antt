-- ===== src/Ipfilter/Filter.antt =====
-- `Filter` in internal/ipfilter/ipfilter.go. What the code calls of the package net is the record
-- `Net`. Times are nanoseconds since 1970; a call reads one time for the expiry of all rules. `fails`
-- says that the statement of the call fails.
use Prim.Native.String.{String, compare}
use Prim.Native.Nat.{Ordering}
use text.Mathlib.Text.{◌==◌ as str_eq}
use tonkey.Prelude.{
  ℕ, suc, ◌+◌, ◌*◌, ◌/◌, ◌^◌, Bool, true, false, not, ◌||◌, ◌&&◌, Option, none, some, List, [], ◌∷◌,
  ◌++◌, ◌==◌, ltb, if◌then◌else◌, is_some, Action, Result, ok, err, panic, pure, modify, gets,
  raise_if, exec, ◌>>=◌, ◌>>◌,
}
use tonkey.Prelude.Int.{ℤ, pos, ltb_ℤ}
use tonkey.Table.{cut_off, select, delete_where}
use tonkey.Table.Keys.{has_key}
use tonkey.Table.Order.{order_by}

pub data Error : Type 0 where
  blocked not_allowed invalid_cidr : Error
  -- what the driver reports
  database : Error

-- A row of `ip_rules`. The type of a rule is the text that the caller of `AddRule` gives.
pub record Rule : Type 0 where
  pub id : ℕ
  pub org_id : Option ℕ
  pub cidr : String
  pub rule_type : String
  pub is_active : Bool
  pub created_at : ℕ
  pub expires_at : Option ℤ

-- The package net: addresses and networks, ParseIP, the host of SplitHostPort, the network of
-- ParseCIDR, IPNet.Contains and IP.Equal.
pub record Net : Type 1 where
  pub Ip : Type 0
  pub Network : Type 0
  pub parse_ip : String → Option Ip
  pub split_host_port : String → Option String
  pub parse_cidr : String → Option Network
  pub contains : Network → Ip → Bool
  pub equal : Ip → Ip → Bool

-- The arguments of `NewFilter`. The default mode is deny when the text is "deny".
pub record Config : Type 0 where
  pub enabled : Bool
  pub default_deny : Bool

-- The table, and the cache with the time of its last write; there is none in a new filter. A key of the
-- cache is an organisation, or none for the text "global".
pub record State : Type 0 where
  pub rules : List Rule
  pub next_rule : ℕ
  pub cache : Option ℕ → Option (List Rule)
  pub cache_time : Option ℕ

abbrev pub M : Type 0 → Type 0
M A = Action State Error A

abbrev pub cache_ttl : ℕ
cache_ttl = 5 * 60 * 10 ^ 9

abbrev pub unix : ℕ → ℤ
unix now = pos (now / 10 ^ 9)

abbrev pub is_block : Rule → Bool
is_block r = str_eq r.rule_type "block"

abbrev pub is_allow : Rule → Bool
is_allow r = str_eq r.rule_type "allow"

abbrev pub eq_key : Option ℕ → Option ℕ → Bool
eq_key none none = true
eq_key (some a) (some b) = a == b
eq_key _ _ = false

abbrev pub rule_id : Rule → ℕ
rule_id r = r.id

abbrev pub is_for : Option ℕ → Rule → Bool
is_for org r = elim r.org_id [ none ↦ true | some o ↦ elim org [ none ↦ false | some k ↦ o == k ] ]

-- WHERE is_active = 1 AND (org_id IS NULL OR org_id = ?)
abbrev pub is_listed : Option ℕ → Rule → Bool
is_listed org r = r.is_active && is_for org r

-- ORDER BY rule_type DESC, created_at ASC
abbrev pub is_sooner : Rule → Rule → Bool
is_sooner r q = elim (compare r.rule_type q.rule_type) [
  | Ordering.gt ↦ true
  | Ordering.eq ↦ not (ltb q.created_at r.created_at)
  | Ordering.lt ↦ false
]

-- The rows that `loadRules` asks for.
abbrev pub listed : Option ℕ → State → List Rule
listed org s = order_by is_sooner (select (is_listed org) s.rules)

-- `loadRules`; `cut` says where its loop over the rows breaks off, if it does.
unfoldable pub load_rules : Option ℕ → Bool → Option ℕ → M (List Rule)
load_rules cut fails org = do raise_if fails database; gets (λ s. cut_off cut (listed org s))

abbrev pub is_fresh : ℕ → Option ℕ → Bool
is_fresh now none = false
is_fresh now (some time) = ltb now (time + cache_ttl)

-- What `getRules` finds in the cache.
abbrev pub cached : ℕ → Option ℕ → State → Option (List Rule)
cached now org s = if is_fresh now s.cache_time then s.cache org else none

abbrev pub store : Option ℕ → List Rule → ℕ → State → State
store org rules now s = record s {
  cache = λ k. if eq_key k org then some rules else s.cache k;
  cache_time = some now;
}

-- The end of `getRules` after a miss. `now` is the time of the write.
unfoldable pub refill : Option ℕ → Bool → ℕ → Option ℕ → M (List Rule)
refill cut fails now org = do
  rules ← load_rules cut fails org
  modify (store org rules now)
  pure rules

-- `getRules` after the look into the cache.
unfoldable pub serve : Option ℕ → Bool → ℕ → Option ℕ → Option (List Rule) → M (List Rule)
serve cut fails now org none = refill cut fails now org
serve cut fails now org (some rules) = pure rules

-- `getRules`, with the times of the test and of the write.
unfoldable pub get_rules : Option ℕ → Bool → ℕ → ℕ → Option ℕ → M (List Rule)
get_rules cut fails now later org = do hit ← gets (cached now org); serve cut fails later org hit

module _ (net : Net) where
  -- The address that `Check` reads from its argument.
  abbrev pub parse_address : String → Option (net.Ip)
  parse_address ip = elim (net.parse_ip ip) [
    | some a ↦ some a
    | none ↦ elim (net.split_host_port ip) [ none ↦ none | some host ↦ net.parse_ip host ]
  ]

  abbrev pub is_expired : ℤ → Option ℤ → Bool
  is_expired now none = false
  is_expired now (some e) = ltb_ℤ e now

  abbrev pub covers : net.Ip → String → Bool
  covers ip cidr = elim (net.parse_cidr cidr) [
    | some network ↦ net.contains network ip
    | none ↦ elim (net.parse_ip cidr) [ none ↦ false | some a ↦ net.equal ip a ]
  ]

  -- `matchesRule`.
  abbrev pub matches_rule : ℤ → net.Ip → Rule → Bool
  matches_rule now ip r =
      if not r.is_active
      then false
      else if is_expired now r.expires_at
      then false
      else covers ip r.cidr

  -- The loop over the block rules.
  unfoldable pub is_blocked : ℤ → net.Ip → List Rule → Bool
  is_blocked now ip [] = false
  is_blocked now ip (r ∷ rules) =
      let rest = is_blocked now ip rules in
      if not (is_block r) then rest else if matches_rule now ip r then true else rest

  -- The loop over the allow rules and what follows it; `has_allow_rules` is the flag of the code.
  unfoldable pub check_allowed : Bool → ℤ → net.Ip → Bool → List Rule → Option Error
  check_allowed default_deny now ip has_allow_rules [] =
      if has_allow_rules then some not_allowed else if default_deny then some not_allowed else none
  check_allowed default_deny now ip has_allow_rules (r ∷ rules) =
      let rest = check_allowed default_deny now ip (has_allow_rules || is_allow r) rules in
      if not (is_allow r) then rest else if matches_rule now ip r then none else rest

  -- What `Check` makes of the rules.
  unfoldable pub judge : Bool → ℤ → net.Ip → List Rule → Option Error
  judge default_deny now ip rules =
      if is_blocked now ip rules
      then some blocked
      else check_allowed default_deny now ip false rules

  -- `Check` after `getRules`; an error lets the request pass.
  unfoldable pub check_rules :
      Bool → ℤ → net.Ip → Result Error (List Rule) × State → Result Error (Option Error) × State
  check_rules default_deny now ip (ok rules, t) = (ok (judge default_deny now ip rules), t)
  check_rules default_deny now ip (err e, t) = (ok none, t)
  check_rules default_deny now ip (panic, t) = (panic, t)

  -- `Check`: what it returns is none where the code returns nil.
  unfoldable pub check : Config → Option ℕ → Bool → ℕ → ℕ → String → Option ℕ → M (Option Error)
  check config cut fails now later ip org s =
      if not config.enabled then (ok none, s) else elim (parse_address ip) [
        | none ↦ (ok none, s)
        | some a ↦
            check_rules config.default_deny (unix later) a (get_rules cut fails now later org s)
      ]

  abbrev pub is_valid : String → Bool
  is_valid cidr = is_some (net.parse_cidr cidr) || is_some (net.parse_ip cidr)

  abbrev pub add_row : Rule → ℕ → State → State
  add_row rule now s = record s {
    rules =
        s.rules
        ++ (record rule { id = s.next_rule; is_active = true; created_at = now / 10 ^ 9 }) ∷ [];
    next_rule = suc s.next_rule;
  }

-- `InvalidateCache`.
abbrev pub invalidate : State → State
invalidate s = record s { cache = λ _. none }

-- `AddRule`.
unfoldable pub add_rule : Net → Bool → ℕ → Rule → M ℕ
add_rule net fails now rule = do
  raise_if (not (is_valid net rule.cidr)) invalid_cidr
  id ← gets (λ s. s.next_rule)
  exec fails database (add_row net rule now)
  modify invalidate
  pure id

-- `RemoveRule`.
unfoldable pub remove_rule : Bool → ℕ → M (Unit {0})
remove_rule fails id = do
  exec fails database (λ s. record s { rules = delete_where (has_key rule_id id) s.rules })
  modify invalidate
