-- ===== src/Ipfilter/Revival.antt =====
-- How long internal/ipfilter uses what it has cached when something else changes the table.
use tonkey.Prelude.{
  sym, ◌∙◌, ℕ, ◌+◌, ◌<◌, ◌≡◌, Bool, true, false, Option, none, some, List, arith, ok, ltb,
}
use tonkey.Table.{cut_off}
use tonkey.Ipfilter.Reads.{get_rules-hit, get_rules-miss, refill-stores}
use tonkey.Ipfilter.Filter.{Rule, State, cache_ttl, eq_key, cached, store, listed, get_rules}

-- When `getRules` for one organisation has found nothing fresh in the cache and returned, then for less than
-- the lifetime of the cache after it, it returns for any other organisation what was cached for
-- that one before, however old that is and whatever the table has become.
pub revives :
    (now later : ℕ) (org other : Option ℕ) (cut : Option ℕ) (fails : Bool) (s t : State)
    (old rules : List Rule)
    → s.cache org ≡ some old
    → eq_key org other ≡ false
    → cached now other s ≡ none
    → get_rules cut fails now later other s ≡ (ok rules, t)
    → (table : List Rule) (cut' : Option ℕ) (fails' : Bool) (at_time at_later : ℕ)
    → at_time < later + cache_ttl
    → get_rules cut' fails' at_time at_later org (record t { rules = table })
      ≡ (ok old, record t { rules = table })
revives now later org other cut fails s t old rules held distinct miss e table cut' fails' at_time
      at_later soon =
    let t_is : t ≡ store other (cut_off cut (listed other s)) later s =
      refill-stores cut fails later other s
        (sym (get_rules-miss cut fails now later other s miss) ∙ e) in
    let is_new : ltb at_time (later + cache_ttl) ≡ true = ground (arith, soon) in
    get_rules-hit cut' fails' at_time at_later org (record t { rules = table }) old
      (rw (t_is, is_new, distinct) held)
