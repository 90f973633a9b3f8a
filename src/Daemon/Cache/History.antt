-- ===== src/Daemon/Cache/History.antt =====
-- The cache against its contract: the last call about a pair decides.
use vertix.Base.{ℕ, ◌≡◌, refl, true, false, Option, none, some, List, [], ◌∷◌, if◌then◌else◌, arith}
use vertix.Base.Bytes.{Bytes, beq}
use vertix.Base.Int.{ℤ, ltb_ℤ}
use vertix.Base.Map.{lookup, lookup-insert}
use vertix.Oracle.Keeper.{time_sub}
use package.vertix.Daemon.Cache.{
  Cache, CacheEntry, new_cache, set_price, mark_unhealthy, fresh, fresh_entry, or_zero_entry,
}

-- The calls that write to the cache.
pub data CacheCall : Type 0 where
  -- pair, price, time
  sets : Bytes → ℤ → ℕ → CacheCall
  marks : Bytes → CacheCall

abbrev pub call : CacheCall → Cache → Cache
call (sets pair price t) c = set_price pair price t c
call (marks pair) c = mark_unhealthy pair c

-- A history, the latest call first.
unfoldable pub calls : List CacheCall → Cache
calls [] = new_cache
calls (c ∷ cs) = call c (calls cs)

-- The contract: the price and the time of the last call about a pair, if that call has set one.
unfoldable pub last_set : Bytes → List CacheCall → Option (ℤ × ℕ)
last_set pair [] = none
last_set pair (sets p price t ∷ cs) =
    let earlier = last_set pair cs in if beq pair p then some (price, t) else earlier
last_set pair (marks p ∷ cs) =
    let earlier = last_set pair cs in if beq pair p then none else earlier

-- A price that is not too old.
abbrev pub recent : ℤ → ℕ → Option (ℤ × ℕ) → Option (Option ℤ)
recent max_age now none = none
recent max_age now (some (price, t)) =
    if ltb_ℤ max_age (time_sub now t) then none else some (some price)

abbrev seen : ℤ → ℕ → Option CacheEntry → Option (Option ℤ)
seen max_age now o = elim o [ none ↦ none | some e ↦ fresh_entry max_age now e ]

-- After any calls, in any order, a fresh price is exactly the one that the last call about the pair
-- has set, if it has set one and that is not older than the maximal age; it is always a number.
pub fresh-last_set :
    (pair : Bytes) (max_age : ℤ) (now : ℕ) (cs : List CacheCall)
    → fresh pair max_age now (calls cs) ≡ recent max_age now (last_set pair cs)
unfolding fresh calls last_set lookup set_price mark_unhealthy
fresh-last_set pair max_age now [] = refl
fresh-last_set pair max_age now (sets p price t ∷ cs) = ground (
  arith,
  lookup-insert pair p (record { price = some price; at = t; healthy = true }) (calls cs),
  fresh-last_set pair max_age now cs,
)
fresh-last_set pair max_age now (marks p ∷ cs) = ground (
  arith,
  lookup-insert pair p (record (or_zero_entry (lookup p (calls cs))) { healthy = false })
      (calls cs),
  fresh-last_set pair max_age now cs,
)
