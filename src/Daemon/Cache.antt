-- ===== src/Daemon/Cache.antt =====
-- feeder/feeder/cache.go: the latest median of each pair. The lock makes each method one step, so
-- the interleaving of the two loops is a sequence of calls.
pub mod History
use vertix.Base.{ℕ, Bool, true, false, not, Option, none, some, List, [], ◌∷◌, if◌then◌else◌}
use vertix.Base.Bytes.{Bytes, beq}
use vertix.Base.Int.{ℤ, ltb_ℤ}
use vertix.Base.Map.{Map, lookup, insert}
use vertix.Oracle.Keeper.{time_sub}

-- The zero value of `math.LegacyDec` holds no number: `none`.
pub record CacheEntry : Type 0 where
  pub price : Option ℤ
  pub at : ℕ
  pub healthy : Bool

abbrev pub Cache : Type 0
Cache = Map CacheEntry

-- `NewCache`
abbrev pub new_cache : Cache
new_cache = []

-- Go's zero value, for a pair that is not there.
abbrev pub or_zero_entry : Option CacheEntry → CacheEntry
or_zero_entry none = record { price = none; at = 0; healthy = false }
or_zero_entry (some e) = e

-- `Set`
unfoldable pub set_price : Bytes → ℤ → ℕ → Cache → Cache
set_price pair price t c = insert pair (record { price = some price; at = t; healthy = true }) c

unfoldable pub mark_unhealthy : Bytes → Cache → Cache
mark_unhealthy pair c =
    let e = or_zero_entry (lookup pair c) in insert pair (record e { healthy = false }) c

-- What `Fresh` makes of an entry.
abbrev pub fresh_entry : ℤ → ℕ → CacheEntry → Option (Option ℤ)
fresh_entry max_age now e =
    if not e.healthy then none else if ltb_ℤ max_age (time_sub now e.at) then none else some e.price

unfoldable pub fresh : Bytes → ℤ → ℕ → Cache → Option (Option ℤ)
fresh pair max_age now c = elim (lookup pair c) [ none ↦ none | some e ↦ fresh_entry max_age now e ]
