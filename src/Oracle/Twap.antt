-- ===== src/Oracle/Twap.antt =====
-- x/oracle/keeper/twap.go: the prices of the last day, and their average over a window of time.
pub mod Order
pub mod Bounds
use vertix.Base.{ℕ, ◌+◌, ◌==◌, Bool, true, false, not, ◌&&◌, List, [], ◌∷◌, ltb, if◌then◌else◌}
use vertix.Base.Bytes.{Bytes}
use vertix.Base.Int.{ℤ, pos, ◌+ℤ◌, ◌-ℤ◌, is_zero, ltb_ℤ, leb_ℤ}
use vertix.Base.Int64.{wrap64}
use vertix.Base.Map.{Map, insert}
use vertix.Base.Results.{Result, ok, err, ◌>>=◌, ◌>>◌, guard, or_err}
use vertix.Sdk.{Sdk, dec_from_int}
use vertix.Oracle.Types.{
  OracleError, OracleParams, TwapEntry, pair_accepted, pair_not_accepted, no_twap_data, stale_price,
  bad_decimal,
}
use vertix.Oracle.Keys.{twap_key, twap_prefix}
use vertix.Oracle.Keeper.{State, Context, get_params, time_sub, seconds}

unfoldable pub append_twap_entry : Sdk → Bytes → ℤ → ℕ → State → State
append_twap_entry sdk pair price block_time s = record s {
  twap =
      insert (twap_key pair block_time)
        (record { pair = pair; price = sdk.print_dec price; block_time = block_time }) s.twap;
}

unfoldable pub has_prefix : Bytes → Bytes → Bool
has_prefix [] k = true
has_prefix (p ∷ ps) [] = false
has_prefix (p ∷ ps) (c ∷ k) = p == c && has_prefix ps k

-- A day, in nanoseconds.
abbrev pub day : ℕ
day = 86_400_000_000_000

-- `PruneTWAPOlderThan` with a cutoff a day before `now`: of the keys of the pair, in their order,
-- those up to the first that is not older go.
unfoldable pub prune : Bytes → ℕ → Map TwapEntry → Map TwapEntry
unfolding has_prefix
prune prefix now [] = []
prune prefix now ((k, e) ∷ m) =
    let rest = prune prefix now m in
    if has_prefix prefix k
    then (if ltb (e.block_time + day) now then rest else (k, e) ∷ m)
    else (k, e) ∷ rest

unfoldable pub prune_twap : Bytes → ℕ → State → State
unfolding prune
prune_twap pair now s = record s { twap = prune (twap_prefix pair) now s.twap }

-- The entries of one pair, in the order of their keys.
unfoldable pub entries_of : Bytes → Map TwapEntry → List TwapEntry
unfolding has_prefix
entries_of prefix [] = []
entries_of prefix ((k, e) ∷ m) =
    let rest = entries_of prefix m in if has_prefix prefix k then e ∷ rest else rest

-- A list turned round, in front of another.
unfoldable pub onto : List TwapEntry → List TwapEntry → List TwapEntry
onto [] acc = acc
onto (e ∷ es) acc = onto es (e ∷ acc)

-- The first loop of `GetTWAP`, latest entry first: those after `now` are skipped, and the first that
-- is not after the start of the window is the last that is taken.
unfoldable pub collect : ℕ → ℤ → List TwapEntry → List TwapEntry
collect now window [] = []
collect now window (e ∷ es) =
    let rest = collect now window es in
    if ltb now e.block_time
    then rest
    else if leb_ℤ (pos e.block_time +ℤ window) (pos now)
    then e ∷ []
    else e ∷ rest

-- How far `now.Add(-window)` goes back: the negated `time.Duration` wraps around.
unfoldable pub window_back : ℤ → ℤ
window_back window = pos 0 -ℤ wrap64 (pos 0 -ℤ window)

-- When the price of an entry ends: at the next entry, or now.
abbrev pub end_of : ℕ → List TwapEntry → ℕ
end_of now [] = now
end_of now (e ∷ es) = e.block_time

abbrev pub is_stale : Context → OracleParams → TwapEntry → Bool
is_stale ctx params newest =
    ltb_ℤ (seconds params.max_price_age) (time_sub ctx.block_time newest.block_time)

module _ (sdk : Sdk) where
  abbrev pub weight : ℕ → List TwapEntry → TwapEntry → ℤ
  weight now es e = dec_from_int (time_sub (end_of now es) e.block_time)

  -- The second loop: the weighted sum and the total weight.
  unfoldable pub weighted_sums : ℕ → List TwapEntry → ℤ → ℤ → Result OracleError (ℤ × ℤ)
  weighted_sums now [] sum total = ok (sum, total)
  weighted_sums now (e ∷ es) sum total = do
    price ← or_err (sdk.parse_dec e.price) bad_decimal
    let w = weight now es e
    weighted_sums now es (sum +ℤ sdk.mul_dec price w) (total +ℤ w)

  abbrev pub quotient : ℤ × ℤ → Result OracleError ℤ
  quotient (sum, total) = if is_zero total then err no_twap_data else ok (sdk.quo_dec sum total)

  -- The average of the collected entries, earliest first.
  unfoldable pub average : ℕ → List TwapEntry → Result OracleError ℤ
  unfolding weighted_sums
  average now [] = err no_twap_data
  average now (e ∷ []) = or_err (sdk.parse_dec e.price) bad_decimal
  average now (e ∷ f ∷ es) = weighted_sums now (e ∷ f ∷ es) (pos 0) (pos 0) >>= quotient

  -- What is left once the entries are collected, latest first.
  unfoldable pub read_collected : Context → OracleParams → List TwapEntry → Result OracleError ℤ
  unfolding average onto
  read_collected ctx params [] = err no_twap_data
  read_collected ctx params (newest ∷ es) =
      guard (not (is_stale ctx params newest)) stale_price
      >> average ctx.block_time (onto (newest ∷ es) [])

  -- `GetTWAP`, over a window in nanoseconds. That `price.Mul(w)` and the sums panic beyond the 315
  -- bits of a decimal is left out.
  unfoldable pub get_twap : Context → Bytes → ℤ → State → Result OracleError ℤ
  unfolding entries_of onto collect window_back read_collected
  get_twap ctx pair window s = do
    guard (pair_accepted (get_params sdk s) pair) pair_not_accepted
    let entries = onto (entries_of (twap_prefix pair) s.twap) []
    read_collected ctx (get_params sdk s) (collect ctx.block_time (window_back window) entries)
