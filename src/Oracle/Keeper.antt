-- ===== src/Oracle/Keeper.antt =====
-- x/oracle/keeper/keeper.go: the store, a field for each key prefix, with the events.
use vertix.Base.{
  ℕ, ◌+◌, ◌*◌, ◌-◌, Bool, not, Option, none, some, List, [], ◌∷◌, ◌++◌, leb, if◌then◌else◌,
}
use vertix.Base.Bytes.{Bytes, beq}
use vertix.Base.Int.{ℤ, pos, negsuc, ltb_ℤ}
use vertix.Base.Int64.{add64, wrap64, limit_63}
use vertix.Base.Map.{Map, lookup, insert, erase}
use vertix.Base.Results.{Result, ok, ◌>>=◌, ◌>>◌, guard, or_err}
use vertix.Sdk.{Sdk}
use vertix.Oracle.Types.{
  OracleError, OracleFeed, AggregatedPrice, TwapEntry, OracleParams, pair_accepted, default_params,
  validate, pair_not_accepted, no_price, stale_price, bad_decimal, invalid_address, panicked,
}
use vertix.Oracle.Keys.{
  feed_key, parse_feed_key, aggregated_price_key, miss_counter_key, total_windows_key,
}

pub data OracleEvent : Type 0 where
  -- validator, feeder
  feeder_set : Bytes → Bytes → OracleEvent
  -- validator, feeder, pair, price
  feed_submitted : Bytes → Bytes → Bytes → Bytes → OracleEvent
  -- pair, price
  price_aggregated : Bytes → Bytes → OracleEvent
  -- validator, reason, fraction
  slashed : Bytes → Bytes → Bytes → OracleEvent
  -- has the accept list changed?
  params_updated : Bool → OracleEvent

-- A validator of the staking module; `cons_addr` is what `GetConsAddr` returns, `none` an error.
pub record Validator : Type 0 where
  pub operator : Bytes
  pub bonded : Bool
  pub cons_addr : Option Bytes

-- A call of the slashing keeper's `Slash`.
pub record SlashCall : Type 0 where
  pub cons_addr : Bytes
  pub fraction : ℤ
  pub power : ℤ
  pub height : ℤ

-- The staking keeper, whose errors are `none`.
pub record Staking : Type 0 where
  pub get_validator : Bytes → Option Validator
  pub last_power : Bytes → Option ℤ
  pub bonded_by_power : Option (List Validator)
  pub last_total_power : Option ℤ

-- What a handler takes from the block. The keeper may have no staking keeper; `slashes` says
-- whether the slashing keeper does as it is asked.
pub record Context : Type 0 where
  pub height : ℤ
  pub block_time : ℕ
  pub staking : Option Staking
  pub slashes : SlashCall → Bool

pub record State : Type 0 where
  pub params : Option OracleParams
  pub feeds : Map OracleFeed
  pub prices : Map AggregatedPrice
  pub miss_counters : Map ℤ
  pub total_windows : Map ℤ
  pub feeder_to_valoper : Map Bytes
  pub valoper_to_feeder : Map Bytes
  pub twap : Map TwapEntry
  -- the calls that the slashing keeper has carried out
  pub slash_calls : List SlashCall
  pub events : List OracleEvent

abbrev pub emit : OracleEvent → State → State
emit e s = record s { events = s.events ++ e ∷ [] }

abbrev pub set_aggregated_price : AggregatedPrice → State → State
set_aggregated_price ap s = record s { prices = insert (aggregated_price_key ap.pair) ap s.prices }

-- A counter that is not stored is zero.
abbrev pub or_zero : Option ℤ → ℤ
or_zero none = pos 0
or_zero (some n) = n

abbrev pub get_miss_counter : Bytes → State → ℤ
get_miss_counter val s = or_zero (lookup (miss_counter_key val) s.miss_counters)

abbrev pub get_total_windows : Bytes → State → ℤ
get_total_windows val s = or_zero (lookup (total_windows_key val) s.total_windows)

-- The new count, and the state.
unfoldable pub inc_miss_counter : Bytes → State → ℤ × State
inc_miss_counter val s =
    let count = add64 (get_miss_counter val s) (pos 1) in
    (count, record s { miss_counters = insert (miss_counter_key val) count s.miss_counters })

unfoldable pub inc_total_windows : Bytes → State → ℤ × State
inc_total_windows val s =
    let count = add64 (get_total_windows val s) (pos 1) in
    (count, record s { total_windows = insert (total_windows_key val) count s.total_windows })

abbrev pub reset_miss_counters : State → State
reset_miss_counters s = record s { miss_counters = []; total_windows = [] }

abbrev pub reset_validator_windows : Bytes → State → State
reset_validator_windows val s = record s {
  miss_counters = erase (miss_counter_key val) s.miss_counters;
  total_windows = erase (total_windows_key val) s.total_windows;
}

-- `Time.Sub`: a number of nanoseconds, which stops at the ends of `int64`.
unfoldable pub time_sub : ℕ → ℕ → ℤ
time_sub a b =
    if leb b a
    then (if leb (a - b) (limit_63 - 1) then pos (a - b) else pos (limit_63 - 1))
    else (if leb (b - a - 1) (limit_63 - 1) then negsuc (b - a - 1) else negsuc (limit_63 - 1))

-- `time.Duration(seconds) * time.Second`, which wraps around.
unfoldable pub seconds : ℤ → ℤ
seconds (pos n) = wrap64 (pos (n * 1_000_000_000))
seconds (negsuc n) = wrap64 (negsuc ((n + 1) * 1_000_000_000 - 1))

module _ (sdk : Sdk) where
  abbrev pub or_default : Option OracleParams → OracleParams
  or_default none = default_params sdk
  or_default (some p) = p

  abbrev pub get_params : State → OracleParams
  get_params s = or_default s.params

  unfoldable pub set_params : OracleParams → State → Result OracleError State
  set_params p s = do validate sdk p; ok (record s { params = some p })

  unfoldable pub get_aggregated_price : Context → Bytes → State → Result OracleError AggregatedPrice
  get_aggregated_price ctx pair s = do
    let params = get_params s
    guard (pair_accepted params pair) pair_not_accepted
    ap ← or_err (lookup (aggregated_price_key pair) s.prices) no_price
    let age = time_sub ctx.block_time ap.block_time
    guard (not (ltb_ℤ (seconds params.max_price_age) age)) stale_price
    ok ap

  unfoldable pub get_price : Context → Bytes → State → Result OracleError ℤ
  unfolding get_aggregated_price
  get_price ctx pair s = do
    ap ← get_aggregated_price ctx pair s
    or_err (sdk.parse_dec ap.price) bad_decimal

  unfoldable pub set_feed : OracleFeed → State → Result OracleError State
  set_feed feed s = do
    val ← or_err (sdk.val_address feed.validator) invalid_address
    key ← or_err (feed_key sdk val feed.pair) panicked
    ok (record s { feeds = insert key feed s.feeds })

  -- `GetFeed`; `none` is a panic.
  unfoldable pub get_feed : Bytes → Bytes → State → Option (Option OracleFeed)
  get_feed val pair s = elim (feed_key sdk val pair) [
    | none ↦ none
    | some key ↦ some (lookup key s.feeds)
  ]

-- What `IterateAllFeeds` shows its callback: each feed whose key can be read.
unfoldable pub all_feeds : Map OracleFeed → List ((Bytes × Bytes) × Bytes)
all_feeds [] = []
all_feeds ((key, feed) ∷ m) =
    let rest = all_feeds m in
    elim (parse_feed_key key) [ none ↦ rest | some (val, pair) ↦ ((val, pair), feed.price) ∷ rest ]

abbrev pub delete_all_feeds : State → State
delete_all_feeds s = record s { feeds = [] }

-- `GetValidatorSubmittedPairs`
unfoldable pub pairs_of : Bytes → List ((Bytes × Bytes) × Bytes) → List Bytes
pairs_of val [] = []
pairs_of val (((v, pair), price) ∷ feeds) =
    let rest = pairs_of val feeds in if beq v val then pair ∷ rest else rest

unfoldable pub get_validator_submitted_pairs : Bytes → State → List Bytes
unfolding all_feeds pairs_of
get_validator_submitted_pairs val s = pairs_of val (all_feeds s.feeds)
