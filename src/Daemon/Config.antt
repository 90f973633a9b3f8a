-- ===== src/Daemon/Config.antt =====
-- feeder/feeder/config.go: the configuration and the checks at startup. Reading the file is left out.
pub mod Startup
use vertix.Base.{
  ℕ, Bool, true, false, not, ◌&&◌, ◌||◌, Option, none, some, List, [], ◌∷◌, if◌then◌else◌, length,
  ◌==◌,
}
use vertix.Base.Bytes.{Bytes, beq, text}
use vertix.Base.Int.{ℤ, pos, is_positive, leb_ℤ, ltb_ℤ}
use vertix.Base.Map.{Map, lookup}
use vertix.Base.Results.{Result, ok, err, ◌>>=◌, ◌>>◌, guard, or_err}
use vertix.Pattern.{is_pair}
use vertix.Sdk.{Sdk, one_dec}
use vertix.Oracle.Types.{mem_bytes}

pub data ConfigError : Type 0 where
  required invalid_validator not_positive min_providers max_deviation fees gas : ConfigError
  gas_adjustment no_pairs invalid_pair no_symbol no_static_price invalid_static_price : ConfigError

pub record PairConfig : Type 0 where
  pub pair : Bytes
  pub symbols : Map Bytes

pub record QualityConfig : Type 0 where
  pub min_providers : ℤ
  pub max_deviation : Bytes
  pub max_quote_age : ℤ

-- Durations are numbers of nanoseconds. Of the floating-point gas adjustment only the test
-- `GasAdjustment <= 1` is kept.
pub record Config : Type 0 where
  pub chain_id : Bytes
  pub node_grpc : Bytes
  pub validator : Bytes
  pub key_name : Bytes
  pub fees : Bytes
  pub gas : Bytes
  pub gas_adjustment_at_most_one : Bool
  pub feed_interval : ℤ
  pub submit_poll : ℤ
  pub vote_window : ℤ
  pub broadcast_retry : ℤ
  pub quality : QualityConfig
  pub providers : List Bytes
  pub static_prices : Map Bytes
  pub pairs : List PairConfig

-- `providerEnabled`
abbrev pub provider_enabled : Config → Bytes → Bool
provider_enabled c name = mem_bytes name c.providers

-- Has one of the symbols an enabled provider?
unfoldable pub has_enabled : Config → Map Bytes → Bool
has_enabled c [] = false
has_enabled c ((prov, symbol) ∷ symbols) = provider_enabled c prov || has_enabled c symbols

-- `parse_coins` is `sdk.ParseCoinsNormalized`, of which only the success counts.
module _ (sdk : Sdk) (parse_coins : Bytes → Bool) where
  unfoldable pub check_static_price : Config → Bytes → Result ConfigError (Unit {0})
  check_static_price c symbol = do
    ps ← or_err (lookup symbol c.static_prices) no_static_price
    p ← or_err (sdk.parse_dec ps) invalid_static_price
    guard (is_positive p) invalid_static_price

  unfoldable pub check_static : Config → PairConfig → Result ConfigError (Unit {0})
  unfolding check_static_price
  check_static c pc = elim (lookup (text "static") pc.symbols) [
    | none ↦ ok tt
    | some symbol ↦
        if provider_enabled c (text "static") then check_static_price c symbol else ok tt
  ]

  unfoldable pub check_pair_configs : Config → List PairConfig → Result ConfigError (Unit {0})
  unfolding check_static has_enabled
  check_pair_configs c [] = ok tt
  check_pair_configs c (pc ∷ pcs) =
      guard (is_pair pc.pair) invalid_pair
      >> (guard (has_enabled c pc.symbols) no_symbol
          >> (check_static c pc >> check_pair_configs c pcs))

  unfoldable pub check_gas : Config → Result ConfigError (Unit {0})
  check_gas c =
      if not (beq c.gas (text "auto"))
      then (or_err (sdk.parse_int c.gas) ConfigError.gas >>= λ g.
          guard (is_positive g) ConfigError.gas)
      else guard (not c.gas_adjustment_at_most_one) gas_adjustment

  -- `Validate`
  unfoldable pub validate : Config → Result ConfigError (Unit {0})
  unfolding check_gas check_pair_configs
  validate c = do
    guard (not (beq c.chain_id [] || beq c.node_grpc [] || beq c.key_name [])) required
    _ ← or_err (sdk.val_address c.validator) invalid_validator
    guard
        (is_positive c.feed_interval
          && is_positive c.submit_poll
          && is_positive c.quality.max_quote_age)
        not_positive
    guard (not (ltb_ℤ c.quality.min_providers (pos 1))) ConfigError.min_providers
    dev ← or_err (sdk.parse_dec c.quality.max_deviation) ConfigError.max_deviation
    guard (is_positive dev && leb_ℤ dev (pos one_dec)) ConfigError.max_deviation
    guard (parse_coins c.fees) ConfigError.fees
    check_gas c
    guard (not (length c.pairs == 0)) no_pairs
    check_pair_configs c c.pairs
