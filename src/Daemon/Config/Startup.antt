-- ===== src/Daemon/Config/Startup.antt =====
-- What a configuration that has been accepted gives to the two loops.
use vertix.Base.{
  ◌<◌, ◌≡◌, ap, Bool, true, not, ◌&&◌, ◌||◌, some, List, [], ◌∷◌, arith, length, All, ◌==◌,
}
use vertix.Base.Bytes.{Bytes, beq}
use vertix.Base.Int.{ℤ, pos, ◌≤ℤ◌, ◌<ℤ◌, is_positive, leb_ℤ, ltb_ℤ}
use vertix.Base.Results.{ok, ◌>>◌, guard, guard-then, check-then, or_err-then}
use vertix.Pattern.{is_pair}
use vertix.Sdk.{Sdk, one_dec}
use vertix.Daemon.PriceLoop.{PriceProvider, or_tenth, new_price_loop}
use package.vertix.Daemon.Config.{
  Config, PairConfig, ConfigError, required, invalid_validator, not_positive, invalid_pair,
  no_symbol, no_pairs, has_enabled, check_static, check_pair_configs, check_gas, validate,
}

-- A pair in the form BASE:QUOTE, with a symbol for an enabled provider.
pub record IsUsable (c : Config) (pc : PairConfig) : Type 0 where
  pub pair_form : is_pair pc.pair ≡ true
  pub has_provider : has_enabled c pc.symbols ≡ true

module _ (sdk : Sdk) (parse_coins : Bytes → Bool) where
  pairs-IsUsable :
      (c : Config) (pcs : List PairConfig)
      → check_pair_configs sdk parse_coins c pcs ≡ ok tt
      → All (IsUsable c) pcs
  unfolding check_pair_configs
  pairs-IsUsable c [] h = tt
  pairs-IsUsable c (pc ∷ pcs) h =
      let rest = check_pair_configs sdk parse_coins c pcs in
      let static = check_static sdk parse_coins c pc >> rest in
      let enabled = guard (has_enabled c pc.symbols) no_symbol >> static in
      let (form, h₁) = guard-then (is_pair pc.pair) invalid_pair enabled h in
      let (provider, h₂) = guard-then (has_enabled c pc.symbols) no_symbol static h₁ in
      let (checked, h₃) = check-then (check_static sdk parse_coins c pc) rest h₂ in
      (record { pair_form = form; has_provider = provider }, pairs-IsUsable c pcs h₃)

  -- What the two loops rely on.
  pub record IsStartable (c : Config) : Type 0 where
    pub operator : Bytes
    pub operator_is : sdk.val_address c.validator ≡ some operator
    pub some_source : pos 1 ≤ℤ c.quality.min_providers
    pub quote_age : pos 0 <ℤ c.quality.max_quote_age
    pub interval : pos 0 <ℤ c.feed_interval
    pub poll : pos 0 <ℤ c.submit_poll
    pub deviation : ℤ
    pub deviation_is : sdk.parse_dec c.quality.max_deviation ≡ some deviation
    pub deviation_positive : pos 0 <ℤ deviation
    pub deviation_most : deviation ≤ℤ pos one_dec
    pub some_pair : 0 < length c.pairs
    pub usable : All (IsUsable c) c.pairs

  -- A configuration that is accepted at startup has a validator address, positive intervals, at least
  -- one required source, and at least one pair, each of the form BASE:QUOTE and with a symbol for an
  -- enabled provider; and its deviation parses to a decimal above zero and at most one, which is the
  -- one that the price loop then uses, and not the fallback.
  pub validate-IsStartable :
      (halve : ℤ → ℤ) (c : Config) (providers : List PriceProvider)
      → validate sdk parse_coins c ≡ ok tt
      → (start : IsStartable c) × ((new_price_loop sdk halve c.pairs providers c.quality).max_dev
          ≡ start.deviation)
  unfolding validate new_price_loop
  validate-IsStartable halve c providers h =
      let named = not (beq c.chain_id [] || beq c.node_grpc [] || beq c.key_name []) in
      let (named_is, h₁) = guard-then named required _ h in
      let (operator, operator_is, h₂) =
        or_err-then (sdk.val_address c.validator) invalid_validator _ h₁ in
      let times =
        is_positive c.feed_interval
        && is_positive c.submit_poll
        && is_positive c.quality.max_quote_age in
      let (times_are, h₃) = guard-then times not_positive _ h₂ in
      let sources = not (ltb_ℤ c.quality.min_providers (pos 1)) in
      let (sources_are, h₄) = guard-then sources ConfigError.min_providers _ h₃ in
      let (dev, dev_is, h₅) =
        or_err-then (sdk.parse_dec c.quality.max_deviation) ConfigError.max_deviation _ h₄ in
      let in_range = is_positive dev && leb_ℤ dev (pos one_dec) in
      let (range_is, h₆) = guard-then in_range ConfigError.max_deviation _ h₅ in
      let (fees_are, h₇) = guard-then (parse_coins c.fees) ConfigError.fees _ h₆ in
      let (gas_is, h₈) = check-then (check_gas sdk parse_coins c) _ h₇ in
      let (pairs_are, h₉) = guard-then (not (length c.pairs == 0)) no_pairs _ h₈ in
      (
        record {
          operator = operator;
          operator_is = operator_is;
          some_source = ground (arith, sources_are);
          quote_age = ground (arith, times_are);
          interval = ground (arith, times_are);
          poll = ground (arith, times_are);
          deviation = dev;
          deviation_is = dev_is;
          deviation_positive = ground (arith, range_is);
          deviation_most = ground (arith, range_is);
          some_pair = ground (arith, pairs_are);
          usable = pairs-IsUsable c c.pairs h₉;
        },
        ap or_tenth dev_is,
      )
