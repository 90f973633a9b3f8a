-- ===== src/Daemon/PriceLoop.antt =====
-- feeder/feeder/priceloop.go: the quotes of a pair, and one round over the pairs. The latencies are
-- left out.
pub mod Storing
pub mod Positive
use vertix.Base.{ℕ, Option, none, some, List, [], ◌∷◌, ◌++◌}
use vertix.Base.Bytes.{Bytes, text}
use vertix.Base.Int.{ℤ, pos}
use vertix.Base.Map.{lookup}
use vertix.Base.Results.{Result, ok, err}
use vertix.Sdk.{Sdk}
use vertix.Daemon.Aggregate.{FeederError, cross_source_median}
use vertix.Daemon.Cache.{Cache, set_price, mark_unhealthy}
use vertix.Daemon.Config.{PairConfig, QualityConfig}

-- A price provider in one round: what `Fetch` answers for a symbol, `none` an error.
pub record PriceProvider : Type 0 where
  pub name : Bytes
  pub fetch : Bytes → Option ℤ

pub record Round : Type 0 where
  pub providers : List PriceProvider
  pub now : ℕ

-- The counters of the metrics, as what has been counted.
pub data Count : Type 0 where
  -- provider
  provider_error : Bytes → Count
  -- pair, reason
  feed_failed : Bytes → Bytes → Count
  -- pair, and the time of the submission
  feed_submitted : Bytes → Count
  last_submit : Bytes → ℕ → Count

pub record PriceLoop : Type 0 where
  pub pairs : List PairConfig
  pub providers : List PriceProvider
  pub min_providers : ℤ
  pub max_dev : ℤ

-- The inner loop: the quotes for a pair, in the order of the providers, and the errors counted.
unfoldable pub quotes : PairConfig → List PriceProvider → List ℤ
quotes pc [] = []
quotes pc (prov ∷ provs) =
    let rest = quotes pc provs in
    elim (lookup prov.name pc.symbols) [
      | none ↦ rest
      | some symbol ↦ elim (prov.fetch symbol) [ none ↦ rest | some price ↦ price ∷ rest ]
    ]

unfoldable pub quote_errors : PairConfig → List PriceProvider → List Count
quote_errors pc [] = []
quote_errors pc (prov ∷ provs) =
    let rest = quote_errors pc provs in
    elim (lookup prov.name pc.symbols) [
      | none ↦ rest
      | some symbol ↦ elim (prov.fetch symbol) [
        | none ↦ provider_error prov.name ∷ rest
        | some price ↦ rest
      ]
    ]

-- 0.10 where the deviation does not parse.
abbrev pub or_tenth : Option ℤ → ℤ
or_tenth none = pos 100_000_000_000_000_000
or_tenth (some dev) = dev

-- What the median of a pair, or its error, is worth to the cache and the counters.
abbrev pub store_median : Bytes → ℕ → Cache × List Count → Result FeederError ℤ → Cache × List Count
store_median pair now (c, counts) (err e) =
    (mark_unhealthy pair c, counts ++ feed_failed pair (text "insufficient_sources") ∷ [])
store_median pair now (c, counts) (ok median) = (set_price pair median now c, counts)

module _ (sdk : Sdk) (halve : ℤ → ℤ) where
  -- `NewPriceLoop`
  unfoldable pub new_price_loop : List PairConfig → List PriceProvider → QualityConfig → PriceLoop
  new_price_loop pairs providers quality = record {
    pairs = pairs;
    providers = providers;
    min_providers = quality.min_providers;
    max_dev = or_tenth (sdk.parse_dec quality.max_deviation);
  }

  -- What a round makes of one pair.
  unfoldable pub tick_pair : PriceLoop → ℕ → PairConfig → Cache × List Count → Cache × List Count
  unfolding quotes quote_errors
  tick_pair pl now pc (c, counts) =
      store_median pc.pair now (c, counts ++ quote_errors pc pl.providers)
        (cross_source_median sdk halve pl.max_dev pl.min_providers (quotes pc pl.providers))

  unfoldable pub tick_pairs :
      PriceLoop → ℕ → List PairConfig → Cache × List Count → Cache × List Count
  unfolding tick_pair
  tick_pairs pl now [] s = s
  tick_pairs pl now (pc ∷ pcs) s = tick_pairs pl now pcs (tick_pair pl now pc s)

  -- `tick`
  unfoldable pub tick : PriceLoop → ℕ → Cache × List Count → Cache × List Count
  unfolding tick_pairs
  tick pl now s = tick_pairs pl now pl.pairs s

  -- `Run`: one round after the other, each with what the providers answer then.
  unfoldable pub rounds : PriceLoop → List Round → Cache × List Count → Cache × List Count
  unfolding tick
  rounds pl [] s = s
  rounds pl (r ∷ rs) s = rounds pl rs (tick (record pl { providers = r.providers }) r.now s)
