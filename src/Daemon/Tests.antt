-- ===== src/Daemon/Tests.antt =====
-- Runs of the feeder daemon's model, and the theorems at concrete inputs.
use vertix.Base.{
  ℕ, ◌⊎◌, ◌≡◌, refl, sym, subst, if◌then◌else◌, ◌==◌, Bool, true, false, Option, none, some, List,
  [], ◌∷◌, arith, inl, inr, All, Bool-cases, length, map, ◌<◌,
}
use vertix.Base.Bytes.{Bytes, text, beq, bytes_lt}
use vertix.Base.Int.{ℤ, pos, ◌≤ℤ◌, ◌<ℤ◌, ◌+ℤ◌, ◌-ℤ◌, abs}
use vertix.Base.Int64.{halve64}
use vertix.Base.Results.{ok, err}
use vertix.Base.Sort.{sort_by, sum_by, Ascends}
use vertix.Base.Map.{lookup, insert}
use vertix.Sdk.Model.{sample_sdk, sample-DecimalLaws}
use vertix.Pattern.{is_pair}
use vertix.Oracle.Keeper.{time_sub}
use vertix.Oracle.Types.{mem_bytes, basic_submit_feed}
use vertix.Daemon.Aggregate.{median, drop_deviating, cross_source_median, insufficient_sources}
use vertix.Daemon.Aggregate.Middle.{IsMiddle}
use vertix.Daemon.Aggregate.Robust.{
  IsNear, cross_source_median-IsMiddle, cross_source_median-robust,
}
use vertix.Daemon.Cache.{new_cache, set_price, mark_unhealthy, fresh}
use vertix.Daemon.Cache.History.{CacheCall, sets, marks, calls, last_set, recent, fresh-last_set}
use vertix.Daemon.Config.{Config, PairConfig, QualityConfig, has_enabled, check_static, validate}
use vertix.Daemon.Config.Startup.{IsStartable, validate-IsStartable}
use vertix.Daemon.PriceLoop.{PriceProvider, PriceLoop, Round, rounds, new_price_loop, tick}
use vertix.Daemon.PriceLoop.Storing.{Differs, round_median, price_found, tick-fresh}
use vertix.Daemon.Broadcaster.{FeedSubmission, to_msg, build_msgs}
use vertix.Daemon.Broadcaster.Batch.{build_msgs-rounds}
use vertix.Daemon.SubmitLoop.{SubmitLoop, Poll, new_submit_loop, gather_feeds, maybe_submit, run}
use vertix.Daemon.SubmitLoop.Windows.{Later, run-once}
use vertix.Daemon.SubmitLoop.Attempts.{
  Accepted, Refused, FirstAccepted, AllRefused, maybe_submit-retries,
}

abbrev three_quotes : List ℤ
three_quotes = pos 102 ∷ pos 100 ∷ pos 500 ∷ []

middle_quote : median halve64 three_quotes ≡ ok (pos 102)
unfolding median sort_by
middle_quote = refl

mean_of_two : median halve64 (pos 103 ∷ pos 100 ∷ []) ≡ ok (pos 101)
unfolding median halve64 sort_by ◌+ℤ◌
mean_of_two = refl

-- A tenth.
abbrev tenth : ℤ
tenth = pos 100_000_000_000_000_000

outlier_dropped : drop_deviating sample_sdk halve64 tenth three_quotes ≡ pos 102 ∷ pos 100 ∷ []
unfolding drop_deviating sample_sdk median sort_by abs ◌-ℤ◌
outlier_dropped = refl

abbrev two_of_three :
    cross_source_median sample_sdk halve64 tenth (pos 2) three_quotes ≡ ok (pos 101)
unfolding cross_source_median sample_sdk drop_deviating median sort_by abs ◌-ℤ◌ halve64 ◌+ℤ◌
two_of_three = refl

cross_source_median-IsMiddle_example :
    ((pos 2 ≤ℤ pos (length (drop_deviating sample_sdk halve64 tenth three_quotes)))
      × (m : ℤ) × (cross_source_median sample_sdk halve64 tenth (pos 2) three_quotes ≡ ok m)
      × IsMiddle m (drop_deviating sample_sdk halve64 tenth three_quotes))
    ⊎ ((pos (length (drop_deviating sample_sdk halve64 tenth three_quotes)) <ℤ pos 2)
        × (cross_source_median sample_sdk halve64 tenth (pos 2) three_quotes
            ≡ err insufficient_sources))
cross_source_median-IsMiddle_example =
    cross_source_median-IsMiddle sample_sdk halve64 (λ d. refl) tenth (pos 2) three_quotes
      (omega arith)

cross_source_median-robust_example :
    (mid : ℤ) × (pos 99 ≤ℤ mid)
    × (mid ≤ℤ pos 103)
    × IsNear (sample_sdk.mul_dec mid tenth) mid (pos 101)
unfolding sum_by
cross_source_median-robust_example =
    cross_source_median-robust sample_sdk halve64 (λ d. refl) tenth (pos 2) (pos 99) (pos 103)
      (pos 101) three_quotes (omega arith) (omega arith) (omega arith) two_of_three

-- Two pairs, of which `b` names a symbol, and a configuration that is accepted.
abbrev btc_usd : PairConfig
btc_usd = record { pair = text "BTC:USD"; symbols = (text "b", text "BTC") ∷ [] }

abbrev eth_usd : PairConfig
eth_usd = record { pair = text "ETH:USD"; symbols = (text "b", text "ETH") ∷ [] }

abbrev quality : QualityConfig
quality = record { min_providers = pos 1; max_deviation = b'+' ∷ 7 ∷ []; max_quote_age = pos 30 }

abbrev config : Config
config = record {
  chain_id = text "vertix-1";
  node_grpc = text "localhost";
  validator = text "val";
  key_name = text "feeder";
  fees = text "10uvtx";
  gas = text "auto";
  gas_adjustment_at_most_one = false;
  feed_interval = pos 5;
  submit_poll = pos 1;
  vote_window = pos 10;
  broadcast_retry = pos 3;
  quality = quality;
  providers = text "b" ∷ [];
  static_prices = [];
  pairs = btc_usd ∷ eth_usd ∷ [];
}

abbrev any_coins : Bytes → Bool
any_coins s = true

abbrev accepted_config : validate sample_sdk any_coins config ≡ ok tt
unfolding validate sample_sdk beq has_enabled mem_bytes is_pair check_static lookup
accepted_config = refl

validate-IsStartable_example :
    (start : IsStartable sample_sdk any_coins config) × ((new_price_loop sample_sdk halve64
        config.pairs [] config.quality).max_dev
      ≡ start.deviation)
validate-IsStartable_example =
    validate-IsStartable sample_sdk any_coins halve64 config [] accepted_config

-- A provider that knows the first pair only.
abbrev provider_b : PriceProvider
provider_b = record {
  name = text "b";
  fetch = λ symbol. if beq symbol (text "BTC") then some (pos 900) else none;
}

abbrev price_loop : PriceLoop
price_loop = record {
  pairs = config.pairs;
  providers = provider_b ∷ [];
  min_providers = pos 1;
  max_dev = tenth;
}

abbrev distinct_pairs : beq (text "BTC:USD") (text "ETH:USD") ≡ false
unfolding beq
distinct_pairs = refl

tick-fresh_example :
    All
      (λ pc.
        fresh pc.pair (pos 30) 100 (tick sample_sdk halve64 price_loop 100 (new_cache, [])).0
        ≡ price_found (round_median sample_sdk halve64 price_loop 100 pc))
      price_loop.pairs
    × ((pair : Bytes)
        → Differs pair price_loop.pairs
        → lookup pair (tick sample_sdk halve64 price_loop 100 (new_cache, [])).0
          ≡ lookup pair new_cache)
tick-fresh_example =
    tick-fresh sample_sdk halve64 price_loop 100 (pos 30) (new_cache, []) (omega arith)
      ((distinct_pairs, tt), (tt, tt))

-- The first price is set, the second marked and set again.
abbrev history : List CacheCall
history =
    sets (text "ETH:USD") (pos 40) 95
    ∷ marks (text "ETH:USD")
    ∷ sets (text "BTC:USD") (pos 900) 90
    ∷ []

abbrev cache_then : fresh (text "BTC:USD") (pos 30) 121 (calls history) ≡ none
unfolding fresh calls lookup set_price mark_unhealthy insert beq bytes_lt time_sub
cache_then = refl

fresh-last_set_example :
    fresh (text "ETH:USD") (pos 30) 100 (calls history)
    ≡ recent (pos 30) 100 (last_set (text "ETH:USD") history)
fresh-last_set_example = fresh-last_set (text "ETH:USD") (pos 30) 100 history

abbrev feeder_parses : sample_sdk.acc_address (text "feeder") ≡ some (text "feeder")
unfolding sample_sdk
feeder_parses = refl

abbrev one_round : List Round
one_round = record { providers = provider_b ∷ []; now = 90 } ∷ []

-- The provider's only price is positive.
b_positive : (symbol : Bytes) (price : ℤ) → provider_b.fetch symbol ≡ some price → pos 0 <ℤ price
b_positive symbol price h = elim (Bool-cases (beq symbol (text "BTC"))) [
  | inl known ↦ let e : pos 900 ≡ price = cc (rw known at h) in rw (← e) (omega arith)
  | inr unknown ↦ cc (rw unknown at h)
]

build_msgs-rounds_example :
    let cache =
      (rounds sample_sdk halve64
        (new_price_loop sample_sdk halve64 config.pairs (provider_b ∷ []) config.quality)
        one_round
        (new_cache, [])).0 in
    let feeds = gather_feeds config.quality.max_quote_age 100 cache config.pairs in
    (build_msgs sample_sdk (text "feeder") (text "val") feeds
      ≡ ok (map (to_msg sample_sdk (text "feeder") (text "val")) feeds))
    × All
        (λ m. basic_submit_feed sample_sdk m ≡ ok tt)
        (map (to_msg sample_sdk (text "feeder") (text "val")) feeds)
build_msgs-rounds_example =
    build_msgs-rounds sample_sdk sample-DecimalLaws (text "feeder") (text "val") any_coins halve64
      config (text "feeder") 100 (provider_b ∷ []) one_round (λ d. refl) refl accepted_config
      feeder_parses ((b_positive, tt), tt)

-- A broadcaster that fails once, and accepts the second attempt.
abbrev second_attempt : ℕ → List FeedSubmission → Option Bytes
second_attempt i feeds = if i == 1 then some (text "hash") else none

abbrev poll_at : ℕ → Poll
poll_at h = record {
  height = some (pos h);
  now = 100;
  cache = calls history;
  submit_feeds = second_attempt;
}

abbrev submit_loop : SubmitLoop
submit_loop = new_submit_loop config.pairs (pos 10) (pos 30) (pos 3)

-- The heights 5, 9 and 17 lie in two windows.
abbrev polls : List Poll
polls = poll_at 5 ∷ poll_at 9 ∷ poll_at 17 ∷ []

two_windows : map (λ s. s.0) (run submit_loop polls).sent ≡ pos 1 ∷ pos 0 ∷ []
unfolding run fresh calls lookup set_price insert mark_unhealthy beq bytes_lt time_sub
two_windows = refl

run-once_example :
    Ascends Later (run (new_submit_loop config.pairs (pos 10) (pos 30) (pos 3)) polls).sent
run-once_example =
    run-once config.pairs 10 (pos 30) (pos 3) polls (omega arith)
      (inr (5, refl, omega arith, inr (9, refl, omega arith, inr (17, refl, omega arith, tt))))

-- What the poll at height 15 submits.
abbrev feeds_then : List FeedSubmission
feeds_then =
    record { pair = text "BTC:USD"; price = some (pos 900) }
    ∷ record { pair = text "ETH:USD"; price = some (pos 40) }
    ∷ []

abbrev gathered : gather_feeds (pos 30) 100 (calls history) config.pairs ≡ feeds_then
unfolding gather_feeds fresh calls lookup set_price insert mark_unhealthy beq bytes_lt time_sub
gathered = refl

maybe_submit-retries_example :
    (FirstAccepted second_attempt (gather_feeds (pos 30) 100 (calls history) config.pairs) 3 (λ k.
      Accepted submit_loop
        (pos 1)
        (gather_feeds (pos 30) 100 (calls history) config.pairs)
        k
        (maybe_submit submit_loop (poll_at 15) (pos 15))))
    ⊎ (AllRefused second_attempt (gather_feeds (pos 30) 100 (calls history) config.pairs) 3
        × Refused submit_loop 3 (maybe_submit submit_loop (poll_at 15) (pos 15)))
maybe_submit-retries_example =
    maybe_submit-retries submit_loop (poll_at 15) (pos 15) (omega arith) refl
      (subst (λ fs. 0 < length fs) (sym gathered) (omega arith))
