-- ===== src/Daemon/PriceLoop/Positive.antt =====
-- The rounds of the price loop as calls of the cache.
use vertix.Base.{ℕ, ◌≡◌, refl, ap, some, List, [], ◌∷◌, ◌++◌, inl, inr, Option-cases}
use vertix.Base.Bytes.{Bytes}
use vertix.Base.Int.{ℤ, pos, ◌≤ℤ◌, ◌<ℤ◌}
use vertix.Base.Map.{lookup}
use vertix.Base.Results.{Result, ok, err}
use vertix.Sdk.{Sdk}
use vertix.Daemon.Aggregate.{FeederError, cross_source_median}
use vertix.Daemon.Aggregate.Middle.{Halves}
use vertix.Daemon.Aggregate.Robust.{AllPositive, cross_source_median-positive}
use vertix.Daemon.Cache.{Cache, new_cache, set_price, mark_unhealthy}
use vertix.Daemon.Cache.History.{CacheCall, sets, marks, calls}
use vertix.Daemon.Config.{PairConfig}
use package.vertix.Daemon.PriceLoop.{
  PriceLoop, PriceProvider, Count, quotes, quote_errors, store_median, tick_pair, tick_pairs, tick,
  Round, rounds,
}

-- Only positive medians have been put into the cache.
abbrev pub SetsPositive : List CacheCall → Type 0
SetsPositive [] = Unit
SetsPositive (sets pair price t ∷ cs) = (pos 0 <ℤ price) × SetsPositive cs
SetsPositive (marks pair ∷ cs) = SetsPositive cs

-- No provider answers with a price that is not positive.
abbrev pub AnswersPositive : List PriceProvider → Type 0
AnswersPositive [] = Unit
AnswersPositive (prov ∷ provs) =
    ((symbol : Bytes) (price : ℤ) → prov.fetch symbol ≡ some price → pos 0 <ℤ price)
    × AnswersPositive provs

abbrev pub RoundsPositive : List Round → Type 0
RoundsPositive [] = Unit
RoundsPositive (r ∷ rs) = AnswersPositive r.providers × RoundsPositive rs

quotes-AllPositive :
    (pc : PairConfig) (provs : List PriceProvider)
    → AnswersPositive provs
    → AllPositive (quotes pc provs)
unfolding quotes
quotes-AllPositive pc [] a = tt
quotes-AllPositive pc (prov ∷ provs) a =
    let rest = quotes-AllPositive pc provs a.1 in
    elim (Option-cases (lookup prov.name pc.symbols)) [
      | inl unknown ↦ rw (unknown, quotes) rest
      | inr (symbol, known) ↦ elim (Option-cases (prov.fetch symbol)) [
        | inl failed ↦ rw (known, failed, quotes) rest
        | inr (price, answered) ↦ rw (known, answered, quotes) (a.0 symbol price answered, rest)
      ]
    ]

-- A cache that calls with positive medians have made.
pub record IsMade (c : Cache) : Type 0 where
  pub history : List CacheCall
  pub made : c ≡ calls history
  pub positive : SetsPositive history

module _ (sdk : Sdk) (halve : ℤ → ℤ) (exact : Halves halve) where
  store_median-IsMade :
      (pair : Bytes) (now : ℕ) (s : Cache × List Count) (r : Result FeederError ℤ)
      → ((m : ℤ) → r ≡ ok m → pos 0 <ℤ m)
      → IsMade s.0
      → IsMade (store_median pair now s r).0
  unfolding calls
  store_median-IsMade pair now (c, counts) (err e) p i = record {
    history = marks pair ∷ i.history;
    made = ap (mark_unhealthy pair) i.made;
    positive = i.positive;
  }
  store_median-IsMade pair now (c, counts) (ok m) p i = record {
    history = sets pair m now ∷ i.history;
    made = ap (set_price pair m now) i.made;
    positive = (p m refl, i.positive);
  }

  tick_pairs-IsMade :
      (pl : PriceLoop) (now : ℕ) (pcs : List PairConfig) (s : Cache × List Count)
      → pos 1 ≤ℤ pl.min_providers
      → AnswersPositive pl.providers
      → IsMade s.0
      → IsMade (tick_pairs sdk halve pl now pcs s).0
  unfolding tick_pairs tick_pair
  tick_pairs-IsMade pl now [] s one a i = i
  tick_pairs-IsMade pl now (pc ∷ pcs) s one a i =
      tick_pairs-IsMade pl now pcs (tick_pair sdk halve pl now pc s) one a (
        store_median-IsMade pc.pair now (s.0, s.1 ++ quote_errors pc pl.providers)
          (cross_source_median sdk halve pl.max_dev pl.min_providers (quotes pc pl.providers))
          (λ m found.
            cross_source_median-positive sdk halve exact pl.max_dev pl.min_providers m
              (quotes pc pl.providers) one (quotes-AllPositive pc pl.providers a) found)
          i)

  rounds-IsMade :
      (pl : PriceLoop) (rs : List Round) (s : Cache × List Count)
      → pos 1 ≤ℤ pl.min_providers
      → RoundsPositive rs
      → IsMade s.0
      → IsMade (rounds sdk halve pl rs s).0
  unfolding rounds tick
  rounds-IsMade pl [] s one a i = i
  rounds-IsMade pl (r ∷ rs) s one a i =
      rounds-IsMade pl rs _ one a.1
        (tick_pairs-IsMade (record pl { providers = r.providers }) r.now pl.pairs s one a.0 i)

  -- The cache of a run that starts empty.
  pub start-IsMade :
      (pl : PriceLoop) (rs : List Round)
      → pos 1 ≤ℤ pl.min_providers
      → RoundsPositive rs
      → IsMade (rounds sdk halve pl rs (new_cache, [])).0
  unfolding calls
  start-IsMade pl rs one a =
      rounds-IsMade pl rs (new_cache, []) one a
        (record { history = []; made = refl; positive = tt })
