-- ===== src/Daemon/PriceLoop/Storing.antt =====
-- What a round of the price loop leaves in the cache.
use vertix.Base.{ℕ, ◌≡◌, refl, false, Option, none, some, List, [], ◌∷◌, ◌++◌, ◌∙◌, arith, All}
use vertix.Base.Bytes.{Bytes, beq, beq_refl}
use vertix.Base.Int.{ℤ, pos, ◌≤ℤ◌, ltb_ℤ}
use vertix.Base.Map.{lookup, lookup-insert}
use vertix.Base.Results.{Result, ok, err}
use vertix.Sdk.{Sdk}
use vertix.Oracle.Keeper.{time_sub}
use vertix.Daemon.Aggregate.{FeederError, cross_source_median}
use vertix.Daemon.Cache.{Cache, set_price, mark_unhealthy, fresh}
use vertix.Daemon.Config.{PairConfig}
use package.vertix.Daemon.PriceLoop.{
  PriceLoop, Count, store_median, quotes, quote_errors, tick_pair, tick_pairs, tick,
}

-- No pair is configured twice.
abbrev pub Differs : Bytes → List PairConfig → Type 0
Differs pair [] = Unit
Differs pair (pc ∷ pcs) = (beq pair pc.pair ≡ false) × Differs pair pcs

abbrev pub Distinct : List PairConfig → Type 0
Distinct [] = Unit
Distinct (pc ∷ pcs) = Differs pc.pair pcs × Distinct pcs

-- What a result of the aggregation is worth to the cache.
abbrev pub price_found : Result FeederError ℤ → Option (Option ℤ)
price_found (err e) = none
price_found (ok m) = some (some m)

store_median-other :
    (pair other : Bytes) (now : ℕ) (s : Cache × List Count) (r : Result FeederError ℤ)
    → beq pair other ≡ false
    → lookup pair (store_median other now s r).0 ≡ lookup pair s.0
unfolding set_price mark_unhealthy
store_median-other pair other now (c, counts) (err e) apart = rw (lookup-insert, apart) refl
store_median-other pair other now (c, counts) (ok m) apart = rw (lookup-insert, apart) refl

-- The age of a price that has just been set is zero.
age-zero : (t : ℕ) → time_sub t t ≡ pos 0
unfolding time_sub
age-zero t = ground arith

store_median-fresh :
    (pair : Bytes) (max_age : ℤ) (now : ℕ) (s : Cache × List Count) (r : Result FeederError ℤ)
    → pos 0 ≤ℤ max_age
    → fresh pair max_age now (store_median pair now s r).0 ≡ price_found r
unfolding set_price mark_unhealthy fresh
store_median-fresh pair max_age now (c, counts) (err e) age =
    rw (lookup-insert, beq_refl pair, fresh) refl
store_median-fresh pair max_age now (c, counts) (ok m) age =
    let young : ltb_ℤ max_age (time_sub now now) ≡ false = rw (age-zero now) (ground arith) in
    rw (lookup-insert, beq_refl pair, fresh) (rw young refl)

fresh-lookup :
    (pair : Bytes) (max_age : ℤ) (now : ℕ) (c c' : Cache)
    → lookup pair c ≡ lookup pair c'
    → fresh pair max_age now c ≡ fresh pair max_age now c'
unfolding fresh
fresh-lookup pair max_age now c c' same = rw (same, fresh) refl

module _ (sdk : Sdk) (halve : ℤ → ℤ) (pl : PriceLoop) (now : ℕ) where
  -- The median of a pair's quotes in this round.
  abbrev pub round_median : PairConfig → Result FeederError ℤ
  round_median pc =
      cross_source_median sdk halve pl.max_dev pl.min_providers (quotes pc pl.providers)

  tick_pairs-other :
      (pair : Bytes) (pcs : List PairConfig) (s : Cache × List Count)
      → Differs pair pcs
      → lookup pair (tick_pairs sdk halve pl now pcs s).0 ≡ lookup pair s.0
  unfolding tick_pairs tick_pair
  tick_pairs-other pair [] s d = refl
  tick_pairs-other pair (pc ∷ pcs) s d =
      let stored : Cache × List Count = (s.0, s.1 ++ quote_errors pc pl.providers) in
      tick_pairs-other pair pcs (tick_pair sdk halve pl now pc s) d.1
      ∙ store_median-other pair pc.pair now stored (round_median pc) d.0

  tick_pairs-fresh :
      (max_age : ℤ) (pcs : List PairConfig) (s : Cache × List Count)
      → pos 0 ≤ℤ max_age
      → Distinct pcs
      → All
          (λ pc.
            fresh pc.pair max_age now (tick_pairs sdk halve pl now pcs s).0
            ≡ price_found (round_median pc))
          pcs
  unfolding tick_pairs tick_pair
  tick_pairs-fresh max_age [] s age d = tt
  tick_pairs-fresh max_age (pc ∷ pcs) s age d =
      let stored : Cache × List Count = (s.0, s.1 ++ quote_errors pc pl.providers) in
      let s' = tick_pair sdk halve pl now pc s in
      (
        fresh-lookup pc.pair max_age now (tick_pairs sdk halve pl now pcs s').0 s'.0
              (tick_pairs-other pc.pair pcs s' d.0)
            ∙ store_median-fresh pc.pair max_age now stored (round_median pc) age,
        tick_pairs-fresh max_age pcs s' age d.1,
      )

  -- After a round over distinct pairs, a pair is fresh at the time of the round exactly when the
  -- quotes of its providers give a price, and then with that price, whatever the cache held before;
  -- a pair that is not configured is as it was.
  pub tick-fresh :
      (max_age : ℤ) (s : Cache × List Count)
      → pos 0 ≤ℤ max_age
      → Distinct pl.pairs
      → All
          (λ pc.
            fresh pc.pair max_age now (tick sdk halve pl now s).0 ≡ price_found (round_median pc))
          pl.pairs
        × ((pair : Bytes)
            → Differs pair pl.pairs
            → lookup pair (tick sdk halve pl now s).0 ≡ lookup pair s.0)
  unfolding tick
  tick-fresh max_age s age d = (
    tick_pairs-fresh max_age pl.pairs s age d,
    λ pair apart. tick_pairs-other pair pl.pairs s apart,
  )
