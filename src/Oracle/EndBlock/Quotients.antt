-- ===== src/Oracle/EndBlock/Quotients.antt =====
-- The quotients of the loop over the outliers: prices whose distance can be divided.
use vertix.Base.{
  ◌≡◌, refl, ◌≤◌, ◌<◌, ◌*◌, ◌-◌, ◌+◌, ℕ, ◌⊎◌, true, List, [], ◌∷◌, All, arith, map, Bool-cases, inl,
  inr,
}
use vertix.Base.Bytes.{Bytes}
use vertix.Base.Int.{pos, abs, ◌-ℤ◌, leb_ℤ, is_positive, is_positive-pos}
use vertix.Base.Results.{ok}
use vertix.Sdk.{Sdk, QuotientLaws, one_dec, dec_max}
use vertix.Oracle.Keeper.{State, Context, Staking, Validator}
use vertix.Oracle.Aggregate.{WeightedPrice, unweighted_median}
use package.vertix.Oracle.EndBlock.{
  Rates, distance, slash_outlier, slash_outliers, announce, publish, price_of,
}
use package.vertix.Oracle.EndBlock.Prices.{HasPrice}

-- 2^255, as the number of the smallest decimals: a price of about 5.8 · 10^58.
abbrev pub quotable_max : ℕ
quotable_max = 57896044618658097711785492504343953926634992332820282019728792003956564819968

abbrev pub IsQuotable : WeightedPrice → Type 0
IsQuotable e = leb_ℤ e.price (pos quotable_max) ≡ true

-- Two positive decimals are no further apart than the greater is from zero.
apart : (p k : ℕ) → (d : ℕ) × (abs (pos p -ℤ pos k) ≡ pos d) × ((d ≤ p) ⊎ (d ≤ k))
unfolding abs ◌-ℤ◌
apart p k = (p - k + (k - p), ground arith, grind arith)

divisible : (d p k : ℕ) → (d ≤ p) ⊎ (d ≤ k) → p ≤ quotable_max → 0 < k → d * one_dec ≤ dec_max * k
divisible d p k (inl near) small some_k = omega arith
divisible d p k (inr near) small some_k = omega arith

module _ (sdk : Sdk) (laws : QuotientLaws sdk) (ctx : Context) (st : Staking) where
  distance-fits :
      (k : ℕ) (e : WeightedPrice)
      → 1 ≤ k
      → HasPrice e
      → IsQuotable e
      → sdk.quo_fits (distance sdk ctx st (pos k) e) (pos k) ≡ true
  distance-fits k e some_k has small =
      let (p, is_p, some_p) = is_positive-pos e.price has in
      let (d, is_d, near) = apart p k in
      let p_small : p ≤ quotable_max = ground (arith, small, is_p) in
      rw (is_p, is_d)
        (laws.fits_below d k (omega (arith, some_k))
          (divisible d p k near p_small (omega (arith, some_k))))

  slash_outliers-returns :
      (vals : List Validator) (r : Rates) (k : ℕ) (es : List WeightedPrice) (s : State)
      → 1 ≤ k
      → All HasPrice es
      → All IsQuotable es
      → (t : State) × (slash_outliers sdk ctx st vals r (pos k) es s ≡ ok t)
  unfolding slash_outliers
  slash_outliers-returns vals r k [] s some_k has small = (s, refl)
  slash_outliers-returns vals r k (e ∷ es) s some_k (h, has) (q, small) =
      let (t, runs) =
        slash_outliers-returns vals r k es (slash_outlier sdk ctx st vals r (pos k) e s) some_k has
          small in
      (t, rw (distance-fits k e some_k h q) runs)

  pub publish-returns :
      (vals : List Validator) (r : Rates) (pair : Bytes) (es : List WeightedPrice) (s : State)
      → All HasPrice es
      → All IsQuotable es
      → (u : State) × (publish sdk ctx st vals r pair es s ≡ ok u)
  unfolding publish
  publish-returns vals r pair es s has small =
      let m = unweighted_median (map price_of es) in
      let stored = announce sdk ctx st pair es s in
      elim (Bool-cases (is_positive m)) [
        | inl usable ↦
            let (k, is_k, some_k) = is_positive-pos m usable in
            let (t, runs) = slash_outliers-returns vals r k es stored some_k has small in
            (t, rw (usable, is_k) runs)
        | inr no_reference ↦ (stored, rw no_reference refl)
      ]
