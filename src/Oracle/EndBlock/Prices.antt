-- ===== src/Oracle/EndBlock/Prices.antt =====
-- What is published is positive, and for an accepted pair.
use vertix.Base.{
  ℕ, ◌+◌, ◌/◌, ◌≤◌, ◌<◌, ◌≡◌, refl, sym, subst, ap, ◌∙◌, true, false, some, List, [], ◌∷◌, All, map,
  arith, Bool-cases, Option-cases, inl, inr,
}
use vertix.Base.Bytes.{Bytes}
use vertix.Base.Int.{pos, is_positive}
use vertix.Base.Int64.{add64-small, halve64, limit_63}
use vertix.Base.Map.{Map}
use vertix.Base.Results.{ok, returned, if-ok}
use vertix.Base.Sort.{sort_by, sum_by, sum_by-sort_by, All-sort_by}
use vertix.Sdk.{Sdk, DecimalLaws}
use vertix.Oracle.Types.{AggregatedPrice, OracleParams, pair_accepted}
use vertix.Oracle.Keeper.{State, Context, Staking, Validator, set_aggregated_price}
use vertix.Oracle.Aggregate.{
  WeightedPrice, weighted_less, weighted_median, pick, total_weight, unweighted_median,
}
use vertix.Oracle.Aggregate.Median.{IsPower, power, total_weight-sum}
use vertix.Oracle.Invariants.{price_good, prices_scan}
use vertix.Oracle.Twap.{append_twap_entry, prune_twap}
use package.vertix.Oracle.EndBlock.{
  Rates, weigh, gather, announce, slash_outliers, publish, price_of,
}
use package.vertix.Oracle.EndBlock.Quiet.{Quiet, Quiet-trans, slash_outliers-Quiet}

abbrev pub HasPrice : WeightedPrice → Type 0
HasPrice e = is_positive e.price ≡ true

-- A positive price is picked as soon as the powers reach the half.
pick-positive :
    (h c : ℕ) (e : WeightedPrice) (es : List WeightedPrice)
    → All IsPower (e ∷ es)
    → All HasPrice (e ∷ es)
    → c + sum_by power (e ∷ es) < limit_63
    → h ≤ c + sum_by power (e ∷ es)
    → is_positive (pick (pos h) (pos c) (e ∷ es)) ≡ true
unfolding pick sum_by
pick-positive h c e [] a b small reach =
    rw (a.0, add64-small c (power e) (omega arith)) (ground (arith, b.0))
pick-positive h c e (x ∷ es) a b small reach =
    let rest = pick-positive h (c + power e) x es a.1 b.1 (omega arith) (omega arith) in
    rw (a.0, add64-small c (power e) (omega arith)) (ground (arith, b.0, rest))

-- The powers behind some prices: none is negative, and their sum fits an `int64`.
abbrev pub PowersFit : List WeightedPrice → Type 0
PowersFit es = All IsPower es × (sum_by power es < limit_63)

abbrev pub one_each : WeightedPrice → ℕ
one_each e = 1

pick-some :
    (h : ℕ) (es : List WeightedPrice)
    → 0 < sum_by one_each es
    → PowersFit es
    → All HasPrice es
    → h ≤ sum_by power es
    → is_positive (pick (pos h) (pos 0) es) ≡ true
unfolding sum_by
pick-some h [] some_price fit b reach = absurd (omega arith)
pick-some h (e ∷ es) some_price (a, small) b reach =
    pick-positive h 0 e es a b (omega arith) (omega arith)

pub median-positive :
    (es : List WeightedPrice)
    → 0 < sum_by one_each es
    → PowersFit es
    → All HasPrice es
    → is_positive (weighted_median es) ≡ true
unfolding weighted_median halve64
median-positive es some_price (a, small) b =
    let sorted = sort_by weighted_less es in
    let powers = sum_by-sort_by power weighted_less es in
    let a' = All-sort_by IsPower weighted_less es a in
    let total : total_weight (pos 0) sorted ≡ pos (sum_by power es) =
      total_weight-sum 0 sorted a' (omega (arith, powers, small))
      ∙ ap pos (omega (arith, powers)) in
    rw total (
      pick-some (sum_by power es / 2) sorted
        (omega (arith, sum_by-sort_by one_each weighted_less es, some_price))
        (a', omega (arith, powers, small)) (All-sort_by HasPrice weighted_less es b)
        (omega (arith, powers)))

abbrev pub Good : Sdk → OracleParams → Bytes × AggregatedPrice → Type 0
Good sdk params e = price_good sdk params e.1 ≡ true

module _ (sdk : Sdk) where
  scan-broken :
      (params : OracleParams) (m : Map AggregatedPrice) → prices_scan sdk params m true ≡ true
  unfolding prices_scan
  scan-broken params [] = refl
  scan-broken params ((k, ap) ∷ m) = scan-broken params m

  pub scan-Good :
      (params : OracleParams) (m : Map AggregatedPrice)
      → prices_scan sdk params m false ≡ false
      → All (Good sdk params) m
  unfolding prices_scan
  scan-Good params [] h = tt
  scan-Good params ((k, ap) ∷ m) h = elim (Bool-cases (price_good sdk params ap)) [
    | inl good ↦ (good, scan-Good params m (ground (arith, h, good)))
    | inr bad ↦ absurd (ground (arith, h, bad, scan-broken params m))
  ]

  pub Good-scan :
      (params : OracleParams) (m : Map AggregatedPrice)
      → All (Good sdk params) m
      → prices_scan sdk params m false ≡ false
  unfolding prices_scan
  Good-scan params [] a = refl
  Good-scan params ((k, ap) ∷ m) (good, a) = rw good (Good-scan params m a)

-- The price that is stored for a pair.
abbrev pub aggregated : Sdk → Context → Bytes → List WeightedPrice → AggregatedPrice
aggregated sdk ctx pair es = record {
  pair = pair;
  price = sdk.print_dec (weighted_median es);
  block_height = ctx.height;
  block_time = ctx.block_time;
}

module _ (sdk : Sdk) (w : DecimalLaws sdk) (ctx : Context) (st : Staking) where
  weigh-HasPrice :
      (vals : List Validator) (pair : Bytes) (f : (Bytes × Bytes) × Bytes) (e : WeightedPrice)
      → weigh sdk ctx st vals pair f ≡ some e
      → HasPrice e
  unfolding weigh
  weigh-HasPrice vals pair f e h = ground arith

  pub gather-HasPrice :
      (vals : List Validator) (pair : Bytes) (feeds : List ((Bytes × Bytes) × Bytes))
      → All HasPrice (gather sdk ctx st vals pair feeds)
  unfolding gather
  gather-HasPrice vals pair [] = tt
  gather-HasPrice vals pair (f ∷ feeds) = elim (Option-cases (weigh sdk ctx st vals pair f)) [
    | inl skipped ↦ rw (skipped, All) (gather-HasPrice vals pair feeds)
    | inr (e, weighed) ↦
        rw (weighed, All) (weigh-HasPrice vals pair f e weighed, gather-HasPrice vals pair feeds)
  ]

  pub publish-Quiet :
      (vals : List Validator) (r : Rates) (pair : Bytes) (es : List WeightedPrice) (s u : State)
      → publish sdk ctx st vals r pair es s ≡ ok u
      → Quiet (set_aggregated_price (aggregated sdk ctx pair es) s) u
  unfolding publish announce append_twap_entry prune_twap
  publish-Quiet vals r pair es s u h =
      let m = unweighted_median (map price_of es) in
      let stored = announce sdk ctx st pair es s in
      let before : Quiet (set_aggregated_price (aggregated sdk ctx pair es) s) stored = record {
        feeds_kept = refl;
        prices_kept = refl;
        params_kept = refl;
      } in
      let outliers = slash_outliers sdk ctx st vals r m es stored in
      elim (if-ok (is_positive m) outliers (ok stored) h) [
        | inl (usable, slashed) ↦
            Quiet-trans _ stored u before
              (slash_outliers-Quiet sdk ctx st vals r m es stored u slashed)
        | inr (no_reference, done) ↦ subst (Quiet _) (sym (returned done)) before
      ]

  pub aggregated-Good :
      (params : OracleParams) (pair : Bytes) (es : List WeightedPrice)
      → pair_accepted params pair ≡ true
      → is_positive (weighted_median es) ≡ true
      → price_good sdk params (aggregated sdk ctx pair es) ≡ true
  unfolding price_good
  aggregated-Good params pair es accepted positive =
      ground (arith, accepted, positive, w.parse-print (weighted_median es))
