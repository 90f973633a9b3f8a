-- ===== src/Oracle/Twap/Bounds.antt =====
-- The time-weighted average lies between the least and the greatest price of the pair.
use vertix.Base.{
  ℕ, zero, suc, ◌+◌, ◌-◌, ◌*◌, ◌≤◌, ◌<◌, ◌≡◌, refl, subst, ap, true, false, Option, some, List, [],
  ◌∷◌, arith, inl, inr, ◌⊎◌, if◌then◌else◌, Bool-cases, All, leb, ltb, length, none,
}
use vertix.Base.Bytes.{Bytes}
use vertix.Base.Int.{ℤ, pos, ◌+ℤ◌, ◌≤ℤ◌, leb_ℤ, is_zero, pos-add}
use vertix.Base.Int64.{limit_63}
use vertix.Base.Map.{IsSorted}
use vertix.Base.Results.{Result, ok, err}
use vertix.Base.Sort.{Ascends}
use vertix.Sdk.{Sdk, AverageLaws, one_dec}
use vertix.Oracle.Types.{
  OracleError, OracleParams, TwapEntry, pair_accepted, pair_not_accepted, no_twap_data, stale_price,
}
use vertix.Oracle.Keys.{twap_prefix}
use vertix.Oracle.Keeper.{State, Context, get_params, time_sub}
use package.vertix.Oracle.Twap.{
  entries_of, onto, collect, window_back, end_of, is_stale, weighted_sums, quotient, average,
  read_collected, get_twap,
}
use package.vertix.Oracle.Twap.Order.{
  Keyed, Before, entries_of-Ascends, entries_of-All, onto-All, collect-All, collect-past,
  collect-Ascends, onto-Ascends,
}

module _ (sdk : Sdk) (lo hi : ℕ) where
  -- The stored price parses to a decimal between the bounds.
  pub record IsPriced (e : TwapEntry) : Type 0 where
    pub price_of : ℕ
    pub price_is : sdk.parse_dec e.price ≡ some (pos price_of)
    pub low : lo ≤ price_of
    pub high : price_of ≤ hi

  -- The store of the entries, as far as the pair goes: the keys ascend, an entry under a key of the
  -- pair stands under the key of its time, between 1970 and 2554, and its price is in the bounds.
  pub record IsKept (pair : Bytes) (s : State) : Type 0 where
    pub sorted : IsSorted s.twap
    pub keyed : All (Keyed pair IsPriced) s.twap

-- The first entry, latest first, that is not after now.
unfoldable pub latest : ℕ → List TwapEntry → Option TwapEntry
latest now [] = none
latest now (e ∷ es) = let rest = latest now es in if ltb now e.block_time then rest else some e

-- An average between two bounds.
abbrev pub Averages : ℕ → ℕ → Result OracleError ℤ → Type 0
Averages lo hi (ok v) = (pos lo ≤ℤ v) × (v ≤ℤ pos hi)
Averages lo hi (err e) = ⊥

-- What a read returns, by the latest entry.
abbrev pub Reads : ℕ → ℕ → Context → OracleParams → Option TwapEntry → Result OracleError ℤ → Type 0
Reads lo hi ctx params none r = r ≡ err no_twap_data
Reads lo hi ctx params (some newest) r =
    ((is_stale ctx params newest ≡ true) × (r ≡ err stale_price))
    ⊎ ((is_stale ctx params newest ≡ false) × Averages lo hi r)

-- Two entries have some weight.
abbrev heavy : List TwapEntry → ℕ
heavy [] = 0
heavy (e ∷ []) = 0
heavy (e ∷ f ∷ es) = 1

time_sub-past : (a b : ℕ) → b ≤ a → (w : ℕ) × (time_sub a b ≡ pos w) × (b < a → 1 ≤ w)
unfolding time_sub
time_sub-past a b h = elim (Bool-cases (leb (a - b) (limit_63 - 1))) [
  | inl fits ↦ (a - b, ground (arith, h, fits), λ lt. omega arith)
  | inr over ↦ (limit_63 - 1, ground (arith, h, over), λ lt. omega arith)
]

-- The weight of an entry, which is not zero if another one follows.
weigh_first :
    (now : ℕ) (e : TwapEntry) (es : List TwapEntry)
    → e.block_time ≤ now
    → All (Before e) es
    → (w : ℕ) × (time_sub (end_of now es) e.block_time ≡ pos w) × (heavy (e ∷ es) ≤ w)
weigh_first now e [] h a =
    let (w, w_is, some_weight) = time_sub-past now e.block_time h in (w, w_is, omega arith)
weigh_first now e (f ∷ es) h a =
    let (w, w_is, some_weight) = time_sub-past f.block_time e.block_time (omega (arith, a.0)) in
    (w, w_is, some_weight a.0)

abbrev first : List TwapEntry → Option TwapEntry
first [] = none
first (e ∷ es) = some e

-- The window does not touch the latest entry.
first-collect :
    (now : ℕ) (window : ℤ) (es : List TwapEntry) → first (collect now window es) ≡ latest now es
unfolding collect latest
first-collect now window [] = refl
first-collect now window (e ∷ es) = elim (Bool-cases (ltb now e.block_time)) [
  | inl later ↦ rw later (first-collect now window es)
  | inr past ↦ elim (Bool-cases (leb_ℤ (pos e.block_time +ℤ window) (pos now))) [
    | inl leading ↦ rw (past, leading) refl
    | inr within ↦ rw (past, within) refl
  ]
]

length-onto : (es acc : List TwapEntry) → length (onto es acc) ≡ length es + length acc
unfolding onto
length-onto [] acc = omega arith
length-onto (e ∷ es) acc = omega (arith, length-onto es (e ∷ acc))

nothing-after :
    (R : TwapEntry → TwapEntry → Type 0) (es : List TwapEntry) → All (λ e. All (R e) []) es
nothing-after R [] = tt
nothing-after R (e ∷ es) = (tt, nothing-after R es)

between_ℤ : (lo hi q : ℕ) → lo ≤ q → q ≤ hi → (pos lo ≤ℤ pos q) × (pos q ≤ℤ pos hi)
between_ℤ lo hi q l h = (omega arith, omega arith)

module _ (sdk : Sdk) (laws : AverageLaws sdk) (lo hi : ℕ) where
  open laws use {mul_by_whole, quo_between}

  -- A sum of prices with weights of `total` units.
  pub record IsBetween (sum total : ℕ) : Type 0 where
    pub low : lo * total ≤ sum
    pub high : sum ≤ hi * total

  IsBetween-add :
      (sum total p w : ℕ)
      → IsBetween sum total
      → lo ≤ p
      → p ≤ hi
      → IsBetween (sum + p * w) (total + w)
  IsBetween-add sum total p w b l h = record { low = grind arith; high = grind arith }

  weighted_sums-IsBetween :
      (now : ℕ) (es : List TwapEntry) (sum total : ℕ)
      → Ascends Before es
      → All (λ e. e.block_time ≤ now) es
      → All (IsPriced sdk lo hi) es
      → IsBetween sum total
      → (sum' : ℕ) × (total' : ℕ) × (weighted_sums sdk now es (pos sum) (pos (total * one_dec))
          ≡ ok (pos sum', pos (total' * one_dec)))
        × IsBetween sum' total'
        × (total + heavy es ≤ total')
  unfolding weighted_sums
  weighted_sums-IsBetween now [] sum total o past priced b = (sum, total, refl, b, omega arith)
  weighted_sums-IsBetween now (e ∷ es) sum total o past priced b =
      let p = priced.0.price_of in
      let (w, w_is, some_weight) = weigh_first now e es past.0 o.0 in
      let (sum', total', rest, b', more) =
        weighted_sums-IsBetween now es (sum + p * w) (total + w) o.1 past.1 priced.1
          (IsBetween-add sum total p w b priced.0.low priced.0.high) in
      let units : pos (total * one_dec) +ℤ pos (w * one_dec) ≡ pos ((total + w) * one_dec) =
        rw (pos-add (total * one_dec) (w * one_dec)) (ap pos (omega arith)) in
      (
        sum',
        total',
        rw (priced.0.price_is, w_is, mul_by_whole p w, pos-add sum (p * w), units) rest,
        b',
        omega (arith, more, some_weight),
      )

  quotient-Averages :
      (sum total : ℕ)
      → IsBetween sum total
      → 1 ≤ total
      → Averages lo hi (quotient sdk (pos sum, pos (total * one_dec)))
  quotient-Averages sum zero b some_weight = absurd (omega arith)
  quotient-Averages sum (suc total) b some_weight =
      let (q, q_is, low, high) =
        quo_between sum (suc total * one_dec) lo hi (omega arith) (omega (arith, b.low))
          (omega (arith, b.high)) in
      let weighed : is_zero (pos (suc total * one_dec)) ≡ false = ground arith in
      rw weighed (rw q_is (between_ℤ lo hi q low high))

  average-Averages :
      (now : ℕ) (es : List TwapEntry)
      → Ascends Before es
      → All (λ e. e.block_time ≤ now) es
      → All (IsPriced sdk lo hi) es
      → 1 ≤ length es
      → Averages lo hi (average sdk now es)
  unfolding average
  average-Averages now [] o past priced some_entry = absurd (omega arith)
  average-Averages now (e ∷ []) o past priced some_entry =
      rw priced.0.price_is (between_ℤ lo hi priced.0.price_of priced.0.low priced.0.high)
  average-Averages now (e ∷ f ∷ es) o past priced some_entry =
      let (sum, total, e_is, b, more) =
        weighted_sums-IsBetween now (e ∷ f ∷ es) 0 0 o past priced
          (record { low = omega arith; high = omega arith }) in
      rw e_is (quotient-Averages sum total b (omega (arith, more)))

  read-Reads :
      (ctx : Context) (params : OracleParams) (es : List TwapEntry)
      → Ascends (λ e f. Before f e) es
      → All (λ e. e.block_time ≤ ctx.block_time) es
      → All (IsPriced sdk lo hi) es
      → Reads lo hi ctx params (first es) (read_collected sdk ctx params es)
  unfolding read_collected
  read-Reads ctx params [] o past priced = refl
  read-Reads ctx params (newest ∷ es) o past priced =
      elim (Bool-cases (is_stale ctx params newest)) [
        | inl stale ↦ inl (stale, rw stale refl)
        | inr young ↦ inr (
          young,
          rw young (
              average-Averages ctx.block_time (onto (newest ∷ es) [])
                (onto-Ascends Before (newest ∷ es) [] o tt (nothing-after Before (newest ∷ es)))
                (onto-All (λ e. e.block_time ≤ ctx.block_time) (newest ∷ es) [] past tt)
                (onto-All (IsPriced sdk lo hi) (newest ∷ es) [] priced tt)
                (omega (arith, length-onto (newest ∷ es) []))),
        )
      ]

  -- Where the prices kept for an accepted pair are between two bounds, a read of its average over
  -- any window of time fails for want of data exactly if no entry is in the past, and as stale
  -- exactly if the latest such entry is too old; otherwise it returns an average, which is between
  -- the bounds. A pair that is not accepted is refused.
  pub get_twap-Reads :
      (ctx : Context) (pair : Bytes) (window : ℤ) (s : State)
      → IsKept sdk lo hi pair s
      → ((pair_accepted (get_params sdk s) pair ≡ true)
          × Reads lo hi ctx
              (get_params sdk s)
              (latest ctx.block_time (onto (entries_of (twap_prefix pair) s.twap) []))
              (get_twap sdk ctx pair window s))
        ⊎ ((pair_accepted (get_params sdk s) pair ≡ false)
            × (get_twap sdk ctx pair window s ≡ err pair_not_accepted))
  unfolding get_twap
  get_twap-Reads ctx pair window s kept =
      let es = entries_of (twap_prefix pair) s.twap in
      let late = onto es [] in
      let order =
        onto-Ascends (λ e f. Before f e) es []
          (entries_of-Ascends pair (IsPriced sdk lo hi) s.twap kept.sorted kept.keyed) tt
          (nothing-after (λ e f. Before f e) es) in
      let priced =
        onto-All (IsPriced sdk lo hi) es []
          (entries_of-All pair (IsPriced sdk lo hi) s.twap kept.keyed) tt in
      elim (Bool-cases (pair_accepted (get_params sdk s) pair)) [
        | inl accepted ↦ inl (
          accepted,
          rw accepted (
              subst
                (λ o. Reads lo hi ctx (get_params sdk s) o (
                  read_collected sdk ctx (get_params sdk s)
                    (collect ctx.block_time (window_back window) late)))
                (first-collect ctx.block_time (window_back window) late)
                (read-Reads ctx (get_params sdk s)
                  (collect ctx.block_time (window_back window) late)
                  (collect-Ascends (λ e f. Before f e) ctx.block_time (window_back window) late
                    order)
                  (collect-past ctx.block_time (window_back window) late)
                  (collect-All (IsPriced sdk lo hi) ctx.block_time (window_back window) late
                    priced))),
        )
        | inr refused ↦ inr (refused, rw refused refl)
      ]
