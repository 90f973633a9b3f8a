-- ===== src/Oracle/EndBlock/Returns.antt =====
-- The end blocker comes to its end.
use vertix.Base.{
  ℕ, ◌<◌, ◌≡◌, refl, sym, subst, ap, ◌∙◌, Bool, true, false, Option, none, some, List, [], ◌∷◌, All,
  arith, Bool-cases, inl, inr, not, ltb, ◌%◌, ◌==◌,
}
use vertix.Base.Bytes.{Bytes}
use vertix.Base.Int.{ℤ, pos, pos-add, is_zero, is_positive, ltb_ℤ}
use vertix.Base.Int64.{limit_63}
use vertix.Base.Results.{Result, ok, err, or_err-then, check-then, guard-then, or_err-some, >>=-ok}
use vertix.Base.Sort.{sum_by}
use vertix.Sdk.{Sdk, DecimalLaws, QuotientLaws, dec_from_int}
use vertix.Oracle.Types.{
  OracleError, panicked, OracleParams, invalid_params, unknown_validator, validate,
  validate_dec_open_closed, validate_slash_rate,
}
use vertix.Oracle.Keeper.{
  State, Context, Staking, Validator, get_params, all_feeds, delete_all_feeds,
}
use vertix.Oracle.Aggregate.{WeightedPrice, quorum_met}
use vertix.Oracle.Aggregate.Median.{IsPower, power}
use package.vertix.Oracle.EndBlock.{
  Rates, gather, submitted_power, live, publish, aggregate, end_window, end_blocker, read_rates,
  divides, size, close_windows,
}
use package.vertix.Oracle.EndBlock.Prices.{PowersFit, gather-HasPrice, publish-Quiet}
use package.vertix.Oracle.EndBlock.Quotients.{IsQuotable, publish-returns}
use package.vertix.Oracle.EndBlock.Published.{FeedsFit}

module _ (sdk : Sdk) where
  open_closed-parses :
      (s : Bytes) → validate_dec_open_closed sdk s ≡ ok tt → (d : ℤ) × (sdk.parse_dec s ≡ some d)
  unfolding validate_dec_open_closed
  open_closed-parses s h =
      let (d, e, rest) = or_err-then (sdk.parse_dec s) invalid_params _ h in (d, e)

  slash_rate-parses :
      (s : Bytes) → validate_slash_rate sdk s ≡ ok tt → (d : ℤ) × (sdk.parse_dec s ≡ some d)
  unfolding validate_slash_rate
  slash_rate-parses s h =
      let (d, e, rest) = or_err-then (sdk.parse_dec s) invalid_params _ h in (d, e)

  -- Accepted parameters have a window and rates that can be read.
  pub record IsReadable (p : OracleParams) : Type 0 where
    pub window : is_positive p.vote_window ≡ true
    pub window_size : is_positive p.miss_window_size ≡ true
    pub rates : Rates
    pub rates_are : read_rates sdk p ≡ ok rates

  pub validate-IsReadable : (p : OracleParams) → validate sdk p ≡ ok tt → IsReadable p
  unfolding validate read_rates
  validate-IsReadable p h =
      let (window, h₁) = guard-then (is_positive p.vote_window) invalid_params _ h in
      let (size, h₂) = guard-then (is_positive p.miss_window_size) invalid_params _ h₁ in
      let (age, h₃) = guard-then (is_positive p.max_price_age) invalid_params _ h₂ in
      let (miss, h₄) = check-then (validate_dec_open_closed sdk p.miss_threshold) _ h₃ in
      let (outlier, h₅) = check-then (validate_dec_open_closed sdk p.outlier_threshold) _ h₄ in
      let (quorum, h₆) = check-then (validate_dec_open_closed sdk p.quorum_fraction) _ h₅ in
      let (miss_rate, h₇) = check-then (validate_slash_rate sdk p.miss_slash_rate) _ h₆ in
      let (outlier_rate, h₈) = check-then (validate_slash_rate sdk p.outlier_slash_rate) _ h₇ in
      let (m, m_is) = open_closed-parses p.miss_threshold miss in
      let (o, o_is) = open_closed-parses p.outlier_threshold outlier in
      let (q, q_is) = open_closed-parses p.quorum_fraction quorum in
      let (mr, mr_is) = slash_rate-parses p.miss_slash_rate miss_rate in
      let (or, or_is) = slash_rate-parses p.outlier_slash_rate outlier_rate in
      record {
        window = window;
        window_size = size;
        rates = record {
          quorum_fraction = q;
          outlier_threshold = o;
          outlier_slash_rate = or;
          miss_threshold = m;
          miss_slash_rate = mr;
        };
        rates_are = rw (q_is, o_is, or_is, m_is, mr_is) refl;
      }

divides-returns : (a b : ℤ) → is_positive b ≡ true → (q : Bool) × (divides a b ≡ some q)
divides-returns a b positive =
    let windowed : is_zero b ≡ false = ground (arith, positive) in
    (size a % size b == 0, rw windowed refl)

submitted-sum :
    (es : List WeightedPrice) → All IsPower es → submitted_power es ≡ pos (sum_by power es)
unfolding submitted_power sum_by
submitted-sum [] a = refl
submitted-sum (e ∷ es) a = rw (submitted-sum es a.1, a.0) (pos-add (power e) (sum_by power es))

-- The prices behind the feeds of every pair can be divided.
abbrev pub PricesFit : Sdk → Context → State → Type 0
PricesFit sdk ctx s =
    (st : Staking) (vals : List Validator)
    → ctx.staking ≡ some st
    → st.bonded_by_power ≡ some vals
    → (pair : Bytes) → All IsQuotable (gather sdk ctx st vals pair (all_feeds s.feeds))

module _ (sdk : Sdk) (w : DecimalLaws sdk) (laws : QuotientLaws sdk) (ctx : Context)
    (st : Staking) where
  -- The quorum is asked without a panic.
  live-returns :
      (total : ℕ) (r : Rates) (es : List WeightedPrice)
      → total < limit_63
      → PowersFit es
      → (b : Bool) × (live sdk ctx st (pos total) r es ≡ some b)
  unfolding live quorum_met
  live-returns total r [] small fit = (false, refl)
  live-returns total r (e ∷ es) small (powers, fits) =
      let sum = submitted-sum (e ∷ es) powers in
      elim (Bool-cases (is_zero (pos total))) [
        | inl nobody ↦ (false, rw nobody refl)
        | inr some_power ↦
            let whole : ltb total limit_63 ≡ true = ground arith in
            let part : ltb (sum_by power (e ∷ es)) limit_63 ≡ true = ground arith in
            let ratio =
              sdk.quo_dec (dec_from_int (pos (sum_by power (e ∷ es)))) (dec_from_int (pos total)) in
            (not (ltb_ℤ ratio r.quorum_fraction), rw (some_power, sum, part, whole) refl)
      ]

  aggregate-returns :
      (vals : List Validator) (total : ℕ) (r : Rates) (pairs : List Bytes) (s : State)
      → total < limit_63
      → ((pair : Bytes) → PowersFit (gather sdk ctx st vals pair (all_feeds s.feeds)))
      → ((pair : Bytes) → All IsQuotable (gather sdk ctx st vals pair (all_feeds s.feeds)))
      → (out : List Bytes × State) × (aggregate sdk ctx st vals (pos total) r pairs s ≡ ok out)
  unfolding aggregate
  aggregate-returns vals total r [] s small fit priced = (([], s), refl)
  aggregate-returns vals total r (pair ∷ pairs) s small fit priced =
      let es = gather sdk ctx st vals pair (all_feeds s.feeds) in
      let (b, asked) = live-returns total r es small (fit pair) in
      elim (Bool-cases b) [
        | inr skips ↦
            let (out, runs) = aggregate-returns vals total r pairs s small fit priced in
            (out, rw (asked, skips, aggregate) runs)
        | inl is_live ↦
            let has = gather-HasPrice sdk w ctx st vals pair (all_feeds s.feeds) in
            let (u, published) =
              publish-returns sdk laws ctx st vals r pair es s has (priced pair) in
            let q = publish-Quiet sdk w ctx st vals r pair es s u published in
            let feeds : (x : Bytes)
                → gather sdk ctx st vals x (all_feeds u.feeds)
                  ≡ gather sdk ctx st vals x (all_feeds s.feeds) =
              λ x. ap (λ m. gather sdk ctx st vals x (all_feeds m)) q.feeds_kept in
            let (out, runs) =
              aggregate-returns vals total r pairs u small
                (λ x. subst PowersFit (sym (feeds x)) (fit x))
                (λ x. subst (All IsQuotable) (sym (feeds x)) (priced x)) in
            (
              (pair ∷ out.0, out.1),
              rw (asked, is_live, aggregate)
                  (>>=-ok (publish sdk ctx st vals r pair es s) _ published ∙ rw runs refl),
            )
      ]

  abbrev staked : State → Option Staking → Result OracleError State
  staked s o = elim o [ none ↦ err panicked | some t ↦ end_window sdk ctx t (get_params sdk s) s ]

  -- With accepted parameters, a staking keeper that answers, a total power below 2^63, powers
  -- behind the feeds of each pair that are not negative and sum to less than 2^63, and prices in
  -- the feeds that count of at most 2^255 of the smallest decimals, the end blocker neither fails
  -- nor panics, whatever the slashing keeper answers.
  pub end_blocker-returns :
      (s : State) (vals : List Validator) (total : ℕ)
      → ctx.staking ≡ some st
      → st.bonded_by_power ≡ some vals
      → st.last_total_power ≡ some (pos total)
      → total < limit_63
      → validate sdk (get_params sdk s) ≡ ok tt
      → FeedsFit sdk ctx s
      → PricesFit sdk ctx s
      → (u : State) × (end_blocker sdk ctx s ≡ ok u)
  unfolding end_blocker end_window
  end_blocker-returns s vals total is_st are_vals is_total small valid fits priced =
      let params = get_params sdk s in
      let readable = validate-IsReadable sdk params valid in
      let (out, runs) =
        aggregate-returns vals total readable.rates params.accept_list s small
          (fits st vals is_st are_vals) (priced st vals is_st are_vals) in
      let u = delete_all_feeds (close_windows sdk ctx st params readable.rates out.0 vals out.1) in
      let ended : end_window sdk ctx st params s ≡ ok u =
        or_err-some st.bonded_by_power unknown_validator _ are_vals
        ∙ (or_err-some st.last_total_power unknown_validator _ is_total
            ∙ (>>=-ok (read_rates sdk params) _ readable.rates_are
                ∙ >>=-ok (aggregate sdk ctx st vals (pos total) readable.rates params.accept_list s)
                    _ runs)) in
      let (b, asked) = divides-returns ctx.height params.vote_window readable.window in
      elim (Bool-cases b) [
        | inr inside ↦ (s, rw (asked, inside, end_blocker) refl)
        | inl ends ↦ (u, rw (asked, ends, end_blocker) (ap (staked s) is_st ∙ ended))
      ]
