-- ===== src/Oracle/EndBlock/Published.antt =====
-- The end of a window, as `PricesInvariant` sees it.
use vertix.Base.{
  ◌<◌, ◌≡◌, refl, sym, ap, subst, ◌∙◌, ◌⊎◌, Bool, true, false, Option, none, some, List, [], ◌∷◌,
  All, arith, Option-cases, inl, inr,
}
use vertix.Base.Bytes.{Bytes, beq_refl}
use vertix.Base.Int.{ℤ}
use vertix.Base.Map.{All-insert}
use vertix.Base.Results.{Result, ok, err, ◌>>=◌, or_err-then, >>=-eq-ok, returned}
use vertix.Base.Sort.{sum_by}
use vertix.Sdk.{Sdk, DecimalLaws}
use vertix.Oracle.Types.{
  OracleError, panicked, OracleParams, mem_bytes, pair_accepted, unknown_validator,
}
use vertix.Oracle.Keys.{aggregated_price_key}
use vertix.Oracle.Keeper.{
  State, Context, Staking, Validator, get_params, all_feeds, delete_all_feeds, or_default,
}
use vertix.Oracle.Aggregate.{WeightedPrice}
use vertix.Oracle.Invariants.{prices_invariant, prices_scan}
use package.vertix.Oracle.EndBlock.{
  Rates, gather, live, publish, aggregate, end_window, end_blocker, read_rates, close_windows,
  divides,
}
use package.vertix.Oracle.EndBlock.Quiet.{close_windows-Quiet}
use package.vertix.Oracle.EndBlock.Prices.{
  PowersFit, Good, one_each, scan-Good, Good-scan, gather-HasPrice, median-positive, publish-Quiet,
  aggregated, aggregated-Good,
}

within :
    (xs ys : List Bytes)
    → ((x : Bytes) → mem_bytes x ys ≡ true → mem_bytes x xs ≡ true)
    → All (λ x. mem_bytes x xs ≡ true) ys
unfolding mem_bytes
within xs [] f = tt
within xs (y ∷ ys) f =
    (f y (ground (arith, beq_refl y)), within xs ys (λ x h. f x (ground (arith, h))))

mem_bytes-All : (xs : List Bytes) → All (λ x. mem_bytes x xs ≡ true) xs
mem_bytes-All xs = within xs xs (λ x h. h)

accept_list-accepted : (p : OracleParams) → All (λ x. pair_accepted p x ≡ true) p.accept_list
unfolding pair_accepted
accept_list-accepted p = mem_bytes-All p.accept_list

pub Option-Bool-cases : (o : Option Bool) → (o ≡ none) ⊎ ((o ≡ some false) ⊎ (o ≡ some true))
Option-Bool-cases none = inl refl
Option-Bool-cases (some false) = inr (inl refl)
Option-Bool-cases (some true) = inr (inr refl)

module _ (sdk : Sdk) (ctx : Context) (st : Staking) where
  -- What the loop does with a pair, once the quorum has been asked.
  abbrev pub joined :
      List Validator
      → ℤ
      → Rates
      → Bytes
      → List Bytes
      → State
      → Option Bool
      → Result OracleError (List Bytes × State)
  joined vals total r pair pairs s o = elim o [
    | none ↦ err panicked
    | some false ↦ aggregate sdk ctx st vals total r pairs s
    | some true ↦
        publish sdk ctx st vals r pair (gather sdk ctx st vals pair (all_feeds s.feeds)) s >>= λ u.
        aggregate sdk ctx st vals total r pairs u >>= λ (ps, s'). ok (pair ∷ ps, s')
  ]

module _ (sdk : Sdk) (w : DecimalLaws sdk) (ctx : Context) (st : Staking) where
  live-some :
      (total : ℤ) (r : Rates) (es : List WeightedPrice)
      → live sdk ctx st total r es ≡ some true
      → 0 < sum_by one_each es
  unfolding live sum_by
  live-some total r [] h = cc
  live-some total r (e ∷ es) h = omega arith

  -- What a loop over pairs that are accepted leaves behind.
  aggregate-Good :
      (vals : List Validator) (total : ℤ) (r : Rates) (params : OracleParams)
      (pairs pairs' : List Bytes) (s t : State)
      → All (λ p. pair_accepted params p ≡ true) pairs
      → ((pair : Bytes) → PowersFit (gather sdk ctx st vals pair (all_feeds s.feeds)))
      → All (Good sdk params) s.prices
      → aggregate sdk ctx st vals total r pairs s ≡ ok (pairs', t)
      → All (Good sdk params) t.prices × (t.params ≡ s.params)
  unfolding aggregate
  aggregate-Good vals total r params [] pairs' s t a fit good h =
      let same : t ≡ s = cc in
      (subst (λ x. All (Good sdk params) x.prices) (sym same) good, ap (λ x. x.params) same)
  aggregate-Good vals total r params (pair ∷ pairs) pairs' s t a fit good h =
      let es = gather sdk ctx st vals pair (all_feeds s.feeds) in
      elim (Option-Bool-cases (live sdk ctx st total r es)) [
        | inl panics ↦ absurd (ground (arith, h, panics))
        | inr (inl skipped) ↦
            aggregate-Good vals total r params pairs pairs' s t a.1 fit good
              (ground (arith, h, skipped))
        | inr (inr is_live) ↦
            let (u, published, after) = >>=-eq-ok (publish sdk ctx st vals r pair es s) _ (
              subst (λ o. joined sdk ctx st vals total r pair pairs s o ≡ ok (pairs', t)) is_live
                h) in
            let (out, runs, ends) =
              >>=-eq-ok (aggregate sdk ctx st vals total r pairs u) (λ (ps, s'). ok (pair ∷ ps, s'))
                after in
            let q = publish-Quiet sdk w ctx st vals r pair es s u published in
            let positive =
              median-positive es (live-some total r es is_live) (fit pair)
                (gather-HasPrice sdk w ctx st vals pair (all_feeds s.feeds)) in
            let good' : All (Good sdk params) u.prices =
              subst (λ m. All (Good sdk params) m) (sym q.prices_kept)
                (All-insert (Good sdk params) (aggregated_price_key pair)
                  (aggregated sdk ctx pair es) s.prices good
                  (aggregated-Good sdk w ctx st params pair es a.0 positive)) in
            let same : out.1 ≡ t = cc in
            let (g, p) =
              aggregate-Good vals total r params pairs out.0 u out.1 a.1
                (λ x.
                  subst (λ m. PowersFit (gather sdk ctx st vals x (all_feeds m))) (sym q.feeds_kept)
                    (fit x))
                good' runs in
            (
              subst (λ x. All (Good sdk params) x.prices) same g,
              subst (λ x. x.params ≡ s.params) same (p ∙ q.params_kept),
            )
      ]

-- The powers behind the feeds of every pair fit.
abbrev pub FeedsFit : Sdk → Context → State → Type 0
FeedsFit sdk ctx s =
    (st : Staking) (vals : List Validator)
    → ctx.staking ≡ some st
    → st.bonded_by_power ≡ some vals
    → (pair : Bytes) → PowersFit (gather sdk ctx st vals pair (all_feeds s.feeds))

module _ (sdk : Sdk) (w : DecimalLaws sdk) (ctx : Context) where
  end_window-Good :
      (st : Staking) (s u : State)
      → ctx.staking ≡ some st
      → FeedsFit sdk ctx s
      → prices_invariant sdk s ≡ false
      → end_window sdk ctx st (get_params sdk s) s ≡ ok u
      → (prices_invariant sdk u ≡ false) × (u.feeds ≡ [])
  unfolding end_window prices_invariant
  end_window-Good st s u is_st fits holds h =
      let params = get_params sdk s in
      let (vals, ev, h₁) = or_err-then st.bonded_by_power unknown_validator _ h in
      let (total, et, h₂) = or_err-then st.last_total_power unknown_validator _ h₁ in
      let (r, er, h₃) = >>=-eq-ok (read_rates sdk params) _ h₂ in
      let (out, runs, h₄) =
        >>=-eq-ok (aggregate sdk ctx st vals total r params.accept_list s) _ h₃ in
      let (good, kept) =
        aggregate-Good sdk w ctx st vals total r params params.accept_list out.0 s out.1
          (accept_list-accepted params) (fits st vals is_st ev)
          (scan-Good sdk params s.prices holds) runs in
      let q = close_windows-Quiet sdk ctx st params r out.0 vals out.1 in
      let v = delete_all_feeds (close_windows sdk ctx st params r out.0 vals out.1) in
      let same : v ≡ u = sym (returned h₄) in
      let own : get_params sdk v ≡ params = ap (or_default sdk) (q.params_kept ∙ kept) in
      let fine : prices_invariant sdk v ≡ false =
        subst (λ p. prices_scan sdk p v.prices false ≡ false) (sym own)
          (Good-scan sdk params v.prices
            (subst (λ m. All (Good sdk params) m) (sym q.prices_kept) good)) in
      (subst (λ x. prices_invariant sdk x ≡ false) same fine, subst (λ x. x.feeds ≡ []) same refl)

  -- The end blocker keeps the prices invariant: where every stored price is positive and of an
  -- accepted pair, and the powers behind the feeds of each pair are not negative and sum to less
  -- than 2^63, the same holds of every stored price afterwards; and when a window has ended no feed
  -- is left.
  pub end_blocker_prices :
      (s u : State)
      → FeedsFit sdk ctx s
      → prices_invariant sdk s ≡ false
      → end_blocker sdk ctx s ≡ ok u
      → (prices_invariant sdk u ≡ false)
        × (divides ctx.height (get_params sdk s).vote_window ≡ some true → u.feeds ≡ [])
  unfolding end_blocker
  end_blocker_prices s u fits holds h =
      elim (Option-Bool-cases (divides ctx.height (get_params sdk s).vote_window)) [
        | inl panics ↦ absurd (ground (arith, h, panics))
        | inr (inl inside) ↦
            let same : s ≡ u = ground (arith, h, inside) in
            (
              subst (λ x. prices_invariant sdk x ≡ false) same holds,
              λ e. absurd (ground (arith, e, inside)),
            )
        | inr (inr ends) ↦ elim (Option-cases ctx.staking) [
          | inl nobody ↦ absurd (ground (arith, h, ends, nobody))
          | inr (st, is_st) ↦
              let (good, gone) =
                end_window-Good st s u is_st fits holds (ground (arith, h, ends, is_st)) in
              (good, λ e. gone)
        ]
      ]
