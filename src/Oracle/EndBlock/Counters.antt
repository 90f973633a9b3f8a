-- ===== src/Oracle/EndBlock/Counters.antt =====
-- The counters of missed windows.
pub mod Step
pub mod Fit
use vertix.Base.{
  ℕ, suc, ◌+◌, ◌≤◌, ◌<◌, ◌≡◌, refl, sym, subst, ap, ◌∙◌, ◌⊎◌, Bool, true, false, Option, none, some,
  List, [], ◌∷◌, arith, Bool-cases, Option-cases, inl, inr, all, map, if◌then◌else◌,
}
use vertix.Base.Bytes.{Bytes, text, beq, beq_iff, beq→eq}
use vertix.Base.Int.{ℤ, pos, abs, ◌-ℤ◌, ltb_ℤ, leb_ℤ, is_positive}
use vertix.Base.Int64.{add64, add64-small, limit_63}
use vertix.Base.Map.{Map, lookup, insert, erase, lookup-insert, lookup-erase}
use vertix.Base.Results.{
  Result, ok, err, ◌>>=◌, or_err-then, guard-then, if-ok, >>=-eq-ok, returned,
}
use vertix.Sdk.{Sdk, dec_from_int}
use vertix.Oracle.Types.{OracleError, OracleParams, mem_bytes, panicked, unknown_validator}
use vertix.Oracle.Keys.{miss_counter_key, total_windows_key}
use vertix.Oracle.Keeper.{
  State, Context, Staking, Validator, or_zero, get_params, get_miss_counter, get_total_windows,
  inc_miss_counter, inc_total_windows, reset_validator_windows, get_validator_submitted_pairs,
  delete_all_feeds, all_feeds,
}
use vertix.Oracle.Aggregate.{WeightedPrice, unweighted_median}
use vertix.Oracle.Twap.{append_twap_entry, prune_twap}
use package.vertix.Oracle.EndBlock.{
  Rates, find_validator, distance, slash_validator, slash_outlier, slash_outliers, announce,
  publish, aggregate, live, gather, close_window, close_windows, end_window, end_blocker,
  read_rates, divides, price_of,
}
use package.vertix.Oracle.EndBlock.Published.{Option-Bool-cases, joined}

-- The counters are as they were.
pub record Uncounted (s t : State) : Type 0 where
  pub misses_kept : t.miss_counters ≡ s.miss_counters
  pub totals_kept : t.total_windows ≡ s.total_windows
  pub params_kept : t.params ≡ s.params

pub Uncounted-refl : (s : State) → Uncounted s s
Uncounted-refl s = record { misses_kept = refl; totals_kept = refl; params_kept = refl }

Uncounted-trans : (s t u : State) → Uncounted s t → Uncounted t u → Uncounted s u
Uncounted-trans s t u f g = record {
  misses_kept = g.misses_kept ∙ f.misses_kept;
  totals_kept = g.totals_kept ∙ f.totals_kept;
  params_kept = g.params_kept ∙ f.params_kept;
}

module _ (sdk : Sdk) (ctx : Context) (st : Staking) where
  pub slash_validator-Uncounted :
      (v : Validator) (rate : ℤ) (reason : Bytes) (s : State)
      → Uncounted s (slash_validator sdk ctx st v rate reason s)
  unfolding slash_validator
  slash_validator-Uncounted v rate reason s = record {
    misses_kept = ground arith;
    totals_kept = ground arith;
    params_kept = ground arith;
  }

  slash_outlier-Uncounted :
      (vals : List Validator) (r : Rates) (m : ℤ) (e : WeightedPrice) (s : State)
      → Uncounted s (slash_outlier sdk ctx st vals r m e s)
  unfolding slash_outlier
  slash_outlier-Uncounted vals r m e s = elim (Option-cases (find_validator e.valoper vals)) [
    | inl unknown ↦ rw (unknown, slash_outlier) (Uncounted-refl s)
    | inr (v, known) ↦
        let far = ltb_ℤ r.outlier_threshold (sdk.quo_dec (distance sdk ctx st m e) m) in
        rw (known, slash_outlier)
          (elim (Bool-cases far) [
            | inl is_far ↦
                rw is_far (slash_validator-Uncounted v r.outlier_slash_rate (text "outlier") s)
            | inr near ↦ rw near (Uncounted-refl s)
          ])
  ]

  slash_outliers-Uncounted :
      (vals : List Validator) (r : Rates) (m : ℤ) (es : List WeightedPrice) (s t : State)
      → slash_outliers sdk ctx st vals r m es s ≡ ok t
      → Uncounted s t
  unfolding slash_outliers
  slash_outliers-Uncounted vals r m [] s t h =
      subst (Uncounted s) (sym (returned h)) (Uncounted-refl s)
  slash_outliers-Uncounted vals r m (e ∷ es) s t h =
      let s' = slash_outlier sdk ctx st vals r m e s in
      let (fits, h') =
        guard-then (sdk.quo_fits (distance sdk ctx st m e) m) panicked
          (slash_outliers sdk ctx st vals r m es s') h in
      Uncounted-trans s s' t (slash_outlier-Uncounted vals r m e s)
        (slash_outliers-Uncounted vals r m es s' t h')

  publish-Uncounted :
      (vals : List Validator) (r : Rates) (pair : Bytes) (es : List WeightedPrice) (s u : State)
      → publish sdk ctx st vals r pair es s ≡ ok u
      → Uncounted s u
  unfolding publish announce append_twap_entry prune_twap
  publish-Uncounted vals r pair es s u h =
      let m = unweighted_median (map price_of es) in
      let stored = announce sdk ctx st pair es s in
      let before : Uncounted s stored = record {
        misses_kept = refl;
        totals_kept = refl;
        params_kept = refl;
      } in
      elim (if-ok (is_positive m) (slash_outliers sdk ctx st vals r m es stored) (ok stored) h) [
        | inl (usable, slashed) ↦
            Uncounted-trans s stored u before
              (slash_outliers-Uncounted vals r m es stored u slashed)
        | inr (no_reference, done) ↦ subst (Uncounted s) (sym (returned done)) before
      ]

  pub aggregate-Uncounted :
      (vals : List Validator) (total : ℤ) (r : Rates) (pairs : List Bytes) (s : State)
      (out : List Bytes × State)
      → aggregate sdk ctx st vals total r pairs s ≡ ok out
      → Uncounted s out.1
  unfolding aggregate
  aggregate-Uncounted vals total r [] s out h =
      let same : out.1 ≡ s = cc in subst (λ x. Uncounted s x) (sym same) (Uncounted-refl s)
  aggregate-Uncounted vals total r (pair ∷ pairs) s out h =
      let es = gather sdk ctx st vals pair (all_feeds s.feeds) in
      let split = λ (o : Option Bool) (e : live sdk ctx st total r es ≡ o).
        subst (λ x. joined sdk ctx st vals total r pair pairs s x ≡ ok out) e h in
      elim (Option-Bool-cases (live sdk ctx st total r es)) [
        | inl panics ↦ cc (split none panics)
        | inr (inl skipped) ↦
            aggregate-Uncounted vals total r pairs s out (split (some false) skipped)
        | inr (inr is_live) ↦
            let (u, published, after) =
              >>=-eq-ok (publish sdk ctx st vals r pair es s) _ (split (some true) is_live) in
            let (out', runs, ends) =
              >>=-eq-ok (aggregate sdk ctx st vals total r pairs u) (λ (ps, s'). ok (pair ∷ ps, s'))
                after in
            let same : out'.1 ≡ out.1 = cc in
            subst (Uncounted s) same (
              Uncounted-trans s u out'.1 (publish-Uncounted vals r pair es s u published)
                (aggregate-Uncounted vals total r pairs u out' runs))
      ]
