-- ===== src/Oracle/EndBlock/Quiet.antt =====
-- What the steps at the end of a window leave alone.
use vertix.Base.{
  ◌≡◌, refl, sym, subst, ◌∙◌, List, [], ◌∷◌, arith, Bool-cases, Option-cases, inl, inr,
}
use vertix.Base.Bytes.{Bytes, text}
use vertix.Base.Int.{ℤ, ltb_ℤ}
use vertix.Base.Results.{ok, returned, guard-then}
use vertix.Sdk.{Sdk}
use vertix.Oracle.Types.{OracleParams, panicked}
use vertix.Oracle.Keeper.{State, Context, Staking, Validator, inc_total_windows, inc_miss_counter}
use vertix.Oracle.Aggregate.{WeightedPrice}
use package.vertix.Oracle.EndBlock.{
  Rates, find_validator, distance, slash_validator, slash_outlier, slash_outliers, close_window,
  close_windows,
}

-- The feeds, prices and parameters are as they were.
pub record Quiet (s t : State) : Type 0 where
  pub feeds_kept : t.feeds ≡ s.feeds
  pub prices_kept : t.prices ≡ s.prices
  pub params_kept : t.params ≡ s.params

pub Quiet-refl : (s : State) → Quiet s s
Quiet-refl s = record { feeds_kept = refl; prices_kept = refl; params_kept = refl }

pub Quiet-trans : (s t u : State) → Quiet s t → Quiet t u → Quiet s u
Quiet-trans s t u f g = record {
  feeds_kept = g.feeds_kept ∙ f.feeds_kept;
  prices_kept = g.prices_kept ∙ f.prices_kept;
  params_kept = g.params_kept ∙ f.params_kept;
}

module _ (sdk : Sdk) (ctx : Context) (st : Staking) where
  pub slash_validator-Quiet :
      (v : Validator) (rate : ℤ) (reason : Bytes) (s : State)
      → Quiet s (slash_validator sdk ctx st v rate reason s)
  unfolding slash_validator
  slash_validator-Quiet v rate reason s = record {
    feeds_kept = ground arith;
    prices_kept = ground arith;
    params_kept = ground arith;
  }

  slash_outlier-Quiet :
      (vals : List Validator) (r : Rates) (m : ℤ) (e : WeightedPrice) (s : State)
      → Quiet s (slash_outlier sdk ctx st vals r m e s)
  unfolding slash_outlier
  slash_outlier-Quiet vals r m e s = elim (Option-cases (find_validator e.valoper vals)) [
    | inl unknown ↦ rw (unknown, slash_outlier) (Quiet-refl s)
    | inr (v, known) ↦
        rw (known, slash_outlier)
          (elim (Bool-cases (ltb_ℤ r.outlier_threshold (sdk.quo_dec (distance sdk ctx st m e) m))) [
            | inl far ↦ rw far (slash_validator-Quiet v r.outlier_slash_rate (text "outlier") s)
            | inr near ↦ rw near (Quiet-refl s)
          ])
  ]

  pub slash_outliers-Quiet :
      (vals : List Validator) (r : Rates) (m : ℤ) (es : List WeightedPrice) (s t : State)
      → slash_outliers sdk ctx st vals r m es s ≡ ok t
      → Quiet s t
  unfolding slash_outliers
  slash_outliers-Quiet vals r m [] s t h = subst (Quiet s) (sym (returned h)) (Quiet-refl s)
  slash_outliers-Quiet vals r m (e ∷ es) s t h =
      let s' = slash_outlier sdk ctx st vals r m e s in
      let (fits, h') =
        guard-then (sdk.quo_fits (distance sdk ctx st m e) m) panicked
          (slash_outliers sdk ctx st vals r m es s') h in
      Quiet-trans s s' t (slash_outlier-Quiet vals r m e s)
        (slash_outliers-Quiet vals r m es s' t h')

  pub close_window-Quiet :
      (params : OracleParams) (r : Rates) (live : List Bytes) (v : Validator) (s : State)
      → Quiet s (close_window sdk ctx st params r live v s)
  unfolding close_window inc_total_windows inc_miss_counter slash_validator
  close_window-Quiet params r live v s = record {
    feeds_kept = ground arith;
    prices_kept = ground arith;
    params_kept = ground arith;
  }

  pub close_windows-Quiet :
      (params : OracleParams) (r : Rates) (live : List Bytes) (vals : List Validator) (s : State)
      → Quiet s (close_windows sdk ctx st params r live vals s)
  unfolding close_windows
  close_windows-Quiet params r live [] s = Quiet-refl s
  close_windows-Quiet params r live (v ∷ vals) s =
      Quiet-trans s (close_window sdk ctx st params r live v s) _
        (close_window-Quiet params r live v s) (close_windows-Quiet params r live vals _)
