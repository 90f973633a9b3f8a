-- ===== src/Oracle/EndBlock/Counters/Fit.antt =====
-- The counters stay within the size of the window that they are reset at.
use vertix.Base.{
  ℕ, suc, ◌≤◌, ◌<◌, ◌≡◌, refl, sym, subst, ap, ◌∙◌, Bool, true, false, List, [], ◌∷◌, arith,
  Option-cases, inl, inr, all, if◌then◌else◌,
}
use vertix.Base.Bytes.{Bytes, text}
use vertix.Base.Int.{ℤ, pos, ltb_ℤ}
use vertix.Base.Int64.{add64, add64-small, limit_63}
use vertix.Base.Map.{lookup}
use vertix.Base.Results.{ok, or_err-then, >>=-eq-ok, returned}
use vertix.Sdk.{Sdk, dec_from_int}
use vertix.Oracle.Types.{OracleParams, mem_bytes, unknown_validator}
use vertix.Oracle.Keys.{miss_counter_key, total_windows_key}
use vertix.Oracle.Keeper.{
  State, Context, Staking, Validator, or_zero, get_params, get_total_windows, inc_miss_counter,
  inc_total_windows, get_validator_submitted_pairs, delete_all_feeds,
}
use package.vertix.Oracle.EndBlock.{
  Rates, slash_validator, close_window, close_windows, aggregate, end_window, end_blocker,
  read_rates, divides,
}
use package.vertix.Oracle.EndBlock.Published.{Option-Bool-cases}
use package.vertix.Oracle.EndBlock.Counters.{
  Uncounted, Uncounted-refl, slash_validator-Uncounted, aggregate-Uncounted,
}
use package.vertix.Oracle.EndBlock.Counters.Step.{
  Counted, CountersFit, closed-Counted, counted, counted-Counts, Counts-Uncounted,
}

module _ (sdk : Sdk) (ctx : Context) (st : Staking) (n : ℕ) (some_window : 1 ≤ n)
    (small : n < limit_63) (params : OracleParams) (sized : params.miss_window_size ≡ pos n) where
  slash_if-Uncounted :
      (far : Bool) (v : Validator) (rate : ℤ) (s : State)
      → Uncounted s (if far then slash_validator sdk ctx st v rate (text "miss") s else s)
  slash_if-Uncounted true v rate s = slash_validator-Uncounted sdk ctx st v rate (text "miss") s
  slash_if-Uncounted false v rate s = Uncounted-refl s

  close_window-Fits :
      (r : Rates) (live : List Bytes) (v : Validator) (s : State)
      → CountersFit n s
      → CountersFit n (close_window sdk ctx st params r live v s)
  unfolding close_window inc_total_windows inc_miss_counter
  close_window-Fits r live v s fit val = elim (Option-cases (sdk.val_address v.operator)) [
    | inl unknown ↦ rw (unknown, close_window) (fit val)
    | inr (a, known) ↦
        let c = fit a in
        let all_live = all (λ pair. mem_bytes pair (get_validator_submitted_pairs a s)) live in
        let count = add64 (get_total_windows a s) (pos 1) in
        let after = counted a c.misses c.total s all_live count in
        let far =
          ltb_ℤ r.miss_threshold (sdk.quo_dec (dec_from_int after.0) (dec_from_int count)) in
        let t =
          if far
          then slash_validator sdk ctx st v r.miss_slash_rate (text "miss") after.1
          else after.1 in
        let count_is : count ≡ pos (suc c.total) =
          ap (λ x. add64 x (pos 1)) c.total_is
          ∙ add64-small c.total 1 (omega (arith, c.below, small))
          ∙ ap pos (omega arith) in
        let k =
          counted-Counts a c.misses c.total s all_live count count_is c.misses_are
            (omega (arith, c.missed, c.below, small)) in
        let k' =
          Counts-Uncounted a c.misses c.total s all_live after.1 t k
            (slash_if-Uncounted far v r.miss_slash_rate after.1) in
        rw (known, close_window)
          (closed-Counted n a val s after.1 t all_live c params.miss_window_size count some_window
            (fit val) sized count_is k k')
  ]

  close_windows-Fits :
      (r : Rates) (live : List Bytes) (vals : List Validator) (s : State)
      → CountersFit n s
      → CountersFit n (close_windows sdk ctx st params r live vals s)
  unfolding close_windows
  close_windows-Fits r live [] s fit = fit
  close_windows-Fits r live (v ∷ vals) s fit =
      close_windows-Fits r live vals (close_window sdk ctx st params r live v s)
        (close_window-Fits r live v s fit)

Counted-Uncounted :
    (n : ℕ) (val : Bytes) (s t : State) → Uncounted s t → Counted n val s → Counted n val t
Counted-Uncounted n val s t q c = record {
  misses = c.misses;
  total = c.total;
  misses_are = ap (λ m. or_zero (lookup (miss_counter_key val) m)) q.misses_kept ∙ c.misses_are;
  total_is = ap (λ m. or_zero (lookup (total_windows_key val) m)) q.totals_kept ∙ c.total_is;
  missed = c.missed;
  below = c.below;
}

Counted-feeds :
    (n : ℕ) (val : Bytes) (s : State) → Counted n val s → Counted n val (delete_all_feeds s)
Counted-feeds n val s c =
    Counted-Uncounted n val s (delete_all_feeds s)
      (record { misses_kept = refl; totals_kept = refl; params_kept = refl }) c

module _ (sdk : Sdk) (ctx : Context) where
  end_window-Fits :
      (n : ℕ) (s u : State) (st : Staking)
      → 1 ≤ n
      → n < limit_63
      → (get_params sdk s).miss_window_size ≡ pos n
      → CountersFit n s
      → end_window sdk ctx st (get_params sdk s) s ≡ ok u
      → CountersFit n u
  unfolding end_window
  end_window-Fits n s u st some_window small sized fit h =
      let params = get_params sdk s in
      let (vals, ev, h₁) = or_err-then st.bonded_by_power unknown_validator _ h in
      let (total, et, h₂) = or_err-then st.last_total_power unknown_validator _ h₁ in
      let (r, er, h₃) = >>=-eq-ok (read_rates sdk params) _ h₂ in
      let (out, runs, h₄) =
        >>=-eq-ok (aggregate sdk ctx st vals total r params.accept_list s) _ h₃ in
      let q = aggregate-Uncounted sdk ctx st vals total r params.accept_list s out runs in
      let fit' : CountersFit n out.1 = λ val. Counted-Uncounted n val s out.1 q (fit val) in
      let closed =
        close_windows-Fits sdk ctx st n some_window small params sized r out.0 vals out.1 fit' in
      subst (CountersFit n) (sym (returned h₄)) (λ val.
        Counted-feeds n val (close_windows sdk ctx st params r out.0 vals out.1) (closed val))

  -- An end blocker keeps the counters in order: where no validator has missed more windows than have
  -- been counted for it, and fewer have been counted than the size of the miss window, which is at
  -- least one and below 2^63, the same holds afterwards; so no counter ever wraps around.
  pub end_blocker-CountersFit :
      (n : ℕ) (s u : State)
      → 1 ≤ n
      → n < limit_63
      → (get_params sdk s).miss_window_size ≡ pos n
      → CountersFit n s
      → end_blocker sdk ctx s ≡ ok u
      → CountersFit n u
  unfolding end_blocker
  end_blocker-CountersFit n s u some_window small sized fit h =
      elim (Option-Bool-cases (divides ctx.height (get_params sdk s).vote_window)) [
        | inl panics ↦ absurd (ground (arith, h, panics))
        | inr (inl inside) ↦
            let same : s ≡ u = ground (arith, h, inside) in subst (CountersFit n) same fit
        | inr (inr ends) ↦ elim (Option-cases ctx.staking) [
          | inl nobody ↦ absurd (ground (arith, h, ends, nobody))
          | inr (st, is_st) ↦
              end_window-Fits n s u st some_window small sized fit (ground (arith, h, ends, is_st))
        ]
      ]
