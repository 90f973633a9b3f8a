-- ===== src/Oracle/EndBlock.antt =====
-- x/oracle/keeper/abci.go: the end of a vote window.
pub mod Quiet
pub mod Prices
pub mod Published
pub mod Quotients
pub mod Returns
pub mod Counters
use vertix.Base.{
  ℕ, zero, suc, ◌+◌, ◌%◌, ◌==◌, Bool, true, false, not, ◌&&◌, ◌||◌, Option, none, some, List, [],
  ◌∷◌, ◌++◌, map, all, if◌then◌else◌,
}
use vertix.Base.Bytes.{Bytes, beq, text}
use vertix.Base.Int.{ℤ, pos, negsuc, ◌+ℤ◌, ◌-ℤ◌, abs, is_zero, is_positive, ltb_ℤ, leb_ℤ}
use vertix.Base.Results.{Result, ok, err, ◌>>=◌, ◌>>◌, or_err, guard}
use vertix.Sdk.{Sdk, dec_from_int}
use vertix.Oracle.Types.{
  OracleError, OracleParams, AggregatedPrice, mem_bytes, bad_decimal, unknown_validator, panicked,
}
use vertix.Oracle.Keeper.{
  State, Context, Staking, Validator, SlashCall, price_aggregated, slashed, emit, get_params,
  set_aggregated_price, all_feeds, delete_all_feeds, get_validator_submitted_pairs,
  inc_total_windows, inc_miss_counter, get_miss_counter, reset_validator_windows,
}
use vertix.Oracle.Aggregate.{WeightedPrice, weighted_median, unweighted_median, quorum_met}
use vertix.Oracle.Twap.{append_twap_entry, prune_twap}

abbrev pub size : ℤ → ℕ
size (pos n) = n
size (negsuc n) = suc n

-- `a % b == 0`; by zero it panics.
abbrev pub divides : ℤ → ℤ → Option Bool
divides a b = if is_zero b then none else some (size a % size b == 0)

-- The decimals of the parameters.
pub record Rates : Type 0 where
  pub quorum_fraction : ℤ
  pub outlier_threshold : ℤ
  pub outlier_slash_rate : ℤ
  pub miss_threshold : ℤ
  pub miss_slash_rate : ℤ

-- `valByOper[key]`: of two validators with one operator address the later counts.
unfoldable pub find_validator : Bytes → List Validator → Option Validator
find_validator key [] = none
find_validator key (v ∷ vals) =
    let rest = find_validator key vals in
    elim rest [ some w ↦ some w | none ↦ if beq v.operator key then some v else none ]

abbrev pub price_of : WeightedPrice → ℤ
price_of e = e.price

unfoldable pub submitted_power : List WeightedPrice → ℤ
submitted_power [] = pos 0
submitted_power (e ∷ es) = e.weight +ℤ submitted_power es

module _ (sdk : Sdk) where
  unfoldable pub read_rates : OracleParams → Result OracleError Rates
  read_rates p = do
    quorum ← or_err (sdk.parse_dec p.quorum_fraction) bad_decimal
    outlier ← or_err (sdk.parse_dec p.outlier_threshold) bad_decimal
    outlier_rate ← or_err (sdk.parse_dec p.outlier_slash_rate) bad_decimal
    miss ← or_err (sdk.parse_dec p.miss_threshold) bad_decimal
    miss_rate ← or_err (sdk.parse_dec p.miss_slash_rate) bad_decimal
    ok (record {
      quorum_fraction = quorum;
      outlier_threshold = outlier;
      outlier_slash_rate = outlier_rate;
      miss_threshold = miss;
      miss_slash_rate = miss_rate;
    })

module _ (sdk : Sdk) (ctx : Context) (st : Staking) where
  -- `slashValidator`, whose errors are dropped.
  unfoldable pub slash_validator : Validator → ℤ → Bytes → State → State
  slash_validator v rate reason s = elim v.cons_addr [
    | none ↦ s
    | some cons_addr ↦ elim (sdk.val_address v.operator) [
      | none ↦ s
      | some val_addr ↦ elim (st.last_power val_addr) [
        | none ↦ s
        | some power ↦
            let call : SlashCall = record {
              cons_addr = cons_addr;
              fraction = rate;
              power = power;
              height = ctx.height;
            } in
            if is_zero power
            then s
            else if ctx.slashes call
            then emit (slashed v.operator reason (sdk.print_dec rate))
                (record s { slash_calls = s.slash_calls ++ call ∷ [] })
            else s
      ]
    ]
  ]

  -- The callback of `IterateAllFeeds`: what one feed adds for a pair.
  unfoldable pub weigh : List Validator → Bytes → (Bytes × Bytes) × Bytes → Option WeightedPrice
  weigh vals pair ((val, feed_pair), price_str) =
      if not (beq feed_pair pair) then none else elim (sdk.parse_dec price_str) [
        | none ↦ none
        | some price ↦ elim (find_validator (sdk.val_string val) vals) [
          | none ↦ none
          | some v ↦ elim (st.last_power val) [
            | none ↦ none
            | some pw ↦
                if not (is_positive price) || not v.bonded || is_zero pw
                then none
                else some (record { price = price; weight = pw; valoper = sdk.val_string val })
          ]
        ]
      ]

  unfoldable pub gather :
      List Validator → Bytes → List ((Bytes × Bytes) × Bytes) → List WeightedPrice
  unfolding weigh
  gather vals pair [] = []
  gather vals pair (f ∷ feeds) =
      let rest = gather vals pair feeds in
      elim (weigh vals pair f) [ none ↦ rest | some e ↦ e ∷ rest ]

  -- `diff := f.price.Sub(refMedian).Abs()`
  abbrev pub distance : ℤ → WeightedPrice → ℤ
  distance ref_median e = abs (e.price -ℤ ref_median)

  -- A valid feed too far from the reference price is slashed.
  unfoldable pub slash_outlier : List Validator → Rates → ℤ → WeightedPrice → State → State
  unfolding slash_validator
  slash_outlier vals r ref_median e s = elim (find_validator e.valoper vals) [
    | none ↦ s
    | some v ↦
        if ltb_ℤ r.outlier_threshold (sdk.quo_dec (distance ref_median e) ref_median)
        then slash_validator v r.outlier_slash_rate (text "outlier") s
        else s
  ]

  -- The loop over the valid feeds. A quotient that no decimal can hold makes `Quo` panic.
  unfoldable pub slash_outliers :
      List Validator → Rates → ℤ → List WeightedPrice → State → Result OracleError State
  unfolding slash_outlier
  slash_outliers vals r ref_median [] s = ok s
  slash_outliers vals r ref_median (e ∷ es) s =
      guard (sdk.quo_fits (distance ref_median e) ref_median) panicked
      >> slash_outliers vals r ref_median es (slash_outlier vals r ref_median e s)

  -- The price of a pair is stored, and written into its history.
  unfoldable pub announce : Bytes → List WeightedPrice → State → State
  announce pair weighted s =
      let median = weighted_median weighted in
      let ap : AggregatedPrice = record {
        pair = pair;
        price = sdk.print_dec median;
        block_height = ctx.height;
        block_time = ctx.block_time;
      } in
      let s' = append_twap_entry sdk pair median ctx.block_time (set_aggregated_price ap s) in
      emit (price_aggregated pair (sdk.print_dec median)) (prune_twap pair ctx.block_time s')

  -- The price of a pair is published, and its outliers are slashed.
  unfoldable pub publish :
      List Validator → Rates → Bytes → List WeightedPrice → State → Result OracleError State
  unfolding announce slash_outliers
  publish vals r pair weighted s =
      let ref_median = unweighted_median (map price_of weighted) in
      let s' = announce pair weighted s in
      if is_positive ref_median then slash_outliers vals r ref_median weighted s' else ok s'

  -- Has a pair reached the quorum? Without a valid feed it has not; `none` is a panic.
  unfoldable pub live : ℤ → Rates → List WeightedPrice → Option Bool
  unfolding submitted_power
  live total_power r [] = some false
  live total_power r (e ∷ es) =
      quorum_met sdk (submitted_power (e ∷ es)) total_power r.quorum_fraction

  -- The loop over the accept list; the pairs that have reached the quorum come out in order.
  unfoldable pub aggregate :
      List Validator → ℤ → Rates → List Bytes → State → Result OracleError (List Bytes × State)
  unfolding publish gather live
  aggregate vals total_power r [] s = ok ([], s)
  aggregate vals total_power r (pair ∷ pairs) s =
      let weighted = gather vals pair (all_feeds s.feeds) in
      let skipped = aggregate vals total_power r pairs s in
      elim (live total_power r weighted) [
        | none ↦ err panicked
        | some false ↦ skipped
        | some true ↦ publish vals r pair weighted s >>= λ u.
            aggregate vals total_power r pairs u >>= λ (pairs', s'). ok (pair ∷ pairs', s')
      ]

  -- One validator at the end of a window: its counters, and the slash for the windows it missed.
  unfoldable pub close_window : OracleParams → Rates → List Bytes → Validator → State → State
  unfolding slash_validator
  close_window params r quorum_live v s = elim (sdk.val_address v.operator) [
    | none ↦ s
    | some val_addr ↦
        let submitted = get_validator_submitted_pairs val_addr s in
        let all_live = all (λ pair. mem_bytes pair submitted) quorum_live in
        let (total, s₁) = inc_total_windows val_addr s in
        let (miss, s₂) =
          (if all_live then (get_miss_counter val_addr s₁, s₁) else inc_miss_counter val_addr s₁) in
        let slashed_if : State =
          (if ltb_ℤ r.miss_threshold (sdk.quo_dec (dec_from_int miss) (dec_from_int total))
            then slash_validator v r.miss_slash_rate (text "miss") s₂
            else s₂) in
        if leb_ℤ params.miss_window_size total
        then reset_validator_windows val_addr slashed_if
        else s₂
  ]

  unfoldable pub close_windows : OracleParams → Rates → List Bytes → List Validator → State → State
  unfolding close_window
  close_windows params r quorum_live [] s = s
  close_windows params r quorum_live (v ∷ vals) s =
      close_windows params r quorum_live vals (close_window params r quorum_live v s)

  -- A window that ends.
  unfoldable pub end_window : OracleParams → State → Result OracleError State
  unfolding aggregate close_windows
  end_window params s = do
    vals ← or_err st.bonded_by_power unknown_validator
    total_power ← or_err st.last_total_power unknown_validator
    r ← read_rates sdk params
    out ← aggregate vals total_power r params.accept_list s
    ok (delete_all_feeds (close_windows params r out.0 vals out.1))

-- `EndBlocker`; without a staking keeper it panics at the end of a window.
unfoldable pub end_blocker : Sdk → Context → State → Result OracleError State
unfolding end_window
end_blocker sdk ctx s =
    let params = get_params sdk s in
    elim (divides ctx.height params.vote_window) [
      | none ↦ err panicked
      | some false ↦ ok s
      | some true ↦ elim ctx.staking [
        | none ↦ err panicked
        | some st ↦ end_window sdk ctx st params s
      ]
    ]
