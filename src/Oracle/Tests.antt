-- ===== src/Oracle/Tests.antt =====
-- Runs of x/oracle on a small chain, and its theorems at them.
pub mod Delisting
pub mod Twap
mod Windows
pub mod Restart
mod Queries
use mathlib.Core.Option.{some-injective}
use vertix.Base.{
  sym, subst, Bool-cases, inl, inr, ℕ, ◌*◌, ◌≤◌, ◌<◌, ◌≡◌, refl, ◌≢◌, ◌↔◌, true, false, none, some,
  List, [], ◌∷◌, All, if◌then◌else◌, arith,
}
use vertix.Base.Bytes.{Bytes, beq, text}
use vertix.Base.Int.{pos, ◌≤ℤ◌, ◌+ℤ◌}
use vertix.Base.Int64.{wrap64, add64, halve64}
use vertix.Base.Map.{lookup, insert}
use vertix.Base.Results.{Result, ok, err}
use vertix.Base.Sort.{sort_by, insert_by, sum_by}
use vertix.Sdk.Model.{sample_sdk, sample-DecimalLaws}
use vertix.Oracle.Types.{OracleParams, MsgSubmitFeed}
use vertix.Oracle.Keys.{parse_feed_key}
use vertix.Oracle.Keys.Parsing.{feed_bytes}
use vertix.Oracle.Keeper.{State, Context, Staking, Validator, all_feeds}
use vertix.Oracle.Feeder.{
  set_feeder_delegation, bind_feeder, resolve_authorized_feeder, get_feeder_for_validator,
}
use vertix.Oracle.Feeder.Binding.{
  IsBound, validator_of, set_feeder_delegation-binds, delegations-apart,
}
use vertix.Oracle.Server.{submit_feed}
use vertix.Oracle.Server.Submit.{MaySubmit, submitted, submit_feed_iff}
use vertix.Oracle.Aggregate.{
  WeightedPrice, quorum_met, weighted_median, unweighted_median, weighted_less, pick, total_weight,
}
use vertix.Oracle.Aggregate.Median.{weighted_median-between}
use vertix.Oracle.Aggregate.Middle.{at_most, at_least, unweighted_median-splits}
use vertix.Oracle.EndBlock.{end_blocker, divides, read_rates, gather, weigh, find_validator}
use vertix.Oracle.EndBlock.Prices.{PowersFit}
use vertix.Oracle.EndBlock.Published.{FeedsFit, end_blocker_prices}
use vertix.Oracle.Invariants.{prices_invariant}

abbrev pub or_else {ℓ κ} : {E : Type ℓ} {A : Type κ} → Result E A → A → A
or_else (ok a) b = a
or_else (err e) b = b

abbrev pub val_1 : Bytes
val_1 = text "val1"

abbrev val_2 : Bytes
val_2 = text "val2"

abbrev pub hot_key : Bytes
hot_key = text "hot"

abbrev pub vtx : Bytes
vtx = text "VTX:USD"

abbrev pub sample_params : OracleParams
sample_params = record {
  vote_window = pos 2;
  miss_threshold = b'+' ∷ 50_000_000_000_000_000 ∷ [];
  miss_slash_rate = b'+' ∷ 5_000_000_000_000_000 ∷ [];
  outlier_slash_rate = b'+' ∷ 10_000_000_000_000_000 ∷ [];
  outlier_threshold = b'+' ∷ 50_000_000_000_000_000 ∷ [];
  miss_window_size = pos 500;
  quorum_fraction = b'+' ∷ 667_000_000_000_000_000 ∷ [];
  max_price_age = pos 300;
  accept_list = vtx ∷ [];
}

abbrev pub start : State
start = record {
  params = some sample_params;
  feeds = [];
  prices = [];
  miss_counters = [];
  total_windows = [];
  feeder_to_valoper = [];
  valoper_to_feeder = [];
  twap = [];
  slash_calls = [];
  events = [];
}

abbrev only_val_1 : Validator
only_val_1 = record { operator = val_1; bonded = true; cons_addr = some (text "c") }

-- One validator, with power 10.
abbrev staking : Staking
staking = record {
  get_validator = λ a. if beq a val_1 then some only_val_1 else none;
  last_power = λ a. if beq a val_1 then some (pos 10) else none;
  bonded_by_power = some (only_val_1 ∷ []);
  last_total_power = some (pos 10);
}

abbrev pub sample_ctx : Context
sample_ctx = record {
  height = pos 4;
  block_time = 63_000_000_000_000_000_000;
  staking = some staking;
  slashes = λ c. true;
}

pub start-IsBound : IsBound start
unfolding lookup
start-IsBound v f h = cc

pub binds : set_feeder_delegation val_1 hot_key start ≡ ok (bind_feeder val_1 hot_key start)
unfolding set_feeder_delegation lookup
binds = refl

set_feeder_delegation-binds_example :
    IsBound (bind_feeder val_1 hot_key start)
    × ((v : Bytes) → validator_of hot_key start ≡ some v → v ≡ val_1)
    × (validator_of hot_key (bind_feeder val_1 hot_key start) ≡ some val_1)
    × (resolve_authorized_feeder val_1 (bind_feeder val_1 hot_key start) ≡ hot_key)
    × ((f : Bytes)
        → f ≢ hot_key
        → validator_of f (bind_feeder val_1 hot_key start) ≡ validator_of f start)
    × ((v : Bytes)
        → v ≢ val_1
        → resolve_authorized_feeder v (bind_feeder val_1 hot_key start)
          ≡ resolve_authorized_feeder v start)
set_feeder_delegation-binds_example =
    set_feeder_delegation-binds val_1 hot_key start (bind_feeder val_1 hot_key start) start-IsBound
      binds

abbrev feed : MsgSubmitFeed
feed = record { feeder = val_1; validator = val_1; pair = vtx; price = b'+' ∷ 3 ∷ [] }

submit_feed_iff_example :
    (submit_feed sample_sdk sample_ctx feed start
      ≡ ok (submitted sample_ctx feed (feed_bytes val_1 vtx) start))
    ↔ ((val : Bytes) × (key : Bytes) × MaySubmit sample_sdk sample_ctx feed start val key
        × (submitted sample_ctx feed (feed_bytes val_1 vtx) start
            ≡ submitted sample_ctx feed key start))
submit_feed_iff_example =
    submit_feed_iff sample_sdk sample_ctx feed start
      (submitted sample_ctx feed (feed_bytes val_1 vtx) start)

abbrev weighs : ℕ → ℕ → WeightedPrice
weighs price weight = record { price = pos price; weight = pos weight; valoper = val_1 }

-- Of powers 1, 4 and 5, at the prices 1, 7 and 9.
abbrev three : List WeightedPrice
three = weighs 9 5 ∷ weighs 1 1 ∷ weighs 7 4 ∷ []

takes_seven : weighted_median three ≡ pos 7
unfolding weighted_median sort_by insert_by weighted_less total_weight pick add64 wrap64 halve64
    ◌+ℤ◌
takes_seven = refl

-- Of three equal powers the least price is taken: half of three is rounded down to one.
takes_least : weighted_median (weighs 5 1 ∷ weighs 9 1 ∷ weighs 1 1 ∷ []) ≡ pos 1
unfolding weighted_median sort_by insert_by weighted_less total_weight pick add64 wrap64 halve64
    ◌+ℤ◌
takes_least = refl

weighted_median-between_example :
    (pos 6 ≤ℤ weighted_median three) × (weighted_median three ≤ℤ pos 9)
unfolding sum_by
weighted_median-between_example =
    weighted_median-between (pos 6) (pos 9) three (refl, (refl, (refl, tt))) (omega arith)
      (omega arith) (omega arith)

unweighted_median-splits_example :
    (2 ≤ 2 * sum_by (at_most (unweighted_median (pos 4 ∷ pos 2 ∷ []))) (pos 4 ∷ pos 2 ∷ []))
    × (2 < 2 * sum_by (at_least (unweighted_median (pos 4 ∷ pos 2 ∷ []))) (pos 4 ∷ pos 2 ∷ []))
unweighted_median-splits_example = unweighted_median-splits (pos 4 ∷ pos 2 ∷ []) (omega arith)

-- The validator has reported a price of 3.
abbrev loaded : State
loaded = record start {
  feeds =
      (
        feed_bytes val_1 vtx,
        record { validator = val_1; pair = vtx; price = b'+' ∷ 3 ∷ []; block_height = pos 3 },
      )
      ∷ [];
}

after : State
unfolding sample_sdk end_blocker
after = or_else (end_blocker sample_sdk sample_ctx loaded) loaded

ends : end_blocker sample_sdk sample_ctx loaded ≡ ok after
unfolding after read_rates all_feeds parse_feed_key beq find_validator quorum_met ◌+ℤ◌
    unweighted_median sort_by vertix.Base.Int.abs vertix.Base.Int.◌-ℤ◌
ends = refl

loaded-fit :
    (pair : Bytes)
    → PowersFit
        (gather sample_sdk sample_ctx staking (only_val_1 ∷ []) pair (all_feeds loaded.feeds))
unfolding gather weigh all_feeds parse_feed_key sample_sdk find_validator sum_by beq
loaded-fit pair = elim (Bool-cases (beq vtx pair)) [
  | inl same ↦ rw (same, gather, weigh, All) ((refl, tt), omega arith)
  | inr other ↦ rw (other, gather, weigh, All) (tt, omega arith)
]

-- What holds of the feeds behind every pair, whichever way the staking keeper is named.
pub loaded-gathered :
    (P : List WeightedPrice → Type 0)
    → ((pair : Bytes)
        → P (gather sample_sdk sample_ctx staking (only_val_1 ∷ []) pair (all_feeds loaded.feeds)))
    → (st : Staking) (vals : List Validator) → sample_ctx.staking ≡ some st
    → st.bonded_by_power ≡ some vals
    → (pair : Bytes) → P (gather sample_sdk sample_ctx st vals pair (all_feeds loaded.feeds))
loaded-gathered P holds st vals es ev pair =
    let is_st : staking ≡ st = some-injective staking st es in
    let is_vals : only_val_1 ∷ [] ≡ vals =
      some-injective (only_val_1 ∷ []) vals
        (subst (λ x. x.bonded_by_power ≡ some vals) (sym is_st) ev) in
    subst (λ x. P (gather sample_sdk sample_ctx x vals pair (all_feeds loaded.feeds))) is_st
      (subst (λ v. P (gather sample_sdk sample_ctx staking v pair (all_feeds loaded.feeds))) is_vals
        (holds pair))

pub loaded-FeedsFit : FeedsFit sample_sdk sample_ctx loaded
loaded-FeedsFit = loaded-gathered PowersFit loaded-fit

end_blocker_prices_example :
    (prices_invariant sample_sdk after ≡ false)
    × (divides (pos 4) (pos 2) ≡ some true → after.feeds ≡ [])
unfolding prices_invariant
end_blocker_prices_example =
    end_blocker_prices sample_sdk sample-DecimalLaws sample_ctx loaded after loaded-FeedsFit refl
      ends
