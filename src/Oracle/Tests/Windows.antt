-- ===== src/Oracle/Tests/Windows.antt =====
-- The end of a window with one validator.
use vertix.Base.{◌≡◌, refl, ℕ, true, false, List, [], ◌∷◌, All, arith, Bool-cases, inl, inr}
use vertix.Base.Bytes.{Bytes, beq}
use vertix.Base.Int.{pos}
use vertix.Base.Sort.{sort_by, insert_by}
use vertix.Base.Map.{lookup}
use vertix.Base.Results.{ok, err}
use vertix.Pattern.{is_pair}
use vertix.Sdk.Model.{sample_sdk, sample-DecimalLaws, sample-QuotientLaws}
use vertix.Oracle.Types.{
  panicked, validate, validate_dec_open_closed, validate_slash_rate, mem_bytes,
}
use vertix.Oracle.Keeper.{State, all_feeds}
use vertix.Oracle.Keys.{parse_feed_key}
use vertix.Oracle.Aggregate.{WeightedPrice, unweighted_median}
use vertix.Oracle.EndBlock.{
  Rates, end_blocker, gather, weigh, find_validator, publish, slash_outliers,
}
use vertix.Oracle.EndBlock.Quotients.{IsQuotable}
use vertix.Oracle.EndBlock.Returns.{end_blocker-returns}
use vertix.Oracle.EndBlock.Counters.Step.{CountersFit}
use vertix.Oracle.EndBlock.Counters.Fit.{end_blocker-CountersFit}
use package.vertix.Oracle.Tests.{
  sample_params, staking, only_val_1, sample_ctx, loaded, after, ends, loaded-FeedsFit,
  loaded-gathered, val_1, vtx, start,
}

accepted : validate sample_sdk sample_params ≡ ok tt
unfolding validate sample_sdk validate_dec_open_closed validate_slash_rate is_pair mem_bytes beq
accepted = refl

loaded-priced :
    (pair : Bytes)
    → All IsQuotable
        (gather sample_sdk sample_ctx staking (only_val_1 ∷ []) pair (all_feeds loaded.feeds))
unfolding gather weigh all_feeds parse_feed_key sample_sdk find_validator beq
loaded-priced pair = elim (Bool-cases (beq vtx pair)) [
  | inl same ↦ rw (same, gather, weigh, All) (refl, tt)
  | inr other ↦ rw (other, gather, weigh, All) tt
]

end_blocker-returns_example : (u : State) × (end_blocker sample_sdk sample_ctx loaded ≡ ok u)
end_blocker-returns_example =
    end_blocker-returns sample_sdk sample-DecimalLaws sample-QuotientLaws sample_ctx staking loaded
      (only_val_1 ∷ []) 10 refl refl refl (omega arith) accepted loaded-FeedsFit
      (loaded-gathered (All IsQuotable) loaded-priced)

abbrev weighs : ℕ → Bytes → WeightedPrice
weighs price valoper = record { price = pos price; weight = pos 10; valoper = valoper }

-- Two validators report the smallest price there is, and one reports 2^300 times as much.
abbrev one_wild : List WeightedPrice
one_wild =
    weighs 1 val_1
    ∷ weighs 1 val_1
    ∷ weighs
        2037035976334486086268445688409378161051468393665936250636140449354381299763336706183397376
        val_1
    ∷ []

abbrev rates : Rates
rates = record {
  quorum_fraction = pos 667_000_000_000_000_000;
  outlier_threshold = pos 50_000_000_000_000_000;
  outlier_slash_rate = pos 10_000_000_000_000_000;
  miss_threshold = pos 50_000_000_000_000_000;
  miss_slash_rate = pos 5_000_000_000_000_000;
}

-- The distance of the one price from the median cannot be divided by the median.
wild-panics :
    publish sample_sdk sample_ctx staking (only_val_1 ∷ []) rates vtx one_wild start ≡ err panicked
unfolding publish slash_outliers sample_sdk unweighted_median sort_by insert_by vertix.Base.Int.abs
    vertix.Base.Int.◌-ℤ◌
wild-panics = refl

uncounted : CountersFit 500 loaded
unfolding lookup
uncounted val = record {
  misses = 0;
  total = 0;
  misses_are = refl;
  total_is = refl;
  missed = omega arith;
  below = omega arith;
}

end_blocker-CountersFit_example : CountersFit 500 after
end_blocker-CountersFit_example =
    end_blocker-CountersFit sample_sdk sample_ctx 500 loaded after (omega arith) (omega arith) refl
      uncounted ends
