-- ===== src/Oracle/Aggregate.antt =====
-- x/oracle/keeper/aggregate.go: the medians, and the quorum.
pub mod Median
pub mod Middle
use vertix.Base.{
  ℕ, ltb, zero, suc, ◌-◌, ◌/◌, Bool, true, false, not, ◌&&◌, Option, none, some, List, [], ◌∷◌,
  length, get_elem?, if◌then◌else◌,
}
use vertix.Base.Bytes.{Bytes, bytes_lt}
use vertix.Base.Int.{ℤ, pos, negsuc, ltb_ℤ, leb_ℤ, eqb_ℤ, is_zero}
use vertix.Base.Int64.{add64, halve64}
use vertix.Base.Sort.{sort_by}
use vertix.Sdk.{Sdk, dec_from_int}

-- A validator's price, with its voting power.
pub record WeightedPrice : Type 0 where
  pub price : ℤ
  pub weight : ℤ
  pub valoper : Bytes

unfoldable pub weighted_less : WeightedPrice → WeightedPrice → Bool
weighted_less a b =
    if eqb_ℤ a.price b.price then bytes_lt a.valoper b.valoper else ltb_ℤ a.price b.price

unfoldable pub total_weight : ℤ → List WeightedPrice → ℤ
total_weight total [] = total
total_weight total (e ∷ es) = total_weight (add64 total e.weight) es

-- The second loop: the first price at which the sum of the weights has reached `half`.
unfoldable pub pick : ℤ → ℤ → List WeightedPrice → ℤ
pick half cum [] = pos 0
pick half cum (e ∷ es) =
    let cum' = add64 cum e.weight in
    let rest = pick half cum' es in if leb_ℤ half cum' then e.price else rest

unfoldable pub weighted_median : List WeightedPrice → ℤ
unfolding pick total_weight weighted_less
weighted_median entries =
    let sorted = sort_by weighted_less entries in
    pick (halve64 (total_weight (pos 0) sorted)) (pos 0) sorted

abbrev pub or_zero : Option ℤ → ℤ
or_zero none = pos 0
or_zero (some p) = p

unfoldable pub unweighted_median : List ℤ → ℤ
unweighted_median prices =
    let sorted = sort_by ltb_ℤ prices in or_zero (get_elem? sorted ((length sorted - 1) / 2))

-- `Int64`, which panics on an integer out of range.
abbrev pub int64 : ℤ → Option ℤ
int64 (pos n) = if ltb n vertix.Base.Int64.limit_63 then some (pos n) else none
int64 (negsuc n) = if ltb n vertix.Base.Int64.limit_63 then some (negsuc n) else none

module _ (sdk : Sdk) where
  -- `none` is a panic.
  unfoldable pub quorum_met : ℤ → ℤ → ℤ → Option Bool
  quorum_met submitted_power total_power quorum_fraction =
      if is_zero total_power then some false else elim (int64 submitted_power) [
        | none ↦ none
        | some submitted ↦ elim (int64 total_power) [
          | none ↦ none
          | some total ↦
              let ratio = sdk.quo_dec (dec_from_int submitted) (dec_from_int total) in
              some (not (ltb_ℤ ratio quorum_fraction))
        ]
      ]
