-- ===== src/Oracle/Aggregate/Median.antt =====
-- Where the weighted median lies.
use vertix.Base.{
  ℕ, ◌+◌, ◌/◌, ◌≤◌, ◌<◌, ◌≡◌, refl, ap, ◌∙◌, inl, inr, true, false, List, [], ◌∷◌, All, arith,
  if◌then◌else◌, Bool-cases,
}
use vertix.Base.Int.{ℤ, pos, pos_part, ltb_ℤ, leb_ℤ, ◌≤ℤ◌}
use vertix.Base.Int64.{add64-small, halve64, limit_63}
use vertix.Base.Sort.{sort_by, sum_by, sum_by-sort_by, All-sort_by, Ascends, Ascends-sort_by}
use package.vertix.Oracle.Aggregate.{
  WeightedPrice, weighted_less, total_weight, pick, weighted_median,
}

-- A weight that is a power: not negative.
abbrev pub IsPower : WeightedPrice → Type 0
IsPower e = e.weight ≡ pos (pos_part e.weight)

abbrev pub power : WeightedPrice → ℕ
power e = pos_part e.weight

-- The power behind prices below or above a bound.
abbrev pub power_below : ℤ → WeightedPrice → ℕ
power_below lo e = if ltb_ℤ e.price lo then power e else 0

abbrev pub power_above : ℤ → WeightedPrice → ℕ
power_above hi e = if ltb_ℤ hi e.price then power e else 0

abbrev InOrder : WeightedPrice → WeightedPrice → Type 0
InOrder a b = a.price ≤ℤ b.price

pub total_weight-sum :
    (t : ℕ) (es : List WeightedPrice)
    → All IsPower es
    → t + sum_by power es < limit_63
    → total_weight (pos t) es ≡ pos (t + sum_by power es)
unfolding total_weight sum_by
total_weight-sum t [] a small = ground arith
total_weight-sum t (e ∷ es) a small =
    rw (a.0, add64-small t (power e) (omega arith))
      (ground (arith, total_weight-sum (t + power e) es a.1 (omega arith)))

sorted-InOrder : (es : List WeightedPrice) → Ascends InOrder (sort_by weighted_less es)
unfolding weighted_less
sorted-InOrder es =
    Ascends-sort_by InOrder weighted_less (λ x y z h k. omega arith) (λ x y h. ground arith)
      (λ x y h. ground arith) es

-- In order: if one price is not below the bound none after it is, and if one is above, all are.
none-below :
    (lo : ℤ) (e : WeightedPrice) (es : List WeightedPrice)
    → All (InOrder e) es
    → ltb_ℤ e.price lo ≡ false
    → sum_by (power_below lo) es ≡ 0
unfolding sum_by
none-below lo e [] a h = refl
none-below lo e (x ∷ es) a h = ground (arith, none-below lo e es a.1 h)

power_above-All :
    (hi : ℤ) (e : WeightedPrice) (es : List WeightedPrice)
    → All (InOrder e) es
    → ltb_ℤ hi e.price ≡ true
    → sum_by (power_above hi) es ≡ sum_by power es
unfolding sum_by
power_above-All hi e [] a h = refl
power_above-All hi e (x ∷ es) a h = ground (arith, power_above-All hi e es a.1 h)

-- Where the price that is picked lies, when less than `h` of the power is below the lower bound,
-- and what is not above the upper one reaches `h`.
pick-between :
    (lo hi : ℤ) (h c : ℕ) (es : List WeightedPrice)
    → All IsPower es
    → Ascends InOrder es
    → c + sum_by power es < limit_63
    → c + sum_by (power_below lo) es < h
    → h + sum_by (power_above hi) es ≤ c + sum_by power es
    → (lo ≤ℤ pick (pos h) (pos c) es) × (pick (pos h) (pos c) es ≤ℤ hi)
unfolding pick sum_by
pick-between lo hi h c [] a o small low high = absurd (omega arith)
pick-between lo hi h c (e ∷ es) a o small low high =
    rw (a.0, add64-small c (power e) (omega arith))
      (elim (Bool-cases (leb_ℤ (pos h) (pos (c + power e)))) [
        | inl stop ↦ rw stop (ground arith, ground (arith, power_above-All hi e es o.0))
        | inr on ↦ rw on (
            pick-between lo hi h (c + power e) es a.1 o.1 (omega arith)
              (ground (arith, none-below lo e es o.0)) (ground arith))
      ])

-- The weighted median stays within any bounds that the power keeps: of powers that are not negative
-- and whose sum fits an `int64`, if less than half of the sum, rounded down, has reported a price
-- below the lower bound, and at most the rest of the sum one above the upper bound, the median is
-- between the bounds.
pub weighted_median-between :
    (lo hi : ℤ) (entries : List WeightedPrice)
    → All IsPower entries
    → sum_by power entries < limit_63
    → sum_by (power_below lo) entries < sum_by power entries / 2
    → sum_by power entries / 2 + sum_by (power_above hi) entries ≤ sum_by power entries
    → (lo ≤ℤ weighted_median entries) × (weighted_median entries ≤ℤ hi)
unfolding weighted_median halve64
weighted_median-between lo hi entries a small low high =
    let sorted = sort_by weighted_less entries in
    let powers = sum_by-sort_by power weighted_less entries in
    let total : total_weight (pos 0) sorted ≡ pos (sum_by power entries) =
      total_weight-sum 0 sorted (All-sort_by IsPower weighted_less entries a)
        (omega (arith, powers, small))
      ∙ ap pos (omega (arith, powers)) in
    rw total (
      pick-between lo hi (sum_by power entries / 2) 0 sorted
        (All-sort_by IsPower weighted_less entries a) (sorted-InOrder entries)
        (omega (arith, powers, small))
        (omega (arith, low, sum_by-sort_by (power_below lo) weighted_less entries))
        (omega (arith, high, powers, sum_by-sort_by (power_above hi) weighted_less entries)))
