-- ===== src/Daemon/Aggregate.antt =====
-- feeder/feeder/aggregate.go: one price from the quotes of several providers.
pub mod Middle
pub mod Robust
use vertix.Base.{ℕ, ◌-◌, ◌/◌, ◌%◌, ◌==◌, Bool, not, List, [], ◌∷◌, if◌then◌else◌, length, get_elem?}
use vertix.Base.Int.{ℤ, pos, ◌+ℤ◌, ◌-ℤ◌, abs, is_positive, ltb_ℤ, leb_ℤ}
use vertix.Base.Results.{Result, ok, err, ◌>>=◌, ◌>>◌, guard, or_err}
use vertix.Base.Sort.{sort_by}
use vertix.Sdk.{Sdk}

pub data FeederError : Type 0 where
  empty_set insufficient_sources : FeederError
  -- an index out of range
  panicked : FeederError

-- The middle of prices in ascending order; `halve` is `QuoInt64(2)`.
unfoldable pub middle : (ℤ → ℤ) → List ℤ → Result FeederError ℤ
middle halve sorted =
    let n = length sorted in
    let between : Result FeederError ℤ = do
      lo ← or_err (get_elem? sorted (n / 2 - 1)) panicked
      hi ← or_err (get_elem? sorted (n / 2)) panicked
      ok (halve (lo +ℤ hi))
    in if n % 2 == 1 then or_err (get_elem? sorted (n / 2)) panicked else between

unfoldable pub median : (ℤ → ℤ) → List ℤ → Result FeederError ℤ
unfolding middle
median halve prices =
    if length prices == 0 then err empty_set else middle halve (sort_by ltb_ℤ prices)

-- The prices at most `band` away from `mid`, in their order.
unfoldable pub within : ℤ → ℤ → List ℤ → List ℤ
within band mid [] = []
within band mid (p ∷ ps) =
    let rest = within band mid ps in if leb_ℤ (abs (p -ℤ mid)) band then p ∷ rest else rest

module _ (sdk : Sdk) (halve : ℤ → ℤ) where
  unfoldable pub drop_deviating : ℤ → List ℤ → List ℤ
  unfolding within
  drop_deviating max_deviation prices =
      if length prices == 0 then prices else elim (median halve prices) [
        | err e ↦ prices
        | ok mid ↦
            if not (is_positive mid)
            then prices
            else within (sdk.mul_dec mid max_deviation) mid prices
      ]

  unfoldable pub cross_source_median : ℤ → ℤ → List ℤ → Result FeederError ℤ
  cross_source_median max_deviation min_providers prices = do
    guard (not (ltb_ℤ (pos (length prices)) min_providers)) insufficient_sources
    let filtered = drop_deviating max_deviation prices
    guard (not (ltb_ℤ (pos (length filtered)) min_providers)) insufficient_sources
    median halve filtered
