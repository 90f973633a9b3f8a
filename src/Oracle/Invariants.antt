-- ===== src/Oracle/Invariants.antt =====
-- x/oracle/keeper/invariants.go: `true` is broken.
use vertix.Base.{Bool, false, not, ◌&&◌, ◌||◌, Option, none, some, [], ◌∷◌}
use vertix.Base.Int.{ℤ, is_positive}
use vertix.Base.Map.{Map}
use vertix.Sdk.{Sdk}
use vertix.Oracle.Types.{AggregatedPrice, OracleParams, pair_accepted}
use vertix.Oracle.Keeper.{State, get_params}

abbrev pub is_positive_opt : Option ℤ → Bool
is_positive_opt none = false
is_positive_opt (some p) = is_positive p

module _ (sdk : Sdk) where
  -- A stored price is of an accepted pair, and positive.
  unfoldable pub price_good : OracleParams → AggregatedPrice → Bool
  price_good params ap = pair_accepted params ap.pair && is_positive_opt (sdk.parse_dec ap.price)

  unfoldable pub prices_scan : OracleParams → Map AggregatedPrice → Bool → Bool
  unfolding price_good
  prices_scan params [] broken = broken
  prices_scan params ((k, ap) ∷ m) broken =
      prices_scan params m (broken || not (price_good params ap))

  -- `PricesInvariant`
  unfoldable pub prices_invariant : State → Bool
  unfolding prices_scan
  prices_invariant s = prices_scan (get_params sdk s) s.prices false
