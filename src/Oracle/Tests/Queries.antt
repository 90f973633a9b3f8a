-- ===== src/Oracle/Tests/Queries.antt =====
-- Queries of x/oracle on a small chain.
use vertix.Base.{◌≡◌, refl, ◌≢◌, true, false, some, [], ◌⊎◌}
use vertix.Base.Bytes.{beq}
use vertix.Base.Int.{pos, ◌+ℤ◌}
use vertix.Base.Int64.{wrap64}
use vertix.Base.Map.{lookup}
use vertix.Base.Results.{Result, ok, err}
use vertix.Sdk.Model.{sample_sdk}
use vertix.Oracle.Types.{AggregatedPrice, pair_accepted, pair_not_accepted}
use vertix.Oracle.Keys.{aggregated_price_key}
use vertix.Oracle.Keeper.{get_params, seconds, time_sub}
use vertix.Oracle.Twap.{get_twap}
use vertix.Oracle.Queries.{QueryError, invalid_argument, failed, query_price, query_twap}
use vertix.Oracle.Queries.Price.{Answers, query_price-Answers}
use package.vertix.Oracle.Tests.{vtx, sample_ctx}
use package.vertix.Oracle.Tests.Restart.{served}
use package.vertix.Oracle.Tests.Twap.{two_prices, later_on}

query_price-Answers_example :
    let r : Result QueryError AggregatedPrice =
      query_price sample_sdk sample_ctx (some vtx) served in
    ((vtx ≡ []) × (r ≡ err invalid_argument))
    ⊎ ((vtx ≢ [])
        × (pair_accepted (get_params sample_sdk served) vtx ≡ false)
        × (r ≡ err (failed pair_not_accepted)))
    ⊎ ((vtx ≢ [])
        × (pair_accepted (get_params sample_sdk served) vtx ≡ true)
        × Answers sample_sdk sample_ctx served (lookup (aggregated_price_key vtx) served.prices) r)
query_price-Answers_example = query_price-Answers sample_sdk sample_ctx vtx served

-- The average over the last second.
averages :
    query_twap sample_sdk later_on (some (record { pair = vtx; window_seconds = 1 })) two_prices
    ≡ ok (pos 125)
unfolding query_twap get_twap sample_sdk pair_accepted beq ◌+ℤ◌ seconds wrap64 time_sub
    vertix.Base.Int.◌-ℤ◌
averages = refl

-- Over more than five hundred years the last price is returned: the window has wrapped around.
window_wraps :
    query_twap sample_sdk later_on
      (some (record { pair = vtx; window_seconds = 18_446_744_073 }))
      two_prices
    ≡ ok (pos 200)
unfolding query_twap get_twap sample_sdk pair_accepted beq ◌+ℤ◌ seconds wrap64 time_sub
    vertix.Base.Int.◌-ℤ◌
window_wraps = refl
