-- ===== src/Oracle/Queries.antt =====
-- x/oracle/keeper/grpc_query.go: the queries, which change nothing. A request that is `nil` is
-- `none`.
pub mod Price
use vertix.Base.{ℕ, Bool, not, Option, none, some, [], ◌*◌, ◌==◌}
use vertix.Base.Bytes.{Bytes, beq}
use vertix.Base.Int.{ℤ, pos}
use vertix.Base.Int64.{wrap64}
use vertix.Base.Results.{Result, ok, err, ◌>>=◌, ◌>>◌, guard, or_err}
use vertix.Sdk.{Sdk}
use vertix.Oracle.Types.{
  OracleError, OracleParams, AggregatedPrice, no_price, no_twap_data, stale_price,
}
use vertix.Oracle.Keeper.{
  State, Context, get_params, get_aggregated_price, get_miss_counter, get_total_windows, seconds,
}
use vertix.Oracle.Feeder.{resolve_authorized_feeder}
use vertix.Oracle.Twap.{get_twap}

pub data QueryError : Type 0 where
  invalid_argument not_found failed_precondition : QueryError
  -- the keeper's error as it is
  failed : OracleError → QueryError

pub record QueryTwapRequest : Type 0 where
  pub pair : Bytes
  pub window_seconds : ℕ

pub record QueryMissCounterResponse : Type 0 where
  pub misses : ℤ
  pub total_windows : ℤ

-- `oracleQueryGRPCError`
abbrev pub oracle_query_error : OracleError → QueryError
oracle_query_error no_price = not_found
oracle_query_error no_twap_data = not_found
oracle_query_error stale_price = failed_precondition
oracle_query_error e = failed e

abbrev pub with_code {ℓ} : {A : Type ℓ} → Result OracleError A → Result QueryError A
with_code (ok a) = ok a
with_code (err e) = err (oracle_query_error e)

-- A field of the request that must not be empty.
abbrev pub requested : Option Bytes → Result QueryError Bytes
requested none = err invalid_argument
requested (some field) = guard (not (beq field [])) invalid_argument >> ok field

-- `time.Duration(req.WindowSeconds) * time.Second`: both steps keep the low 64 bits.
abbrev pub window_of : ℕ → ℤ
window_of n = seconds (wrap64 (pos n))

module _ (sdk : Sdk) where
  -- `Price`
  unfoldable pub query_price : Context → Option Bytes → State → Result QueryError AggregatedPrice
  query_price ctx req s = do pair ← requested req; with_code (get_aggregated_price sdk ctx pair s)

  -- `Twap`
  unfoldable pub query_twap : Context → Option QueryTwapRequest → State → Result QueryError ℤ
  unfolding get_twap wrap64 seconds
  query_twap ctx req s = do
    r ← or_err req invalid_argument
    guard (not (beq r.pair [])) invalid_argument
    guard (not (r.window_seconds == 0)) invalid_argument
    with_code (get_twap sdk ctx r.pair (window_of r.window_seconds) s)

  -- `Params`
  unfoldable pub query_params : Option (Unit {0}) → State → Result QueryError OracleParams
  query_params req s = do _ ← or_err req invalid_argument; ok (get_params sdk s)

  -- `MissCounter`
  unfoldable pub query_miss_counter :
      Option Bytes → State → Result QueryError QueryMissCounterResponse
  query_miss_counter req s = do
    field ← requested req
    val ← or_err (sdk.val_address field) invalid_argument
    ok (record { misses = get_miss_counter val s; total_windows = get_total_windows val s })

  -- `Feeder`
  unfoldable pub query_feeder : Option Bytes → State → Result QueryError Bytes
  query_feeder req s = do
    field ← requested req
    val ← or_err (sdk.val_address field) invalid_argument
    ok (sdk.acc_string (resolve_authorized_feeder val s))
