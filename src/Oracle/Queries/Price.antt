-- ===== src/Oracle/Queries/Price.antt =====
-- x/oracle/keeper/grpc_query.go: the answers of `Price`.
use vertix.Base.{
  ◌≡◌, refl, ◌≢◌, Bool, true, false, Option, none, some, [], ◌⊎◌, inl, inr, Bool-cases,
  Option-cases,
}
use vertix.Base.Bytes.{Bytes, beq, beq→eq, ≢_of_beq}
use vertix.Base.Int.{ltb_ℤ}
use vertix.Base.Map.{lookup}
use vertix.Base.Results.{Result, ok, err}
use vertix.Sdk.{Sdk}
use vertix.Oracle.Types.{AggregatedPrice, pair_accepted, pair_not_accepted}
use vertix.Oracle.Keys.{aggregated_price_key}
use vertix.Oracle.Keeper.{State, Context, get_params, get_aggregated_price, seconds, time_sub}
use package.vertix.Oracle.Queries.{
  QueryError, invalid_argument, not_found, failed_precondition, failed, query_price,
}

-- Is a price older than the parameters allow?
abbrev pub is_stale : Sdk → Context → AggregatedPrice → State → Bool
is_stale sdk ctx ap s =
    ltb_ℤ (seconds (get_params sdk s).max_price_age) (time_sub ctx.block_time ap.block_time)

-- The answer for a pair that is on the accept list, by what is stored.
abbrev pub Answers :
    Sdk → Context → State → Option AggregatedPrice → Result QueryError AggregatedPrice → Type 0
Answers sdk ctx s none r = r ≡ err not_found
Answers sdk ctx s (some ap) r =
    ((is_stale sdk ctx ap s ≡ true) × (r ≡ err failed_precondition))
    ⊎ ((is_stale sdk ctx ap s ≡ false) × (r ≡ ok ap))

-- Price answers a request for a pair in one of five ways: an empty pair is an invalid argument; a
-- pair off the accept list is the keeper's error; a pair without a price is not found; a price
-- older than the parameters allow is a failed precondition; any other price is returned as stored.
pub query_price-Answers :
    (sdk : Sdk) (ctx : Context) (pair : Bytes) (s : State)
    → let r : Result QueryError AggregatedPrice = query_price sdk ctx (some pair) s in
      ((pair ≡ []) × (r ≡ err invalid_argument))
      ⊎ ((pair ≢ [])
          × (pair_accepted (get_params sdk s) pair ≡ false)
          × (r ≡ err (failed pair_not_accepted)))
      ⊎ ((pair ≢ [])
          × (pair_accepted (get_params sdk s) pair ≡ true)
          × Answers sdk ctx s (lookup (aggregated_price_key pair) s.prices) r)
unfolding query_price get_aggregated_price
query_price-Answers sdk ctx pair s = elim (Bool-cases (beq pair [])) [
  | inl empty ↦ inl (beq→eq pair [] empty, rw empty refl)
  | inr apart ↦ inr (elim (Bool-cases (pair_accepted (get_params sdk s) pair)) [
    | inr off ↦ inl (≢_of_beq pair [] apart, off, rw (apart, off) refl)
    | inl on ↦ inr (
      ≢_of_beq pair [] apart,
      on,
      elim (Option-cases (lookup (aggregated_price_key pair) s.prices)) [
        | inl gone ↦ rw gone (rw (apart, on, gone) refl)
        | inr (ap, e) ↦ rw e (elim (Bool-cases (is_stale sdk ctx ap s)) [
          | inl stale ↦ inl (stale, rw (apart, on, e, stale) refl)
          | inr fresh ↦ inr (fresh, rw (apart, on, e, fresh) refl)
        ])
      ],
    )
  ])
]
