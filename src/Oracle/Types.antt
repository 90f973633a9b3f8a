-- ===== src/Oracle/Types.antt =====
-- x/oracle/types: errors, the stored records, parameters and messages.
use vertix.Base.{ℕ, Bool, true, false, not, ◌||◌, List, [], ◌∷◌, length, ◌==◌}
use vertix.Base.Bytes.{Bytes, beq, text}
use vertix.Base.Int.{ℤ, pos, is_positive, is_negative, ltb_ℤ, leb_ℤ}
use vertix.Base.Results.{Result, ok, ◌>>=◌, ◌>>◌, guard, or_err}
use vertix.Pattern.{is_pair}
use vertix.Sdk.{Sdk, one_dec}

pub data OracleError : Type 0 where
  invalid_signer invalid_price pair_not_accepted no_price stale_price no_twap_data : OracleError
  not_bonded_validator feeder_not_authorized feeder_already_bound invalid_params : OracleError
  invalid_pair_format invalid_address bad_decimal unknown_validator : OracleError
  -- a Go panic
  panicked : OracleError

pub record OracleFeed : Type 0 where
  pub validator : Bytes
  pub pair : Bytes
  pub price : Bytes
  pub block_height : ℤ

-- A time is a number of nanoseconds since Go's zero time.
pub record AggregatedPrice : Type 0 where
  pub pair : Bytes
  pub price : Bytes
  pub block_height : ℤ
  pub block_time : ℕ

pub record TwapEntry : Type 0 where
  pub pair : Bytes
  pub price : Bytes
  pub block_time : ℕ

pub record OracleParams : Type 0 where
  pub vote_window : ℤ
  pub miss_threshold : Bytes
  pub miss_slash_rate : Bytes
  pub outlier_slash_rate : Bytes
  pub outlier_threshold : Bytes
  pub miss_window_size : ℤ
  pub quorum_fraction : Bytes
  pub max_price_age : ℤ
  pub accept_list : List Bytes

-- Is a string in a list of strings?
unfoldable pub mem_bytes : Bytes → List Bytes → Bool
mem_bytes s [] = false
mem_bytes s (x ∷ xs) = beq x s || mem_bytes s xs

-- `PairAccepted`
unfoldable pub pair_accepted : OracleParams → Bytes → Bool
unfolding mem_bytes
pair_accepted p pair = mem_bytes pair p.accept_list

-- `AcceptListChanged`, once the lengths are the same.
unfoldable pub differ : List Bytes → List Bytes → Bool
differ [] ys = false
differ (x ∷ xs) [] = true
differ (x ∷ xs) (y ∷ ys) = not (beq x y) || differ xs ys

unfoldable pub accept_list_changed : OracleParams → OracleParams → Bool
unfolding differ
accept_list_changed p other =
    not (length p.accept_list == length other.accept_list) || differ p.accept_list other.accept_list

-- The loop over the accept list, with the pairs seen so far.
unfoldable pub check_pairs : List Bytes → List Bytes → Result OracleError (Unit {0})
unfolding mem_bytes
check_pairs seen [] = ok tt
check_pairs seen (pair ∷ pairs) =
    guard (is_pair pair) invalid_pair_format
    >> (guard (not (mem_bytes pair seen)) invalid_params >> check_pairs (pair ∷ seen) pairs)

module _ (sdk : Sdk) where
  abbrev pub default_params : OracleParams
  default_params = record {
    vote_window = pos 10;
    miss_threshold = text "0.05";
    miss_slash_rate = text "0.005";
    outlier_slash_rate = text "0.01";
    outlier_threshold = text "0.05";
    miss_window_size = pos 500;
    quorum_fraction = text "0.667";
    max_price_age = pos 300;
    accept_list =
        text "VTX:USD" ∷ text "BTC:USD" ∷ text "ETH:USD" ∷ text "ATOM:USD" ∷ text "USDC:USD" ∷ [];
  }

  unfoldable pub validate_dec_open_closed : Bytes → Result OracleError (Unit {0})
  validate_dec_open_closed s = do
    d ← or_err (sdk.parse_dec s) invalid_params
    guard (not (leb_ℤ d (pos 0) || ltb_ℤ (pos one_dec) d)) invalid_params

  unfoldable pub validate_slash_rate : Bytes → Result OracleError (Unit {0})
  validate_slash_rate s = do
    d ← or_err (sdk.parse_dec s) invalid_params
    guard (not (is_negative d || leb_ℤ (pos 50_000_000_000_000_000) d)) invalid_params

  -- `OracleParams.Validate`
  unfoldable pub validate : OracleParams → Result OracleError (Unit {0})
  unfolding check_pairs
  validate p = do
    guard (is_positive p.vote_window) invalid_params
    guard (is_positive p.miss_window_size) invalid_params
    guard (is_positive p.max_price_age) invalid_params
    validate_dec_open_closed p.miss_threshold
    validate_dec_open_closed p.outlier_threshold
    validate_dec_open_closed p.quorum_fraction
    validate_slash_rate p.miss_slash_rate
    validate_slash_rate p.outlier_slash_rate
    guard (not (length p.accept_list == 0)) invalid_params
    check_pairs [] p.accept_list

pub record MsgSetFeeder : Type 0 where
  pub validator : Bytes
  pub feeder : Bytes

pub record MsgSubmitFeed : Type 0 where
  pub feeder : Bytes
  pub validator : Bytes
  pub pair : Bytes
  pub price : Bytes

pub record MsgUpdateParams : Type 0 where
  pub authority : Bytes
  pub params : OracleParams

-- The three `ValidateBasic`.
module _ (sdk : Sdk) where
  unfoldable pub basic_set_feeder : MsgSetFeeder → Result OracleError (Unit {0})
  basic_set_feeder m = do
    _ ← or_err (sdk.val_address m.validator) invalid_address
    _ ← or_err (sdk.acc_address m.feeder) invalid_address
    ok tt

  unfoldable pub basic_submit_feed : MsgSubmitFeed → Result OracleError (Unit {0})
  basic_submit_feed m = do
    _ ← or_err (sdk.acc_address m.feeder) invalid_address
    _ ← or_err (sdk.val_address m.validator) invalid_address
    guard (not (beq m.pair [])) invalid_pair_format
    price ← or_err (sdk.parse_dec m.price) invalid_price
    guard (is_positive price) invalid_price

  unfoldable pub basic_update_params : MsgUpdateParams → Result OracleError (Unit {0})
  basic_update_params m = do
    _ ← or_err (sdk.acc_address m.authority) invalid_address
    validate sdk m.params
