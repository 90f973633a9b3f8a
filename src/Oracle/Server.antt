-- ===== src/Oracle/Server.antt =====
-- x/oracle/keeper/msg_server.go. An error undoes the transaction.
pub mod Submit
pub mod Delisting
use vertix.Base.{Bool, true, false, not, Option, none, some, if◌then◌else◌}
use vertix.Base.Bytes.{Bytes, beq}
use vertix.Base.Int.{ℤ, is_zero}
use vertix.Base.Results.{Result, ok, err, ◌>>=◌, ◌>>◌, guard, or_err}
use vertix.Sdk.{Sdk}
use vertix.Oracle.Types.{
  OracleError, OracleFeed, MsgSetFeeder, MsgSubmitFeed, MsgUpdateParams, basic_set_feeder,
  basic_submit_feed, basic_update_params, pair_accepted, accept_list_changed, invalid_signer,
  invalid_address, not_bonded_validator, feeder_not_authorized, pair_not_accepted,
  unknown_validator,
}
use vertix.Oracle.Keeper.{
  State, Context, Staking, feeder_set, feed_submitted, params_updated, emit, get_params, set_params,
  set_feed, reset_miss_counters,
}
use vertix.Oracle.Feeder.{set_feeder_delegation, resolve_authorized_feeder}

-- The checks against the staking keeper, where there is one.
unfoldable pub check_bonded : Option Staking → Bytes → Result OracleError (Unit {0})
check_bonded none val = ok tt
check_bonded (some st) val = do
  v ← or_err (st.get_validator val) unknown_validator
  guard v.bonded not_bonded_validator

unfoldable pub check_power : Option Staking → Bytes → Result OracleError (Unit {0})
check_power none val = ok tt
check_power (some st) val = do
  power ← or_err (st.last_power val) not_bonded_validator
  guard (not (is_zero power)) not_bonded_validator

module _ (sdk : Sdk) where
  unfoldable pub set_feeder : Context → MsgSetFeeder → State → Result OracleError State
  set_feeder ctx msg s = do
    basic_set_feeder sdk msg
    val ← or_err (sdk.val_address msg.validator) invalid_address
    feeder ← or_err (sdk.acc_address msg.feeder) invalid_address
    check_bonded ctx.staking val
    s' ← set_feeder_delegation val feeder s
    ok (emit (feeder_set msg.validator msg.feeder) s')

  unfoldable pub submit_feed : Context → MsgSubmitFeed → State → Result OracleError State
  submit_feed ctx msg s = do
    basic_submit_feed sdk msg
    val ← or_err (sdk.val_address msg.validator) invalid_address
    feeder ← or_err (sdk.acc_address msg.feeder) invalid_address
    guard (beq (resolve_authorized_feeder val s) feeder) feeder_not_authorized
    guard (pair_accepted (get_params sdk s) msg.pair) pair_not_accepted
    check_bonded ctx.staking val
    check_power ctx.staking val
    let feed : OracleFeed = record {
      validator = msg.validator;
      pair = msg.pair;
      price = msg.price;
      block_height = ctx.height;
    }
    s' ← set_feed sdk feed s
    ok (emit (feed_submitted msg.validator msg.feeder msg.pair msg.price) s')

  -- The counters start again when the accept list changes.
  abbrev pub reset_if : Bool → State → State
  reset_if changed s = if changed then reset_miss_counters s else s

  -- The second argument is the keeper's authority.
  unfoldable pub update_params : Bytes → MsgUpdateParams → State → Result OracleError State
  update_params authority msg s = do
    guard (beq authority msg.authority) invalid_signer
    basic_update_params sdk msg
    let changed = accept_list_changed (get_params sdk s) msg.params
    s' ← set_params sdk msg.params (reset_if changed s)
    ok (emit (params_updated changed) s')
