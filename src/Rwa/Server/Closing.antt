-- ===== src/Rwa/Server/Closing.antt =====
-- `SettleRWA` and `SlashBond`.
pub mod Passing
use vertix.Base.{ℕ, Bool, not, Option, none, some, if◌then◌else◌}
use vertix.Base.Bytes.{Bytes, beq}
use vertix.Base.Int.{ℤ, pos, is_positive}
use vertix.Base.Results.{Result, ok, err, ◌>>=◌, ◌>>◌, guard, or_err}
use vertix.Sdk.{Sdk, Bank, Coins, new_coins}
use vertix.Rwa.Types.{
  RwaError, AssetRecord, settled, asset_not_found, unauthorized, invalid_status, invalid_address,
  panicked, module_name, settle_fee_rate_dec,
}
use vertix.Rwa.Messages.{MsgSettleRwa, MsgSlashBond, basic_settle, basic_slash}
use vertix.Rwa.Keeper.{
  State, Context, rwa_settled, bond_slashed, emit, get_asset, get_params, set_asset,
}
use vertix.Rwa.Restriction.{send_restriction}
use vertix.Rwa.Funds.{
  with_bank, compute_fee, collect_fee, release_bond, slash_bond_to_community_pool,
}
use vertix.Rwa.Server.Register.{require_issuer, is_active}

module _ (sdk : Sdk) where
  -- The tokens go back to the module and are burnt there.
  unfoldable pub burn_back : Bytes → Coins → State → Result RwaError State
  burn_back issuer coins s = do
    s₁ ←
        with_bank (sdk.account_to_module (send_restriction sdk s) s.bank issuer module_name coins) s
    with_bank (sdk.burn_coins s₁.bank module_name coins) s₁

  unfoldable pub settle_rwa : Context → MsgSettleRwa → State → Result RwaError State
  settle_rwa ctx msg s = do
    basic_settle sdk msg
    rec ← require_issuer sdk msg.asset_id msg.issuer s
    guard (is_active rec.status) invalid_status
    issuer ← or_err (sdk.acc_address msg.issuer) invalid_address
    rate ← settle_fee_rate_dec sdk (get_params sdk s)
    notional_minted ← or_err (sdk.parse_int rec.notional_minted) panicked
    let fee = compute_fee sdk notional_minted rate
    s₁ ← collect_fee sdk issuer fee s
    burn_coins ← or_err (new_coins rec.denom notional_minted) panicked
    s₂ ← (if is_positive notional_minted then burn_back issuer burn_coins s₁ else ok s₁)
    bond ← or_err (sdk.parse_int rec.bond) panicked
    s₃ ← (if is_positive bond then release_bond sdk issuer bond s₂ else ok s₂)
    stored ← set_asset sdk (record rec { status = settled; settled_at = ctx.block_time }) s₃
    ok (emit (rwa_settled rec.asset_id (sdk.print_int fee) (sdk.print_int bond)) stored)

  -- The second argument is the keeper's authority.
  unfoldable pub slash_bond : Context → Bytes → MsgSlashBond → State → Result RwaError State
  slash_bond ctx authority msg s = do
    guard (beq authority msg.authority) unauthorized
    basic_slash sdk msg
    rec ← or_err (get_asset msg.asset_id s) asset_not_found
    guard (is_active rec.status) invalid_status
    bond ← or_err (sdk.parse_int rec.bond) panicked
    s₁ ← (if is_positive bond then slash_bond_to_community_pool sdk bond s else ok s)
    let rec' = record rec {
      status = settled;
      settled_at = ctx.block_time;
      bond = sdk.print_int (pos 0);
    }
    stored ← set_asset sdk rec' s₁
    ok (emit (bond_slashed rec.asset_id (sdk.print_int bond) msg.reason) stored)
