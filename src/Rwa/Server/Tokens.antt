-- ===== src/Rwa/Server/Tokens.antt =====
-- `MintRWA` and `TransferRWA`.
pub mod Passing
use vertix.Base.{ℕ, Bool, ◌&&◌, ◌||◌, Option, none, some}
use vertix.Base.Bytes.{Bytes}
use vertix.Base.Int.{ℤ, ◌+ℤ◌, is_positive}
use vertix.Base.Results.{Result, ok, err, ◌>>=◌, ◌>>◌, guard, or_err}
use vertix.Sdk.{Sdk, Bank, Coins, new_coins}
use vertix.Rwa.Types.{
  RwaError, AssetRecord, active, asset_not_found, invalid_status, invalid_notional, invalid_amount,
  invalid_address, panicked, module_name, mint_fee_rate_dec,
}
use vertix.Rwa.Messages.{MsgMintRwa, MsgTransferRwa, basic_mint, basic_transfer}
use vertix.Rwa.Keeper.{State, rwa_minted, rwa_transferred, emit, get_asset, get_params, set_asset}
use vertix.Rwa.Restriction.{check_transfer_allowed, send_restriction}
use vertix.Rwa.Funds.{with_bank, compute_fee, collect_fee}
use vertix.Rwa.Server.Register.{require_issuer, is_active, is_attested}

module _ (sdk : Sdk) where
  -- The two bank calls that create the tokens and pay them out to the issuer.
  unfoldable pub mint_out : Bytes → Coins → State → Result RwaError State
  mint_out issuer coins s = do
    s₁ ← with_bank (sdk.mint_coins s.bank module_name coins) s
    with_bank (sdk.module_to_account (send_restriction sdk s₁) s₁.bank module_name issuer coins) s₁

  unfoldable pub mint_rwa : MsgMintRwa → State → Result RwaError State
  mint_rwa msg s = do
    basic_mint sdk msg
    rec ← require_issuer sdk msg.asset_id msg.issuer s
    guard (is_attested rec.status || is_active rec.status) invalid_status
    notional ← or_err (sdk.parse_int msg.notional) invalid_notional
    guard (is_positive notional) invalid_notional
    rate ← mint_fee_rate_dec sdk (get_params sdk s)
    issuer ← or_err (sdk.acc_address msg.issuer) invalid_address
    let fee = compute_fee sdk notional rate
    s₁ ← collect_fee sdk issuer fee s
    coins ← or_err (new_coins rec.denom notional) panicked
    s₂ ← mint_out issuer coins s₁
    prev ← or_err (sdk.parse_int rec.notional_minted) panicked
    let rec' = record rec { notional_minted = sdk.print_int (prev +ℤ notional); status = active }
    stored ← set_asset sdk rec' s₂
    ok (emit (rwa_minted rec.asset_id (sdk.print_int notional) (sdk.print_int fee)) stored)

  unfoldable pub transfer_rwa : MsgTransferRwa → State → Result RwaError State
  transfer_rwa msg s = do
    basic_transfer sdk msg
    rec ← or_err (get_asset msg.asset_id s) asset_not_found
    guard (is_active rec.status) invalid_status
    sender ← or_err (sdk.acc_address msg.sender) invalid_address
    recipient ← or_err (sdk.acc_address msg.recipient) invalid_address
    check_transfer_allowed sdk s msg.asset_id sender recipient
    amount ← or_err (sdk.parse_int msg.amount) invalid_amount
    guard (is_positive amount) invalid_amount
    coins ← or_err (new_coins rec.denom amount) panicked
    s' ← with_bank (sdk.send_coins (send_restriction sdk s) s.bank sender recipient coins) s
    ok (emit (rwa_transferred rec.asset_id msg.sender msg.recipient (sdk.print_int amount)) s')
