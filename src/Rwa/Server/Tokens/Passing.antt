-- ===== src/Rwa/Server/Tokens/Passing.antt =====
-- What has passed when tokens have been minted or transferred.
use vertix.Base.{◌≡◌, true, ◌||◌, some}
use vertix.Base.Bytes.{Bytes}
use vertix.Base.Int.{ℤ, ◌+ℤ◌, is_positive}
use vertix.Base.Results.{ok, returned, >>=-eq-ok, guard-then, check-then, or_err-then}
use vertix.Sdk.{Sdk, Coins, new_coins}
use vertix.Rwa.Types.{
  AssetRecord, active, asset_not_found, invalid_status, invalid_notional, invalid_amount,
  invalid_address, panicked, bad_decimal,
}
use vertix.Rwa.Messages.{MsgMintRwa, MsgTransferRwa, basic_mint, basic_transfer}
use vertix.Rwa.Keeper.{State, rwa_minted, rwa_transferred, emit, get_asset, get_params, set_asset}
use vertix.Rwa.Restriction.{check_transfer_allowed, send_restriction}
use vertix.Rwa.Funds.{with_bank, compute_fee, collect_fee}
use vertix.Rwa.Server.Register.{require_issuer, is_active, is_attested}
use vertix.Rwa.Server.Register.Passing.{IsIssuer, require_issuer-ok}
use package.vertix.Rwa.Server.Tokens.{mint_out, mint_rwa, transfer_rwa}

-- The record that a mint writes.
abbrev pub minted_asset : Sdk → ℤ → AssetRecord → AssetRecord
minted_asset sdk total rec = record rec { notional_minted = sdk.print_int total; status = active }

pub record Mints (sdk : Sdk) (msg : MsgMintRwa) (s u : State) : Type 0 where
  pub rec : AssetRecord
  pub by_issuer : IsIssuer msg.asset_id msg.issuer s rec
  pub status_was : (is_attested rec.status || is_active rec.status) ≡ true
  pub notional : ℤ
  pub notional_is : sdk.parse_int msg.notional ≡ some notional
  pub notional_pos : is_positive notional ≡ true
  pub rate : ℤ
  pub rate_is : sdk.parse_dec (get_params sdk s).mint_fee_rate ≡ some rate
  pub issuer : Bytes
  pub issuer_is : sdk.acc_address msg.issuer ≡ some issuer
  pub paid : State
  pub pays : collect_fee sdk issuer (compute_fee sdk notional rate) s ≡ ok paid
  pub coins : Coins
  pub coins_are : new_coins rec.denom notional ≡ some coins
  pub minted : State
  pub mints : mint_out sdk issuer coins paid ≡ ok minted
  pub prev : ℤ
  pub prev_is : sdk.parse_int rec.notional_minted ≡ some prev
  pub stored : State
  pub stores : set_asset sdk (minted_asset sdk (prev +ℤ notional) rec) minted ≡ ok stored
  pub result :
      u
      ≡ emit
          (rwa_minted rec.asset_id
            (sdk.print_int notional)
            (sdk.print_int (compute_fee sdk notional rate)))
          stored

pub record Transfers (sdk : Sdk) (msg : MsgTransferRwa) (s u : State) : Type 0 where
  pub rec : AssetRecord
  pub found : get_asset msg.asset_id s ≡ some rec
  pub is_act : is_active rec.status ≡ true
  pub sender : Bytes
  pub sender_is : sdk.acc_address msg.sender ≡ some sender
  pub recipient : Bytes
  pub recipient_is : sdk.acc_address msg.recipient ≡ some recipient
  pub allowed : check_transfer_allowed sdk s msg.asset_id sender recipient ≡ ok tt
  pub amount : ℤ
  pub amount_is : sdk.parse_int msg.amount ≡ some amount
  pub amount_pos : is_positive amount ≡ true
  pub coins : Coins
  pub coins_are : new_coins rec.denom amount ≡ some coins
  pub sent : State
  pub sends :
      with_bank (sdk.send_coins (send_restriction sdk s) s.bank sender recipient coins) s ≡ ok sent
  pub result :
      u ≡ emit (rwa_transferred rec.asset_id msg.sender msg.recipient (sdk.print_int amount)) sent

module _ (sdk : Sdk) where
  pub mint_rwa-ok : (msg : MsgMintRwa) (s u : State) → mint_rwa sdk msg s ≡ ok u → Mints sdk msg s u
  unfolding mint_rwa
  mint_rwa-ok msg s u h =
      let (basic, h₁) = check-then (basic_mint sdk msg) _ h in
      let (rec, owned, h₂) = >>=-eq-ok (require_issuer sdk msg.asset_id msg.issuer s) _ h₁ in
      let (status_was, h₃) =
        guard-then (is_attested rec.status || is_active rec.status) invalid_status _ h₂ in
      let (notional, notional_is, h₄) =
        or_err-then (sdk.parse_int msg.notional) invalid_notional _ h₃ in
      let (notional_pos, h₅) = guard-then (is_positive notional) invalid_notional _ h₄ in
      let (rate, rate_is, h₆) =
        or_err-then (sdk.parse_dec (get_params sdk s).mint_fee_rate) bad_decimal _ h₅ in
      let (issuer, issuer_is, h₇) = or_err-then (sdk.acc_address msg.issuer) invalid_address _ h₆ in
      let (paid, pays, h₈) =
        >>=-eq-ok (collect_fee sdk issuer (compute_fee sdk notional rate) s) _ h₇ in
      let (coins, coins_are, h₉) = or_err-then (new_coins rec.denom notional) panicked _ h₈ in
      let (minted, mints, h₁₀) = >>=-eq-ok (mint_out sdk issuer coins paid) _ h₉ in
      let (prev, prev_is, h₁₁) = or_err-then (sdk.parse_int rec.notional_minted) panicked _ h₁₀ in
      let (stored, stores, h₁₂) =
        >>=-eq-ok (set_asset sdk (minted_asset sdk (prev +ℤ notional) rec) minted) _ h₁₁ in
      record {
        rec = rec;
        by_issuer = require_issuer-ok sdk msg.asset_id msg.issuer s rec owned;
        status_was = status_was;
        notional = notional;
        notional_is = notional_is;
        notional_pos = notional_pos;
        rate = rate;
        rate_is = rate_is;
        issuer = issuer;
        issuer_is = issuer_is;
        paid = paid;
        pays = pays;
        coins = coins;
        coins_are = coins_are;
        minted = minted;
        mints = mints;
        prev = prev;
        prev_is = prev_is;
        stored = stored;
        stores = stores;
        result = returned h₁₂;
      }

  pub transfer_rwa-ok :
      (msg : MsgTransferRwa) (s u : State) → transfer_rwa sdk msg s ≡ ok u → Transfers sdk msg s u
  unfolding transfer_rwa
  transfer_rwa-ok msg s u h =
      let (basic, h₁) = check-then (basic_transfer sdk msg) _ h in
      let (rec, found, h₂) = or_err-then (get_asset msg.asset_id s) asset_not_found _ h₁ in
      let (is_act, h₃) = guard-then (is_active rec.status) invalid_status _ h₂ in
      let (sender, sender_is, h₄) = or_err-then (sdk.acc_address msg.sender) invalid_address _ h₃ in
      let (recipient, recipient_is, h₅) =
        or_err-then (sdk.acc_address msg.recipient) invalid_address _ h₄ in
      let (allowed, h₆) =
        check-then (check_transfer_allowed sdk s msg.asset_id sender recipient) _ h₅ in
      let (amount, amount_is, h₇) = or_err-then (sdk.parse_int msg.amount) invalid_amount _ h₆ in
      let (amount_pos, h₈) = guard-then (is_positive amount) invalid_amount _ h₇ in
      let (coins, coins_are, h₉) = or_err-then (new_coins rec.denom amount) panicked _ h₈ in
      let (sent, sends, h₁₀) =
        >>=-eq-ok
          (with_bank (sdk.send_coins (send_restriction sdk s) s.bank sender recipient coins) s) _
          h₉ in
      record {
        rec = rec;
        found = found;
        is_act = is_act;
        sender = sender;
        sender_is = sender_is;
        recipient = recipient;
        recipient_is = recipient_is;
        allowed = allowed;
        amount = amount;
        amount_is = amount_is;
        amount_pos = amount_pos;
        coins = coins;
        coins_are = coins_are;
        sent = sent;
        sends = sends;
        result = returned h₁₀;
      }
