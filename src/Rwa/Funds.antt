-- ===== src/Rwa/Funds.antt =====
-- x/rwa/keeper/bond.go and fee.go, over the bank keeper.
pub mod Effect
pub mod Rate
use vertix.Base.{Option, none, some, not, if◌then◌else◌}
use vertix.Base.Bytes.{Bytes}
use vertix.Base.Int.{ℤ, pos, is_positive, is_zero}
use vertix.Base.Results.{Result, ok, err, ◌>>=◌, ◌>>◌, or_err}
use vertix.Sdk.{Sdk, Bank, new_coins, dec_from_int, fee_collector_name}
use vertix.Rwa.Types.{RwaError, bank_refused, panicked, bond_denom, module_name}
use vertix.Rwa.Keeper.{State}
use vertix.Rwa.Restriction.{send_restriction, module_account}

-- The state once the bank has answered.
abbrev pub with_bank : Option Bank → State → Result RwaError State
with_bank none s = err bank_refused
with_bank (some b) s = ok (record s { bank = b })

module _ (sdk : Sdk) where
  unfoldable pub lock_bond : Bytes → ℤ → State → Result RwaError State
  lock_bond issuer amount s = do
    coins ← or_err (new_coins bond_denom amount) panicked
    with_bank (sdk.account_to_module (send_restriction sdk s) s.bank issuer module_name coins) s

  unfoldable pub release_bond : Bytes → ℤ → State → Result RwaError State
  release_bond issuer amount s = do
    coins ← or_err (new_coins bond_denom amount) panicked
    with_bank (sdk.module_to_account (send_restriction sdk s) s.bank module_name issuer coins) s

  unfoldable pub slash_bond_to_community_pool : ℤ → State → Result RwaError State
  slash_bond_to_community_pool amount s = do
    coins ← or_err (new_coins bond_denom amount) panicked
    with_bank (sdk.fund_community_pool (send_restriction sdk s) s.bank coins (module_account sdk)) s

  unfoldable pub compute_fee : ℤ → ℤ → ℤ
  compute_fee notional rate =
      let fee = sdk.truncate_dec (sdk.mul_dec (dec_from_int notional) rate) in
      if is_zero fee then pos 0 else fee

  unfoldable pub collect_fee : Bytes → ℤ → State → Result RwaError State
  collect_fee payer fee s = if not (is_positive fee) then ok s else (do
    coins ← or_err (new_coins bond_denom fee) panicked
    with_bank (sdk.account_to_module (send_restriction sdk s) s.bank payer fee_collector_name coins)
        s)
