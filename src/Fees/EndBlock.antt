-- ===== src/Fees/EndBlock.antt =====
-- x/fees/keeper/abci.go and invariants.go.
pub mod Split
pub mod Reconcile
use vertix.Base.{ℕ, ◌-◌, ◌==◌, Bool, true, false, not, Option, none, some, if◌then◌else◌}
use vertix.Base.Bytes.{Bytes}
use vertix.Base.Int.{ℤ, pos, ◌-ℤ◌, is_zero, eqb_ℤ}
use vertix.Base.Results.{Result, ok, err, ◌>>=◌, or_err}
use vertix.Sdk.{Sdk, Bank, Coins, Hook, new_coins, dec_from_int, fee_collector_name}
use vertix.Fees.Params.{FeesError, panicked, burn_ratio_dec, fee_denom, module_name}
use vertix.Fees.Keeper.{
  State, FeesEvent, fee_burned, fee_distributed, emit, get_params, add_cumulative_burned,
  get_genesis_supply, get_cumulative_burned,
}

module _ (sdk : Sdk) (hook : Hook) where
  -- The part from the transfer on. A bank call that fails is logged, and ends the block's work.
  pub burn_fees : ℤ → Coins → State → Result FeesError State
  burn_fees burn_amt coins s =
      elim (sdk.module_to_module hook s.bank fee_collector_name module_name coins) [
        | none ↦ ok s
        | some moved ↦ elim (sdk.burn_coins moved module_name coins) [
          | none ↦ ok (record s { bank = moved })
          | some burnt ↦ do
            let s' = add_cumulative_burned burn_amt (record s { bank = burnt })
            let balance = pos (s.bank.balance (sdk.module_address fee_collector_name) fee_denom)
            distributed ← or_err (new_coins fee_denom (balance -ℤ burn_amt)) panicked
            ok (emit (fee_distributed distributed) (emit (fee_burned coins) s'))
        ]
      ]

  -- `EndBlocker` once the ratio is known: its early returns, and the burn.
  pub burn_share : ℤ → State → Result FeesError State
  unfolding burn_fees
  burn_share burn_ratio s =
      let balance = s.bank.balance (sdk.module_address fee_collector_name) fee_denom in
      let burn_amt = sdk.truncate_dec (sdk.mul_dec (dec_from_int (pos balance)) burn_ratio) in
      if is_zero burn_ratio
      then ok s
      else if balance == 0
      then ok s
      else if is_zero burn_amt
      then ok s
      else (or_err (new_coins fee_denom burn_amt) panicked >>= λ coins. burn_fees burn_amt coins s)

  -- `EndBlocker`
  unfoldable pub end_blocker : State → Result FeesError State
  unfolding burn_share
  end_blocker s = do burn_ratio ← burn_ratio_dec sdk (get_params sdk s); burn_share burn_ratio s

-- `ReconcileInvariant` and `ModuleBalanceInvariant`; `true` is broken.
unfoldable pub reconcile_invariant : State → Bool
reconcile_invariant s =
    not (eqb_ℤ (get_genesis_supply s -ℤ pos (s.bank.supply fee_denom)) (get_cumulative_burned s))

unfoldable pub module_balance_invariant : Sdk → State → Bool
module_balance_invariant sdk s =
    not (s.bank.balance (sdk.module_address module_name) fee_denom == 0)
