-- ===== src/Fees/Genesis.antt =====
-- x/fees/keeper/genesis.go. A panic is an error.
pub mod Baseline
use vertix.Base.{Option, none, some, List, []}
use vertix.Base.Int.{pos}
use vertix.Base.Results.{Result, ok, err, ◌>>=◌, ◌>>◌}
use vertix.Sdk.{Sdk, Bank}
use vertix.Fees.Params.{FeesError, FeesParams, fee_denom, validate}
use vertix.Fees.Keeper.{State, get_params, set_params, set_genesis_supply}

-- The state of a new chain: nothing is stored, and the bank has had its own genesis.
abbrev pub empty_state : Bank → State
empty_state b = record {
  params = none;
  genesis_supply = none;
  cumulative_burned = none;
  bank = b;
  events = [];
}

module _ (sdk : Sdk) where
  unfoldable pub init_genesis : FeesParams → State → Result FeesError State
  init_genesis gs s = do
    validate sdk gs
    s' ← set_params sdk gs s
    ok (set_genesis_supply (pos (s'.bank.supply fee_denom)) s')

  unfoldable pub export_genesis : State → FeesParams
  export_genesis s = get_params sdk s
