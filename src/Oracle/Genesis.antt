-- ===== src/Oracle/Genesis.antt =====
-- x/oracle/types/genesis.go and x/oracle/keeper/genesis.go.
pub mod Feeders
pub mod Round
use vertix.Base.{ℕ, Bool, not, Option, none, some, List, [], ◌∷◌, if◌then◌else◌, leb, ◌==◌}
use vertix.Base.Bytes.{Bytes, bytes_lt}
use vertix.Base.Int.{is_positive}
use vertix.Base.Map.{Map}
use vertix.Base.Results.{Result, ok, err, ◌>>=◌, ◌>>◌, guard, or_err}
use vertix.Base.Sort.{sort_by}
use vertix.Base.Entries.{values}
use vertix.Sdk.{Sdk}
use vertix.Oracle.Types.{
  OracleError, OracleParams, AggregatedPrice, mem_bytes, pair_accepted, default_params, validate,
}
use vertix.Oracle.Keeper.{State, Context, Staking, get_params, set_params, set_aggregated_price}
use vertix.Oracle.Feeder.{set_feeder_delegation}

pub record FeederDelegation : Type 0 where
  pub validator : Bytes
  pub feeder : Bytes

pub record GenesisState : Type 0 where
  pub params : OracleParams
  pub prices : List AggregatedPrice
  pub feeders : List FeederDelegation

pub data GenesisError : Type 0 where
  pair_not_listed duplicate_pair bad_price no_block_time future_price : GenesisError
  bad_validator bad_feeder duplicate_feeder no_validator : GenesisError
  -- the error of the keeper or of the parameters
  refused : OracleError → GenesisError

-- An error of the keeper, as one of the genesis.
abbrev pub lift {ℓ} : {A : Type ℓ} → Result OracleError A → Result GenesisError A
lift (ok a) = ok a
lift (err e) = err (refused e)

-- `DefaultGenesis`
abbrev pub default_genesis : Sdk → GenesisState
default_genesis sdk = record { params = default_params sdk; prices = []; feeders = [] }

-- `ValidatePriceBlockTime`
abbrev pub validate_price_block_time : ℕ → ℕ → Result GenesisError (Unit {0})
validate_price_block_time block_time chain_time = guard (leb block_time chain_time) future_price

unfoldable pub check_times : ℕ → List AggregatedPrice → Result GenesisError (Unit {0})
check_times now [] = ok tt
check_times now (p ∷ ps) = validate_price_block_time p.block_time now >> check_times now ps

unfoldable pub set_prices : List AggregatedPrice → State → State
set_prices [] s = s
set_prices (p ∷ ps) s = set_prices ps (set_aggregated_price p s)

-- The keeper may have no staking keeper.
abbrev pub check_validator : Option Staking → Bytes → Result GenesisError (Unit {0})
check_validator none val = ok tt
check_validator (some staking) val = do _ ← or_err (staking.get_validator val) no_validator; ok tt

module _ (sdk : Sdk) where
  -- The loop over the prices, with the pairs seen so far.
  unfoldable pub check_prices :
      OracleParams → List Bytes → List AggregatedPrice → Result GenesisError (Unit {0})
  unfolding mem_bytes pair_accepted
  check_prices params seen [] = ok tt
  check_prices params seen (p ∷ ps) = do
    guard (pair_accepted params p.pair) pair_not_listed
    guard (not (mem_bytes p.pair seen)) duplicate_pair
    price ← or_err (sdk.parse_dec p.price) bad_price
    guard (is_positive price) bad_price
    guard (not (p.block_time == 0)) no_block_time
    check_prices params (p.pair ∷ seen) ps

  -- The loop over the delegations, with the feeders seen so far.
  unfoldable pub check_feeders : List Bytes → List FeederDelegation → Result GenesisError (Unit {0})
  unfolding mem_bytes
  check_feeders seen [] = ok tt
  check_feeders seen (fd ∷ fds) = do
    _ ← or_err (sdk.val_address fd.validator) bad_validator
    _ ← or_err (sdk.acc_address fd.feeder) bad_feeder
    guard (not (mem_bytes fd.feeder seen)) duplicate_feeder
    check_feeders (fd.feeder ∷ seen) fds

  -- `GenesisState.Validate`
  unfoldable pub validate_genesis : GenesisState → Result GenesisError (Unit {0})
  unfolding check_prices check_feeders
  validate_genesis gs = do
    lift (validate sdk gs.params)
    check_prices gs.params [] gs.prices
    check_feeders [] gs.feeders

  unfoldable pub set_feeders : Context → List FeederDelegation → State → Result GenesisError State
  unfolding set_feeder_delegation
  set_feeders ctx [] s = ok s
  set_feeders ctx (fd ∷ fds) s = do
    val ← or_err (sdk.val_address fd.validator) bad_validator
    feeder ← or_err (sdk.acc_address fd.feeder) bad_feeder
    check_validator ctx.staking val
    s' ← lift (set_feeder_delegation val feeder s)
    set_feeders ctx fds s'

  -- `InitGenesis`, which panics on an error.
  unfoldable pub init_genesis : Context → GenesisState → State → Result GenesisError State
  unfolding validate_genesis check_times set_prices set_feeders
  init_genesis ctx gs s = do
    validate_genesis gs
    check_times ctx.block_time gs.prices
    s₁ ← lift (set_params sdk gs.params s)
    set_feeders ctx gs.feeders (set_prices gs.prices s₁)

-- The prices, in the order of their keys.
abbrev pub all_prices : Map AggregatedPrice → List AggregatedPrice
all_prices m = values m

abbrev pub pair_lt : AggregatedPrice → AggregatedPrice → Bool
pair_lt a b = bytes_lt a.pair b.pair

-- What follows the prefix byte of a key, unless nothing does.
abbrev pub after_byte : Bytes → Option Bytes
after_byte (p ∷ x ∷ rest) = some (x ∷ rest)
after_byte _ = none

abbrev pub validator_lt : FeederDelegation → FeederDelegation → Bool
validator_lt a b = bytes_lt a.validator b.validator

module _ (sdk : Sdk) where
  -- One delegation, put before the rest.
  unfoldable pub add_feeder : Option Bytes → Bytes → List FeederDelegation → List FeederDelegation
  add_feeder none feeder rest = rest
  add_feeder (some val) feeder rest =
      (record { validator = sdk.val_string val; feeder = sdk.acc_string feeder }) ∷ rest

  unfoldable pub all_feeders : Map Bytes → List FeederDelegation
  unfolding add_feeder
  all_feeders [] = []
  all_feeders ((k, feeder) ∷ m) = add_feeder (after_byte k) feeder (all_feeders m)

  -- `ExportGenesis`
  unfoldable pub export_genesis : State → GenesisState
  unfolding values all_feeders
  export_genesis s = record {
    params = get_params sdk s;
    prices = sort_by pair_lt (all_prices s.prices);
    feeders = sort_by validator_lt (all_feeders s.valoper_to_feeder);
  }
