-- ===== src/Fees/Keeper.antt =====
-- x/fees/keeper/keeper.go, msg_server.go and grpc_query.go: the store's three keys, each a field, with the bank
-- and the events that have been emitted.
pub mod Update
use vertix.Base.{ℕ, Option, none, some, List, [], ◌∷◌, ◌++◌}
use vertix.Base.Bytes.{Bytes, beq}
use vertix.Base.Int.{ℤ, pos, ◌+ℤ◌}
use vertix.Base.Results.{Result, ok, err, ◌>>=◌, ◌>>◌, guard, or_err}
use vertix.Sdk.{Sdk, Bank, Coins}
use vertix.Fees.Params.{
  FeesError, FeesParams, unauthorized, invalid_address, default_params, validate,
}

pub data FeesEvent : Type 0 where
  fee_burned : Coins → FeesEvent
  fee_distributed : Coins → FeesEvent
  params_updated : Bytes → Bytes → FeesEvent

-- A key that has not been set is `none`.
pub record State : Type 0 where
  pub params : Option FeesParams
  pub genesis_supply : Option ℤ
  pub cumulative_burned : Option ℤ
  pub bank : Bank
  pub events : List FeesEvent

abbrev pub emit : FeesEvent → State → State
emit e s = record s { events = s.events ++ e ∷ [] }

abbrev pub or_zero : Option ℤ → ℤ
or_zero none = pos 0
or_zero (some n) = n

abbrev pub get_genesis_supply : State → ℤ
get_genesis_supply s = or_zero s.genesis_supply

abbrev pub set_genesis_supply : ℤ → State → State
set_genesis_supply n s = record s { genesis_supply = some n }

abbrev pub get_cumulative_burned : State → ℤ
get_cumulative_burned s = or_zero s.cumulative_burned

abbrev pub add_cumulative_burned : ℤ → State → State
add_cumulative_burned n s = record s { cumulative_burned = some (get_cumulative_burned s +ℤ n) }

pub record MsgUpdateParams : Type 0 where
  pub authority : Bytes
  pub params : FeesParams

module _ (sdk : Sdk) where
  abbrev pub or_default : Option FeesParams → FeesParams
  or_default none = default_params sdk
  or_default (some p) = p

  abbrev pub get_params : State → FeesParams
  get_params s = or_default s.params

  unfoldable pub set_params : FeesParams → State → Result FeesError State
  set_params p s = do validate sdk p; ok (record s { params = some p })

  -- `MsgUpdateParams.ValidateBasic`
  unfoldable pub validate_basic : MsgUpdateParams → Result FeesError (Unit {0})
  validate_basic msg = do
    _ ← or_err (sdk.acc_address msg.authority) invalid_address
    validate sdk msg.params

  -- The handler; the first argument is the keeper's authority.
  unfoldable pub update_params : Bytes → MsgUpdateParams → State → Result FeesError State
  unfolding validate_basic
  update_params authority msg s = do
    validate_basic msg
    guard (beq msg.authority authority) unauthorized
    s' ← set_params msg.params s
    ok (emit (params_updated msg.params.burn_ratio msg.params.distribution_ratio) s')

pub data QueryError : Type 0 where
  invalid_argument : QueryError

-- `Params`; a request that is `nil` is `none`.
unfoldable pub query_params : Sdk → Option (Unit {0}) → State → Result QueryError FeesParams
query_params sdk req s = do _ ← or_err req invalid_argument; ok (get_params sdk s)
