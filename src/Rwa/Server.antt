-- ===== src/Rwa/Server.antt =====
-- x/rwa/keeper/msg_server.go: a handler for each message. An error undoes the transaction, so a
-- handler returns the new state or an error.
pub mod Register
pub mod Tokens
pub mod Closing
use vertix.Base.Bytes.{Bytes, beq}
use vertix.Base.Results.{Result, ok, err, ◌>>=◌, ◌>>◌, guard}
use vertix.Sdk.{Sdk}
use vertix.Rwa.Types.{RwaError, invalid_signer}
use vertix.Rwa.Messages.{MsgUpdateParams, basic_update_params}
use vertix.Rwa.Keeper.{State, params_updated, emit, set_params}

-- `UpdateParams`
unfoldable pub update_params : Sdk → Bytes → MsgUpdateParams → State → Result RwaError State
update_params sdk authority msg s = do
  guard (beq authority msg.authority) invalid_signer
  basic_update_params sdk msg
  s' ← set_params sdk msg.params s
  ok (emit params_updated s')
