-- ===== src/Wiring.antt =====
-- app/app_config.go: how the modules are wired together. The oracle keeper of x/rwa is the keeper
-- of x/oracle.
pub mod Attesting
mod Tests
use vertix.Base.{Option, none, some}
use vertix.Base.Bytes.{Bytes}
use vertix.Base.Results.{Result, ok, err}
use vertix.Sdk.{Sdk}
use vertix.Oracle.Keeper.{get_price}
use vertix.Rwa.Keeper.{Context}

-- `OracleKeeper`, whose errors x/rwa does not tell apart.
abbrev pub answer {ℓ κ} : {E : Type ℓ} {A : Type κ} → Result E A → Option A
answer (ok a) = some a
answer (err e) = none

-- What a message of x/rwa sees in a block, given the state of x/oracle.
abbrev pub rwa_context : Sdk → vertix.Oracle.Keeper.Context → vertix.Oracle.Keeper.State → Context
rwa_context sdk ctx oracle = record {
  block_time = ctx.block_time;
  get_price = λ pair. answer (get_price sdk ctx pair oracle);
}
