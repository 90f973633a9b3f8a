-- ===== src/Oracle/Feeder.antt =====
-- x/oracle/keeper/feeder.go: which account submits for a validator.
pub mod Binding
use vertix.Base.{Bool, true, false, Option, none, some, if◌then◌else◌}
use vertix.Base.Bytes.{Bytes, beq}
use vertix.Base.Map.{lookup, insert}
use vertix.Base.Results.{Result, ok, err}
use vertix.Oracle.Types.{OracleError, feeder_already_bound}
use vertix.Oracle.Keys.{feeder_to_valoper_key, valoper_to_feeder_key}
use vertix.Oracle.Keeper.{State}

-- Both directions are written.
abbrev pub bind_feeder : Bytes → Bytes → State → State
bind_feeder val feeder s = record s {
  feeder_to_valoper = insert (feeder_to_valoper_key feeder) val s.feeder_to_valoper;
  valoper_to_feeder = insert (valoper_to_feeder_key val) feeder s.valoper_to_feeder;
}

unfoldable pub set_feeder_delegation : Bytes → Bytes → State → Result OracleError State
set_feeder_delegation val feeder s =
    elim (lookup (feeder_to_valoper_key feeder) s.feeder_to_valoper) [
      | none ↦ ok (bind_feeder val feeder s)
      | some existing ↦
          if beq existing val then ok (bind_feeder val feeder s) else err feeder_already_bound
    ]

abbrev pub get_feeder_for_validator : Bytes → State → Option Bytes
get_feeder_for_validator val s = lookup (valoper_to_feeder_key val) s.valoper_to_feeder

-- A validator without a delegation submits itself.
abbrev pub feeder_or : Bytes → Option Bytes → Bytes
feeder_or val none = val
feeder_or val (some feeder) = feeder

abbrev pub resolve_authorized_feeder : Bytes → State → Bytes
resolve_authorized_feeder val s = feeder_or val (get_feeder_for_validator val s)
