-- ===== src/Oracle/Tests/Restart.antt =====
-- A small chain of x/oracle that is exported and started again.
use vertix.Base.{◌≡◌, refl, none, some, [], ◌∷◌, arith}
use vertix.Base.Bytes.{beq}
use vertix.Base.Int.{pos}
use vertix.Base.Map.{insert}
use vertix.Base.Results.{ok, err}
use vertix.Base.Sort.{sort_by}
use vertix.Pattern.{is_pair}
use vertix.Sdk.Model.{sample_sdk, sample-AddressLaws}
use vertix.Oracle.Types.{validate, validate_dec_open_closed, validate_slash_rate}
use vertix.Oracle.Keeper.{State, Context, set_params}
use vertix.Oracle.Feeder.Binding.{IsBound, set_feeder_delegation-binds}
use vertix.Oracle.Feeder.{bind_feeder}
use vertix.Oracle.Genesis.{export_genesis, init_genesis, validate_genesis, no_validator}
use vertix.Oracle.Genesis.Round.{IsExportable, Restored, empty_store, oracle_restarts}
use package.vertix.Oracle.Tests.{val_1, hot_key, vtx, start, sample_ctx, start-IsBound, binds}

-- A price, and a validator that has delegated to another account.
abbrev pub served : State
served = record start {
  prices =
      (2 ∷ vtx, record { pair = vtx; price = b'+' ∷ 5 ∷ []; block_height = pos 2; block_time = 1 })
      ∷ [];
  feeder_to_valoper = (7 ∷ hot_key, val_1) ∷ [];
  valoper_to_feeder = (8 ∷ val_1, hot_key) ∷ [];
}

served-IsBound : IsBound served
unfolding insert
served-IsBound v f h =
    (set_feeder_delegation-binds val_1 hot_key start (bind_feeder val_1 hot_key start) start-IsBound
        binds).0
      v f h

served-IsExportable : IsExportable sample_ctx served
unfolding beq
served-IsExportable = record {
  bound = served-IsBound;
  prices_sorted = (tt, tt);
  prices_keyed = (refl, tt);
  prices_past = (refl, tt);
  feeders_sorted = (tt, tt);
  delegations = ((val_1, refl, ((λ e. cc), omega arith), ((λ e. cc), omega arith), refl), tt);
}

served-validates : validate_genesis sample_sdk (export_genesis sample_sdk served) ≡ ok tt
unfolding validate_genesis validate export_genesis sample_sdk validate_dec_open_closed
    validate_slash_rate is_pair sort_by beq
served-validates = refl

oracle_restarts_example :
    (t : State) × (init_genesis sample_sdk sample_ctx (export_genesis sample_sdk served) empty_store
      ≡ ok t)
    × Restored sample_sdk served t
oracle_restarts_example =
    oracle_restarts sample_sdk sample-AddressLaws sample_ctx served served-IsExportable
      served-validates

-- The staking keeper no longer knows the validator, whose delegation is still in the store.
abbrev without_validator : Context
without_validator = record sample_ctx {
  staking = some (record {
    get_validator = λ a. none;
    last_power = λ a. none;
    bonded_by_power = some [];
    last_total_power = some (pos 0);
  });
}

gone-refused :
    init_genesis sample_sdk without_validator (export_genesis sample_sdk served) empty_store
    ≡ err no_validator
unfolding set_params init_genesis validate_genesis validate export_genesis sample_sdk
    validate_dec_open_closed validate_slash_rate is_pair sort_by beq
gone-refused = refl
