-- ===== src/Rwa/Keeper.antt =====
-- x/rwa/keeper/keeper.go: the store, a field for each key prefix, with the bank and the events.
use vertix.Base.{ℕ, Bool, Option, none, some, List, [], ◌∷◌, ◌++◌}
use vertix.Base.Bytes.{Bytes}
use vertix.Base.Int.{ℤ}
use vertix.Base.Map.{Map, lookup, insert}
use vertix.Base.Results.{Result, ok, ◌>>=◌, ◌>>◌, or_err}
use vertix.Sdk.{Sdk, Bank}
use vertix.Rwa.Types.{
  RwaError, RwaParams, AssetRecord, invalid_address, panicked, default_params, validate_params,
}
use vertix.Rwa.Keys.{asset_key, issuer_index_key}

pub data RwaEvent : Type 0 where
  -- asset id, issuer, bond
  asset_registered : Bytes → Bytes → Bytes → RwaEvent
  -- asset id, oracle pair, price
  asset_attested : Bytes → Bytes → Bytes → RwaEvent
  -- asset id, notional, fee
  rwa_minted : Bytes → Bytes → Bytes → RwaEvent
  -- asset id, sender, recipient, amount
  rwa_transferred : Bytes → Bytes → Bytes → Bytes → RwaEvent
  -- asset id, the new `allow_all`
  restriction_updated : Bytes → Bool → RwaEvent
  -- asset id, fee, bond
  rwa_settled : Bytes → Bytes → Bytes → RwaEvent
  -- asset id, amount, reason
  bond_slashed : Bytes → Bytes → Bytes → RwaEvent
  params_updated : RwaEvent

-- What a handler takes from the block: its time, and the oracle keeper's `GetPrice`.
pub record Context : Type 0 where
  pub block_time : ℕ
  pub get_price : Bytes → Option ℤ

pub record State : Type 0 where
  pub params : Option RwaParams
  pub assets : Map AssetRecord
  pub issuer_index : Map (Unit {0})
  pub allowlist : Map (Unit {0})
  pub denylist : Map (Unit {0})
  pub bank : Bank
  pub events : List RwaEvent

abbrev pub emit : RwaEvent → State → State
emit e s = record s { events = s.events ++ e ∷ [] }

abbrev pub get_asset : Bytes → State → Option AssetRecord
get_asset id s = lookup (asset_key id) s.assets

module _ (sdk : Sdk) where
  abbrev pub or_default : Option RwaParams → RwaParams
  or_default none = default_params sdk
  or_default (some p) = p

  abbrev pub get_params : State → RwaParams
  get_params s = or_default s.params

  unfoldable pub set_params : RwaParams → State → Result RwaError State
  set_params p s = do validate_params sdk p; ok (record s { params = some p })

  -- The record is written before the issuer is parsed; an error undoes the transaction.
  unfoldable pub set_asset : AssetRecord → State → Result RwaError State
  set_asset rec s = do
    let s' = record s { assets = insert (asset_key rec.asset_id) rec s.assets }
    issuer ← or_err (sdk.acc_address rec.issuer) invalid_address
    key ← or_err (issuer_index_key sdk issuer rec.asset_id) panicked
    ok (record s' { issuer_index = insert key tt s'.issuer_index })
