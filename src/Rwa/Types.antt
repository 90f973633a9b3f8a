-- ===== src/Rwa/Types.antt =====
-- x/rwa/types: errors, the asset record, parameters (params.go, errors.go, types.proto).
use vertix.Base.{ℕ, Bool, not, ◌||◌, Option}
use vertix.Base.Bytes.{Bytes, text}
use vertix.Base.Int.{ℤ, pos, is_negative, leb_ℤ}
use vertix.Base.Results.{Result, ◌>>=◌, ◌>>◌, guard, or_err}
use vertix.Sdk.{Sdk, one_dec}

pub data RwaError : Type 0 where
  invalid_signer unauthorized asset_exists asset_not_found invalid_status bond_too_low : RwaError
  attestation_failed invalid_notional transfer_restricted invalid_asset_id invalid_params : RwaError
  invalid_amount invalid_address bank_refused bad_decimal : RwaError
  -- a panic, which the runtime turns into a failed transaction
  panicked : RwaError

pub data AssetStatus : Type 0 where
  unspecified draft attested active settled : AssetStatus

-- A time is a number of nanoseconds since Go's zero time.
pub record AssetRecord : Type 0 where
  pub asset_id : Bytes
  pub issuer : Bytes
  pub name : Bytes
  pub description : Bytes
  pub status : AssetStatus
  pub oracle_pair : Bytes
  pub denom : Bytes
  pub bond : Bytes
  pub notional_minted : Bytes
  pub allow_all : Bool
  pub attested_price : Bytes
  pub attested_at : ℕ
  pub created_at : ℕ
  pub settled_at : ℕ

pub record RwaParams : Type 0 where
  pub min_issuer_bond : Bytes
  pub mint_fee_rate : Bytes
  pub settle_fee_rate : Bytes

abbrev pub module_name : Bytes
module_name = text "rwa"

abbrev pub bond_denom : Bytes
bond_denom = text "uvtx"

abbrev pub rwa_denom_prefix : Bytes
rwa_denom_prefix = text "rwa/"

module _ (sdk : Sdk) where
  abbrev pub default_params : RwaParams
  default_params = record {
    min_issuer_bond = sdk.print_int (pos 10_000_000_000);
    mint_fee_rate = sdk.print_dec (pos 1_000_000_000_000_000);
    settle_fee_rate = sdk.print_dec (pos 1_000_000_000_000_000);
  }

  -- The two results of `MinIssuerBondInt`; `none` is a value that panics when it is used.
  abbrev pub min_issuer_bond_int : RwaParams → Option ℤ
  min_issuer_bond_int p = sdk.parse_int p.min_issuer_bond

  abbrev pub mint_fee_rate_dec : RwaParams → Result RwaError ℤ
  mint_fee_rate_dec p = or_err (sdk.parse_dec p.mint_fee_rate) bad_decimal

  abbrev pub settle_fee_rate_dec : RwaParams → Result RwaError ℤ
  settle_fee_rate_dec p = or_err (sdk.parse_dec p.settle_fee_rate) bad_decimal

  unfoldable pub validate_fee_rate : Bytes → Result RwaError (Unit {0})
  validate_fee_rate s = do
    d ← or_err (sdk.parse_dec s) invalid_params
    guard (not (is_negative d || leb_ℤ (pos one_dec) d)) invalid_params

  -- `RWAParams.Validate`
  unfoldable pub validate_params : RwaParams → Result RwaError (Unit {0})
  unfolding validate_fee_rate
  validate_params p = do
    bond ← or_err (sdk.parse_int p.min_issuer_bond) invalid_params
    guard (not (is_negative bond)) invalid_params
    validate_fee_rate p.mint_fee_rate
    validate_fee_rate p.settle_fee_rate
