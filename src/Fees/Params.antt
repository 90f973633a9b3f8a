-- ===== src/Fees/Params.antt =====
-- x/fees/types: parameters, errors and keys.
pub mod Range
use vertix.Base.{ℕ, Bool, true, not, ◌||◌, Option, none, some}
use vertix.Base.Bytes.{Bytes, text}
use vertix.Base.Int.{ℤ, pos, ◌+ℤ◌, ltb_ℤ, eqb_ℤ, is_negative}
use vertix.Base.Results.{Result, ok, err, ◌>>=◌, ◌>>◌, guard, or_err}
use vertix.Sdk.{Sdk, one_dec}

pub data FeesError : Type 0 where
  unauthorized invalid_params invalid_ratio_sum invalid_address : FeesError
  -- an error of a parser, returned as it is
  bad_decimal : FeesError
  -- a Go panic
  panicked : FeesError

pub record FeesParams : Type 0 where
  pub burn_ratio : Bytes
  pub distribution_ratio : Bytes

abbrev pub module_name : Bytes
module_name = text "fees"

abbrev pub fee_denom : Bytes
fee_denom = text "uvtx"

module _ (sdk : Sdk) where
  abbrev pub default_params : FeesParams
  default_params = record {
    burn_ratio = sdk.print_dec (pos 400_000_000_000_000_000);
    distribution_ratio = sdk.print_dec (pos 600_000_000_000_000_000);
  }

  abbrev pub burn_ratio_dec : FeesParams → Result FeesError ℤ
  burn_ratio_dec p = or_err (sdk.parse_dec p.burn_ratio) bad_decimal

  -- `FeesParams.Validate`
  unfoldable pub validate : FeesParams → Result FeesError (Unit {0})
  validate p = do
    burn ← or_err (sdk.parse_dec p.burn_ratio) invalid_params
    distr ← or_err (sdk.parse_dec p.distribution_ratio) invalid_params
    guard (not (is_negative burn || ltb_ℤ (pos one_dec) burn)) invalid_params
    guard (not (is_negative distr || ltb_ℤ (pos one_dec) distr)) invalid_params
    guard (eqb_ℤ (burn +ℤ distr) (pos one_dec)) invalid_ratio_sum
