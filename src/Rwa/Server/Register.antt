-- ===== src/Rwa/Server/Register.antt =====
-- `RegisterAsset`, `requireIssuer`, `AttestAsset` and `UpdateRestrictions`.
pub mod Passing
use vertix.Base.{ℕ, Bool, true, false, not, Option, none, some, List, [], ◌∷◌}
use vertix.Base.Bytes.{Bytes, beq}
use vertix.Base.Int.{ℤ, pos, ltb_ℤ}
use vertix.Base.Results.{Result, ok, err, ◌>>=◌, ◌>>◌, guard, or_err}
use vertix.Sdk.{Sdk}
use vertix.Rwa.Types.{
  RwaError, AssetStatus, AssetRecord, draft, attested, active, settled, unspecified, unauthorized,
  asset_exists, asset_not_found, invalid_status, bond_too_low, attestation_failed, invalid_amount,
  invalid_address, panicked, min_issuer_bond_int,
}
use vertix.Rwa.Keys.{build_denom}
use vertix.Rwa.Messages.{
  MsgRegisterAsset, MsgAttestAsset, MsgUpdateRestrictions, basic_register, basic_attest,
  basic_update_restrictions,
}
use vertix.Rwa.Keeper.{
  State, Context, asset_registered, asset_attested, restriction_updated, emit, get_asset,
  get_params, set_asset,
}
use vertix.Rwa.Restriction.{add_allowlist, del_allowlist, add_denylist, del_denylist}
use vertix.Rwa.Funds.{lock_bond}

abbrev pub is_draft : AssetStatus → Bool
is_draft draft = true
is_draft _ = false

abbrev pub is_attested : AssetStatus → Bool
is_attested attested = true
is_attested _ = false

abbrev pub is_active : AssetStatus → Bool
is_active active = true
is_active _ = false

abbrev pub is_settled : AssetStatus → Bool
is_settled settled = true
is_settled _ = false

abbrev pub is_none {ℓ} : {A : Type ℓ} → Option A → Bool
is_none none = true
is_none (some a) = false

-- The record of a new asset.
abbrev pub new_asset : Sdk → Context → MsgRegisterAsset → ℤ → AssetRecord
new_asset sdk ctx msg bond = record {
  asset_id = msg.asset_id;
  issuer = msg.issuer;
  name = msg.name;
  description = msg.description;
  status = draft;
  oracle_pair = msg.oracle_pair;
  denom = build_denom msg.asset_id;
  bond = sdk.print_int bond;
  notional_minted = sdk.print_int (pos 0);
  allow_all = true;
  attested_price = [];
  attested_at = 0;
  created_at = ctx.block_time;
  settled_at = 0;
}

module _ (sdk : Sdk) where
  unfoldable pub register_asset : Context → MsgRegisterAsset → State → Result RwaError State
  register_asset ctx msg s = do
    basic_register sdk msg
    guard (is_none (get_asset msg.asset_id s)) asset_exists
    bond ← or_err (sdk.parse_int msg.bond) invalid_amount
    min_bond ← or_err (min_issuer_bond_int sdk (get_params sdk s)) panicked
    guard (not (ltb_ℤ bond min_bond)) bond_too_low
    issuer ← or_err (sdk.acc_address msg.issuer) invalid_address
    locked ← lock_bond sdk issuer bond s
    stored ← set_asset sdk (new_asset sdk ctx msg bond) locked
    ok (emit (asset_registered msg.asset_id msg.issuer (sdk.print_int bond)) stored)

  -- `requireIssuer`
  unfoldable pub require_issuer : Bytes → Bytes → State → Result RwaError AssetRecord
  require_issuer id caller s = do
    rec ← or_err (get_asset id s) asset_not_found
    guard (beq rec.issuer caller) unauthorized
    ok rec

  unfoldable pub attest_asset : Context → MsgAttestAsset → State → Result RwaError State
  attest_asset ctx msg s = do
    basic_attest sdk msg
    rec ← require_issuer msg.asset_id msg.issuer s
    guard (is_draft rec.status) invalid_status
    price ← or_err (ctx.get_price rec.oracle_pair) attestation_failed
    let rec' = record rec {
      status = attested;
      attested_price = sdk.print_dec price;
      attested_at = ctx.block_time;
    }
    stored ← set_asset sdk rec' s
    ok (emit (asset_attested rec'.asset_id rec'.oracle_pair rec'.attested_price) stored)

  -- The closure `apply`, for one of the four lists.
  unfoldable pub apply_list :
      (Bytes → Bytes → State → State) → Bytes → List Bytes → State → Result RwaError State
  apply_list f id [] s = ok s
  apply_list f id (a ∷ rest) s =
      or_err (sdk.acc_address a) invalid_address >>= λ addr. apply_list f id rest (f id addr s)

  unfoldable pub update_restrictions : MsgUpdateRestrictions → State → Result RwaError State
  update_restrictions msg s = do
    basic_update_restrictions sdk msg
    rec ← require_issuer msg.asset_id msg.issuer s
    guard (not (is_settled rec.status)) invalid_status
    s₁ ← apply_list add_allowlist msg.asset_id msg.add_allow s
    s₂ ← apply_list del_allowlist msg.asset_id msg.del_allow s₁
    s₃ ← apply_list add_denylist msg.asset_id msg.add_deny s₂
    s₄ ← apply_list del_denylist msg.asset_id msg.del_deny s₃
    stored ← set_asset sdk (record rec { allow_all = msg.allow_all }) s₄
    ok (emit (restriction_updated rec.asset_id msg.allow_all) stored)
