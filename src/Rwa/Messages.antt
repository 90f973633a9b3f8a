-- ===== src/Rwa/Messages.antt =====
-- x/rwa/types/msgs.go: the messages (tx.proto) and their stateless checks.
use vertix.Base.{ℕ, Bool, not, List, [], ◌∷◌, length, leb}
use vertix.Base.Bytes.{Bytes, beq}
use vertix.Base.Int.{is_positive}
use vertix.Base.Results.{Result, ok, err, ◌>>=◌, ◌>>◌, guard, or_err}
use vertix.Pattern.{is_slug, is_pair}
use vertix.Sdk.{Sdk}
use vertix.Rwa.Types.{
  RwaError, RwaParams, invalid_asset_id, invalid_amount, invalid_address, invalid_params,
  invalid_notional, validate_params,
}

pub record MsgRegisterAsset : Type 0 where
  pub issuer : Bytes
  pub asset_id : Bytes
  pub name : Bytes
  pub description : Bytes
  pub oracle_pair : Bytes
  pub bond : Bytes

pub record MsgAttestAsset : Type 0 where
  pub issuer : Bytes
  pub asset_id : Bytes

pub record MsgMintRwa : Type 0 where
  pub issuer : Bytes
  pub asset_id : Bytes
  pub notional : Bytes

pub record MsgTransferRwa : Type 0 where
  pub sender : Bytes
  pub recipient : Bytes
  pub asset_id : Bytes
  pub amount : Bytes

pub record MsgUpdateRestrictions : Type 0 where
  pub issuer : Bytes
  pub asset_id : Bytes
  pub allow_all : Bool
  pub add_allow : List Bytes
  pub del_allow : List Bytes
  pub add_deny : List Bytes
  pub del_deny : List Bytes

pub record MsgSettleRwa : Type 0 where
  pub issuer : Bytes
  pub asset_id : Bytes

pub record MsgSlashBond : Type 0 where
  pub authority : Bytes
  pub asset_id : Bytes
  pub reason : Bytes

pub record MsgUpdateParams : Type 0 where
  pub authority : Bytes
  pub params : RwaParams

abbrev pub max_restriction_batch : ℕ
max_restriction_batch = 100

abbrev pub validate_asset_id : Bytes → Result RwaError (Unit {0})
validate_asset_id id = guard (is_slug id) invalid_asset_id

module _ (sdk : Sdk) where
  abbrev pub validate_positive_int : Bytes → Result RwaError (Unit {0})
  validate_positive_int s = do
    v ← or_err (sdk.parse_int s) invalid_amount
    guard (is_positive v) invalid_amount

  abbrev pub check_acc : Bytes → Result RwaError (Unit {0})
  check_acc s = do _ ← or_err (sdk.acc_address s) invalid_address; ok tt

  unfoldable pub basic_register : MsgRegisterAsset → Result RwaError (Unit {0})
  basic_register m = do
    check_acc m.issuer
    validate_asset_id m.asset_id
    guard (not (beq m.name [])) invalid_params
    guard (is_pair m.oracle_pair) invalid_params
    validate_positive_int m.bond

  unfoldable pub basic_attest : MsgAttestAsset → Result RwaError (Unit {0})
  basic_attest m = do check_acc m.issuer; validate_asset_id m.asset_id

  unfoldable pub basic_mint : MsgMintRwa → Result RwaError (Unit {0})
  basic_mint m = do
    check_acc m.issuer
    validate_asset_id m.asset_id
    elim (validate_positive_int m.notional) [ ok u ↦ ok u | err e ↦ err invalid_notional ]

  unfoldable pub basic_transfer : MsgTransferRwa → Result RwaError (Unit {0})
  basic_transfer m = do
    check_acc m.sender
    check_acc m.recipient
    validate_asset_id m.asset_id
    validate_positive_int m.amount

  unfoldable pub basic_settle : MsgSettleRwa → Result RwaError (Unit {0})
  basic_settle m = do check_acc m.issuer; validate_asset_id m.asset_id

  -- the entries of one of the four lists
  abbrev pub check_entries : List Bytes → Result RwaError (Unit {0})
  check_entries [] = ok tt
  check_entries (a ∷ rest) = check_acc a >>= λ _. check_entries rest

  abbrev pub check_group : List Bytes → Result RwaError (Unit {0})
  check_group g = do guard (leb (length g) max_restriction_batch) invalid_params; check_entries g

  unfoldable pub basic_update_restrictions : MsgUpdateRestrictions → Result RwaError (Unit {0})
  basic_update_restrictions m = do
    check_acc m.issuer
    validate_asset_id m.asset_id
    check_group m.add_allow
    check_group m.del_allow
    check_group m.add_deny
    check_group m.del_deny

  unfoldable pub basic_slash : MsgSlashBond → Result RwaError (Unit {0})
  basic_slash m = do check_acc m.authority; validate_asset_id m.asset_id

  unfoldable pub basic_update_params : MsgUpdateParams → Result RwaError (Unit {0})
  basic_update_params m = do check_acc m.authority; validate_params sdk m.params
