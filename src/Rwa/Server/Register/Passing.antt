-- ===== src/Rwa/Server/Register/Passing.antt =====
-- What has passed when a message of the registry succeeds.
use vertix.Base.{◌≡◌, refl, Bool, true, false, not, Option, none, some}
use vertix.Base.Bytes.{Bytes, beq, beq→eq}
use vertix.Base.Int.{ℤ, ltb_ℤ}
use vertix.Base.Results.{ok, returned, >>=-eq-ok, guard-then, check-then, or_err-then}
use vertix.Sdk.{Sdk}
use vertix.Rwa.Types.{
  AssetRecord, attested, unauthorized, asset_exists, asset_not_found, invalid_status, bond_too_low,
  attestation_failed, invalid_amount, invalid_address, panicked, min_issuer_bond_int,
}
use vertix.Rwa.Messages.{
  MsgRegisterAsset, MsgAttestAsset, MsgUpdateRestrictions, basic_register, basic_attest,
  basic_update_restrictions,
}
use vertix.Rwa.Keeper.{
  State, Context, asset_registered, asset_attested, restriction_updated, emit, get_asset,
  get_params, set_asset,
}
use vertix.Rwa.Restriction.{add_allowlist, del_allowlist, add_denylist, del_denylist}
use vertix.Rwa.Funds.{lock_bond}
use package.vertix.Rwa.Server.Register.{
  register_asset, require_issuer, attest_asset, update_restrictions, apply_list, new_asset, is_none,
  is_draft, is_settled,
}

pub record Registers (sdk : Sdk) (ctx : Context) (msg : MsgRegisterAsset) (s u : State)
    : Type 0 where
  pub basic : basic_register sdk msg ≡ ok tt
  pub fresh : get_asset msg.asset_id s ≡ none
  pub bond : ℤ
  pub bond_is : sdk.parse_int msg.bond ≡ some bond
  pub min_bond : ℤ
  pub min_is : min_issuer_bond_int sdk (get_params sdk s) ≡ some min_bond
  pub enough : ltb_ℤ bond min_bond ≡ false
  pub issuer : Bytes
  pub issuer_is : sdk.acc_address msg.issuer ≡ some issuer
  pub locked : State
  pub locks : lock_bond sdk issuer bond s ≡ ok locked
  pub stored : State
  pub stores : set_asset sdk (new_asset sdk ctx msg bond) locked ≡ ok stored
  pub result : u ≡ emit (asset_registered msg.asset_id msg.issuer (sdk.print_int bond)) stored

pub not-true : (b : Bool) → not b ≡ true → b ≡ false
not-true true h = cc
not-true false h = refl

is_none→eq {ℓ} : {A : Type ℓ} (o : Option A) → is_none o ≡ true → o ≡ none
is_none→eq none h = refl
is_none→eq (some a) h = cc

module _ (sdk : Sdk) where
  pub register_asset-ok :
      (ctx : Context) (msg : MsgRegisterAsset) (s u : State)
      → register_asset sdk ctx msg s ≡ ok u
      → Registers sdk ctx msg s u
  unfolding register_asset
  register_asset-ok ctx msg s u h =
      let (basic, h₁) = check-then (basic_register sdk msg) _ h in
      let (new, h₂) = guard-then (is_none (get_asset msg.asset_id s)) asset_exists _ h₁ in
      let (bond, bond_is, h₃) = or_err-then (sdk.parse_int msg.bond) invalid_amount _ h₂ in
      let (min_bond, min_is, h₄) =
        or_err-then (min_issuer_bond_int sdk (get_params sdk s)) panicked _ h₃ in
      let (enough, h₅) = guard-then (not (ltb_ℤ bond min_bond)) bond_too_low _ h₄ in
      let (issuer, issuer_is, h₆) = or_err-then (sdk.acc_address msg.issuer) invalid_address _ h₅ in
      let (locked, locks, h₇) = >>=-eq-ok (lock_bond sdk issuer bond s) _ h₆ in
      let (stored, stores, h₈) =
        >>=-eq-ok (set_asset sdk (new_asset sdk ctx msg bond) locked) _ h₇ in
      record {
        basic = basic;
        fresh = is_none→eq (get_asset msg.asset_id s) new;
        bond = bond;
        bond_is = bond_is;
        min_bond = min_bond;
        min_is = min_is;
        enough = not-true (ltb_ℤ bond min_bond) enough;
        issuer = issuer;
        issuer_is = issuer_is;
        locked = locked;
        locks = locks;
        stored = stored;
        stores = stores;
        result = returned h₈;
      }

pub record IsIssuer (id caller : Bytes) (s : State) (rec : AssetRecord) : Type 0 where
  pub found : get_asset id s ≡ some rec
  pub owner : rec.issuer ≡ caller

-- The record that an attestation writes.
abbrev pub attested_asset : Sdk → Context → ℤ → AssetRecord → AssetRecord
attested_asset sdk ctx price rec = record rec {
  status = attested;
  attested_price = sdk.print_dec price;
  attested_at = ctx.block_time;
}

pub record Attests (sdk : Sdk) (ctx : Context) (msg : MsgAttestAsset) (s u : State) : Type 0 where
  pub rec : AssetRecord
  pub by_issuer : IsIssuer msg.asset_id msg.issuer s rec
  pub was_draft : is_draft rec.status ≡ true
  pub price : ℤ
  pub price_is : ctx.get_price rec.oracle_pair ≡ some price
  pub stored : State
  pub stores : set_asset sdk (attested_asset sdk ctx price rec) s ≡ ok stored
  pub result : u ≡ emit (asset_attested rec.asset_id rec.oracle_pair (sdk.print_dec price)) stored

pub record Restricts (sdk : Sdk) (msg : MsgUpdateRestrictions) (s u : State) : Type 0 where
  pub rec : AssetRecord
  pub by_issuer : IsIssuer msg.asset_id msg.issuer s rec
  pub not_settled : is_settled rec.status ≡ false
  pub s₁ : State
  pub s₂ : State
  pub s₃ : State
  pub s₄ : State
  pub adds_allow : apply_list sdk add_allowlist msg.asset_id msg.add_allow s ≡ ok s₁
  pub dels_allow : apply_list sdk del_allowlist msg.asset_id msg.del_allow s₁ ≡ ok s₂
  pub adds_deny : apply_list sdk add_denylist msg.asset_id msg.add_deny s₂ ≡ ok s₃
  pub dels_deny : apply_list sdk del_denylist msg.asset_id msg.del_deny s₃ ≡ ok s₄
  pub stored : State
  pub stores : set_asset sdk (record rec { allow_all = msg.allow_all }) s₄ ≡ ok stored
  pub result : u ≡ emit (restriction_updated rec.asset_id msg.allow_all) stored

module _ (sdk : Sdk) where
  pub require_issuer-ok :
      (id caller : Bytes) (s : State) (rec : AssetRecord)
      → require_issuer sdk id caller s ≡ ok rec
      → IsIssuer id caller s rec
  unfolding require_issuer
  require_issuer-ok id caller s rec h =
      let (r, found, h₁) = or_err-then (get_asset id s) asset_not_found _ h in
      let (same, h₂) = guard-then (beq r.issuer caller) unauthorized _ h₁ in
      let is_rec : r ≡ rec = cc in
      record { found = cc; owner = rw (← is_rec) (beq→eq r.issuer caller same) }

  pub attest_asset-ok :
      (ctx : Context) (msg : MsgAttestAsset) (s u : State)
      → attest_asset sdk ctx msg s ≡ ok u
      → Attests sdk ctx msg s u
  unfolding attest_asset
  attest_asset-ok ctx msg s u h =
      let (basic, h₁) = check-then (basic_attest sdk msg) _ h in
      let (rec, owned, h₂) = >>=-eq-ok (require_issuer sdk msg.asset_id msg.issuer s) _ h₁ in
      let (was_draft, h₃) = guard-then (is_draft rec.status) invalid_status _ h₂ in
      let (price, price_is, h₄) =
        or_err-then (ctx.get_price rec.oracle_pair) attestation_failed _ h₃ in
      let (stored, stores, h₅) =
        >>=-eq-ok (set_asset sdk (attested_asset sdk ctx price rec) s) _ h₄ in
      record {
        rec = rec;
        by_issuer = require_issuer-ok msg.asset_id msg.issuer s rec owned;
        was_draft = was_draft;
        price = price;
        price_is = price_is;
        stored = stored;
        stores = stores;
        result = returned h₅;
      }

  pub update_restrictions-ok :
      (msg : MsgUpdateRestrictions) (s u : State)
      → update_restrictions sdk msg s ≡ ok u
      → Restricts sdk msg s u
  unfolding update_restrictions
  update_restrictions-ok msg s u h =
      let id = msg.asset_id in
      let (basic, h₁) = check-then (basic_update_restrictions sdk msg) _ h in
      let (rec, owned, h₂) = >>=-eq-ok (require_issuer sdk id msg.issuer s) _ h₁ in
      let (open_still, h₃) = guard-then (not (is_settled rec.status)) invalid_status _ h₂ in
      let (s₁, e₁, h₄) = >>=-eq-ok (apply_list sdk add_allowlist id msg.add_allow s) _ h₃ in
      let (s₂, e₂, h₅) = >>=-eq-ok (apply_list sdk del_allowlist id msg.del_allow s₁) _ h₄ in
      let (s₃, e₃, h₆) = >>=-eq-ok (apply_list sdk add_denylist id msg.add_deny s₂) _ h₅ in
      let (s₄, e₄, h₇) = >>=-eq-ok (apply_list sdk del_denylist id msg.del_deny s₃) _ h₆ in
      let (stored, stores, h₈) =
        >>=-eq-ok (set_asset sdk (record rec { allow_all = msg.allow_all }) s₄) _ h₇ in
      record {
        rec = rec;
        by_issuer = require_issuer-ok id msg.issuer s rec owned;
        not_settled = not-true (is_settled rec.status) open_still;
        s₁ = s₁;
        s₂ = s₂;
        s₃ = s₃;
        s₄ = s₄;
        adds_allow = e₁;
        dels_allow = e₂;
        adds_deny = e₃;
        dels_deny = e₄;
        stored = stored;
        stores = stores;
        result = returned h₈;
      }
