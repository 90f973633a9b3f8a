-- ===== src/Rwa/Server/Closing/Passing.antt =====
-- What has passed when an asset has been settled or its bond slashed.
use vertix.Base.{◌≡◌, true, some, if◌then◌else◌}
use vertix.Base.Bytes.{Bytes, beq, beq→eq}
use vertix.Base.Int.{ℤ, pos, is_positive}
use vertix.Base.Results.{Result, ok, returned, >>=-eq-ok, guard-then, check-then, or_err-then}
use vertix.Sdk.{Sdk, Coins, new_coins}
use vertix.Rwa.Types.{
  RwaError, AssetRecord, settled, asset_not_found, unauthorized, invalid_status, invalid_address,
  panicked, bad_decimal,
}
use vertix.Rwa.Messages.{MsgSettleRwa, MsgSlashBond, basic_settle, basic_slash}
use vertix.Rwa.Keeper.{
  State, Context, rwa_settled, bond_slashed, emit, get_asset, get_params, set_asset,
}
use vertix.Rwa.Funds.{compute_fee, collect_fee, release_bond, slash_bond_to_community_pool}
use vertix.Rwa.Server.Register.{require_issuer, is_active}
use vertix.Rwa.Server.Register.Passing.{IsIssuer, require_issuer-ok}
use package.vertix.Rwa.Server.Closing.{burn_back, settle_rwa, slash_bond}

-- The records that the two messages write.
abbrev pub settled_asset : Context → AssetRecord → AssetRecord
settled_asset ctx rec = record rec { status = settled; settled_at = ctx.block_time }

abbrev pub slashed_asset : Sdk → Context → AssetRecord → AssetRecord
slashed_asset sdk ctx rec = record rec {
  status = settled;
  settled_at = ctx.block_time;
  bond = sdk.print_int (pos 0);
}

-- The steps that are skipped when there is nothing to burn, to return or to slash.
abbrev pub burn_step : Sdk → Bytes → ℤ → Coins → State → Result RwaError State
burn_step sdk issuer n coins s = if is_positive n then burn_back sdk issuer coins s else ok s

abbrev pub release_step : Sdk → Bytes → ℤ → State → Result RwaError State
release_step sdk issuer n s = if is_positive n then release_bond sdk issuer n s else ok s

abbrev pub slash_step : Sdk → ℤ → State → Result RwaError State
slash_step sdk n s = if is_positive n then slash_bond_to_community_pool sdk n s else ok s

pub record Settles (sdk : Sdk) (ctx : Context) (msg : MsgSettleRwa) (s u : State) : Type 0 where
  pub rec : AssetRecord
  pub by_issuer : IsIssuer msg.asset_id msg.issuer s rec
  pub is_act : is_active rec.status ≡ true
  pub issuer : Bytes
  pub issuer_is : sdk.acc_address msg.issuer ≡ some issuer
  pub rate : ℤ
  pub rate_is : sdk.parse_dec (get_params sdk s).settle_fee_rate ≡ some rate
  pub notional : ℤ
  pub notional_is : sdk.parse_int rec.notional_minted ≡ some notional
  pub paid : State
  pub pays : collect_fee sdk issuer (compute_fee sdk notional rate) s ≡ ok paid
  pub coins : Coins
  pub coins_are : new_coins rec.denom notional ≡ some coins
  pub burnt : State
  pub burns : burn_step sdk issuer notional coins paid ≡ ok burnt
  pub bond : ℤ
  pub bond_is : sdk.parse_int rec.bond ≡ some bond
  pub released : State
  pub releases : release_step sdk issuer bond burnt ≡ ok released
  pub stored : State
  pub stores : set_asset sdk (settled_asset ctx rec) released ≡ ok stored
  pub result :
      u
      ≡ emit
          (rwa_settled rec.asset_id
            (sdk.print_int (compute_fee sdk notional rate))
            (sdk.print_int bond))
          stored

pub record Slashes (sdk : Sdk) (ctx : Context) (authority : Bytes) (msg : MsgSlashBond)
    (s u : State) : Type 0 where
  pub by_authority : authority ≡ msg.authority
  pub rec : AssetRecord
  pub found : get_asset msg.asset_id s ≡ some rec
  pub is_act : is_active rec.status ≡ true
  pub bond : ℤ
  pub bond_is : sdk.parse_int rec.bond ≡ some bond
  pub slashed : State
  pub slashes : slash_step sdk bond s ≡ ok slashed
  pub stored : State
  pub stores : set_asset sdk (slashed_asset sdk ctx rec) slashed ≡ ok stored
  pub result : u ≡ emit (bond_slashed rec.asset_id (sdk.print_int bond) msg.reason) stored

module _ (sdk : Sdk) where
  pub settle_rwa-ok :
      (ctx : Context) (msg : MsgSettleRwa) (s u : State)
      → settle_rwa sdk ctx msg s ≡ ok u
      → Settles sdk ctx msg s u
  unfolding settle_rwa
  settle_rwa-ok ctx msg s u h =
      let (basic, h₁) = check-then (basic_settle sdk msg) _ h in
      let (rec, owned, h₂) = >>=-eq-ok (require_issuer sdk msg.asset_id msg.issuer s) _ h₁ in
      let (is_act, h₃) = guard-then (is_active rec.status) invalid_status _ h₂ in
      let (issuer, issuer_is, h₄) = or_err-then (sdk.acc_address msg.issuer) invalid_address _ h₃ in
      let (rate, rate_is, h₅) =
        or_err-then (sdk.parse_dec (get_params sdk s).settle_fee_rate) bad_decimal _ h₄ in
      let (notional, notional_is, h₆) =
        or_err-then (sdk.parse_int rec.notional_minted) panicked _ h₅ in
      let (paid, pays, h₇) =
        >>=-eq-ok (collect_fee sdk issuer (compute_fee sdk notional rate) s) _ h₆ in
      let (coins, coins_are, h₈) = or_err-then (new_coins rec.denom notional) panicked _ h₇ in
      let (burnt, burns, h₉) = >>=-eq-ok (burn_step sdk issuer notional coins paid) _ h₈ in
      let (bond, bond_is, h₁₀) = or_err-then (sdk.parse_int rec.bond) panicked _ h₉ in
      let (released, releases, h₁₁) = >>=-eq-ok (release_step sdk issuer bond burnt) _ h₁₀ in
      let (stored, stores, h₁₂) =
        >>=-eq-ok (set_asset sdk (settled_asset ctx rec) released) _ h₁₁ in
      record {
        rec = rec;
        by_issuer = require_issuer-ok sdk msg.asset_id msg.issuer s rec owned;
        is_act = is_act;
        issuer = issuer;
        issuer_is = issuer_is;
        rate = rate;
        rate_is = rate_is;
        notional = notional;
        notional_is = notional_is;
        paid = paid;
        pays = pays;
        coins = coins;
        coins_are = coins_are;
        burnt = burnt;
        burns = burns;
        bond = bond;
        bond_is = bond_is;
        released = released;
        releases = releases;
        stored = stored;
        stores = stores;
        result = returned h₁₂;
      }

  pub slash_bond-ok :
      (ctx : Context) (authority : Bytes) (msg : MsgSlashBond) (s u : State)
      → slash_bond sdk ctx authority msg s ≡ ok u
      → Slashes sdk ctx authority msg s u
  unfolding slash_bond
  slash_bond-ok ctx authority msg s u h =
      let (same, h₁) = guard-then (beq authority msg.authority) unauthorized _ h in
      let (basic, h₂) = check-then (basic_slash sdk msg) _ h₁ in
      let (rec, found, h₃) = or_err-then (get_asset msg.asset_id s) asset_not_found _ h₂ in
      let (is_act, h₄) = guard-then (is_active rec.status) invalid_status _ h₃ in
      let (bond, bond_is, h₅) = or_err-then (sdk.parse_int rec.bond) panicked _ h₄ in
      let (slashed, slashes, h₆) = >>=-eq-ok (slash_step sdk bond s) _ h₅ in
      let (stored, stores, h₇) =
        >>=-eq-ok (set_asset sdk (slashed_asset sdk ctx rec) slashed) _ h₆ in
      record {
        by_authority = beq→eq authority msg.authority same;
        rec = rec;
        found = found;
        is_act = is_act;
        bond = bond;
        bond_is = bond_is;
        slashed = slashed;
        slashes = slashes;
        stored = stored;
        stores = stores;
        result = returned h₇;
      }
