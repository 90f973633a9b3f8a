-- ===== src/Rwa/Genesis.antt =====
-- x/rwa/types/genesis.go and x/rwa/keeper/genesis.go.
pub mod Members
pub mod Records
pub mod Lists
pub mod Passing
pub mod Validating
pub mod Restoring
pub mod Round
use vertix.Base.{
  ℕ, ◌+◌, ◌-◌, Bool, true, false, not, ◌&&◌, ◌||◌, Option, none, some, List, [], ◌∷◌, ◌++◌, drop,
  length, map, if◌then◌else◌, ltb,
}
use vertix.Base.Bytes.{Bytes, beq, bytes_lt}
use vertix.Base.Int.{ℤ, ltb_ℤ}
use vertix.Base.Map.{Map}
use vertix.Base.Results.{Result, ok, err, ◌>>=◌, ◌>>◌, guard, or_err}
use vertix.Base.Sort.{sort_by}
use vertix.Base.Entries.{values}
use vertix.Pattern.{is_slug, is_pair}
use vertix.Sdk.{Sdk}
use vertix.Rwa.Types.{
  RwaError, RwaParams, AssetRecord, AssetStatus, unspecified, default_params, min_issuer_bond_int,
  validate_params,
}
use vertix.Rwa.Keys.{allowlist_prefix, denylist_prefix, trim_prefix}
use vertix.Rwa.Keeper.{State, get_params, set_params, set_asset}
use vertix.Rwa.Restriction.{add_allowlist, add_denylist}
use vertix.Rwa.Server.Register.{is_attested, is_active}

pub record Restriction : Type 0 where
  pub asset_id : Bytes
  pub address : Bytes
  pub is_deny : Bool

pub record GenesisState : Type 0 where
  pub params : RwaParams
  pub assets : List AssetRecord
  pub restrictions : List Restriction

pub data GenesisError : Type 0 where
  bad_asset_id duplicate_asset bad_issuer bad_status bad_pair bad_bond bond_below_min : GenesisError
  bad_notional unknown_asset bad_address : GenesisError
  -- the error of a keeper or of the parameters
  refused : RwaError → GenesisError

-- An error of the keeper, as one of the genesis.
abbrev pub lift {ℓ} : {A : Type ℓ} → Result RwaError A → Result GenesisError A
lift (ok a) = ok a
lift (err e) = err (refused e)

-- Is a string among the ids that have been seen?
unfoldable pub seen_id : Bytes → List Bytes → Bool
seen_id id [] = false
seen_id id (x ∷ xs) = beq id x || seen_id id xs

abbrev pub is_unspecified : AssetStatus → Bool
is_unspecified unspecified = true
is_unspecified _ = false

-- `DefaultGenesis`
abbrev pub default_genesis : Sdk → GenesisState
default_genesis sdk = record { params = default_params sdk; assets = []; restrictions = [] }

abbrev pub add_restriction : Restriction → Bytes → State → State
add_restriction r addr s =
    if r.is_deny then add_denylist r.asset_id addr s else add_allowlist r.asset_id addr s

module _ (sdk : Sdk) where
  -- An attested or active asset has at least the least bond; `none` is a panic.
  abbrev pub bond_enough : Option ℤ → AssetStatus → ℤ → Bool
  bond_enough none status bond = not (is_attested status || is_active status)
  bond_enough (some min) status bond =
      not (is_attested status || is_active status) || not (ltb_ℤ bond min)

  -- The loop over the assets, with the ids seen so far.
  unfoldable pub check_assets :
      Option ℤ → List Bytes → List AssetRecord → Result GenesisError (List Bytes)
  unfolding seen_id
  check_assets min seen [] = ok seen
  check_assets min seen (a ∷ more) = do
    guard (is_slug a.asset_id) bad_asset_id
    guard (not (seen_id a.asset_id seen)) duplicate_asset
    _ ← or_err (sdk.acc_address a.issuer) bad_issuer
    guard (not (is_unspecified a.status)) bad_status
    guard (is_pair a.oracle_pair) bad_pair
    bond ← or_err (sdk.parse_int a.bond) bad_bond
    guard (bond_enough min a.status bond) bond_below_min
    _ ← or_err (sdk.parse_int a.notional_minted) bad_notional
    check_assets min (a.asset_id ∷ seen) more

  unfoldable pub check_restrictions : List Bytes → List Restriction → Result GenesisError (Unit {0})
  unfolding seen_id
  check_restrictions seen [] = ok tt
  check_restrictions seen (r ∷ rs) = do
    guard (seen_id r.asset_id seen) unknown_asset
    _ ← or_err (sdk.acc_address r.address) bad_address
    check_restrictions seen rs

  -- `GenesisState.Validate`
  unfoldable pub validate_genesis : GenesisState → Result GenesisError (Unit {0})
  unfolding check_assets check_restrictions
  validate_genesis gs = do
    lift (validate_params sdk gs.params)
    seen ← check_assets (min_issuer_bond_int sdk gs.params) [] gs.assets
    check_restrictions seen gs.restrictions

  unfoldable pub set_assets : List AssetRecord → State → Result GenesisError State
  set_assets [] s = ok s
  set_assets (a ∷ more) s = do s' ← lift (set_asset sdk a s); set_assets more s'

  unfoldable pub add_restrictions : List Restriction → State → Result GenesisError State
  add_restrictions [] s = ok s
  add_restrictions (r ∷ rs) s = do
    addr ← or_err (sdk.acc_address r.address) bad_address
    add_restrictions rs (add_restriction r addr s)

  -- `InitGenesis`, which panics on an error.
  unfoldable pub init_genesis : GenesisState → State → Result GenesisError State
  unfolding validate_genesis set_assets add_restrictions
  init_genesis gs s = do
    validate_genesis gs
    s₁ ← lift (set_params sdk gs.params s)
    s₂ ← set_assets gs.assets s₁
    add_restrictions gs.restrictions s₂

-- `IterateAssets`: the records in the order of their keys.
abbrev pub all_assets : Map AssetRecord → List AssetRecord
all_assets m = values m

-- The address of a membership key: what follows the prefix byte, the length and the id.
unfoldable pub member_of : Bytes → Option Bytes
member_of [] = none
member_of (p ∷ []) = none
member_of (p ∷ n ∷ rest) = if ltb (length rest) n then none else some (drop n rest)

-- One turn of the loop: the rest of a key under the prefix, and the address that it holds.
unfoldable pub visit : Option Bytes → Option Bytes → List Bytes → List Bytes
visit none member rest = rest
visit (some tail) none rest = rest
visit (some tail) (some addr) rest = addr ∷ rest

-- `IterateMembers`: the addresses under a prefix, in the order of the keys.
unfoldable pub iterate_members : Bytes → Map (Unit {0}) → List Bytes
unfolding trim_prefix member_of visit
iterate_members prefix [] = []
iterate_members prefix ((k, v) ∷ m) =
    visit (trim_prefix prefix k) (member_of k) (iterate_members prefix m)

abbrev pub id_lt : AssetRecord → AssetRecord → Bool
id_lt a b = bytes_lt a.asset_id b.asset_id

module _ (sdk : Sdk) where
  abbrev pub to_restriction : Bytes → Bool → Bytes → Restriction
  to_restriction id is_deny addr = record {
    asset_id = id;
    address = sdk.acc_string addr;
    is_deny = is_deny;
  }

  -- The lists of one asset.
  unfoldable pub export_lists : State → Bytes → List Restriction
  unfolding iterate_members
  export_lists s id =
      map (to_restriction id false) (iterate_members (allowlist_prefix id) s.allowlist)
      ++ map (to_restriction id true) (iterate_members (denylist_prefix id) s.denylist)

  unfoldable pub export_restrictions : State → List AssetRecord → List Restriction
  unfolding export_lists
  export_restrictions s [] = []
  export_restrictions s (a ∷ more) = export_lists s a.asset_id ++ export_restrictions s more

  -- `ExportGenesis`
  unfoldable pub export_genesis : State → GenesisState
  unfolding values export_restrictions
  export_genesis s =
      let assets = sort_by id_lt (all_assets s.assets) in
      record {
        params = get_params sdk s;
        assets = assets;
        restrictions = export_restrictions s assets;
      }
