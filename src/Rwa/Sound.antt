-- ===== src/Rwa/Sound.antt =====
-- The invariant of x/rwa: the escrow covers the bonds, and the supply of a token is what its
-- record says has been minted.
pub mod Tokens
pub mod Store
pub mod Handlers
pub mod Chain
pub mod Lifecycle
pub mod Crisis
use vertix.Base.{
  ℕ, ◌≤◌, ◌<◌, ◌≡◌, ◌≢◌, Bool, true, false, ◌||◌, Option, none, some, if◌then◌else◌, [], ◌∷◌, All,
}
use vertix.Base.Bytes.{Bytes}
use vertix.Base.Int.{ℤ, pos, negsuc}
use vertix.Base.Map.{IsSorted, sum_map}
use vertix.Sdk.{Sdk}
use vertix.Rwa.Types.{AssetRecord, AssetStatus}
use vertix.Rwa.Keys.{build_denom, asset_key}
use vertix.Rwa.Keeper.{State, get_asset}
use vertix.Rwa.Funds.Effect.{escrow}
use vertix.Rwa.Server.Register.{is_draft, is_attested, is_active, is_settled}

abbrev pub nat_of : Option ℤ → ℕ
nat_of none = 0
nat_of (some (pos n)) = n
nat_of (some (negsuc n)) = 0

-- The bond that an asset holds in escrow.
abbrev pub locked : Sdk → AssetRecord → ℕ
locked sdk rec = if is_settled rec.status then 0 else nat_of (sdk.parse_int rec.bond)

-- A record as the handlers write it.
pub record IsRecord (sdk : Sdk) (id : Bytes) (rec : AssetRecord) : Type 0 where
  pub named : rec.asset_id ≡ id
  pub denoted : rec.denom ≡ build_denom id
  pub bond : ℕ
  pub bonded : sdk.parse_int rec.bond ≡ some (pos bond)
  pub bond_pos : is_settled rec.status ≡ false → 0 < bond
  pub minted : ℕ
  pub counted : sdk.parse_int rec.notional_minted ≡ some (pos minted)
  pub premint : (is_draft rec.status || is_attested rec.status) ≡ true → minted ≡ 0

-- The supply of an asset's token: none before the asset is registered; until it is settled, what
-- has been minted.
abbrev pub Tracks : Sdk → Option AssetRecord → ℕ → Type 0
Tracks sdk none supply = supply ≡ 0
Tracks sdk (some rec) supply =
    is_settled rec.status ≡ false → sdk.parse_int rec.notional_minted ≡ some (pos supply)

-- An entry of the registry: a record under the key of its own id.
abbrev pub IsEntry : Sdk → Bytes × AssetRecord → Type 0
IsEntry sdk (k, rec) = (k ≡ asset_key rec.asset_id) × IsRecord sdk rec.asset_id rec

pub record IsSound (sdk : Sdk) (s : State) : Type 0 where
  pub sorted : IsSorted s.assets
  pub records : (id : Bytes) (rec : AssetRecord) → get_asset id s ≡ some rec → IsRecord sdk id rec
  pub entries : All (IsEntry sdk) s.assets
  pub covered : sum_map (locked sdk) s.assets ≤ escrow sdk s
  pub tracked : (id : Bytes) → Tracks sdk (get_asset id s) (s.bank.supply (build_denom id))
