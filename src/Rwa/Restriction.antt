-- ===== src/Rwa/Restriction.antt =====
-- x/rwa/keeper/restriction.go and send_restriction.go.
pub mod Passing
pub mod Policy
use vertix.Base.{
  ℕ, Bool, true, false, not, ◌&&◌, ◌||◌, Option, none, some, List, [], ◌∷◌, if◌then◌else◌,
}
use vertix.Base.Bytes.{Bytes, beq}
use vertix.Base.Map.{contains, insert, erase}
use vertix.Base.Results.{Result, ok, err}
use vertix.Sdk.{Sdk, Coins, Hook}
use vertix.Rwa.Types.{RwaError, AssetRecord, asset_not_found, transfer_restricted, module_name}
use vertix.Rwa.Keys.{allowlist_key, denylist_key, parse_rwa_denom}
use vertix.Rwa.Keeper.{State, get_asset}

abbrev pub add_allowlist : Bytes → Bytes → State → State
add_allowlist id a s = record s { allowlist = insert (allowlist_key id a) tt s.allowlist }

abbrev pub del_allowlist : Bytes → Bytes → State → State
del_allowlist id a s = record s { allowlist = erase (allowlist_key id a) s.allowlist }

abbrev pub add_denylist : Bytes → Bytes → State → State
add_denylist id a s = record s { denylist = insert (denylist_key id a) tt s.denylist }

abbrev pub del_denylist : Bytes → Bytes → State → State
del_denylist id a s = record s { denylist = erase (denylist_key id a) s.denylist }

abbrev pub is_allowlisted : Bytes → Bytes → State → Bool
is_allowlisted id a s = contains (allowlist_key id a) s.allowlist

abbrev pub is_denylisted : Bytes → Bytes → State → Bool
is_denylisted id a s = contains (denylist_key id a) s.denylist

-- The policy of a registered asset, once neither party is the module account.
unfoldable pub check_policy :
    AssetRecord → Bytes → Bytes → Bytes → State → Result RwaError (Unit {0})
check_policy rec id from to s =
    if not rec.allow_all && (not (is_allowlisted id from s) || not (is_allowlisted id to s))
    then err transfer_restricted
    else if is_denylisted id from s || is_denylisted id to s
    then err transfer_restricted
    else ok tt

module _ (sdk : Sdk) where
  -- `ModuleAddress`
  abbrev pub module_account : Bytes
  module_account = sdk.module_address module_name

  unfoldable pub check_transfer_allowed : State → Bytes → Bytes → Bytes → Result RwaError (Unit {0})
  unfolding check_policy
  check_transfer_allowed s id from to =
      if beq from module_account || beq to module_account then ok tt else elim (get_asset id s) [
        | none ↦ err asset_not_found
        | some rec ↦ check_policy rec id from to s
      ]

  -- One coin of a send.
  unfoldable pub coin_allowed : State → Bytes → Bytes → Bytes → Bool
  unfolding check_transfer_allowed
  coin_allowed s from to denom = elim (parse_rwa_denom denom) [
    | none ↦ true
    | some id ↦ elim (check_transfer_allowed s id from to) [ ok _ ↦ true | err _ ↦ false ]
  ]

  -- `SendRestriction`; the application registers it with the bank keeper.
  unfoldable pub send_restriction : State → Hook
  unfolding coin_allowed
  send_restriction s from to [] = some to
  send_restriction s from to (c ∷ cs) =
      let rest = send_restriction s from to cs in
      if coin_allowed s from to c.denom then rest else none
