-- ===== src/Rwa/Genesis/Restoring.antt =====
-- x/rwa/keeper/genesis.go: what is read back of a registry that has been written out.
use vertix.Base.{
  ◌<◌, ◌≡◌, refl, sym, ◌∙◌, Bool, true, false, some, List, [], length, All, arith, Bool-cases,
  Option-cases, inl, inr,
}
use vertix.Base.Bytes.{Bytes}
use vertix.Base.Map.{none-some}
use vertix.Base.Results.{ok, >>=-eq-ok, check-then}
use vertix.Base.Sort.{sort_by}
use vertix.Base.Entries.{has_key-sort_by, lookup-values, lookup-load-values}
use vertix.Sdk.{Sdk, AddressLaws}
use vertix.Rwa.Types.{AssetRecord, validate_params, min_issuer_bond_int}
use vertix.Rwa.Keys.{asset_key}
use vertix.Rwa.Keeper.{State, get_asset, get_params}
use vertix.Rwa.Restriction.{check_policy, check_transfer_allowed}
use vertix.Rwa.Sound.{IsSound}
use package.vertix.Rwa.Genesis.{
  GenesisState, lift, check_assets, check_restrictions, validate_genesis, all_assets, id_lt,
  export_restrictions,
}
use package.vertix.Rwa.Genesis.Records.{record_key, has_id, Loaded, entries-IsKeyed, lift-ok}
use package.vertix.Rwa.Genesis.Validating.{IsWellFormed}
use package.vertix.Rwa.Genesis.Passing.{HasBond, IsIndexed, has_id-short, no_lists}
use package.vertix.Rwa.Genesis.Lists.{on_list, Joined}
use package.vertix.Rwa.Genesis.Lists.Written.{IsMembers, names-export_restrictions}

-- A chain that has been started again: what can be read of it is as before.
pub record Restored (sdk : Sdk) (s t : State) : Type 0 where
  pub params_same : get_params sdk t ≡ get_params sdk s
  pub assets_same : (id : Bytes) → get_asset id t ≡ get_asset id s
  pub lists_same :
      (deny : Bool) (id a : Bytes) (r : AssetRecord)
      → get_asset id s ≡ some r
      → on_list deny id a t ≡ on_list deny id a s
  pub transfers_same :
      (id from to : Bytes)
      → check_transfer_allowed sdk t id from to ≡ check_transfer_allowed sdk s id from to

-- Every attested or active asset has at least the least bond.
abbrev pub HasBonds : Sdk → State → Type 0
HasBonds sdk s = All (λ (k, r). HasBond sdk (min_issuer_bond_int sdk (get_params sdk s)) r) s.assets

-- What the chain is before the export: a sound registry with accepted parameters, well-formed
-- records whose issuers have an index key, and members that are addresses.
pub record IsExportable (sdk : Sdk) (s : State) : Type 0 where
  pub sound : IsSound sdk s
  pub params_valid : validate_params sdk (get_params sdk s) ≡ ok tt
  pub indexed : All (λ (k, r). IsIndexed sdk r) s.assets
  pub formed : All (λ (k, r). IsWellFormed sdk r) s.assets
  pub allowed : IsMembers s.allowlist
  pub denied : IsMembers s.denylist

module _ (sdk : Sdk) (laws : AddressLaws sdk) where
  policy_same :
      (s t : State) (id from to : Bytes) (r : AssetRecord)
      → ((deny : Bool) (a : Bytes) → on_list deny id a t ≡ on_list deny id a s)
      → check_policy r id from to t ≡ check_policy r id from to s
  unfolding check_policy
  policy_same s t id from to r same =
      ground (arith, same false from, same false to, same true from, same true to)

  pub transfer_same :
      (s t : State) (id from to : Bytes)
      → get_asset id t ≡ get_asset id s
      → ((r : AssetRecord)
          → get_asset id s ≡ some r
          → (deny : Bool) (a : Bytes) → on_list deny id a t ≡ on_list deny id a s)
      → check_transfer_allowed sdk t id from to ≡ check_transfer_allowed sdk s id from to
  unfolding check_transfer_allowed
  transfer_same s t id from to record_same same = elim (Option-cases (get_asset id s)) [
    | inl new ↦ rw (record_same, new) refl
    | inr (r, e) ↦ rw (record_same, e, policy_same s t id from to r (same r e)) refl
  ]

  -- A genesis that has passed the validation.
  pub validated :
      (gs : GenesisState)
      → validate_genesis sdk gs ≡ ok tt
      → (validate_params sdk gs.params ≡ ok tt)
        × (seen : List Bytes) × (check_assets sdk (min_issuer_bond_int sdk gs.params) [] gs.assets
            ≡ ok seen)
        × (check_restrictions sdk seen gs.restrictions ≡ ok tt)
  unfolding validate_genesis
  validated gs h =
      let (p, h₁) = check-then (lift (validate_params sdk gs.params)) _ h in
      let (seen, a, r) =
        >>=-eq-ok (check_assets sdk (min_issuer_bond_int sdk gs.params) [] gs.assets)
          (λ seen. check_restrictions sdk seen gs.restrictions) h₁ in
      (lift-ok (validate_params sdk gs.params) tt p, seen, a, r)

  -- The records that are written out.
  abbrev pub written : State → List AssetRecord
  written s = sort_by id_lt (all_assets s.assets)

  pub record_back :
      (s t₁ t : State) (id : Bytes)
      → IsSound sdk s
      → t₁.assets ≡ []
      → Loaded (written s) t₁ t
      → get_asset id t ≡ get_asset id s
  record_back s t₁ t id sound blank loaded =
      rw (loaded.assets_are, blank)
        (lookup-load-values record_key id_lt s.assets (asset_key id) sound.sorted
          (entries-IsKeyed sdk s.assets sound.entries))

  pub list_back :
      (deny : Bool) (id a : Bytes) (r : AssetRecord) (s t₁ t₂ t : State)
      → IsExportable sdk s
      → All (λ r. length r.asset_id < 256) (written s)
      → t₁.allowlist ≡ []
      → t₁.denylist ≡ []
      → Loaded (written s) t₁ t₂
      → Joined sdk (export_restrictions sdk s (written s)) t₂ t
      → get_asset id s ≡ some r
      → on_list deny id a t ≡ on_list deny id a s
  list_back deny id a r s t₁ t₂ t x short allow refuse kept j found =
      let there : has_id id (written s) ≡ true =
        rw (has_key-sort_by record_key (asset_key id) id_lt (all_assets s.assets))
          (elim (Bool-cases (has_id id (all_assets s.assets))) [
            | inl here ↦ here
            | inr absent ↦ absurd (
                none-some (
                  sym (
                    lookup-values record_key (asset_key id) s.assets
                      (entries-IsKeyed sdk s.assets x.sound.entries) absent)
                  ∙ found))
          ]) in
      rw (j.listed deny id a (has_id-short id (written s) short there)) (
        rw
          (
            no_lists deny id a (written s) t₁ t₂ allow refuse kept,
            names-export_restrictions sdk laws deny id a s (written s) short x.allowed x.denied,
            there,
          )
          (ground arith))
