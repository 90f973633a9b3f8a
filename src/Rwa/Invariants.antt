-- ===== src/Rwa/Invariants.antt =====
-- x/rwa/keeper/invariants.go. `true` is broken; `none` is a panic on a bond that does not parse.
use vertix.Base.{ℕ, Bool, true, false, not, ◌&&◌, ◌||◌, Option, none, some, [], ◌∷◌, ◌==◌}
use vertix.Base.Bytes.{Bytes}
use vertix.Base.Int.{ℤ, pos, ◌+ℤ◌, is_positive, ltb_ℤ}
use vertix.Base.Map.{Map}
use vertix.Sdk.{Sdk}
use vertix.Rwa.Types.{AssetRecord, bond_denom}
use vertix.Rwa.Keeper.{State}
use vertix.Rwa.Restriction.{module_account}
use vertix.Rwa.Server.Register.{is_draft, is_attested, is_active, is_settled}

module _ (sdk : Sdk) where
  -- The callback of `IterateAssets`, over the assets that are left.
  unfoldable pub bond_scan : Map AssetRecord → Bool → ℤ → Option (Bool × ℤ)
  bond_scan [] broken sum = some (broken, sum)
  bond_scan ((k, rec) ∷ m) broken sum = elim (is_settled rec.status) [
    | true ↦ bond_scan m broken sum
    | false ↦ elim (sdk.parse_int rec.bond) [
      | none ↦ none
      | some bond ↦
          bond_scan m (broken || (is_active rec.status && not (is_positive bond))) (sum +ℤ bond)
    ]
  ]

  -- `BondInvariant`
  unfoldable pub bond_invariant : State → Option Bool
  unfolding bond_scan
  bond_invariant s = elim (bond_scan s.assets false (pos 0)) [
    | none ↦ none
    | some (broken, sum) ↦
        some (broken || ltb_ℤ (pos (s.bank.balance (module_account sdk) bond_denom)) sum)
  ]

-- `DenomInvariant`
unfoldable pub denom_scan : (Bytes → ℕ) → Map AssetRecord → Bool → Bool
denom_scan supply [] broken = broken
denom_scan supply ((k, rec) ∷ m) broken =
    denom_scan supply m
      (broken || ((is_draft rec.status || is_attested rec.status) && not (supply rec.denom == 0)))

unfoldable pub denom_invariant : State → Bool
unfolding denom_scan
denom_invariant s = denom_scan s.bank.supply s.assets false
