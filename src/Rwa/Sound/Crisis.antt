-- ===== src/Rwa/Sound/Crisis.antt =====
-- The crisis invariants hold in every state that meets the module's own invariant.
use vertix.Base.{
  ℕ, ◌+◌, ◌≡◌, refl, subst, Bool, true, false, ◌&&◌, ◌||◌, some, [], ◌∷◌, All, ◌==◌, not, arith,
}
use vertix.Base.Bytes.{Bytes}
use vertix.Base.Int.{pos, pos-add}
use vertix.Base.Map.{Map, sum_map, lookup, All-sorted, All-lookup}
use vertix.Sdk.{Sdk}
use vertix.Rwa.Types.{AssetRecord, AssetStatus, unspecified, draft, attested, active, settled}
use vertix.Rwa.Keys.{build_denom}
use vertix.Rwa.Keeper.{State, get_asset}
use vertix.Rwa.Server.Register.{is_draft, is_attested, is_settled}
use vertix.Rwa.Invariants.{bond_scan, bond_invariant, denom_scan, denom_invariant}
use package.vertix.Rwa.Sound.{IsSound, locked, IsEntry, Tracks}

module _ (sdk : Sdk) where
  bond_scan-sum :
      (m : Map AssetRecord) (acc : ℕ)
      → All (IsEntry sdk) m
      → bond_scan sdk m false (pos acc) ≡ some (false, pos (acc + sum_map (locked sdk) m))
  unfolding bond_scan sum_map
  bond_scan-sum [] acc a = ground arith
  bond_scan-sum ((k, rec) ∷ m) acc ((keyed, r), a) = ground (
    arith,
    bond_scan-sum m acc a,
    bond_scan-sum m (acc + r.bond) a,
    r.bonded,
    r.bond_pos,
    pos-add acc r.bond,
  )

  -- `BondInvariant` does not panic and is not broken.
  pub bond_invariant-holds : (s : State) → IsSound sdk s → bond_invariant sdk s ≡ some false
  unfolding bond_invariant
  bond_invariant-holds s v = ground (arith, bond_scan-sum s.assets 0 v.entries, v.covered)

-- No token of an asset that has not been minted.
abbrev Unminted : (Bytes → ℕ) → Bytes × AssetRecord → Type 0
Unminted supply (k, rec) =
    (is_draft rec.status || is_attested rec.status) ≡ true → supply rec.denom ≡ 0

gate-false : (b : Bool) (n : ℕ) → (b ≡ true → n ≡ 0) → (b && not (n == 0)) ≡ false
gate-false b n h = ground arith

denom_scan-false :
    (supply : Bytes → ℕ) (m : Map AssetRecord)
    → All (Unminted supply) m
    → denom_scan supply m false ≡ false
unfolding denom_scan
denom_scan-false supply [] a = refl
denom_scan-false supply ((k, rec) ∷ m) (u, a) =
    rw (gate-false (is_draft rec.status || is_attested rec.status) (supply rec.denom) u)
      (denom_scan-false supply m a)

unminted-open : (t : AssetStatus) → (is_draft t || is_attested t) ≡ true → is_settled t ≡ false
unminted-open unspecified h = refl
unminted-open draft h = refl
unminted-open attested h = refl
unminted-open active h = refl
unminted-open settled h = cc

module _ (sdk : Sdk) where
  entry-Unminted :
      (s : State) (k : Bytes) (rec : AssetRecord)
      → IsSound sdk s
      → lookup k s.assets ≡ some rec
      → IsEntry sdk (k, rec)
      → Unminted s.bank.supply (k, rec)
  entry-Unminted s k rec v found (keyed, r) early =
      let at_id : get_asset rec.asset_id s ≡ some rec =
        subst (λ j. lookup j s.assets ≡ some rec) keyed found in
      let tracked : sdk.parse_int rec.notional_minted
          ≡ some (pos (s.bank.supply (build_denom rec.asset_id))) =
        subst (λ o. Tracks sdk o (s.bank.supply (build_denom rec.asset_id))) at_id
          (v.tracked rec.asset_id) (unminted-open rec.status early) in
      rw r.denoted (ground (arith, tracked, r.counted, r.premint early))

  -- `DenomInvariant` is not broken.
  pub denom_invariant-holds : (s : State) → IsSound sdk s → denom_invariant s ≡ false
  unfolding denom_invariant
  denom_invariant-holds s v = denom_scan-false s.bank.supply s.assets (
      All-sorted (Unminted s.bank.supply) s.assets v.sorted (λ k rec found.
        entry-Unminted s k rec v found (All-lookup (IsEntry sdk) k rec s.assets v.entries found)))
