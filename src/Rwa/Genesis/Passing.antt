-- ===== src/Rwa/Genesis/Passing.antt =====
-- x/rwa/types/genesis.go and keeper/genesis.go: what a validation that has passed says of the
-- records, and that they can then be written.
use vertix.Base.{
  subst, ◌<◌, ◌≡◌, refl, Bool, true, false, not, Option, some, List, [], ◌∷◌, length, All, arith,
  Bool-cases, inl, inr,
}
use vertix.Base.Bytes.{Bytes, beq, beq→eq}
use vertix.Base.Int.{ℤ}
use vertix.Base.Map.{insert, contains}
use vertix.Base.Results.{ok, guard-then, or_err-then}
use vertix.Base.Entries.{has_key}
use vertix.Rwa.Sound.Store.{beq-asset_key}
use vertix.Sdk.{Sdk}
use vertix.Pattern.{is_slug, is_pair}
use vertix.Rwa.Types.{AssetRecord}
use vertix.Rwa.Keys.{issuer_index_key, asset_key}
use vertix.Rwa.Keeper.{State, set_asset}
use package.vertix.Rwa.Genesis.{
  bad_asset_id, duplicate_asset, bad_issuer, bad_status, bad_pair, bad_bond, bond_below_min,
  bad_notional, seen_id, is_unspecified, bond_enough, check_assets, set_assets,
}
use package.vertix.Rwa.Genesis.Records.{has_id, Loaded}
use package.vertix.Rwa.Genesis.Lists.{on_list}

same_some {ℓ} : {A : Type ℓ} (o : Option A) (a b : A) → o ≡ some a → o ≡ some b → a ≡ b
same_some o a b h k = cc

slug-short : (id : Bytes) → is_slug id ≡ true → length id < 256
unfolding is_slug
slug-short [] h = omega arith
slug-short (c ∷ id) h = ground arith

-- The keeper can write an asset: its issuer parses, and has an index key.
abbrev pub IsIndexed : Sdk → AssetRecord → Type 0
IsIndexed sdk r =
    (a : Bytes) × (k : Bytes) × (sdk.acc_address r.issuer ≡ some a)
    × (issuer_index_key sdk a r.asset_id ≡ some k)

-- The bond of a record is what its status asks for.
abbrev pub HasBond : Sdk → Option ℤ → AssetRecord → Type 0
HasBond sdk min r = (n : ℤ) → sdk.parse_int r.bond ≡ some n → bond_enough sdk min r.status n ≡ true

module _ (sdk : Sdk) where
  pub check_assets-Passed :
      (min : Option ℤ) (seen seen' : List Bytes) (rs : List AssetRecord)
      → check_assets sdk min seen rs ≡ ok seen'
      → All (λ r. (length r.asset_id < 256) × HasBond sdk min r) rs
  unfolding check_assets
  check_assets-Passed min seen seen' [] h = tt
  check_assets-Passed min seen seen' (r ∷ rs) h =
      let (slug, h₁) = guard-then (is_slug r.asset_id) bad_asset_id _ h in
      let (new, h₂) = guard-then (not (seen_id r.asset_id seen)) duplicate_asset _ h₁ in
      let (a, e₃, h₃) = or_err-then (sdk.acc_address r.issuer) bad_issuer _ h₂ in
      let (e₄, h₄) = guard-then (not (is_unspecified r.status)) bad_status _ h₃ in
      let (e₅, h₅) = guard-then (is_pair r.oracle_pair) bad_pair _ h₄ in
      let (bond, e₆, h₆) = or_err-then (sdk.parse_int r.bond) bad_bond _ h₅ in
      let (e₇, h₇) = guard-then (bond_enough sdk min r.status bond) bond_below_min _ h₆ in
      let (n, e₈, h₈) = or_err-then (sdk.parse_int r.notional_minted) bad_notional _ h₇ in
      let enough : HasBond sdk min r = λ m e.
        subst (λ x. bond_enough sdk min r.status x ≡ true)
          (same_some (sdk.parse_int r.bond) bond m e₆ e) e₇ in
      (
        (slug-short r.asset_id slug, enough),
        check_assets-Passed min (r.asset_id ∷ seen) seen' rs h₈,
      )

  pub set_assets-returns :
      (rs : List AssetRecord) (s : State)
      → All (IsIndexed sdk) rs
      → (t : State) × (set_assets sdk rs s ≡ ok t)
  unfolding set_assets set_asset
  set_assets-returns [] s i = (s, refl)
  set_assets-returns (r ∷ rs) s ((a, k, parses, key), i) =
      let s' : State = record s {
        assets = insert (asset_key r.asset_id) r s.assets;
        issuer_index = insert k tt s.issuer_index;
      } in
      let (t, run) = set_assets-returns rs s' i in (t, rw (parses, key) run)

pub has_id-short :
    (id : Bytes) (rs : List AssetRecord)
    → All (λ r. length r.asset_id < 256) rs
    → has_id id rs ≡ true
    → length id < 256
unfolding has_key
has_id-short id [] short h = absurd (ground arith)
has_id-short id (r ∷ rs) short h = elim (Bool-cases (beq id r.asset_id)) [
  | inl same ↦ rw (beq→eq id r.asset_id same) short.0
  | inr apart ↦ has_id-short id rs short.1 (ground (arith, beq-asset_key id r.asset_id))
]

pub no_lists :
    (deny : Bool) (id a : Bytes) (rs : List AssetRecord) (s t : State)
    → s.allowlist ≡ []
    → s.denylist ≡ []
    → Loaded rs s t
    → on_list deny id a t ≡ false
unfolding contains
no_lists true id a rs s t allow refuse kept = rw (kept.deny_kept, refuse) refl
no_lists false id a rs s t allow refuse kept = rw (kept.allow_kept, allow) refl
