-- ===== src/Rwa/Genesis/Validating.antt =====
-- x/rwa/types/genesis.go: when the export of a registry passes the validation.
use vertix.Base.{◌≡◌, refl, true, false, ◌||◌, Option, some, List, [], ◌∷◌, All, arith}
use vertix.Base.Bytes.{Bytes, beq, beq_iff, beq_refl}
use vertix.Base.Int.{ℤ}
use vertix.Base.Results.{ok}
use vertix.Base.Entries.{has_key, IsDistinct}
use vertix.Sdk.{Sdk}
use vertix.Pattern.{is_slug, is_pair}
use vertix.Rwa.Types.{AssetRecord}
use vertix.Rwa.Sound.Store.{beq-asset_key}
use package.vertix.Rwa.Genesis.{
  Restriction, seen_id, is_unspecified, check_assets, check_restrictions,
}
use package.vertix.Rwa.Genesis.Passing.{HasBond}
use package.vertix.Rwa.Genesis.Records.{record_key, has_id}
use package.vertix.Rwa.Genesis.Lists.Written.{Meets}

-- A record with well-formed fields.
pub record IsWellFormed (sdk : Sdk) (r : AssetRecord) : Type 0 where
  pub slug : is_slug r.asset_id ≡ true
  pub issuer : Bytes
  pub issuer_is : sdk.acc_address r.issuer ≡ some issuer
  pub specified : is_unspecified r.status ≡ false
  pub pair : is_pair r.oracle_pair ≡ true
  pub bond : ℤ
  pub bond_is : sdk.parse_int r.bond ≡ some bond
  pub minted : ℤ
  pub minted_is : sdk.parse_int r.notional_minted ≡ some minted

abbrev IsUnseen : List Bytes → AssetRecord → Type 0
IsUnseen seen r = seen_id r.asset_id seen ≡ false

IsUnseen-next :
    (r : AssetRecord) (seen : List Bytes) (rs : List AssetRecord)
    → All (λ q. beq (record_key r) (record_key q) ≡ false) rs
    → All (IsUnseen seen) rs
    → All (IsUnseen (r.asset_id ∷ seen)) rs
unfolding seen_id
IsUnseen-next r seen [] apart new = tt
IsUnseen-next r seen (q ∷ rs) apart new = (
  ground (
    arith,
    apart.0,
    new.0,
    beq-asset_key r.asset_id q.asset_id,
    beq_iff r.asset_id q.asset_id,
    beq_iff q.asset_id r.asset_id,
  ),
  IsUnseen-next r seen rs apart.1 new.1,
)

known_id :
    (id : Bytes) (r : AssetRecord) (seen : List Bytes)
    → seen_id id (r.asset_id ∷ seen) ≡ beq id r.asset_id || seen_id id seen
unfolding seen_id
known_id id r seen = refl

pub none_seen : (rs : List AssetRecord) → All (IsUnseen []) rs
unfolding seen_id
none_seen [] = tt
none_seen (r ∷ rs) = (refl, none_seen rs)

-- The ids of the records have all been seen.
known_of :
    (seen : List Bytes) (all rs : List AssetRecord)
    → ((id : Bytes) → seen_id id seen ≡ has_id id all || seen_id id [])
    → ((id : Bytes) → has_id id rs ≡ true → has_id id all ≡ true)
    → All (λ r. seen_id r.asset_id seen ≡ true) rs
unfolding has_key
known_of seen all [] known within = tt
known_of seen all (r ∷ rs) known within = (
  ground (arith, known r.asset_id, within r.asset_id (ground (arith, beq_refl (record_key r)))),
  known_of seen all rs known (λ id h. within id (ground arith)),
)

pub all_known :
    (seen : List Bytes) (rs : List AssetRecord)
    → ((id : Bytes) → seen_id id seen ≡ has_id id rs || seen_id id [])
    → All (λ r. seen_id r.asset_id seen ≡ true) rs
all_known seen rs known = known_of seen rs rs known (λ id h. h)

module _ (sdk : Sdk) where
  -- Well-formed records of different ids, whose bonds are enough, all pass.
  pub check_assets-passes :
      (min : Option ℤ) (seen : List Bytes) (rs : List AssetRecord)
      → All (IsWellFormed sdk) rs
      → All (HasBond sdk min) rs
      → IsDistinct record_key rs
      → All (IsUnseen seen) rs
      → (seen' : List Bytes) × (check_assets sdk min seen rs ≡ ok seen')
        × ((id : Bytes) → seen_id id seen' ≡ has_id id rs || seen_id id seen)
  unfolding check_assets has_key
  check_assets-passes min seen [] ws bs d new = (seen, refl, λ id. refl)
  check_assets-passes min seen (r ∷ rs) (w, ws) bs d new =
      let (seen', run, known) =
        check_assets-passes min (r.asset_id ∷ seen) rs ws bs.1 d.1
          (IsUnseen-next r seen rs d.0 new.1) in
      (
        seen',
        rw
            (
              w.slug,
              new.0,
              w.issuer_is,
              w.specified,
              w.pair,
              w.bond_is,
              bs.0 w.bond w.bond_is,
              w.minted_is,
            )
            run,
        λ id. ground (arith, known id, known_id id r seen, beq-asset_key id r.asset_id),
      )

  pub check_restrictions-passes :
      (seen : List Bytes) (rs : List Restriction)
      → All (Meets sdk (λ id. seen_id id seen ≡ true)) rs
      → check_restrictions sdk seen rs ≡ ok tt
  unfolding check_restrictions
  check_restrictions-passes seen [] ms = refl
  check_restrictions-passes seen (r ∷ rs) ((known, a, read), ms) =
      rw (known, read) (check_restrictions-passes seen rs ms)
