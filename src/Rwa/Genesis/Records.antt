-- ===== src/Rwa/Genesis/Records.antt =====
-- x/rwa/keeper/genesis.go and x/rwa/types/genesis.go: the records, written out and read in.
use vertix.Base.{◌≡◌, refl, ap, Bool, List, [], ◌∷◌, All, arith}
use vertix.Base.Bytes.{Bytes}
use vertix.Base.Map.{Map}
use vertix.Base.Results.{Result, ok, err, >>=-eq-ok}
use vertix.Base.Entries.{has_key, load, IsKeyed}
use vertix.Sdk.{Sdk}
use vertix.Rwa.Types.{AssetRecord}
use vertix.Rwa.Keys.{asset_key}
use vertix.Rwa.Keeper.{State, set_asset}
use vertix.Rwa.Sound.{IsEntry}
use vertix.Rwa.Sound.Store.{set_asset-Stored}
use package.vertix.Rwa.Genesis.{lift, set_assets}

abbrev pub record_key : AssetRecord → Bytes
record_key r = asset_key r.asset_id

-- Is there a record of the id?
abbrev pub has_id : Bytes → List AssetRecord → Bool
has_id id rs = has_key record_key (asset_key id) rs

-- What loading the records does, and what it leaves alone.
pub record Loaded (rs : List AssetRecord) (s t : State) : Type 0 where
  pub assets_are : t.assets ≡ load record_key rs s.assets
  pub bank_kept : t.bank ≡ s.bank
  pub params_kept : t.params ≡ s.params
  pub allow_kept : t.allowlist ≡ s.allowlist
  pub deny_kept : t.denylist ≡ s.denylist

pub lift-ok {ℓ} : {A : Type ℓ} (r : Result _ A) (a : A) → lift r ≡ ok a → r ≡ ok a
lift-ok (ok b) a h = ground arith
lift-ok (err e) a h = cc

pub set_assets-Loaded :
    (sdk : Sdk) (rs : List AssetRecord) (s t : State) → set_assets sdk rs s ≡ ok t → Loaded rs s t
unfolding set_assets load
set_assets-Loaded sdk [] s t h =
    let e : t ≡ s = cc in
    rw e (record {
      assets_are = refl;
      bank_kept = refl;
      params_kept = refl;
      allow_kept = refl;
      deny_kept = refl;
    })
set_assets-Loaded sdk (r ∷ rs) s t h =
    let (s', e, more) = >>=-eq-ok (lift (set_asset sdk r s)) (set_assets sdk rs) h in
    let st = set_asset-Stored sdk r s s' (lift-ok (set_asset sdk r s) s' e) in
    let later = set_assets-Loaded sdk rs s' t more in
    record {
      assets_are = rw later.assets_are (ap (load record_key rs) st.assets_are);
      bank_kept = rw later.bank_kept st.bank_kept;
      params_kept = rw later.params_kept st.params_kept;
      allow_kept = rw later.allow_kept st.allow_kept;
      deny_kept = rw later.deny_kept st.deny_kept;
    }

pub entries-IsKeyed : (sdk : Sdk) (m : Map AssetRecord) → All (IsEntry sdk) m → IsKeyed record_key m
entries-IsKeyed sdk [] es = tt
entries-IsKeyed sdk ((k, r) ∷ m) es = (es.0.0, entries-IsKeyed sdk m es.1)
