-- ===== src/Rwa/Sound/Handlers.antt =====
-- Each message keeps the invariant. `IsUser`: the module account signs no message, since no key
-- controls it.
pub mod Opening
pub mod Minting
pub mod Ending
use vertix.Base.{
  ℕ, ◌+◌, ◌≤◌, ◌≡◌, refl, subst, ◌≢◌, Bool, true, false, ◌||◌, Option, some, if◌then◌else◌, arith,
  ◌∙◌, ap,
}
use vertix.Base.Bytes.{Bytes}
use vertix.Sdk.{Sdk}
use vertix.Rwa.Keeper.{State, RwaEvent, emit}
use vertix.Rwa.Restriction.{module_account}
use vertix.Base.Int.{ℤ, pos}
use vertix.Base.Map.{Map}
use vertix.Rwa.Types.{AssetRecord, AssetStatus, draft, attested, active, settled, unspecified}
use vertix.Rwa.Keys.{build_denom}
use vertix.Rwa.Keeper.{get_asset}
use vertix.Rwa.Server.Register.{is_draft, is_attested, is_active, is_settled}
use vertix.Rwa.Sound.{IsSound, IsRecord, Tracks, locked, nat_of}

abbrev pub IsUser : Sdk → Bytes → Type 0
IsUser sdk text = (a : Bytes) → sdk.acc_address text ≡ some a → a ≢ module_account sdk

pub emit-IsSound : (sdk : Sdk) (e : RwaEvent) (s : State) → IsSound sdk s → IsSound sdk (emit e s)
emit-IsSound sdk e s v = record {
  sorted = v.sorted;
  records = v.records;
  entries = v.entries;
  covered = v.covered;
  tracked = v.tracked;
}

-- Only the registry and the bank count.
pub IsSound-same :
    (sdk : Sdk) (s t : State)
    → t.assets ≡ s.assets
    → t.bank ≡ s.bank
    → IsSound sdk s
    → IsSound sdk t
IsSound-same sdk s t same bank v = record {
  sorted = rw same v.sorted;
  records = λ id rec. rw same (v.records id rec);
  entries = rw same v.entries;
  covered = rw (same, bank) v.covered;
  tracked = λ id. rw (same, bank) (v.tracked id);
}

pub draft-open : (t : AssetStatus) → is_draft t ≡ true → is_settled t ≡ false
draft-open draft h = refl
draft-open settled h = cc
draft-open unspecified h = refl
draft-open attested h = refl
draft-open active h = refl

pub active-open : (t : AssetStatus) → is_active t ≡ true → is_settled t ≡ false
active-open active h = refl
active-open settled h = cc
active-open unspecified h = refl
active-open attested h = refl
active-open draft h = refl

pub mintable-open : (t : AssetStatus) → (is_attested t || is_active t) ≡ true → is_settled t ≡ false
mintable-open active h = refl
mintable-open settled h = cc
mintable-open unspecified h = refl
mintable-open attested h = refl
mintable-open draft h = refl

-- The bond of an asset that is not settled is in escrow.
pub locked-open :
    (sdk : Sdk) (rec : AssetRecord)
    → is_settled rec.status ≡ false
    → locked sdk rec ≡ nat_of (sdk.parse_int rec.bond)
locked-open sdk rec h = rw h refl

pub tracked-open :
    (sdk : Sdk) (s : State) (id : Bytes) (rec : AssetRecord)
    → IsSound sdk s
    → get_asset id s ≡ some rec
    → is_settled rec.status ≡ false
    → sdk.parse_int rec.notional_minted ≡ some (pos (s.bank.supply (build_denom id)))
tracked-open sdk s id rec v e =
    subst (λ o. Tracks sdk o (s.bank.supply (build_denom id))) e (v.tracked id)
