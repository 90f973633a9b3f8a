-- ===== src/Rwa/Tests/Books.antt =====
-- The theorems on x/rwa, at the runs of the small chain.
use vertix.Base.{
  ℕ, ◌≤◌, ◌<◌, ◌≡◌, refl, sym, subst, ◌≢◌, ◌↔◌, inl, inr, true, false, none, some, [], ◌∷◌, arith,
  Bool-cases,
}
use vertix.Base.Bytes.{Bytes, beq, beq→eq, text}
use vertix.Base.Int.{pos}
use vertix.Base.Map.{lookup, insert, sum_map}
use vertix.Base.Results.{ok}
use vertix.Sdk.{Coins}
use vertix.Sdk.Model.{sample_sdk, sample-DecimalLaws, sample-IntLaws, sample-BankLaws}
use vertix.Rwa.Types.{RwaParams, AssetRecord, validate_params, bond_denom}
use vertix.Rwa.Keys.{asset_key, build_denom, parse_rwa_denom}
use vertix.Rwa.Keys.Denoms.{parse_rwa_denom_iff}
use vertix.Rwa.Keeper.{get_asset, set_asset}
use vertix.Rwa.Restriction.{send_restriction}
use vertix.Rwa.Restriction.Policy.{send_restriction_iff, EachMay}
use vertix.Pattern.{is_slug, is_pair}
use vertix.Rwa.Messages.{basic_register}
use vertix.Rwa.Funds.{compute_fee, lock_bond}
use vertix.Rwa.Funds.Effect.{Setting, escrow}
use vertix.Rwa.Funds.Rate.{IsAccepted, validate_params_iff, compute_fee-share}
use vertix.Rwa.Invariants.{bond_invariant, denom_invariant}
use vertix.Rwa.Server.Register.{is_settled}
use vertix.Rwa.Sound.{IsSound, IsRecord, Tracks, locked}
use vertix.Rwa.Sound.Handlers.{IsUser}
use vertix.Rwa.Sound.Handlers.Ending.{settle_rwa-books}
use vertix.Rwa.Sound.Chain.{
  Reach, IsFresh, here, next, register, attest, escrow_covers_bonds, supply_tracks_notional,
}
use vertix.Rwa.Sound.Lifecycle.{Follows}
use vertix.Rwa.Sound.Lifecycle.Final.{asset_goes_on}
use vertix.Rwa.Outcomes.{Opened, Paid, register_asset_opens, transfer_rwa_pays}
use package.vertix.Rwa.Tests.{
  alice, bob, house, tenth, start, sample_ctx, open_house, attest_house, to_bob, close_house,
  live_house, live, opened, vouched, paid_bob, closed, opens, vouches, pays_bob, closes,
}

abbrev pub no_authority : Bytes
no_authority = text "gov"

pub setting : Setting sample_sdk
unfolding sample_sdk
setting = record {
  bank = sample-BankLaws;
  ints = sample-IntLaws;
  fees_apart = λ e. cc;
  pool_apart = λ e. cc;
}

pub start-IsFresh : IsFresh start
unfolding build_denom beq
start-IsFresh = record { no_asset = refl; no_token = λ id. refl }

alice-IsUser : IsUser sample_sdk alice
unfolding sample_sdk
alice-IsUser a e same = cc

pub to_opened : Reach sample_sdk no_authority start opened
to_opened = next here (register sample_ctx open_house alice-IsUser opens)

to_vouched : Reach sample_sdk no_authority opened vouched
to_vouched = next here (attest sample_ctx attest_house vouches)

escrow_covers_bonds_example :
    (sum_map (locked sample_sdk) opened.assets ≤ escrow sample_sdk opened)
    × (bond_invariant sample_sdk opened ≡ some false)
    × (denom_invariant opened ≡ false)
escrow_covers_bonds_example =
    escrow_covers_bonds sample_sdk setting no_authority start opened start-IsFresh to_opened

supply_tracks_notional_example :
    (get_asset house opened ≡ none → opened.bank.supply (build_denom house) ≡ 0)
    × ((rec : AssetRecord)
        → get_asset house opened ≡ some rec
        → is_settled rec.status ≡ false
        → (rec.denom ≡ build_denom house)
          × (sample_sdk.parse_int rec.notional_minted
              ≡ some (pos (opened.bank.supply (build_denom house)))))
supply_tracks_notional_example =
    supply_tracks_notional sample_sdk setting no_authority start opened house start-IsFresh
      to_opened

abbrev drafted : AssetRecord
drafted = record live_house {
  status = vertix.Rwa.Types.draft;
  notional_minted = b'+' ∷ 0 ∷ [];
  attested_price = [];
  attested_at = 0;
}

finds_drafted : get_asset house opened ≡ some drafted
unfolding opened lookup basic_register is_slug beq is_pair lock_bond send_restriction
    parse_rwa_denom set_asset insert build_denom
finds_drafted = refl

asset_goes_on_example :
    (rec' : AssetRecord) × (get_asset house vouched ≡ some rec') × Follows drafted rec'
asset_goes_on_example =
    asset_goes_on sample_sdk setting no_authority start opened vouched house drafted start-IsFresh
      to_opened to_vouched finds_drafted

register_asset_opens_example : (n : ℕ) × Opened sample_sdk sample_ctx open_house start opened n
register_asset_opens_example =
    register_asset_opens sample_sdk setting sample_ctx open_house start opened alice-IsUser opens

live_house-IsRecord : IsRecord sample_sdk house live_house
unfolding sample_sdk build_denom
live_house-IsRecord = record {
  named = refl;
  denoted = refl;
  bond = 20;
  bonded = refl;
  bond_pos = λ h. omega arith;
  minted = 100;
  counted = refl;
  premint = λ h. absurd (ground arith);
}

beq_tail : (a b : Bytes) → beq (asset_key a) (asset_key b) ≡ true → beq a b ≡ true
unfolding beq
beq_tail a b h = h

live-tracked_house : Tracks sample_sdk (get_asset house live) (live.bank.supply (build_denom house))
unfolding lookup build_denom sample_sdk beq
live-tracked_house = λ h. refl

live-records :
    (id : Bytes) (rec : AssetRecord) → get_asset id live ≡ some rec → IsRecord sample_sdk id rec
unfolding lookup
live-records id rec e = elim (Bool-cases (beq (asset_key id) (asset_key house))) [
  | inl same ↦
      let is_rec : live_house ≡ rec = ground arith in
      subst (λ x. IsRecord sample_sdk id x) is_rec
        (subst (λ i. IsRecord sample_sdk i live_house)
          (sym (beq→eq id house (beq_tail id house same))) live_house-IsRecord)
  | inr apart ↦ absurd (ground arith)
]

live-tracked :
    (id : Bytes) → Tracks sample_sdk (get_asset id live) (live.bank.supply (build_denom id))
unfolding lookup build_denom sample_sdk beq
live-tracked id = elim (Bool-cases (beq id house)) [
  | inl same ↦
      subst (λ i. Tracks sample_sdk (get_asset i live) (live.bank.supply (build_denom i)))
        (sym (beq→eq id house same)) live-tracked_house
  | inr apart ↦ rw apart refl
]

pub live-IsSound : IsSound sample_sdk live
unfolding lookup sum_map sample_sdk build_denom beq
live-IsSound = record {
  sorted = (tt, tt);
  records = live-records;
  entries = ((refl, live_house-IsRecord), tt);
  covered = omega arith;
  tracked = live-tracked;
}

settle_rwa-books_example : IsSound sample_sdk closed × (closed.bank.supply (build_denom house) ≡ 0)
settle_rwa-books_example =
    settle_rwa-books sample_sdk setting sample_ctx close_house live closed alice-IsUser live-IsSound
      closes

transfer_rwa_pays_example :
    (from : Bytes) × (to : Bytes) × (n : ℕ) × Paid sample_sdk to_bob live paid_bob from to n
transfer_rwa_pays_example =
    transfer_rwa_pays sample_sdk setting to_bob live paid_bob live-IsSound pays_bob

abbrev one_token : Coins
one_token = record { denom = text "rwa/house-1"; amount = 1 } ∷ []

send_restriction_iff_example :
    (send_restriction sample_sdk live alice bob one_token ≡ some bob)
    ↔ ((bob ≡ bob) × EachMay sample_sdk live alice bob one_token)
send_restriction_iff_example = send_restriction_iff sample_sdk live alice bob one_token bob

parse_rwa_denom_iff_example :
    (parse_rwa_denom (text "rwa/house-1") ≡ some house)
    ↔ ((text "rwa/house-1" ≡ build_denom house) × (house ≢ []))
parse_rwa_denom_iff_example = parse_rwa_denom_iff (text "rwa/house-1") house

validate_params_iff_example :
    (validate_params sample_sdk tenth ≡ ok tt)
    ↔ ((bond : ℕ) × (mint : ℕ) × (settle : ℕ) × IsAccepted sample_sdk tenth bond mint settle)
validate_params_iff_example = validate_params_iff sample_sdk tenth

compute_fee-share_example :
    (compute_fee sample_sdk (pos 100) (pos 100_000_000_000_000_000) ≡ pos 10) × (0 < 100 → 10 < 100)
compute_fee-share_example =
    compute_fee-share sample_sdk sample-DecimalLaws 100 100_000_000_000_000_000 (omega arith)
