-- ===== src/Rwa/Sound/Store.antt =====
-- How a record that is written to the store keeps the invariant.
use vertix.Base.{
  ℕ, ◌+◌, ◌≤◌, ◌≡◌, refl, sym, subst, ◌≢◌, Option, none, some, if◌then◌else◌, arith, Option-cases,
  Bool-cases, inl, inr,
}
use vertix.Base.Bytes.{Bytes, beq, beq→eq, ≢_of_beq}
use vertix.Base.Map.{
  IsSorted, lookup, insert, sum_map, lookup-insert, insert-IsSorted, sum_map-insert,
  sum_map-insert_new, All-insert,
}
use vertix.Base.Results.{ok}
use vertix.Sdk.{Sdk}
use vertix.Rwa.Types.{AssetRecord}
use vertix.Rwa.Keys.{asset_key, build_denom, issuer_index_key}
use vertix.Rwa.Keeper.{State, get_asset, set_asset}
use vertix.Rwa.Funds.Effect.{Effect, escrow}
use package.vertix.Rwa.Sound.{IsSound, IsRecord, Tracks, locked, IsEntry}

-- What `set_asset` leaves alone, and where it writes.
pub record Stored (rec : AssetRecord) (s s' : State) : Type 0 where
  pub assets_are : s'.assets ≡ insert (asset_key rec.asset_id) rec s.assets
  pub bank_kept : s'.bank ≡ s.bank
  pub params_kept : s'.params ≡ s.params
  pub allow_kept : s'.allowlist ≡ s.allowlist
  pub deny_kept : s'.denylist ≡ s.denylist

pub set_asset-Stored :
    (sdk : Sdk) (rec : AssetRecord) (s s' : State) → set_asset sdk rec s ≡ ok s' → Stored rec s s'
unfolding set_asset
set_asset-Stored sdk rec s s' h = elim (Option-cases (sdk.acc_address rec.issuer)) [
  | inl bad ↦ absurd (ground arith)
  | inr (issuer, e) ↦ elim (Option-cases (issuer_index_key sdk issuer rec.asset_id)) [
    | inl bad ↦ absurd (ground arith)
    | inr (key, k) ↦ ground arith
  ]
]

pub beq-asset_key : (a b : Bytes) → beq (asset_key a) (asset_key b) ≡ beq a b
unfolding beq
beq-asset_key a b = refl

-- The registry after a write: the new record under its id, every other as before.
pub get_asset-Stored :
    (rec : AssetRecord) (s s' : State) (j : Bytes)
    → Stored rec s s'
    → get_asset j s' ≡ (if beq j rec.asset_id then some rec else get_asset j s)
get_asset-Stored rec s s' j st =
    rw st.assets_are (rw lookup-insert (rw (beq-asset_key j rec.asset_id) refl))

-- The bond that was locked under an id.
abbrev pub locked_before : Sdk → Option AssetRecord → ℕ
locked_before sdk none = 0
locked_before sdk (some rec) = locked sdk rec

sum-Stored :
    (sdk : Sdk) (rec : AssetRecord) (s s' : State)
    → IsSorted s.assets
    → Stored rec s s'
    → sum_map (locked sdk) s'.assets + locked_before sdk (get_asset rec.asset_id s)
      ≡ sum_map (locked sdk) s.assets + locked sdk rec
sum-Stored sdk rec s s' sorted st = elim (Option-cases (get_asset rec.asset_id s)) [
  | inl new ↦
      rw (new, st.assets_are)
        (omega (arith, sum_map-insert_new (locked sdk) (asset_key rec.asset_id) rec s.assets new))
  | inr (old, e) ↦
      rw (e, st.assets_are)
        (sum_map-insert (locked sdk) (asset_key rec.asset_id) rec old s.assets sorted e)
]

-- The one step that every handler is an instance of: the bank has moved, then a record has been
-- written. The bond that the record locks is paid for, and its token's supply is what it says.
pub Stored-IsSound :
    (sdk : Sdk) (id : Bytes) (rec : AssetRecord) (s t u : State) (gain loss : ℕ)
    (up down : Bytes → ℕ)
    → IsSound sdk s
    → Effect sdk s gain loss up down t
    → Stored rec t u
    → IsRecord sdk id rec
    → locked sdk rec + loss ≤ locked_before sdk (get_asset id s) + gain
    → ((j : Bytes) → j ≢ id → (up (build_denom j) ≡ 0) × (down (build_denom j) ≡ 0))
    → Tracks sdk (some rec) (t.bank.supply (build_denom id))
    → IsSound sdk u
Stored-IsSound sdk id rec s t u gain loss up down v eff st ok_rec paid others tracks = record {
  sorted =
      rw (st.assets_are, assets_same)
        (insert-IsSorted (asset_key rec.asset_id) rec s.assets v.sorted);
  records = records_after;
  entries = rw st.assets_are (
      All-insert (IsEntry sdk) (asset_key rec.asset_id) rec t.assets (rw assets_same v.entries)
        (refl, subst (λ i. IsRecord sdk i rec) (sym here) ok_rec));
  covered = covered_after;
  tracked = tracked_after;
}
  where
    assets_same : t.assets ≡ s.assets
    assets_same = rw eff.rest refl

    here : rec.asset_id ≡ id
    here = ok_rec.named

    found : (j : Bytes) → get_asset j u ≡ (if beq j id then some rec else get_asset j s)
    found j = rw (get_asset-Stored rec t u j st) (rw here (rw assets_same refl))

    records_after : (j : Bytes) (r : AssetRecord) → get_asset j u ≡ some r → IsRecord sdk j r
    records_after j r e = elim (Bool-cases (beq j id)) [
      | inl same ↦
          let is_rec : rec ≡ r = ground (arith, found j) in
          subst (λ x. IsRecord sdk j x) is_rec (rw (beq→eq j id same) ok_rec)
      | inr apart ↦ v.records j r (ground (arith, found j))
    ]

    sum_after :
        sum_map (locked sdk) u.assets + locked_before sdk (get_asset id s)
        ≡ sum_map (locked sdk) s.assets + locked sdk rec
    sum_after =
        subst
          (λ a.
            sum_map (locked sdk) u.assets + locked_before sdk (lookup (asset_key id) a)
            ≡ sum_map (locked sdk) a + locked sdk rec)
          assets_same
          (subst
            (λ i.
              sum_map (locked sdk) u.assets + locked_before sdk (get_asset i t)
              ≡ sum_map (locked sdk) t.assets + locked sdk rec)
            here (sum-Stored sdk rec t u (rw assets_same v.sorted) st))

    covered_after : sum_map (locked sdk) u.assets ≤ escrow sdk u
    covered_after = rw st.bank_kept (omega (arith, sum_after, eff.escrowed, v.covered, paid))

    same_supply :
        (j : Bytes) → j ≢ id → t.bank.supply (build_denom j) ≡ s.bank.supply (build_denom j)
    same_supply j ne = omega (arith, eff.supplied (build_denom j), (others j ne).0, (others j ne).1)

    tracked_after : (j : Bytes) → Tracks sdk (get_asset j u) (u.bank.supply (build_denom j))
    tracked_after j = elim (Bool-cases (beq j id)) [
      | inl same ↦
          let e : get_asset j u ≡ some rec = ground (arith, found j) in
          rw (e, st.bank_kept, beq→eq j id same) tracks
      | inr apart ↦
          let e : get_asset j u ≡ get_asset j s = ground (arith, found j) in
          rw (e, st.bank_kept, same_supply j (≢_of_beq j id apart)) (v.tracked j)
    ]
