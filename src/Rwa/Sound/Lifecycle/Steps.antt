-- ===== src/Rwa/Sound/Lifecycle/Steps.antt =====
-- What each message of x/rwa makes of every asset.
use vertix.Base.{◌≤◌, ◌≡◌, refl, sym, subst, ◌∙◌, true, false, some, arith, Bool-cases, inl, inr}
use vertix.Base.Bytes.{Bytes}
use vertix.Base.Int.{ℤ, ◌+ℤ◌, is_positive}
use vertix.Base.Results.{ok}
use vertix.Sdk.{Sdk, Coins}
use vertix.Rwa.Types.{AssetRecord, AssetStatus, unspecified, draft, attested, active, settled}
use vertix.Rwa.Messages.{
  MsgRegisterAsset, MsgAttestAsset, MsgMintRwa, MsgTransferRwa, MsgSettleRwa, MsgUpdateRestrictions,
  MsgSlashBond,
}
use vertix.Rwa.Restriction.{add_allowlist, del_allowlist, add_denylist, del_denylist}
use vertix.Rwa.Keeper.{State, Context, get_asset}
use vertix.Rwa.Server.Register.{new_asset, is_draft, is_settled}
use vertix.Rwa.Server.Register.Passing.{Registers, Attests, Restricts, attested_asset}
use vertix.Rwa.Server.Tokens.Passing.{Mints, Transfers, minted_asset}
use vertix.Rwa.Server.Closing.Passing.{
  Settles, Slashes, settled_asset, slashed_asset, burn_step, release_step, slash_step,
}
use vertix.Rwa.Funds.{compute_fee}
use vertix.Rwa.Funds.Effect.{Setting}
use vertix.Rwa.Sound.{IsSound}
use vertix.Rwa.Sound.Store.{set_asset-Stored}
use vertix.Rwa.Sound.Handlers.{draft-open, active-open, mintable-open}
use vertix.Rwa.Sound.Handlers.Opening.{apply_list-books}
use package.vertix.Rwa.Sound.Lifecycle.{
  rank, Continues, Continues-refl, Stored-Continues, with_bank-assets, lock_bond-assets,
  release_bond-assets, slash-assets, collect_fee-assets, mint_out-assets, burn_back-assets,
}

-- Between two states: every asset goes on.
abbrev pub Goes : State → State → Type 0
Goes s u = (j : Bytes) → Continues (get_asset j s) (get_asset j u)

draft-rank : (t : AssetStatus) → is_draft t ≡ true → rank t ≡ 1
draft-rank draft h = refl
draft-rank unspecified h = cc
draft-rank attested h = cc
draft-rank active h = cc
draft-rank settled h = cc

open-rank : (t : AssetStatus) → is_settled t ≡ false → rank t ≤ 3
open-rank draft h = omega arith
open-rank unspecified h = omega arith
open-rank attested h = omega arith
open-rank active h = omega arith
open-rank settled h = cc

-- A record that is not settled and is written again.
changed :
    (s : State) (id : Bytes) (rec rec' : AssetRecord)
    → get_asset id s ≡ some rec
    → rec'.issuer ≡ rec.issuer
    → rec'.denom ≡ rec.denom
    → rec'.oracle_pair ≡ rec.oracle_pair
    → rec'.created_at ≡ rec.created_at
    → rank rec.status ≤ rank rec'.status
    → is_settled rec.status ≡ false
    → Continues (get_asset id s) (some rec')
changed s id rec rec' found i d p c r o =
    subst (λ x. Continues x (some rec')) (sym found)
      (
        rec',
        refl,
        record {
          issuer_kept = i;
          denom_kept = d;
          pair_kept = p;
          created_kept = c;
          forward = r;
          final = λ h. absurd (ground arith);
        },
      )

module _ (sdk : Sdk) where
  burn_step-assets :
      (a : Bytes) (n : ℤ) (cs : Coins) (s t : State)
      → burn_step sdk a n cs s ≡ ok t
      → t.assets ≡ s.assets
  burn_step-assets a n cs s t h = elim (Bool-cases (is_positive n)) [
    | inl positive ↦ burn_back-assets sdk a cs s t (ground arith)
    | inr zero_ ↦ ground arith
  ]

  release_step-assets :
      (a : Bytes) (n : ℤ) (s t : State) → release_step sdk a n s ≡ ok t → t.assets ≡ s.assets
  release_step-assets a n s t h = elim (Bool-cases (is_positive n)) [
    | inl positive ↦ release_bond-assets sdk a n s t (ground arith)
    | inr zero_ ↦ ground arith
  ]

  slash_step-assets : (n : ℤ) (s t : State) → slash_step sdk n s ≡ ok t → t.assets ≡ s.assets
  slash_step-assets n s t h = elim (Bool-cases (is_positive n)) [
    | inl positive ↦ slash-assets sdk n s t (ground arith)
    | inr zero_ ↦ ground arith
  ]

  pub Registers-Goes :
      (ctx : Context) (msg : MsgRegisterAsset) (s u : State) → Registers sdk ctx msg s u → Goes s u
  Registers-Goes ctx msg s u p = rw p.result (
      Stored-Continues msg.asset_id (new_asset sdk ctx msg p.bond) s p.locked p.stored refl
        (lock_bond-assets sdk p.issuer p.bond s p.locked p.locks)
        (set_asset-Stored sdk (new_asset sdk ctx msg p.bond) p.locked p.stored p.stores)
        (subst (λ x. Continues x (some (new_asset sdk ctx msg p.bond))) (sym p.fresh) tt))

  pub Attests-Goes :
      (ctx : Context) (msg : MsgAttestAsset) (s u : State)
      → IsSound sdk s
      → Attests sdk ctx msg s u
      → Goes s u
  Attests-Goes ctx msg s u v p =
      let rec' = attested_asset sdk ctx p.price p.rec in
      let old = v.records msg.asset_id p.rec p.by_issuer.found in
      rw p.result (
        Stored-Continues msg.asset_id rec' s s p.stored old.named refl
          (set_asset-Stored sdk rec' s p.stored p.stores)
          (changed s msg.asset_id p.rec rec' p.by_issuer.found refl refl refl refl
            (omega (arith, draft-rank p.rec.status p.was_draft))
            (draft-open p.rec.status p.was_draft)))

  pub Mints-Goes : (msg : MsgMintRwa) (s u : State) → IsSound sdk s → Mints sdk msg s u → Goes s u
  Mints-Goes msg s u v p =
      let rec' = minted_asset sdk (p.prev +ℤ p.notional) p.rec in
      let old = v.records msg.asset_id p.rec p.by_issuer.found in
      let still = mintable-open p.rec.status p.status_was in
      rw p.result (
        Stored-Continues msg.asset_id rec' s p.minted p.stored old.named
          (mint_out-assets sdk p.issuer p.coins p.paid p.minted p.mints
            ∙ collect_fee-assets sdk p.issuer (compute_fee sdk p.notional p.rate) s p.paid p.pays)
          (set_asset-Stored sdk rec' p.minted p.stored p.stores)
          (changed s msg.asset_id p.rec rec' p.by_issuer.found refl refl refl refl
            (open-rank p.rec.status still) still))

  pub Settles-Goes :
      (ctx : Context) (msg : MsgSettleRwa) (s u : State)
      → IsSound sdk s
      → Settles sdk ctx msg s u
      → Goes s u
  Settles-Goes ctx msg s u v p =
      let rec' = settled_asset ctx p.rec in
      let old = v.records msg.asset_id p.rec p.by_issuer.found in
      let still = active-open p.rec.status p.is_act in
      rw p.result (
        Stored-Continues msg.asset_id rec' s p.released p.stored old.named
          (release_step-assets p.issuer p.bond p.burnt p.released p.releases
            ∙ (burn_step-assets p.issuer p.notional p.coins p.paid p.burnt p.burns
                ∙ collect_fee-assets sdk p.issuer (compute_fee sdk p.notional p.rate) s p.paid
                    p.pays))
          (set_asset-Stored sdk rec' p.released p.stored p.stores)
          (changed s msg.asset_id p.rec rec' p.by_issuer.found refl refl refl refl
            (omega (arith, open-rank p.rec.status still)) still))

  pub Slashes-Goes :
      (ctx : Context) (authority : Bytes) (msg : MsgSlashBond) (s u : State)
      → IsSound sdk s
      → Slashes sdk ctx authority msg s u
      → Goes s u
  Slashes-Goes ctx authority msg s u v p =
      let rec' = slashed_asset sdk ctx p.rec in
      let old = v.records msg.asset_id p.rec p.found in
      let still = active-open p.rec.status p.is_act in
      rw p.result (
        Stored-Continues msg.asset_id rec' s p.slashed p.stored old.named
          (slash_step-assets p.bond s p.slashed p.slashes)
          (set_asset-Stored sdk rec' p.slashed p.stored p.stores)
          (changed s msg.asset_id p.rec rec' p.found refl refl refl refl
            (omega (arith, open-rank p.rec.status still)) still))

  pub Restricts-Goes :
      (w : Setting sdk) (msg : MsgUpdateRestrictions) (s u : State)
      → IsSound sdk s
      → Restricts sdk msg s u
      → Goes s u
  Restricts-Goes w msg s u v p =
      let id = msg.asset_id in
      let a₁ =
        (apply_list-books sdk w add_allowlist (λ _ _ _. (refl, refl)) id msg.add_allow s p.s₁
          p.adds_allow).0 in
      let a₂ =
        (apply_list-books sdk w del_allowlist (λ _ _ _. (refl, refl)) id msg.del_allow p.s₁ p.s₂
          p.dels_allow).0 in
      let a₃ =
        (apply_list-books sdk w add_denylist (λ _ _ _. (refl, refl)) id msg.add_deny p.s₂ p.s₃
          p.adds_deny).0 in
      let a₄ =
        (apply_list-books sdk w del_denylist (λ _ _ _. (refl, refl)) id msg.del_deny p.s₃ p.s₄
          p.dels_deny).0 in
      let rec' : AssetRecord = record p.rec { allow_all = msg.allow_all } in
      let old = v.records id p.rec p.by_issuer.found in
      rw p.result (
        Stored-Continues id rec' s p.s₄ p.stored old.named (a₄ ∙ (a₃ ∙ (a₂ ∙ a₁)))
          (set_asset-Stored sdk rec' p.s₄ p.stored p.stores)
          (changed s id p.rec rec' p.by_issuer.found refl refl refl refl (omega arith)
            p.not_settled))

  -- A transfer writes no record.
  pub Transfers-Goes : (msg : MsgTransferRwa) (s u : State) → Transfers sdk msg s u → Goes s u
  Transfers-Goes msg s u p =
      rw p.result (rw (with_bank-assets _ s p.sent p.sends) (λ j. Continues-refl (get_asset j s)))
