-- ===== src/Rwa/Sound/Lifecycle/Final.antt =====
-- The life of an asset over any number of steps of the chain.
use vertix.Base.{◌≡◌, sym, subst, ◌∙◌, true, Option, none, some, arith}
use vertix.Base.Bytes.{Bytes, beq}
use vertix.Base.Results.{ok, returned, guard-then, check-then, >>=-eq-ok}
use vertix.Sdk.{Sdk}
use vertix.Rwa.Types.{AssetRecord, invalid_signer}
use vertix.Rwa.Messages.{MsgUpdateParams, basic_update_params}
use vertix.Rwa.Keeper.{State, get_asset, set_params}
use vertix.Rwa.Server.{update_params}
use vertix.Rwa.Server.Register.{is_settled}
use vertix.Rwa.Server.Register.Passing.{register_asset-ok, attest_asset-ok, update_restrictions-ok}
use vertix.Rwa.Server.Tokens.Passing.{mint_rwa-ok, transfer_rwa-ok}
use vertix.Rwa.Server.Closing.Passing.{settle_rwa-ok, slash_bond-ok}
use vertix.Rwa.Funds.Effect.{Setting}
use vertix.Rwa.Sound.{IsSound}
use vertix.Rwa.Sound.Chain.{
  Step, Reach, IsFresh, IsFresh-IsSound, Reach-IsSound, set_params-books, register, attest, mint,
  transfer, settle, restrict, slash, set, outside, here, next,
}
use package.vertix.Rwa.Sound.Lifecycle.{Follows, Continues, Continues-refl}
use package.vertix.Rwa.Sound.Lifecycle.Steps.{
  Goes, Registers-Goes, Attests-Goes, Mints-Goes, Transfers-Goes, Settles-Goes, Slashes-Goes,
  Restricts-Goes,
}

Follows-trans : (a b c : AssetRecord) → Follows a b → Follows b c → Follows a c
Follows-trans a b c f g = record {
  issuer_kept = g.issuer_kept ∙ f.issuer_kept;
  denom_kept = g.denom_kept ∙ f.denom_kept;
  pair_kept = g.pair_kept ∙ f.pair_kept;
  created_kept = g.created_kept ∙ f.created_kept;
  forward = omega (arith, f.forward, g.forward);
  final = λ h. g.final (subst (λ r. is_settled r.status ≡ true) (sym (f.final h)) h) ∙ f.final h;
}

Continues-trans : (a b c : Option AssetRecord) → Continues a b → Continues b c → Continues a c
Continues-trans none b c f g = tt
Continues-trans (some r) b c (r₁, e, f) g =
    let (r₂, e₂, g₂) = subst (λ o. Continues o c) e g in (r₂, e₂, Follows-trans r r₁ r₂ f g₂)

update_params-Goes :
    (sdk : Sdk) (authority : Bytes) (msg : MsgUpdateParams) (s u : State)
    → update_params sdk authority msg s ≡ ok u
    → Goes s u
unfolding update_params
update_params-Goes sdk authority msg s u h j =
    let (same, h₁) = guard-then (beq authority msg.authority) invalid_signer _ h in
    let (basic, h₂) = check-then (basic_update_params sdk msg) _ h₁ in
    let (t, sets, h₃) = >>=-eq-ok (set_params sdk msg.params s) _ h₂ in
    let (assets, bank) = set_params-books sdk msg.params s t sets in
    rw (returned h₃) (rw assets (Continues-refl (get_asset j s)))

module _ (sdk : Sdk) (w : Setting sdk) (authority : Bytes) where
  Step-Goes : {s u : State} → Step sdk authority s u → IsSound sdk s → Goes s u
  Step-Goes {s = s} {u = u} (register ctx msg user e) v =
      Registers-Goes sdk ctx msg s u (register_asset-ok sdk ctx msg s u e)
  Step-Goes {s = s} {u = u} (attest ctx msg e) v =
      Attests-Goes sdk ctx msg s u v (attest_asset-ok sdk ctx msg s u e)
  Step-Goes {s = s} {u = u} (mint msg user e) v =
      Mints-Goes sdk msg s u v (mint_rwa-ok sdk msg s u e)
  Step-Goes {s = s} {u = u} (transfer msg e) v =
      Transfers-Goes sdk msg s u (transfer_rwa-ok sdk msg s u e)
  Step-Goes {s = s} {u = u} (settle ctx msg user e) v =
      Settles-Goes sdk ctx msg s u v (settle_rwa-ok sdk ctx msg s u e)
  Step-Goes {s = s} {u = u} (restrict msg e) v =
      Restricts-Goes sdk w msg s u v (update_restrictions-ok sdk msg s u e)
  Step-Goes {s = s} {u = u} (slash ctx msg e) v =
      Slashes-Goes sdk ctx authority msg s u v (slash_bond-ok sdk ctx authority msg s u e)
  Step-Goes {s = s} {u = u} (set msg e) v = update_params-Goes sdk authority msg s u e
  Step-Goes {s = s} (outside b supplies more) v = λ j. Continues-refl (get_asset j s)

  Reach-Goes : {s u : State} → IsSound sdk s → Reach sdk authority s u → Goes s u
  Reach-Goes {s = s} v here = λ j. Continues-refl (get_asset j s)
  Reach-Goes {s = s} {u = u} v (next {t = t} r st) = λ j.
      Continues-trans (get_asset j s) (get_asset j t) (get_asset j u) (Reach-Goes v r j)
        (Step-Goes st (Reach-IsSound sdk w authority r v) j)

  -- An asset that is registered in a state reached from a fresh chain is still registered in every
  -- state reached from there, by the same issuer, with the same denom, oracle pair and time of
  -- creation, and its status has not gone back; once it is settled its record never changes.
  pub asset_goes_on :
      (start s u : State) (id : Bytes) (rec : AssetRecord)
      → IsFresh start
      → Reach sdk authority start s
      → Reach sdk authority s u
      → get_asset id s ≡ some rec
      → (rec' : AssetRecord) × (get_asset id u ≡ some rec') × Follows rec rec'
  asset_goes_on start s u id rec fresh before after found =
      let v = Reach-IsSound sdk w authority before (IsFresh-IsSound sdk start fresh) in
      subst (λ o. Continues o (get_asset id u)) found (Reach-Goes v after id)
