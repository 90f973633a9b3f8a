-- ===== src/Wiring/Attesting.antt =====
-- x/rwa/keeper/msg_server.go and x/oracle/keeper/keeper.go: an attestation against the price that
-- the oracle has published.
use vertix.Base.{◌≡◌, refl, ◌∙◌, ap, subst, Option, none, not, true, false, some, arith}
use vertix.Base.Bytes.{Bytes, beq_refl}
use vertix.Base.Int.{ℤ, ltb_ℤ}
use vertix.Base.Map.{lookup}
use vertix.Base.Results.{Result, ok, err, or_err, guard-then, or_err-then, >>=-eq-ok}
use vertix.Sdk.{Sdk}
use vertix.Oracle.Types.{
  AggregatedPrice, pair_accepted, pair_not_accepted, no_price, stale_price, bad_decimal,
}
use vertix.Oracle.Keys.{aggregated_price_key}
use vertix.Oracle.Keeper.{get_params, get_price, get_aggregated_price, seconds, time_sub}
use vertix.Rwa.Types.{AssetRecord}
use vertix.Rwa.Messages.{MsgAttestAsset}
use vertix.Rwa.Keeper.{State, get_asset}
use vertix.Rwa.Server.Register.{attest_asset, is_draft}
use vertix.Rwa.Server.Register.Passing.{attested_asset, attest_asset-ok}
use vertix.Rwa.Sound.{IsSound}
use vertix.Rwa.Sound.Store.{set_asset-Stored, get_asset-Stored}
use package.vertix.Wiring.{answer, rwa_context}

-- The oracle answers with a price: that of an accepted pair, as it is stored, and not too old.
pub record Published (sdk : Sdk) (ctx : vertix.Oracle.Keeper.Context)
    (oracle : vertix.Oracle.Keeper.State) (pair : Bytes) (price : ℤ) : Type 0 where
  pub accepted : pair_accepted (get_params sdk oracle) pair ≡ true
  pub stored : AggregatedPrice
  pub found : lookup (aggregated_price_key pair) oracle.prices ≡ some stored
  pub fresh :
      ltb_ℤ
        (seconds (get_params sdk oracle).max_price_age)
        (time_sub ctx.block_time stored.block_time)
      ≡ false
  pub parsed : sdk.parse_dec stored.price ≡ some price

answer-ok {ℓ κ} : {E : Type ℓ} {A : Type κ} (r : Result E A) (a : A) → answer r ≡ some a → r ≡ ok a
answer-ok (ok b) a h = ground arith
answer-ok (err e) a h = cc

or_err-ok {ℓ κ} :
    {E : Type ℓ} {A : Type κ} (o : Option A) (e : E) (a : A) → or_err o e ≡ ok a → o ≡ some a
or_err-ok none e a h = cc
or_err-ok (some b) e a h = ground arith

get_aggregated_price-ok :
    (sdk : Sdk) (ctx : vertix.Oracle.Keeper.Context) (oracle : vertix.Oracle.Keeper.State)
    (pair : Bytes) (stored : AggregatedPrice)
    → get_aggregated_price sdk ctx pair oracle ≡ ok stored
    → (pair_accepted (get_params sdk oracle) pair ≡ true)
      × (lookup (aggregated_price_key pair) oracle.prices ≡ some stored)
      × (ltb_ℤ
            (seconds (get_params sdk oracle).max_price_age)
            (time_sub ctx.block_time stored.block_time)
          ≡ false)
unfolding get_aggregated_price
get_aggregated_price-ok sdk ctx oracle pair stored h =
    let (accepted, g₁) =
      guard-then (pair_accepted (get_params sdk oracle) pair) pair_not_accepted _ h in
    let (p, found, g₂) =
      or_err-then (lookup (aggregated_price_key pair) oracle.prices) no_price _ g₁ in
    let late =
      ltb_ℤ (seconds (get_params sdk oracle).max_price_age)
        (time_sub ctx.block_time p.block_time) in
    let (fresh, g₃) = guard-then (not late) stale_price (ok p) g₂ in
    let on_time : late ≡ false = ground arith in
    let same : p ≡ stored = cc in
    (
      accepted,
      found ∙ ap some same,
      subst
          (λ x.
            ltb_ℤ (seconds (get_params sdk oracle).max_price_age)
              (time_sub ctx.block_time x.block_time)
            ≡ false)
          same on_time,
    )

get_price-Published :
    (sdk : Sdk) (ctx : vertix.Oracle.Keeper.Context) (oracle : vertix.Oracle.Keeper.State)
    (pair : Bytes) (price : ℤ)
    → get_price sdk ctx pair oracle ≡ ok price
    → Published sdk ctx oracle pair price
unfolding get_price
get_price-Published sdk ctx oracle pair price h =
    let (stored, h₁, h₂) = >>=-eq-ok (get_aggregated_price sdk ctx pair oracle) _ h in
    let (accepted, found, fresh) = get_aggregated_price-ok sdk ctx oracle pair stored h₁ in
    record {
      accepted = accepted;
      stored = stored;
      found = found;
      fresh = fresh;
      parsed = or_err-ok (sdk.parse_dec stored.price) bad_decimal price h₂;
    }

-- What an attestation has done.
pub record Attested (sdk : Sdk) (ctx : vertix.Oracle.Keeper.Context)
    (oracle : vertix.Oracle.Keeper.State) (msg : MsgAttestAsset) (s u : State) : Type 0 where
  pub rec : AssetRecord
  pub registered : get_asset msg.asset_id s ≡ some rec
  pub own : rec.issuer ≡ msg.issuer
  pub was_draft : is_draft rec.status ≡ true
  pub price : ℤ
  pub published : Published sdk ctx oracle rec.oracle_pair price
  pub recorded :
      get_asset msg.asset_id u ≡ some (attested_asset sdk (rwa_context sdk ctx oracle) price rec)

-- On a sound registry, AttestAsset succeeds only for the issuer of an asset in draft, whose oracle
-- pair is on the oracle's accept list and has a stored price that is not older than the oracle's
-- parameters allow; the asset then records that price and the time of the block.
pub attest_asset-Attested :
    (sdk : Sdk) (ctx : vertix.Oracle.Keeper.Context) (oracle : vertix.Oracle.Keeper.State)
    (msg : MsgAttestAsset) (s u : State)
    → IsSound sdk s
    → attest_asset sdk (rwa_context sdk ctx oracle) msg s ≡ ok u
    → Attested sdk ctx oracle msg s u
attest_asset-Attested sdk ctx oracle msg s u v h =
    let p = attest_asset-ok sdk (rwa_context sdk ctx oracle) msg s u h in
    let named : p.rec.asset_id ≡ msg.asset_id =
      (v.records msg.asset_id p.rec p.by_issuer.found).named in
    let rec' = attested_asset sdk (rwa_context sdk ctx oracle) p.price p.rec in
    let st = set_asset-Stored sdk rec' s p.stored p.stores in
    record {
      rec = p.rec;
      registered = p.by_issuer.found;
      own = p.by_issuer.owner;
      was_draft = p.was_draft;
      price = p.price;
      published =
          get_price-Published sdk ctx oracle p.rec.oracle_pair p.price
            (answer-ok (get_price sdk ctx p.rec.oracle_pair oracle) p.price p.price_is);
      recorded = rw p.result (
          rw (get_asset-Stored rec' s p.stored msg.asset_id st)
            (rw named (rw (beq_refl msg.asset_id) refl)));
    }
