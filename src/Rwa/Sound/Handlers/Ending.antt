-- ===== src/Rwa/Sound/Handlers/Ending.antt =====
-- Settlement and slashing keep the invariant.
use mathlib.Core.Option.{some-injective}
use vertix.Base.{ℕ, zero, suc, ◌≡◌, refl, sym, subst, ap, ◌∙◌, ◌≢◌, Option, some, arith}
use vertix.Base.Bytes.{Bytes}
use vertix.Base.Int.{ℤ, pos}
use vertix.Base.Results.{ok}
use vertix.Sdk.{Sdk, amount_of}
use vertix.Rwa.Keys.{build_denom}
use vertix.Rwa.Messages.{MsgSettleRwa, MsgSlashBond}
use vertix.Rwa.Keeper.{State, Context}
use vertix.Rwa.Restriction.{module_account}
use vertix.Rwa.Funds.Effect.{
  Setting, Effect, nothing, coins_of, amount_of_self, collect_fee-Effect, release_bond-Effect,
  slash_bond-Effect, stays,
}
use vertix.Rwa.Server.Closing.{settle_rwa, slash_bond}
use vertix.Rwa.Server.Closing.Passing.{
  Settles, settle_rwa-ok, Slashes, slash_bond-ok, settled_asset, slashed_asset, burn_step,
  release_step, slash_step,
}
use vertix.Rwa.Sound.{IsSound, locked}
use vertix.Rwa.Sound.Tokens.{burn_back-Effect, free_then, rest_trans}
use vertix.Rwa.Sound.Store.{set_asset-Stored, Stored-IsSound}
use package.vertix.Rwa.Sound.Handlers.{IsUser, emit-IsSound, active-open, locked-open, tracked-open}
use vertix.Rwa.Sound.Handlers.Minting.{token_free, token_other, coins-are}

module _ (sdk : Sdk) (w : Setting sdk) where
  burn_step-Effect :
      (issuer : Bytes) (id : Bytes) (n : ℕ) (s u : State)
      → burn_step sdk issuer (pos n) (coins_of (build_denom id) n) s ≡ ok u
      → Effect sdk s 0 0 nothing (λ d. amount_of d (coins_of (build_denom id) n)) u
  burn_step-Effect issuer id zero s u h =
      let same : s ≡ u = ground arith in rw (← same) (stays sdk w s)
  burn_step-Effect issuer id (suc n) s u h =
      burn_back-Effect sdk w issuer (coins_of (build_denom id) (suc n)) s u (token_free id (suc n))
        (ground arith)

  release_step-Effect :
      (issuer : Bytes) (n : ℕ) (s u : State)
      → issuer ≢ module_account sdk
      → release_step sdk issuer (pos n) s ≡ ok u
      → Effect sdk s 0 n nothing nothing u
  release_step-Effect issuer zero s u user h =
      let same : s ≡ u = ground arith in rw (← same) (stays sdk w s)
  release_step-Effect issuer (suc n) s u user h =
      release_bond-Effect sdk w issuer (suc n) s u user (ground arith)

  slash_step-Effect :
      (n : ℕ) (s u : State) → slash_step sdk (pos n) s ≡ ok u → Effect sdk s 0 n nothing nothing u
  slash_step-Effect zero s u h = let same : s ≡ u = ground arith in rw (← same) (stays sdk w s)
  slash_step-Effect (suc n) s u h = slash_bond-Effect sdk w (suc n) s u (ground arith)

  -- Tokens are burnt, then the bond is returned.
  burn_then_release :
      (s t u : State) (down : Bytes → ℕ) (b : ℕ)
      → Effect sdk s 0 0 nothing down t
      → Effect sdk t 0 b nothing nothing u
      → Effect sdk s 0 b nothing down u
  burn_then_release s t u down b x y = record {
    escrowed = omega (arith, x.escrowed, y.escrowed);
    supplied = λ d. omega (arith, x.supplied d, y.supplied d);
    rest = rest_trans s t u x.rest y.rest;
  }

  -- The bank's part of a settlement.
  Settles-Effect :
      (ctx : Context) (msg : MsgSettleRwa) (s u : State) (id : Bytes) (m b : ℕ)
      → IsUser sdk msg.issuer
      → (p : Settles sdk ctx msg s u) → p.notional ≡ pos m
      → p.coins ≡ coins_of (build_denom id) m
      → p.bond ≡ pos b
      → Effect sdk s 0 b nothing (λ d. amount_of d (coins_of (build_denom id) m)) p.released
  Settles-Effect ctx msg s u id m b user p is_m are is_b =
      let down = λ (d : Bytes). amount_of d (coins_of (build_denom id) m) in
      let is_user = user p.issuer p.issuer_is in
      let burns : burn_step sdk p.issuer (pos m) (coins_of (build_denom id) m) p.paid ≡ ok p.burnt =
        subst (λ c. burn_step sdk p.issuer (pos m) c p.paid ≡ ok p.burnt) are
          (subst (λ k. burn_step sdk p.issuer k p.coins p.paid ≡ ok p.burnt) is_m p.burns) in
      let releases : release_step sdk p.issuer (pos b) p.burnt ≡ ok p.released =
        subst (λ k. release_step sdk p.issuer k p.burnt ≡ ok p.released) is_b p.releases in
      burn_then_release s p.burnt p.released down b
        (free_then sdk w s p.paid p.burnt nothing down
          (collect_fee-Effect sdk w p.issuer _ s p.paid is_user p.pays)
          (burn_step-Effect p.issuer id m p.paid p.burnt burns))
        (release_step-Effect p.issuer b p.burnt p.released is_user releases)

  Settles-books :
      (ctx : Context) (msg : MsgSettleRwa) (s u : State) (m b : ℕ)
      → IsUser sdk msg.issuer
      → IsSound sdk s
      → (p : Settles sdk ctx msg s u) → p.notional ≡ pos m
      → s.bank.supply (build_denom msg.asset_id) ≡ m
      → p.bond ≡ pos b
      → IsSound sdk u × (u.bank.supply (build_denom msg.asset_id) ≡ 0)
  Settles-books ctx msg s u m b user v p is_m supply is_b =
      let id = msg.asset_id in
      let old = v.records id p.rec p.by_issuer.found in
      let was_open = active-open p.rec.status p.is_act in
      let rec' = settled_asset ctx p.rec in
      let are = coins-are p.rec.denom id p.notional m p.coins old.denoted is_m p.coins_are in
      let eff = Settles-Effect ctx msg s u id m b user p is_m are is_b in
      let held : sdk.parse_int p.rec.bond ≡ some (pos b) =
        p.bond_is ∙ ap {B = Option ℤ} some is_b in
      let was_locked : locked sdk p.rec ≡ b = rw (locked-open sdk p.rec was_open) (rw held refl) in
      let st = set_asset-Stored sdk rec' p.released p.stored p.stores in
      let sound =
        Stored-IsSound sdk id rec' s p.released p.stored 0 b nothing
          (λ d. amount_of d (coins_of (build_denom id) m)) v eff st
          (record {
            named = old.named;
            denoted = old.denoted;
            bond = old.bond;
            bonded = old.bonded;
            bond_pos = λ q. cc;
            minted = old.minted;
            counted = old.counted;
            premint = λ q. cc;
          })
          (rw p.by_issuer.found (omega (arith, was_locked))) (λ j ne. (refl, token_other id j m ne))
          (λ q. cc) in
      let gone : p.released.bank.supply (build_denom id) ≡ 0 =
        omega (arith, eff.supplied (build_denom id), amount_of_self (build_denom id) m, supply) in
      (
        subst (λ x. IsSound sdk x) (sym p.result) (emit-IsSound sdk _ p.stored sound),
        rw (p.result, st.bank_kept) gone,
      )

  -- A settlement that succeeds, signed by a user in a sound state, leaves a sound state in which no
  -- token of the asset is left.
  pub settle_rwa-books :
      (ctx : Context) (msg : MsgSettleRwa) (s u : State)
      → IsUser sdk msg.issuer
      → IsSound sdk s
      → settle_rwa sdk ctx msg s ≡ ok u
      → IsSound sdk u × (u.bank.supply (build_denom msg.asset_id) ≡ 0)
  settle_rwa-books ctx msg s u user v h =
      let p = settle_rwa-ok sdk ctx msg s u h in
      let old = v.records msg.asset_id p.rec p.by_issuer.found in
      let tracked =
        tracked-open sdk s msg.asset_id p.rec v p.by_issuer.found
          (active-open p.rec.status p.is_act) in
      Settles-books ctx msg s u (s.bank.supply (build_denom msg.asset_id)) old.bond user v p
        (some-injective p.notional _ (sym p.notional_is ∙ tracked)) refl
        (some-injective p.bond _ (sym p.bond_is ∙ old.bonded))

  Slashes-IsSound :
      (ctx : Context) (authority : Bytes) (msg : MsgSlashBond) (s u : State) (b : ℕ)
      → IsSound sdk s
      → (p : Slashes sdk ctx authority msg s u) → p.bond ≡ pos b
      → IsSound sdk u
  Slashes-IsSound ctx authority msg s u b v p is_b =
      let id = msg.asset_id in
      let old = v.records id p.rec p.found in
      let was_open = active-open p.rec.status p.is_act in
      let rec' = slashed_asset sdk ctx p.rec in
      let eff =
        slash_step-Effect b s p.slashed
          (subst (λ k. slash_step sdk k s ≡ ok p.slashed) is_b p.slashes) in
      let held : sdk.parse_int p.rec.bond ≡ some (pos b) =
        p.bond_is ∙ ap {B = Option ℤ} some is_b in
      let was_locked : locked sdk p.rec ≡ b = rw (locked-open sdk p.rec was_open) (rw held refl) in
      let sound =
        Stored-IsSound sdk id rec' s p.slashed p.stored 0 b nothing nothing v eff
          (set_asset-Stored sdk rec' p.slashed p.stored p.stores)
          (record {
            named = old.named;
            denoted = old.denoted;
            bond = 0;
            bonded = w.ints.parse-print (pos 0);
            bond_pos = λ q. cc;
            minted = old.minted;
            counted = old.counted;
            premint = λ q. cc;
          })
          (rw p.found (omega (arith, was_locked))) (λ j ne. (refl, refl)) (λ q. cc) in
      subst (λ x. IsSound sdk x) (sym p.result) (emit-IsSound sdk _ p.stored sound)

  pub slash_bond-IsSound :
      (ctx : Context) (authority : Bytes) (msg : MsgSlashBond) (s u : State)
      → IsSound sdk s
      → slash_bond sdk ctx authority msg s ≡ ok u
      → IsSound sdk u
  slash_bond-IsSound ctx authority msg s u v h =
      let p = slash_bond-ok sdk ctx authority msg s u h in
      let old = v.records msg.asset_id p.rec p.found in
      Slashes-IsSound ctx authority msg s u old.bond v p
        (some-injective p.bond _ (sym p.bond_is ∙ old.bonded))
