-- ===== src/Rwa/Sound/Handlers/Minting.antt =====
-- Mints and transfers keep the invariant.
use mathlib.Core.Option.{some-injective}
use vertix.Base.{ℕ, ◌+◌, ◌≡◌, refl, sym, subst, ap, ◌∙◌, ◌≢◌, Option, some, arith}
use vertix.Base.Bytes.{Bytes}
use vertix.Base.Int.{ℤ, pos, ◌+ℤ◌, is_positive-pos, pos-add}
use vertix.Base.Results.{ok}
use vertix.Sdk.{Sdk, Coins, amount_of, new_coins}
use vertix.Rwa.Types.{bond_denom}
use vertix.Rwa.Keys.{build_denom}
use vertix.Rwa.Keys.Denoms.{build_denom_inj, build_denom-ne-bond}
use vertix.Rwa.Messages.{MsgMintRwa, MsgTransferRwa}
use vertix.Rwa.Keeper.{State}
use vertix.Rwa.Restriction.{send_restriction}
use vertix.Rwa.Funds.Effect.{
  Setting, Effect, nothing, coins_of, new_coins-pos, amount_of_self, amount_of-other,
  collect_fee-Effect, free-Moved, with_bank-ok, Sent-Moved,
}
use vertix.Rwa.Server.Tokens.{mint_rwa, transfer_rwa, mint_out}
use vertix.Rwa.Server.Tokens.Passing.{Mints, mint_rwa-ok, Transfers, transfer_rwa-ok, minted_asset}
use vertix.Rwa.Sound.{IsSound}
use vertix.Rwa.Sound.Tokens.{mint_out-Effect, free_then}
use vertix.Rwa.Sound.Store.{set_asset-Stored, Stored-IsSound}
use package.vertix.Rwa.Sound.Handlers.{
  IsUser, emit-IsSound, mintable-open, locked-open, tracked-open,
}

-- The coins of one asset hold no `uvtx`, and none of any other asset's.
pub token_free : (id : Bytes) (n : ℕ) → amount_of bond_denom (coins_of (build_denom id) n) ≡ 0
token_free id n = amount_of-other bond_denom (build_denom id) n (build_denom-ne-bond id)

pub token_other :
    (id j : Bytes) (n : ℕ) → j ≢ id → amount_of (build_denom j) (coins_of (build_denom id) n) ≡ 0
token_other id j n ne =
    amount_of-other (build_denom j) (build_denom id) n (λ e. ne (build_denom_inj j id e))

-- The coins that a handler builds, written out.
pub coins-are :
    (d : Bytes) (id : Bytes) (b : ℤ) (n : ℕ) (cs : Coins)
    → d ≡ build_denom id
    → b ≡ pos n
    → new_coins d b ≡ some cs
    → cs ≡ coins_of (build_denom id) n
coins-are d id b n cs ed eb h = some-injective cs (coins_of (build_denom id) n) (
    sym h
    ∙ (ap (λ x. new_coins x b) ed
        ∙ (ap (new_coins (build_denom id)) eb ∙ new_coins-pos (build_denom id) n)))

module _ (sdk : Sdk) (w : Setting sdk) where
  -- The bank's part of a mint.
  Mints-Effect :
      (msg : MsgMintRwa) (s u : State) (id : Bytes) (n : ℕ)
      → IsUser sdk msg.issuer
      → (p : Mints sdk msg s u) → p.coins ≡ coins_of (build_denom id) n
      → Effect sdk s 0 0 (λ d. amount_of d (coins_of (build_denom id) n)) nothing p.minted
  Mints-Effect msg s u id n user p are =
      let cs = coins_of (build_denom id) n in
      free_then sdk w s p.paid p.minted (λ d. amount_of d cs) nothing
        (collect_fee-Effect sdk w p.issuer _ s p.paid (user p.issuer p.issuer_is) p.pays)
        (mint_out-Effect sdk w p.issuer cs p.paid p.minted (token_free id n)
          (subst (λ c. mint_out sdk p.issuer c p.paid ≡ ok p.minted) are p.mints))

  Mints-IsSound :
      (msg : MsgMintRwa) (s u : State) (n m : ℕ)
      → IsUser sdk msg.issuer
      → IsSound sdk s
      → (p : Mints sdk msg s u) → p.notional ≡ pos n
      → p.prev ≡ pos m
      → s.bank.supply (build_denom msg.asset_id) ≡ m
      → IsSound sdk u
  Mints-IsSound msg s u n m user v p is_n is_m supply =
      let id = msg.asset_id in
      let old = v.records id p.rec p.by_issuer.found in
      let was_open = mintable-open p.rec.status p.status_was in
      let rec' = minted_asset sdk (p.prev +ℤ p.notional) p.rec in
      let are = coins-are p.rec.denom id p.notional n p.coins old.denoted is_n p.coins_are in
      let eff = Mints-Effect msg s u id n user p are in
      let total : p.prev +ℤ p.notional ≡ pos (m + n) = rw (is_m, is_n) (pos-add m n) in
      let counts : sdk.parse_int (sdk.print_int (p.prev +ℤ p.notional)) ≡ some (pos (m + n)) =
        w.ints.parse-print (p.prev +ℤ p.notional) ∙ ap {B = Option ℤ} some total in
      let now : p.minted.bank.supply (build_denom id) ≡ m + n =
        omega (arith, eff.supplied (build_denom id), amount_of_self (build_denom id) n, supply) in
      let sound =
        Stored-IsSound sdk id rec' s p.minted p.stored 0 0
          (λ d. amount_of d (coins_of (build_denom id) n)) nothing v eff
          (set_asset-Stored sdk rec' p.minted p.stored p.stores)
          (record {
            named = old.named;
            denoted = old.denoted;
            bond = old.bond;
            bonded = old.bonded;
            bond_pos = λ _. old.bond_pos was_open;
            minted = m + n;
            counted = counts;
            premint = λ q. cc;
          })
          (rw p.by_issuer.found (omega (arith, locked-open sdk p.rec was_open)))
          (λ j ne. (token_other id j n ne, refl)) (λ _. rw now counts) in
      subst (λ x. IsSound sdk x) (sym p.result) (emit-IsSound sdk _ p.stored sound)

  -- A mint keeps the books: what it adds to the supply it adds to the record.
  pub mint_rwa-IsSound :
      (msg : MsgMintRwa) (s u : State)
      → IsUser sdk msg.issuer
      → IsSound sdk s
      → mint_rwa sdk msg s ≡ ok u
      → IsSound sdk u
  mint_rwa-IsSound msg s u user v h =
      let p = mint_rwa-ok sdk msg s u h in
      let (n, is_n, positive) = is_positive-pos p.notional p.notional_pos in
      let tracked =
        tracked-open sdk s msg.asset_id p.rec v p.by_issuer.found
          (mintable-open p.rec.status p.status_was) in
      let is_m = some-injective p.prev _ (sym p.prev_is ∙ tracked) in
      Mints-IsSound msg s u n (s.bank.supply (build_denom msg.asset_id)) user v p is_n is_m refl

  -- An effect of nothing on an unchanged registry.
  pub free-IsSound :
      (s t : State) → Effect sdk s 0 0 nothing nothing t → IsSound sdk s → IsSound sdk t
  free-IsSound s t e v =
      let same : t.assets ≡ s.assets = rw e.rest refl in
      let supply : (d : Bytes) → t.bank.supply d ≡ s.bank.supply d =
        λ d. omega (arith, e.supplied d) in
      record {
        sorted = rw same v.sorted;
        records = λ id rec. rw same (v.records id rec);
        entries = rw same v.entries;
        covered = rw same (omega (arith, v.covered, e.escrowed));
        tracked = λ id. rw (same, supply (build_denom id)) (v.tracked id);
      }

  pub transfer_rwa-IsSound :
      (msg : MsgTransferRwa) (s u : State)
      → IsSound sdk s
      → transfer_rwa sdk msg s ≡ ok u
      → IsSound sdk u
  transfer_rwa-IsSound msg s u v h = Transfers-IsSound msg s u v (transfer_rwa-ok sdk msg s u h)
    where
      Transfers-IsSound :
          (msg : MsgTransferRwa) (s u : State)
          → IsSound sdk s
          → Transfers sdk msg s u
          → IsSound sdk u
      Transfers-IsSound msg s u v p =
          let (n, is_n, positive) = is_positive-pos p.amount p.amount_pos in
          let old = v.records msg.asset_id p.rec p.found in
          let are =
            coins-are p.rec.denom msg.asset_id p.amount n p.coins old.denoted is_n p.coins_are in
          let free : amount_of bond_denom p.coins ≡ 0 = rw are (token_free msg.asset_id n) in
          let (b, e, same) = with_bank-ok _ s p.sent p.sends in
          let moved =
            Sent-Moved sdk w s s.bank p.sender p.recipient p.coins b
              (w.bank.send (send_restriction sdk s) s.bank p.sender p.recipient p.coins b e) in
          let sound =
            free-IsSound s (record s { bank = b })
              (free-Moved sdk s b p.sender p.recipient p.coins free moved) v in
          subst (λ x. IsSound sdk x) (sym p.result)
            (emit-IsSound sdk _ p.sent (subst (λ x. IsSound sdk x) (sym same) sound))
