-- ===== src/Rwa/Outcomes.antt =====
-- What a successful registration and a successful transfer have done.
use mathlib.Core.Option.{some-injective}
use vertix.Base.{ap, false, ℕ, ◌+◌, ◌<◌, ◌≡◌, refl, sym, subst, ◌∙◌, none, some, arith}
use vertix.Base.Bytes.{Bytes, beq_refl}
use vertix.Base.Int.{ℤ, pos, ltb_ℤ, is_positive-pos}
use vertix.Base.Results.{ok}
use vertix.Sdk.{Sdk, Moved}
use vertix.Rwa.Types.{min_issuer_bond_int}
use vertix.Rwa.Keys.{build_denom}
use vertix.Rwa.Messages.{MsgRegisterAsset, MsgTransferRwa}
use vertix.Rwa.Keeper.{State, Context, get_asset, get_params, emit, asset_registered}
use vertix.Rwa.Restriction.{send_restriction}
use vertix.Rwa.Restriction.Policy.{MayTransfer, check_transfer_allowed_iff}
use vertix.Rwa.Funds.{lock_bond}
use vertix.Rwa.Funds.Effect.{Setting, escrow, lock_bond-Effect, with_bank-ok, Sent-Moved, coins_of}
use vertix.Rwa.Server.Register.{register_asset, new_asset}
use vertix.Rwa.Server.Register.Passing.{Registers, register_asset-ok}
use vertix.Rwa.Server.Tokens.{transfer_rwa}
use vertix.Rwa.Server.Tokens.Passing.{Transfers, transfer_rwa-ok}
use vertix.Rwa.Sound.{IsSound}
use vertix.Rwa.Sound.Store.{set_asset-Stored, get_asset-Stored}
use vertix.Rwa.Sound.Handlers.{IsUser}
use vertix.Rwa.Sound.Handlers.Opening.{basic_register-bond}
use vertix.Rwa.Sound.Handlers.Minting.{coins-are}

-- A new asset, with a bond of `n`.
pub record Opened (sdk : Sdk) (ctx : Context) (msg : MsgRegisterAsset) (s u : State) (n : ℕ)
    : Type 0 where
  pub asked : sdk.parse_int msg.bond ≡ some (pos n)
  pub some_bond : 0 < n
  pub enough :
      (least : ℤ)
      → min_issuer_bond_int sdk (get_params sdk s) ≡ some least
      → ltb_ℤ (pos n) least ≡ false
  pub was_free : get_asset msg.asset_id s ≡ none
  pub is_open : get_asset msg.asset_id u ≡ some (new_asset sdk ctx msg (pos n))
  pub escrowed : escrow sdk u ≡ escrow sdk s + n
  pub supply_kept : (d : Bytes) → u.bank.supply d ≡ s.bank.supply d

-- Tokens have gone from the sender to the recipient.
pub record Paid (sdk : Sdk) (msg : MsgTransferRwa) (s u : State) (from to : Bytes) (n : ℕ)
    : Type 0 where
  pub sender : sdk.acc_address msg.sender ≡ some from
  pub recipient : sdk.acc_address msg.recipient ≡ some to
  pub asked : sdk.parse_int msg.amount ≡ some (pos n)
  pub some_tokens : 0 < n
  pub may : MayTransfer sdk s msg.asset_id from to
  pub moved : Moved s.bank from to (coins_of (build_denom msg.asset_id) n) u.bank
  pub assets_kept : u.assets ≡ s.assets

module _ (sdk : Sdk) (w : Setting sdk) where
  Registers-Opened :
      (ctx : Context) (msg : MsgRegisterAsset) (s u : State) (n : ℕ)
      → IsUser sdk msg.issuer
      → (p : Registers sdk ctx msg s u) → p.bond ≡ pos n
      → 0 < n
      → Opened sdk ctx msg s u n
  Registers-Opened ctx msg s u n user p is_n positive =
      let eff =
        lock_bond-Effect sdk w p.issuer n s p.locked (user p.issuer p.issuer_is)
          (subst (λ b. lock_bond sdk p.issuer b s ≡ ok p.locked) is_n p.locks) in
      let st = set_asset-Stored sdk (new_asset sdk ctx msg p.bond) p.locked p.stored p.stores in
      let opened : Opened sdk ctx msg s
          (emit (asset_registered msg.asset_id msg.issuer (sdk.print_int p.bond)) p.stored) n =
        record {
          asked = p.bond_is ∙ ap some is_n;
          some_bond = positive;
          enough = λ least e.
              subst (λ b. ltb_ℤ b least ≡ false) is_n
                (subst (λ m. ltb_ℤ p.bond m ≡ false)
                  (some-injective p.min_bond least (sym p.min_is ∙ e)) p.enough);
          was_free = p.fresh;
          is_open =
              subst (λ b. get_asset msg.asset_id p.stored ≡ some (new_asset sdk ctx msg b)) is_n
                (rw
                  (get_asset-Stored (new_asset sdk ctx msg p.bond) p.locked p.stored msg.asset_id
                    st)
                  (rw (beq_refl msg.asset_id) refl));
          escrowed = rw st.bank_kept (omega (arith, eff.escrowed));
          supply_kept = λ d. rw st.bank_kept (omega (arith, eff.supplied d));
        } in
      subst (λ x. Opened sdk ctx msg s x n) (sym p.result) opened

  -- A registration that succeeds, signed by a user, was for a free id, and has locked the bond that
  -- the message names, at least the least bond of the parameters and not zero, in escrow. It has
  -- stored the draft record under the id, and no supply has changed.
  pub register_asset_opens :
      (ctx : Context) (msg : MsgRegisterAsset) (s u : State)
      → IsUser sdk msg.issuer
      → register_asset sdk ctx msg s ≡ ok u
      → (n : ℕ) × Opened sdk ctx msg s u n
  register_asset_opens ctx msg s u user h =
      let p = register_asset-ok sdk ctx msg s u h in
      let (n, is_n, positive) =
        is_positive-pos p.bond (basic_register-bond sdk msg p.bond p.basic p.bond_is) in
      (n, Registers-Opened ctx msg s u n user p is_n positive)

  Transfers-Paid :
      (msg : MsgTransferRwa) (s u : State) (n : ℕ)
      → IsSound sdk s
      → (p : Transfers sdk msg s u) → p.amount ≡ pos n
      → 0 < n
      → Paid sdk msg s u p.sender p.recipient n
  Transfers-Paid msg s u n v p is_n positive =
      let old = v.records msg.asset_id p.rec p.found in
      let are =
        coins-are p.rec.denom msg.asset_id p.amount n p.coins old.denoted is_n p.coins_are in
      let (b, e, same) = with_bank-ok _ s p.sent p.sends in
      let moved =
        Sent-Moved sdk w s s.bank p.sender p.recipient p.coins b
          (w.bank.send (send_restriction sdk s) s.bank p.sender p.recipient p.coins b e) in
      rw p.result (
        rw same (record {
          sender = p.sender_is;
          recipient = p.recipient_is;
          asked = p.amount_is ∙ ap some is_n;
          some_tokens = positive;
          may = (check_transfer_allowed_iff sdk s msg.asset_id p.sender p.recipient).0 p.allowed;
          moved = subst (λ cs. Moved s.bank p.sender p.recipient cs b) are moved;
          assets_kept = refl;
        }))

  -- In a sound state, a transfer that succeeds has moved just the amount that the message names,
  -- more than zero, of the asset's token from the sender to the recipient, and no other coin; the
  -- asset's policy lets the two parties transfer it, and the registry is as it was.
  pub transfer_rwa_pays :
      (msg : MsgTransferRwa) (s u : State)
      → IsSound sdk s
      → transfer_rwa sdk msg s ≡ ok u
      → (from : Bytes) × (to : Bytes) × (n : ℕ) × Paid sdk msg s u from to n
  transfer_rwa_pays msg s u v h =
      let p = transfer_rwa-ok sdk msg s u h in
      let (n, is_n, positive) = is_positive-pos p.amount p.amount_pos in
      (p.sender, p.recipient, n, Transfers-Paid msg s u n v p is_n positive)
