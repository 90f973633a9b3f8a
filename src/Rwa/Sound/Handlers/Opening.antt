-- ===== src/Rwa/Sound/Handlers/Opening.antt =====
-- Registration, attestation and restriction updates keep the invariant.
use vertix.Base.{ℕ, ◌<◌, ◌≡◌, refl, sym, subst, ◌∙◌, not, true, some, List, [], ◌∷◌, arith}
use vertix.Base.Bytes.{Bytes, beq}
use vertix.Base.Int.{ℤ, pos, is_positive, is_positive-pos}
use vertix.Base.Results.{ok, guard-true, guard-then, check-then, or_err-then}
use vertix.Sdk.{Sdk}
use vertix.Rwa.Types.{AssetRecord, invalid_params, invalid_amount, invalid_address}
use vertix.Rwa.Keys.{build_denom}
use vertix.Rwa.Funds.{lock_bond}
use vertix.Rwa.Restriction.{add_allowlist, del_allowlist, add_denylist, del_denylist}
use vertix.Pattern.{is_pair}
use mathlib.Core.Option.{some-injective}
use vertix.Rwa.Messages.{
  check_acc, validate_asset_id, MsgRegisterAsset, MsgAttestAsset, MsgUpdateRestrictions,
  basic_register,
}
use vertix.Rwa.Keeper.{State, Context, get_asset}
use vertix.Rwa.Funds.Effect.{Setting, nothing, lock_bond-Effect, stays}
use vertix.Rwa.Server.Register.{
  register_asset, attest_asset, update_restrictions, apply_list, new_asset,
}
use vertix.Rwa.Server.Register.Passing.{
  Registers, register_asset-ok, Attests, attest_asset-ok, attested_asset, Restricts,
  update_restrictions-ok,
}
use vertix.Rwa.Sound.{IsSound, Tracks, locked, nat_of}
use vertix.Rwa.Sound.Store.{set_asset-Stored, Stored-IsSound}
use package.vertix.Rwa.Sound.Handlers.{
  IsUser, emit-IsSound, IsSound-same, draft-open, locked-open, tracked-open,
}

pub basic_register-bond :
    (sdk : Sdk) (msg : MsgRegisterAsset) (b : ℤ)
    → basic_register sdk msg ≡ ok tt
    → sdk.parse_int msg.bond ≡ some b
    → is_positive b ≡ true
unfolding basic_register
basic_register-bond sdk msg b h e =
    let (_, h₁) = check-then (check_acc sdk msg.issuer) _ h in
    let (_, h₂) = check-then (validate_asset_id msg.asset_id) _ h₁ in
    let (_, h₃) = guard-then (not (beq msg.name [])) invalid_params _ h₂ in
    let (_, h₄) = guard-then (is_pair msg.oracle_pair) invalid_params _ h₃ in
    let (c, parsed, h₅) = or_err-then (sdk.parse_int msg.bond) invalid_amount _ h₄ in
    let same : b ≡ c = some-injective b c (sym e ∙ parsed) in
    rw same (guard-true (is_positive c) invalid_amount h₅)

new_asset-locked :
    (sdk : Sdk) (ctx : Context) (msg : MsgRegisterAsset) (b : ℤ)
    → sdk.parse_int (sdk.print_int b) ≡ some b
    → locked sdk (new_asset sdk ctx msg b) ≡ nat_of (some b)
new_asset-locked sdk ctx msg b e = rw e refl

module _ (sdk : Sdk) (w : Setting sdk) where
  Registers-IsSound :
      (ctx : Context) (msg : MsgRegisterAsset) (s u : State)
      → IsUser sdk msg.issuer
      → IsSound sdk s
      → (p : Registers sdk ctx msg s u) → (n : ℕ) → p.bond ≡ pos n
      → 0 < n
      → IsSound sdk u
  Registers-IsSound ctx msg s u user v p n is_n positive =
      let rec = new_asset sdk ctx msg p.bond in
      let eff =
        lock_bond-Effect sdk w p.issuer n s p.locked (user p.issuer p.issuer_is)
          (subst (λ b. lock_bond sdk p.issuer b s ≡ ok p.locked) is_n p.locks) in
      let st = set_asset-Stored sdk rec p.locked p.stored p.stores in
      let tracked : Tracks sdk (get_asset msg.asset_id s)
          (s.bank.supply (build_denom msg.asset_id)) =
        v.tracked msg.asset_id in
      let none_yet : s.bank.supply (build_denom msg.asset_id) ≡ 0 =
        subst (λ o. Tracks sdk o (s.bank.supply (build_denom msg.asset_id))) p.fresh tracked in
      let supply : p.locked.bank.supply (build_denom msg.asset_id) ≡ 0 =
        omega (arith, eff.supplied (build_denom msg.asset_id), none_yet) in
      let holds : locked sdk rec ≡ nat_of (some p.bond) =
        new_asset-locked sdk ctx msg p.bond (w.ints.parse-print p.bond) in
      let holds_n : locked sdk rec ≡ n = subst (λ b. locked sdk rec ≡ nat_of (some b)) is_n holds in
      let sound =
        Stored-IsSound sdk msg.asset_id rec s p.locked p.stored n 0 nothing nothing v eff st
          (record {
            named = refl;
            denoted = refl;
            bond = n;
            bonded =
                subst (λ b. sdk.parse_int (sdk.print_int p.bond) ≡ some b) is_n
                  (w.ints.parse-print p.bond);
            bond_pos = λ _. positive;
            minted = 0;
            counted = w.ints.parse-print (pos 0);
            premint = λ _. refl;
          })
          (omega (arith, holds_n)) (λ j ne. (refl, refl))
          (λ _. rw supply (w.ints.parse-print (pos 0))) in
      subst (λ x. IsSound sdk x) (sym p.result) (emit-IsSound sdk _ p.stored sound)

  -- A registration keeps the books: the new asset's bond is in escrow, and it has no tokens.
  pub register_asset-IsSound :
      (ctx : Context) (msg : MsgRegisterAsset) (s u : State)
      → IsUser sdk msg.issuer
      → IsSound sdk s
      → register_asset sdk ctx msg s ≡ ok u
      → IsSound sdk u
  register_asset-IsSound ctx msg s u user v h =
      let p = register_asset-ok sdk ctx msg s u h in
      let (n, is_n, positive) =
        is_positive-pos p.bond (basic_register-bond sdk msg p.bond p.basic p.bond_is) in
      Registers-IsSound ctx msg s u user v p n is_n positive

  Attests-IsSound :
      (ctx : Context) (msg : MsgAttestAsset) (s u : State)
      → IsSound sdk s
      → Attests sdk ctx msg s u
      → IsSound sdk u
  Attests-IsSound ctx msg s u v p =
      let id = msg.asset_id in
      let rec' = attested_asset sdk ctx p.price p.rec in
      let old = v.records id p.rec p.by_issuer.found in
      let was_open = draft-open p.rec.status p.was_draft in
      let sound =
        Stored-IsSound sdk id rec' s s p.stored 0 0 nothing nothing v (stays sdk w s)
          (set_asset-Stored sdk rec' s p.stored p.stores)
          (record {
            named = old.named;
            denoted = old.denoted;
            bond = old.bond;
            bonded = old.bonded;
            bond_pos = λ _. old.bond_pos was_open;
            minted = old.minted;
            counted = old.counted;
            premint = λ _. old.premint (rw p.was_draft refl);
          })
          (rw p.by_issuer.found (omega (arith, locked-open sdk p.rec was_open)))
          (λ j ne. (refl, refl)) (λ _. tracked-open sdk s id p.rec v p.by_issuer.found was_open) in
      subst (λ x. IsSound sdk x) (sym p.result) (emit-IsSound sdk _ p.stored sound)

  pub attest_asset-IsSound :
      (ctx : Context) (msg : MsgAttestAsset) (s u : State)
      → IsSound sdk s
      → attest_asset sdk ctx msg s ≡ ok u
      → IsSound sdk u
  attest_asset-IsSound ctx msg s u v h =
      Attests-IsSound ctx msg s u v (attest_asset-ok sdk ctx msg s u h)

  -- Changing the lists leaves the registry and the bank alone.
  pub apply_list-books :
      (f : Bytes → Bytes → State → State)
      → ((id a : Bytes) (s : State) → ((f id a s).assets ≡ s.assets) × ((f id a s).bank ≡ s.bank))
      → (id : Bytes) (list : List Bytes) (s u : State) → apply_list sdk f id list s ≡ ok u
      → (u.assets ≡ s.assets) × (u.bank ≡ s.bank)
  unfolding apply_list
  apply_list-books f keeps id [] s u h = ground arith
  apply_list-books f keeps id (x ∷ list) s u h =
      let (a, e, h₁) = or_err-then (sdk.acc_address x) invalid_address _ h in
      let (ka, kb) = apply_list-books f keeps id list (f id a s) u h₁ in
      let (fa, fb) = keeps id a s in (ka ∙ fa, kb ∙ fb)

  Restricts-IsSound :
      (msg : MsgUpdateRestrictions) (s u : State)
      → IsSound sdk s
      → Restricts sdk msg s u
      → IsSound sdk u
  Restricts-IsSound msg s u v p =
      let id = msg.asset_id in
      let (a₁, b₁) =
        apply_list-books add_allowlist (λ _ _ _. (refl, refl)) id msg.add_allow s p.s₁
          p.adds_allow in
      let (a₂, b₂) =
        apply_list-books del_allowlist (λ _ _ _. (refl, refl)) id msg.del_allow p.s₁ p.s₂
          p.dels_allow in
      let (a₃, b₃) =
        apply_list-books add_denylist (λ _ _ _. (refl, refl)) id msg.add_deny p.s₂ p.s₃
          p.adds_deny in
      let (a₄, b₄) =
        apply_list-books del_denylist (λ _ _ _. (refl, refl)) id msg.del_deny p.s₃ p.s₄
          p.dels_deny in
      let assets : p.s₄.assets ≡ s.assets = a₄ ∙ (a₃ ∙ (a₂ ∙ a₁)) in
      let v₄ = IsSound-same sdk s p.s₄ assets (b₄ ∙ (b₃ ∙ (b₂ ∙ b₁))) v in
      let found : get_asset id p.s₄ ≡ some p.rec = rw assets p.by_issuer.found in
      let rec' : AssetRecord = record p.rec { allow_all = msg.allow_all } in
      let old = v₄.records id p.rec found in
      let sound =
        Stored-IsSound sdk id rec' p.s₄ p.s₄ p.stored 0 0 nothing nothing v₄ (stays sdk w p.s₄)
          (set_asset-Stored sdk rec' p.s₄ p.stored p.stores)
          (record {
            named = old.named;
            denoted = old.denoted;
            bond = old.bond;
            bonded = old.bonded;
            bond_pos = old.bond_pos;
            minted = old.minted;
            counted = old.counted;
            premint = old.premint;
          })
          (rw found (omega arith)) (λ j ne. (refl, refl))
          (λ _. tracked-open sdk p.s₄ id p.rec v₄ found p.not_settled) in
      subst (λ x. IsSound sdk x) (sym p.result) (emit-IsSound sdk _ p.stored sound)

  pub update_restrictions-IsSound :
      (msg : MsgUpdateRestrictions) (s u : State)
      → IsSound sdk s
      → update_restrictions sdk msg s ≡ ok u
      → IsSound sdk u
  update_restrictions-IsSound msg s u v h =
      Restricts-IsSound msg s u v (update_restrictions-ok sdk msg s u h)
