-- ===== src/Rwa/Sound/Lifecycle.antt =====
-- The life of one asset: which of its fields the messages may change, and in which order its
-- status moves.
pub mod Steps
pub mod Final
use vertix.Base.{
  ℕ, ◌≤◌, ◌≡◌, refl, sym, subst, ◌∙◌, Bool, true, false, ◌||◌, Option, none, some, List, [], ◌∷◌,
  if◌then◌else◌, arith, Option-cases, Bool-cases, inl, inr,
}
use vertix.Base.Bytes.{Bytes, beq, beq→eq}
use vertix.Base.Int.{ℤ, pos, negsuc, is_positive}
use vertix.Base.Map.{Map, lookup}
use vertix.Base.Results.{Result, ok, err, >>=-eq-ok, or_err-then}
use vertix.Sdk.{Sdk, Bank, Coins, new_coins, fee_collector_name}
use vertix.Rwa.Types.{
  RwaError, AssetRecord, bond_denom, module_name, AssetStatus, unspecified, draft, attested, active,
  settled, panicked,
}
use vertix.Rwa.Keeper.{State, Context, get_asset, set_asset, emit}
use vertix.Rwa.Funds.{with_bank, lock_bond, release_bond, slash_bond_to_community_pool, collect_fee}
use vertix.Rwa.Funds.Effect.{with_bank-ok}
use vertix.Rwa.Restriction.{send_restriction}
use vertix.Rwa.Server.Tokens.{mint_out}
use vertix.Rwa.Server.Closing.{burn_back}
use vertix.Rwa.Server.Register.{is_draft, is_attested, is_active, is_settled}
use package.vertix.Rwa.Sound.Handlers.{draft-open, active-open, mintable-open}
use package.vertix.Rwa.Sound.Store.{Stored, get_asset-Stored, set_asset-Stored}

-- How far an asset has come.
abbrev pub rank : AssetStatus → ℕ
rank unspecified = 0
rank draft = 1
rank attested = 2
rank active = 3
rank settled = 4

-- What may become of a registered asset.
pub record Follows (rec rec' : AssetRecord) : Type 0 where
  pub issuer_kept : rec'.issuer ≡ rec.issuer
  pub denom_kept : rec'.denom ≡ rec.denom
  pub pair_kept : rec'.oracle_pair ≡ rec.oracle_pair
  pub created_kept : rec'.created_at ≡ rec.created_at
  pub forward : rank rec.status ≤ rank rec'.status
  pub final : is_settled rec.status ≡ true → rec' ≡ rec

abbrev pub Continues : Option AssetRecord → Option AssetRecord → Type 0
Continues none o = Unit
Continues (some rec) o = (rec' : AssetRecord) × (o ≡ some rec') × Follows rec rec'

pub with_bank-assets : (o : Option Bank) (s t : State) → with_bank o s ≡ ok t → t.assets ≡ s.assets
with_bank-assets o s t h = let (b, e, same) = with_bank-ok o s t h in rw same refl

module _ (sdk : Sdk) where
  pub lock_bond-assets :
      (a : Bytes) (n : ℤ) (s t : State) → lock_bond sdk a n s ≡ ok t → t.assets ≡ s.assets
  unfolding lock_bond
  lock_bond-assets a n s t h =
      let (cs, e, h₁) = or_err-then (new_coins bond_denom n) panicked _ h in
      with_bank-assets _ s t h₁

  pub release_bond-assets :
      (a : Bytes) (n : ℤ) (s t : State) → release_bond sdk a n s ≡ ok t → t.assets ≡ s.assets
  unfolding release_bond
  release_bond-assets a n s t h =
      let (cs, e, h₁) = or_err-then (new_coins bond_denom n) panicked _ h in
      with_bank-assets _ s t h₁

  pub slash-assets :
      (n : ℤ) (s t : State) → slash_bond_to_community_pool sdk n s ≡ ok t → t.assets ≡ s.assets
  unfolding slash_bond_to_community_pool
  slash-assets n s t h =
      let (cs, e, h₁) = or_err-then (new_coins bond_denom n) panicked _ h in
      with_bank-assets _ s t h₁

  pub collect_fee-assets :
      (a : Bytes) (n : ℤ) (s t : State) → collect_fee sdk a n s ≡ ok t → t.assets ≡ s.assets
  unfolding collect_fee
  collect_fee-assets a n s t h = elim (Bool-cases (is_positive n)) [
    | inl positive ↦ elim (Option-cases (new_coins bond_denom n)) [
      | inl bad ↦ absurd (ground arith)
      | inr (cs, e) ↦
          with_bank-assets
            (sdk.account_to_module (send_restriction sdk s) s.bank a fee_collector_name cs) s t
            (ground arith)
    ]
    | inr free ↦ ground arith
  ]

  pub mint_out-assets :
      (a : Bytes) (cs : Coins) (s t : State) → mint_out sdk a cs s ≡ ok t → t.assets ≡ s.assets
  unfolding mint_out
  mint_out-assets a cs s t h =
      let (s₁, h₁, h₂) = >>=-eq-ok (with_bank (sdk.mint_coins s.bank module_name cs) s) _ h in
      with_bank-assets _ s₁ t h₂ ∙ with_bank-assets _ s s₁ h₁

  pub burn_back-assets :
      (a : Bytes) (cs : Coins) (s t : State) → burn_back sdk a cs s ≡ ok t → t.assets ≡ s.assets
  unfolding burn_back
  burn_back-assets a cs s t h =
      let (s₁, h₁, h₂) =
        >>=-eq-ok
          (with_bank (sdk.account_to_module (send_restriction sdk s) s.bank a module_name cs) s) _
          h in
      with_bank-assets _ s₁ t h₂ ∙ with_bank-assets _ s s₁ h₁

pub Follows-refl : (rec : AssetRecord) → Follows rec rec
Follows-refl rec = record {
  issuer_kept = refl;
  denom_kept = refl;
  pair_kept = refl;
  created_kept = refl;
  forward = omega arith;
  final = λ h. refl;
}

pub Continues-refl : (o : Option AssetRecord) → Continues o o
Continues-refl none = tt
Continues-refl (some rec) = (rec, refl, Follows-refl rec)

-- One record is written; the bank does not count.
pub Stored-Continues :
    (id : Bytes) (rec' : AssetRecord) (s t u : State)
    → rec'.asset_id ≡ id
    → t.assets ≡ s.assets
    → Stored rec' t u
    → Continues (get_asset id s) (some rec')
    → (j : Bytes) → Continues (get_asset j s) (get_asset j u)
Stored-Continues id rec' s t u named same st c j =
    let found : get_asset j u ≡ (if beq j id then some rec' else get_asset j s) =
      rw (get_asset-Stored rec' t u j st) (rw named (rw same refl)) in
    elim (Bool-cases (beq j id)) [
      | inl here ↦
          let e : get_asset j u ≡ some rec' = ground (arith, found) in
          subst (λ o. Continues (get_asset j s) o) (sym e)
            (subst (λ i. Continues (get_asset i s) (some rec')) (sym (beq→eq j id here)) c)
      | inr apart ↦
          let e : get_asset j u ≡ get_asset j s = ground (arith, found) in
          subst (λ o. Continues (get_asset j s) o) (sym e) (Continues-refl (get_asset j s))
    ]
