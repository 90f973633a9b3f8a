-- ===== src/Rwa/Restriction/Policy.antt =====
-- The transfer policy of an asset, and the send restriction that enforces it on the bank.
use vertix.Base.{
  ◌≡◌, refl, ◌≢◌, ◌⊎◌, ◌↔◌, true, false, ◌||◌, some, [], ◌∷◌, arith, Bool-cases, Option-cases, inl,
  inr, All,
}
use vertix.Base.Bytes.{Bytes, beq, beq_iff}
use vertix.Base.Results.{Result, ok, err}
use vertix.Sdk.{Sdk, Coins}
use vertix.Rwa.Types.{RwaError, AssetRecord}
use vertix.Rwa.Keys.{build_denom, parse_rwa_denom}
use vertix.Rwa.Keys.Denoms.{parse_rwa_denom_iff}
use vertix.Rwa.Keeper.{State, get_asset}
use package.vertix.Rwa.Restriction.{
  check_policy, check_transfer_allowed, coin_allowed, send_restriction, module_account,
  is_allowlisted, is_denylisted,
}
use package.vertix.Rwa.Restriction.Passing.{
  send_restriction_keeps, EachAllowed, send_restriction_sound, send_restriction_complete,
}

-- What the policy of an asset asks of the two parties of a transfer.
pub record Permits (rec : AssetRecord) (id from to : Bytes) (s : State) : Type 0 where
  pub listed :
      rec.allow_all ≡ false → (is_allowlisted id from s ≡ true) × (is_allowlisted id to s ≡ true)
  pub sender_clear : is_denylisted id from s ≡ false
  pub recipient_clear : is_denylisted id to s ≡ false

pub policy_iff :
    (rec : AssetRecord) (id from to : Bytes) (s : State)
    → (check_policy rec id from to s ≡ ok tt) ↔ Permits rec id from to s
unfolding check_policy
policy_iff rec id from to s = (
  λ h. record {
    listed = λ e. (ground arith, ground arith);
    sender_clear = ground arith;
    recipient_clear = ground arith;
  },
  λ p. elim (Bool-cases rec.allow_all) [
    | inl free ↦ ground (arith, p.sender_clear, p.recipient_clear)
    | inr closed ↦ ground (arith, p.listed closed, p.sender_clear, p.recipient_clear)
  ],
)

is_ok : (r : Result RwaError (Unit {0})) → elim r [ ok _ ↦ true | err _ ↦ false ] ≡ true → r ≡ ok tt
is_ok (ok u) h = refl
is_ok (err e) h = cc

module _ (sdk : Sdk) (s : State) where
  -- A transfer that the module lets through.
  abbrev pub MayTransfer : Bytes → Bytes → Bytes → Type 0
  MayTransfer id from to =
      ((from ≡ module_account sdk) ⊎ (to ≡ module_account sdk))
      ⊎ ((rec : AssetRecord) × (get_asset id s ≡ some rec) × Permits rec id from to s)

  pub check_transfer_allowed_iff :
      (id from to : Bytes)
      → (check_transfer_allowed sdk s id from to ≡ ok tt) ↔ MayTransfer id from to
  unfolding check_transfer_allowed
  check_transfer_allowed_iff id from to = (
    λ h. elim (Bool-cases (beq from (module_account sdk) || beq to (module_account sdk))) [
      | inl exempt ↦
          inl (ground (arith, beq_iff from (module_account sdk), beq_iff to (module_account sdk)))
      | inr users ↦ elim (Option-cases (get_asset id s)) [
        | inl missing ↦ absurd (ground arith)
        | inr (rec, found) ↦ inr (rec, found, (policy_iff rec id from to s).0 (ground arith))
      ]
    ],
    elim [
      | inl exempt ↦
          ground (arith, beq_iff from (module_account sdk), beq_iff to (module_account sdk))
      | inr (rec, found, p) ↦
          elim (Bool-cases (beq from (module_account sdk) || beq to (module_account sdk))) [
            | inl exempt ↦ ground arith
            | inr users ↦ ground (arith, (policy_iff rec id from to s).1 p)
          ]
    ],
  )

  coin_allowed_iff :
      (from to d : Bytes)
      → (coin_allowed sdk s from to d ≡ true)
        ↔ ((id : Bytes) → id ≢ [] → d ≡ build_denom id → MayTransfer id from to)
  unfolding coin_allowed
  coin_allowed_iff from to d = (
    λ h id ne e.
        let parsed : parse_rwa_denom d ≡ some id = (parse_rwa_denom_iff d id).1 (e, ne) in
        (check_transfer_allowed_iff id from to).0
          (is_ok (check_transfer_allowed sdk s id from to) (ground (arith, parsed, h))),
    λ may. elim (Option-cases (parse_rwa_denom d)) [
      | inl other ↦ ground arith
      | inr (id, parsed) ↦
          let (e, ne) = (parse_rwa_denom_iff d id).0 parsed in
          ground (arith, parsed, (check_transfer_allowed_iff id from to).1 (may id ne e))
    ],
  )

  -- Every coin that is a token may be transferred.
  abbrev pub EachMay : Bytes → Bytes → Coins → Type 0
  EachMay from to cs =
      All (λ c. (id : Bytes) → id ≢ [] → c.denom ≡ build_denom id → MayTransfer id from to) cs

  each-may : (from to : Bytes) (cs : Coins) → EachAllowed sdk s from to cs → EachMay from to cs
  each-may from to [] a = tt
  each-may from to (c ∷ cs) (h, a) = ((coin_allowed_iff from to c.denom).0 h, each-may from to cs a)

  may-each : (from to : Bytes) (cs : Coins) → EachMay from to cs → EachAllowed sdk s from to cs
  may-each from to [] a = tt
  may-each from to (c ∷ cs) (h, a) = ((coin_allowed_iff from to c.denom).1 h, may-each from to cs a)

  -- A send passes the restriction exactly when, for each of its coins that is the token of an
  -- asset, a party is the module account, or the asset is registered, neither party is denylisted
  -- and, unless the asset allows all, both parties are allowlisted. It is never redirected.
  pub send_restriction_iff :
      (from to : Bytes) (cs : Coins) (to' : Bytes)
      → (send_restriction sdk s from to cs ≡ some to') ↔ ((to' ≡ to) × EachMay from to cs)
  send_restriction_iff from to cs to' = (
    λ h. (
      send_restriction_keeps sdk s from to cs to' h,
      each-may from to cs (send_restriction_sound sdk s from to cs to' h),
    ),
    λ (same, may). rw same (send_restriction_complete sdk s from to cs (may-each from to cs may)),
  )
