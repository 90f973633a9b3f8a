-- ===== src/Rwa/Sound/Chain.antt =====
-- The life of x/rwa: its messages, in any order, between what the rest of the chain does to the
-- bank.
use vertix.Base.{◌≤◌, ◌≡◌, refl, subst, false, none, some, [], arith}
use vertix.Base.Bytes.{Bytes, beq}
use vertix.Base.Int.{pos}
use vertix.Base.Map.{sum_map, lookup}
use vertix.Base.Results.{ok, returned, guard-then, check-then, >>=-eq-ok}
use vertix.Sdk.{Sdk, Bank}
use vertix.Rwa.Types.{AssetRecord, RwaParams, invalid_signer, validate_params}
use vertix.Rwa.Keys.{build_denom}
use vertix.Rwa.Messages.{
  MsgRegisterAsset, MsgAttestAsset, MsgMintRwa, MsgTransferRwa, MsgSettleRwa, MsgUpdateRestrictions,
  MsgSlashBond, MsgUpdateParams, basic_update_params,
}
use vertix.Rwa.Keeper.{State, Context, get_asset, params_updated, set_params}
use vertix.Rwa.Server.{update_params}
use vertix.Rwa.Server.Register.{register_asset, attest_asset, update_restrictions, is_settled}
use vertix.Rwa.Server.Tokens.{mint_rwa, transfer_rwa}
use vertix.Rwa.Server.Closing.{settle_rwa, slash_bond}
use vertix.Rwa.Funds.Effect.{Setting, escrow}
use vertix.Rwa.Invariants.{bond_invariant, denom_invariant}
use package.vertix.Rwa.Sound.{IsSound, Tracks, locked}
use package.vertix.Rwa.Sound.Crisis.{bond_invariant-holds, denom_invariant-holds}
use package.vertix.Rwa.Sound.Handlers.{IsUser, IsSound-same, emit-IsSound, tracked-open}
use package.vertix.Rwa.Sound.Handlers.Opening.{
  register_asset-IsSound, attest_asset-IsSound, update_restrictions-IsSound,
}
use package.vertix.Rwa.Sound.Handlers.Minting.{mint_rwa-IsSound, transfer_rwa-IsSound}
use package.vertix.Rwa.Sound.Handlers.Ending.{settle_rwa-books, slash_bond-IsSound}

module _ (sdk : Sdk) (authority : Bytes) where
  -- A message that is delivered, or a change of the bank that neither takes from the escrow nor
  -- creates or burns an asset's token.
  pub data Step : State → State → Type 0 where
    register :
        {s u : State} (ctx : Context) (msg : MsgRegisterAsset)
        → IsUser sdk msg.issuer
        → register_asset sdk ctx msg s ≡ ok u
        → Step s u
    attest :
        {s u : State} (ctx : Context) (msg : MsgAttestAsset)
        → attest_asset sdk ctx msg s ≡ ok u
        → Step s u
    mint :
        {s u : State} (msg : MsgMintRwa)
        → IsUser sdk msg.issuer
        → mint_rwa sdk msg s ≡ ok u
        → Step s u
    transfer : {s u : State} (msg : MsgTransferRwa) → transfer_rwa sdk msg s ≡ ok u → Step s u
    settle :
        {s u : State} (ctx : Context) (msg : MsgSettleRwa)
        → IsUser sdk msg.issuer
        → settle_rwa sdk ctx msg s ≡ ok u
        → Step s u
    restrict :
        {s u : State} (msg : MsgUpdateRestrictions)
        → update_restrictions sdk msg s ≡ ok u
        → Step s u
    slash :
        {s u : State} (ctx : Context) (msg : MsgSlashBond)
        → slash_bond sdk ctx authority msg s ≡ ok u
        → Step s u
    set :
        {s u : State} (msg : MsgUpdateParams) → update_params sdk authority msg s ≡ ok u → Step s u
    outside :
        {s : State} (b : Bank)
        → ((id : Bytes) → b.supply (build_denom id) ≡ s.bank.supply (build_denom id))
        → escrow sdk s ≤ escrow sdk (record s { bank = b })
        → Step s (record s { bank = b })

  pub data Reach (s : State) : State → Type 0 where
    here : Reach s s
    next : {t u : State} → Reach s t → Step t u → Reach s u

-- A chain on which no asset has been registered.
pub record IsFresh (s : State) : Type 0 where
  pub no_asset : s.assets ≡ []
  pub no_token : (id : Bytes) → s.bank.supply (build_denom id) ≡ 0

pub set_params-books :
    (sdk : Sdk) (p : RwaParams) (s t : State)
    → set_params sdk p s ≡ ok t
    → (t.assets ≡ s.assets) × (t.bank ≡ s.bank)
unfolding set_params
set_params-books sdk p s t h =
    let (good, h₁) = check-then (validate_params sdk p) _ h in rw (returned h₁) (refl, refl)

pub update_params-IsSound :
    (sdk : Sdk) (authority : Bytes) (msg : MsgUpdateParams) (s u : State)
    → IsSound sdk s
    → update_params sdk authority msg s ≡ ok u
    → IsSound sdk u
unfolding update_params
update_params-IsSound sdk authority msg s u v h =
    let (same, h₁) = guard-then (beq authority msg.authority) invalid_signer _ h in
    let (basic, h₂) = check-then (basic_update_params sdk msg) _ h₁ in
    let (t, sets, h₃) = >>=-eq-ok (set_params sdk msg.params s) _ h₂ in
    let (assets, bank) = set_params-books sdk msg.params s t sets in
    rw (returned h₃) (emit-IsSound sdk params_updated t (IsSound-same sdk s t assets bank v))

pub IsFresh-IsSound : (sdk : Sdk) (s : State) → IsFresh s → IsSound sdk s
unfolding lookup sum_map
IsFresh-IsSound sdk s f = record {
  sorted = rw f.no_asset tt;
  records = λ id rec e. absurd (ground (arith, e, f.no_asset));
  entries = rw f.no_asset tt;
  covered = rw f.no_asset (omega arith);
  tracked = λ id. rw f.no_asset (f.no_token id);
}

module _ (sdk : Sdk) (w : Setting sdk) (authority : Bytes) where
  pub Step-IsSound : {s u : State} → Step sdk authority s u → IsSound sdk s → IsSound sdk u
  Step-IsSound {s = s} {u = u} (register ctx msg user e) v =
      register_asset-IsSound sdk w ctx msg s u user v e
  Step-IsSound {s = s} {u = u} (attest ctx msg e) v = attest_asset-IsSound sdk w ctx msg s u v e
  Step-IsSound {s = s} {u = u} (mint msg user e) v = mint_rwa-IsSound sdk w msg s u user v e
  Step-IsSound {s = s} {u = u} (transfer msg e) v = transfer_rwa-IsSound sdk w msg s u v e
  Step-IsSound {s = s} {u = u} (settle ctx msg user e) v =
      (settle_rwa-books sdk w ctx msg s u user v e).0
  Step-IsSound {s = s} {u = u} (restrict msg e) v = update_restrictions-IsSound sdk w msg s u v e
  Step-IsSound {s = s} {u = u} (slash ctx msg e) v =
      slash_bond-IsSound sdk w ctx authority msg s u v e
  Step-IsSound {s = s} {u = u} (set msg e) v = update_params-IsSound sdk authority msg s u v e
  Step-IsSound {s = s} (outside b supplies more) v = record {
    sorted = v.sorted;
    records = v.records;
    entries = v.entries;
    covered = omega (arith, v.covered, more);
    tracked = λ id. rw (supplies id) (v.tracked id);
  }

  pub Reach-IsSound : {s u : State} → Reach sdk authority s u → IsSound sdk s → IsSound sdk u
  Reach-IsSound here v = v
  Reach-IsSound (next r st) v = Step-IsSound st (Reach-IsSound r v)

  -- From a chain on which no asset has been registered, after any messages, none of them signed
  -- by the module account where it moves a bond or tokens, and any bank activity outside that
  -- keeps the tokens' supplies and does not take from the escrow: the escrow is at least the sum
  -- of the bonds of the assets that are not settled, the two crisis invariants are evaluated
  -- without a panic and neither is broken.
  pub escrow_covers_bonds :
      (s u : State)
      → IsFresh s
      → Reach sdk authority s u
      → (sum_map (locked sdk) u.assets ≤ escrow sdk u)
        × (bond_invariant sdk u ≡ some false)
        × (denom_invariant u ≡ false)
  escrow_covers_bonds s u fresh r =
      let v = Reach-IsSound r (IsFresh-IsSound sdk s fresh) in
      (v.covered, bond_invariant-holds sdk u v, denom_invariant-holds sdk u v)

  -- Under the same conditions, of every reachable state and every asset id: while no asset has the
  -- id, its token has no supply; an asset that has it and is not settled has the denom of the id,
  -- and the notional minted that its record says is the supply of that denom.
  pub supply_tracks_notional :
      (s u : State) (id : Bytes)
      → IsFresh s
      → Reach sdk authority s u
      → (get_asset id u ≡ none → u.bank.supply (build_denom id) ≡ 0)
        × ((rec : AssetRecord)
            → get_asset id u ≡ some rec
            → is_settled rec.status ≡ false
            → (rec.denom ≡ build_denom id)
              × (sdk.parse_int rec.notional_minted ≡ some (pos (u.bank.supply (build_denom id)))))
  supply_tracks_notional s u id fresh r =
      let v = Reach-IsSound r (IsFresh-IsSound sdk s fresh) in
      (
        λ none_yet.
            subst (λ o. Tracks sdk o (u.bank.supply (build_denom id))) none_yet (v.tracked id),
        λ rec found still_open.
            ((v.records id rec found).denoted, tracked-open sdk u id rec v found still_open),
      )
