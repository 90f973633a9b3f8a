-- ===== src/Fees/Keeper/Update.antt =====
-- The parameter update of x/fees: who may make it, and what it changes.
use vertix.Base.{◌≡◌, ◌↔◌, true, some, arith, Option-cases, inl, inr}
use vertix.Base.Bytes.{Bytes, beq, beq→eq, beq_refl}
use vertix.Base.Results.{ok}
use vertix.Sdk.{Sdk}
use vertix.Fees.Params.{validate}
use package.vertix.Fees.Keeper.{
  State, MsgUpdateParams, set_params, update_params, emit, params_updated,
}

-- What an update has to meet.
pub record MayUpdate (sdk : Sdk) (authority : Bytes) (msg : MsgUpdateParams) : Type 0 where
  pub signer : (a : Bytes) × (sdk.acc_address msg.authority ≡ some a)
  pub by_authority : msg.authority ≡ authority
  pub accepted : validate sdk msg.params ≡ ok tt

-- The state after an update.
abbrev pub updated : MsgUpdateParams → State → State
updated msg s =
    emit (params_updated msg.params.burn_ratio msg.params.distribution_ratio)
      (record s { params = some msg.params })

module _ (sdk : Sdk) (authority : Bytes) (msg : MsgUpdateParams) (s : State) where
  update_params_sound :
      (s' : State)
      → update_params sdk authority msg s ≡ ok s'
      → MayUpdate sdk authority msg × (s' ≡ updated msg s)
  unfolding update_params set_params
  update_params_sound s' h = elim (Option-cases (sdk.acc_address msg.authority)) [
    | inl bad ↦ absurd (ground arith)
    | inr (a, ea) ↦ (
      record {
        signer = (a, ea);
        by_authority = beq→eq msg.authority authority (ground arith);
        accepted = ground arith;
      },
      ground arith,
    )
  ]

  update_params_complete :
      MayUpdate sdk authority msg → update_params sdk authority msg s ≡ ok (updated msg s)
  unfolding update_params set_params
  update_params_complete m =
      let same : beq msg.authority authority ≡ true = rw m.by_authority (beq_refl authority) in
      ground (arith, m.signer.1, m.accepted, same)

  -- An update succeeds exactly when it is signed by the keeper's authority and its parameters are
  -- accepted. It then stores them and emits one event, and leaves the bank, the genesis supply
  -- and the counter alone.
  pub update_params_iff :
      (s' : State)
      → (update_params sdk authority msg s ≡ ok s')
        ↔ (MayUpdate sdk authority msg × (s' ≡ updated msg s))
  update_params_iff s' = (update_params_sound s', λ (m, e). rw e (update_params_complete m))
