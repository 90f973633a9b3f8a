-- ===== src/Oracle/Genesis/Feeders.antt =====
-- x/oracle/keeper/genesis.go: the delegations, written out and read in.
use vertix.Base.{
  ◌≡◌, refl, sym, subst, ◌∙◌, some, List, [], ◌∷◌, if◌then◌else◌, All, arith, Bool-cases,
  Option-cases, inl, inr,
}
use vertix.Base.Bytes.{Bytes, beq, beq_refl, beq→eq, beq_iff}
use vertix.Base.Results.{Result, ok, err, or_err-some, >>=-ok}
use vertix.Base.Entries.{has_key}
use vertix.Sdk.{Sdk, AddressLaws, IsAddress}
use vertix.Oracle.Types.{OracleError}
use vertix.Oracle.Keeper.{State, Context}
use vertix.Oracle.Feeder.{bind_feeder, set_feeder_delegation, get_feeder_for_validator}
use vertix.Oracle.Feeder.Binding.{
  validator_of, IsBound, feeder-bind, validator-bind, set_feeder_delegation-binds,
  delegations-apart,
}
use package.vertix.Oracle.Genesis.{
  FeederDelegation, lift, bad_validator, bad_feeder, check_validator, set_feeders,
}

pub lift-ok {ℓ} : {A : Type ℓ} (r : Result OracleError A) (a : A) → lift r ≡ ok a → r ≡ ok a
lift-ok (ok b) a h = ground arith
lift-ok (err e) a h = cc

-- The name of a delegation's validator.
abbrev pub validator_name : FeederDelegation → Bytes
validator_name fd = fd.validator

-- A delegation that stands in the store, of a validator that the staking keeper knows.
pub record IsOf (sdk : Sdk) (ctx : Context) (s : State) (fd : FeederDelegation) : Type 0 where
  pub val : Bytes
  pub feeder : Bytes
  pub named : fd.validator ≡ sdk.val_string val
  pub val_valid : IsAddress val
  pub val_read : sdk.val_address fd.validator ≡ some val
  pub feeder_read : sdk.acc_address fd.feeder ≡ some feeder
  pub delegated : get_feeder_for_validator val s ≡ some feeder
  pub known : check_validator ctx.staking val ≡ ok tt

-- The accounts of one store are bound as another has delegated to them, to validator addresses.
abbrev pub IsWithin : State → State → Type 0
IsWithin s t =
    (f v : Bytes)
    → validator_of f t ≡ some v
    → IsAddress v × (get_feeder_for_validator v s ≡ some f)

-- What reading the delegations has done.
pub record Delegated (sdk : Sdk) (fds : List FeederDelegation) (s t u : State) : Type 0 where
  pub bound : IsBound u
  pub within : IsWithin s u
  pub feeders :
      (v : Bytes)
      → IsAddress v
      → get_feeder_for_validator v u ≡ (
          if has_key validator_name (sdk.val_string v) fds
          then get_feeder_for_validator v s
          else get_feeder_for_validator v t)
  pub params_kept : u.params ≡ t.params
  pub prices_kept : u.prices ≡ t.prices

pub val_string_inj :
    (sdk : Sdk) (v w : Bytes)
    → AddressLaws sdk
    → IsAddress v
    → IsAddress w
    → beq (sdk.val_string v) (sdk.val_string w) ≡ beq v w
val_string_inj sdk v w laws av aw = elim (Bool-cases (beq v w)) [
  | inl same ↦ rw (beq→eq v w same) (beq_refl (sdk.val_string w) ∙ sym (beq_refl w))
  | inr apart ↦ elim (Bool-cases (beq (sdk.val_string v) (sdk.val_string w))) [
    | inl same ↦
        let e : sdk.val_address (sdk.val_string v) ≡ some w =
          rw (beq→eq (sdk.val_string v) (sdk.val_string w) same) (laws.val_round w aw) in
        ground (arith, e, laws.val_round v av, beq_iff v w)
    | inr other ↦ ground arith
  ]
]

-- An account that is free, or bound to its own validator, is bound again.
delegation_again :
    (s t : State) (v f : Bytes)
    → IsBound s
    → IsWithin s t
    → get_feeder_for_validator v s ≡ some f
    → set_feeder_delegation v f t ≡ ok (bind_feeder v f t)
unfolding set_feeder_delegation
delegation_again s t v f bound within e = elim (Option-cases (validator_of f t)) [
  | inl free ↦ rw (free, set_feeder_delegation) refl
  | inr (w, old) ↦
      let same : w ≡ v = delegations-apart s w v f bound (within f w old).1 e in
      rw (old, set_feeder_delegation) (rw (same, beq_refl v) refl)
]

bind-IsWithin :
    (s t : State) (v f : Bytes)
    → IsWithin s t
    → IsAddress v
    → get_feeder_for_validator v s ≡ some f
    → IsWithin s (bind_feeder v f t)
bind-IsWithin s t v f within av e g w h = elim (Bool-cases (beq g f)) [
  | inl same ↦
      let is_v : v ≡ w = ground (arith, validator-bind v f t g) in
      rw (beq→eq g f same)
        (subst (λ x. IsAddress x × (get_feeder_for_validator x s ≡ some f)) is_v (av, e))
  | inr apart ↦ within g w (ground (arith, validator-bind v f t g))
]

module _ (sdk : Sdk) (laws : AddressLaws sdk) (ctx : Context) (s : State) (bound : IsBound s) where
  feeders_next :
      (fd : FeederDelegation) (fds : List FeederDelegation) (t u : State) (v : Bytes)
      → (o : IsOf sdk ctx s fd) → IsAddress v
      → Delegated sdk fds s (bind_feeder o.val o.feeder t) u
      → get_feeder_for_validator v u ≡ (
          if has_key validator_name (sdk.val_string v) (fd ∷ fds)
          then get_feeder_for_validator v s
          else get_feeder_for_validator v t)
  unfolding has_key
  feeders_next fd fds t u v o av d =
      let name : beq (sdk.val_string v) fd.validator ≡ beq v o.val =
        rw o.named (val_string_inj sdk v o.val laws av o.val_valid) in
      let read = d.feeders v av in
      let first = feeder-bind o.val o.feeder t v in
      elim (Bool-cases (beq v o.val)) [
        | inl same ↦
            let here : get_feeder_for_validator v s ≡ some o.feeder =
              rw (beq→eq v o.val same) o.delegated in
            ground arith
        | inr apart ↦ ground arith
      ]

  pub set_feeders-Delegated :
      (fds : List FeederDelegation) (t : State)
      → All (IsOf sdk ctx s) fds
      → IsBound t
      → IsWithin s t
      → (u : State) × (set_feeders sdk ctx fds t ≡ ok u) × Delegated sdk fds s t u
  unfolding set_feeders has_key
  set_feeders-Delegated [] t of bt within = (
    t,
    refl,
    record {
      bound = bt;
      within = within;
      feeders = λ v av. refl;
      params_kept = refl;
      prices_kept = refl;
    },
  )
  set_feeders-Delegated (fd ∷ fds) t (o, of) bt within =
      let again = delegation_again s t o.val o.feeder bound within o.delegated in
      let t' : State = bind_feeder o.val o.feeder t in
      let (u, run, d) =
        set_feeders-Delegated fds t' of (set_feeder_delegation-binds o.val o.feeder t t' bt again).0
          (bind-IsWithin s t o.val o.feeder within o.val_valid o.delegated) in
      (
        u,
        or_err-some (sdk.val_address fd.validator) bad_validator _ o.val_read
            ∙ or_err-some (sdk.acc_address fd.feeder) bad_feeder _ o.feeder_read
            ∙ >>=-ok (check_validator ctx.staking o.val) _ o.known
            ∙ rw again run,
        record {
          bound = d.bound;
          within = d.within;
          feeders = λ v av. feeders_next fd fds t u v o av d;
          params_kept = d.params_kept;
          prices_kept = d.prices_kept;
        },
      )
