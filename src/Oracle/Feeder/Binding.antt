-- ===== src/Oracle/Feeder/Binding.antt =====
-- x/oracle/keeper/feeder.go: each validator's account stays bound to that validator, so no account
-- submits for two validators that have delegated. The account of an earlier delegation stays bound
-- to its validator too, which then no longer names it.
use vertix.Base.{
  ◌≡◌, refl, subst, ◌≢◌, Option, some, arith, if◌then◌else◌, Bool-cases, Option-cases, inl, inr,
}
use vertix.Base.Bytes.{Bytes, beq, beq→eq, beq_refl, beq_iff}
use vertix.Base.Map.{lookup, lookup-insert}
use vertix.Base.Results.{ok}
use vertix.Oracle.Keys.{feeder_to_valoper_key, valoper_to_feeder_key}
use vertix.Oracle.Keeper.{State}
use package.vertix.Oracle.Feeder.{
  bind_feeder, set_feeder_delegation, get_feeder_for_validator, resolve_authorized_feeder,
}

abbrev pub validator_of : Bytes → State → Option Bytes
validator_of feeder s = lookup (feeder_to_valoper_key feeder) s.feeder_to_valoper

-- A validator's feeder is bound to that validator.
abbrev pub IsBound : State → Type 0
IsBound s =
    (val feeder : Bytes)
    → get_feeder_for_validator val s ≡ some feeder
    → validator_of feeder s ≡ some val

beq-feeder_key : (a b : Bytes) → beq (feeder_to_valoper_key a) (feeder_to_valoper_key b) ≡ beq a b
unfolding beq
beq-feeder_key a b = refl

pub beq-valoper_key :
    (a b : Bytes) → beq (valoper_to_feeder_key a) (valoper_to_feeder_key b) ≡ beq a b
unfolding beq
beq-valoper_key a b = refl

module _ (val feeder : Bytes) (s : State) where
  pub feeder-bind :
      (v : Bytes)
      → get_feeder_for_validator v (bind_feeder val feeder s)
        ≡ (if beq v val then some feeder else get_feeder_for_validator v s)
  feeder-bind v = rw lookup-insert (rw (beq-valoper_key v val) refl)

  pub validator-bind :
      (f : Bytes)
      → validator_of f (bind_feeder val feeder s)
        ≡ (if beq f feeder then some val else validator_of f s)
  validator-bind f = rw lookup-insert (rw (beq-feeder_key f feeder) refl)

  -- The account may be bound: it is free, or bound to this validator.
  pub delegation-ok :
      (u : State)
      → set_feeder_delegation val feeder s ≡ ok u
      → (u ≡ bind_feeder val feeder s) × ((v : Bytes) → validator_of feeder s ≡ some v → v ≡ val)
  unfolding set_feeder_delegation
  delegation-ok u h = elim (Option-cases (validator_of feeder s)) [
    | inl free ↦ (ground arith, λ v e. absurd (ground arith))
    | inr (old, e) ↦ elim (Bool-cases (beq old val)) [
      | inl same ↦ (ground arith, λ v e₁. ground (arith, beq→eq old val same, e, e₁))
      | inr other ↦ absurd (ground arith)
    ]
  ]

  bind-IsBound :
      IsBound s
      → ((v : Bytes) → validator_of feeder s ≡ some v → v ≡ val)
      → IsBound (bind_feeder val feeder s)
  bind-IsBound bound may v f h = elim (Bool-cases (beq v val)) [
    | inl here ↦ ground (arith, feeder-bind v, validator-bind f, beq→eq v val here, beq_refl f)
    | inr away ↦
        let was : validator_of f s ≡ some v = bound v f (ground (arith, feeder-bind v)) in
        elim (Bool-cases (beq f feeder)) [
          | inl same ↦
              let is_val : v ≡ val =
                may v (subst (λ x. validator_of x s ≡ some v) (beq→eq f feeder same) was) in
              ground (arith, is_val, beq_refl v, beq_iff v val)
          | inr other ↦ ground (arith, validator-bind f)
        ]
  ]

  -- A delegation that succeeds keeps every validator's account bound to that validator. The account
  -- was bound to no other validator; from then on it is bound to this one and submits for it. Every
  -- other validator's account is as before, and so is what every other account is bound to.
  pub set_feeder_delegation-binds :
      (u : State)
      → IsBound s
      → set_feeder_delegation val feeder s ≡ ok u
      → IsBound u
        × ((v : Bytes) → validator_of feeder s ≡ some v → v ≡ val)
        × (validator_of feeder u ≡ some val)
        × (resolve_authorized_feeder val u ≡ feeder)
        × ((f : Bytes) → f ≢ feeder → validator_of f u ≡ validator_of f s)
        × ((v : Bytes) → v ≢ val → resolve_authorized_feeder v u ≡ resolve_authorized_feeder v s)
  set_feeder_delegation-binds u bound h =
      let (same, may) = delegation-ok u h in
      rw same (
        bind-IsBound bound may,
        may,
        ground (arith, validator-bind feeder, beq_refl feeder),
        ground (arith, feeder-bind val, beq_refl val),
        λ f ne. ground (arith, validator-bind f, beq→eq f feeder),
        λ v ne. ground (arith, feeder-bind v, beq→eq v val),
      )

-- Where each validator's account is bound to it, two validators that have delegated to the same
-- account are the same.
pub delegations-apart :
    (s : State) (v w feeder : Bytes)
    → IsBound s
    → get_feeder_for_validator v s ≡ some feeder
    → get_feeder_for_validator w s ≡ some feeder
    → v ≡ w
delegations-apart s v w feeder bound a b = ground (arith, bound v feeder a, bound w feeder b)
