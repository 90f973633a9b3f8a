-- ===== src/Fees/Genesis/Baseline.antt =====
-- What the genesis of x/fees stores.
use vertix.Base.{◌≡◌, refl, ◌↔◌, some, arith, inl, inr}
use vertix.Base.Int.{pos}
use vertix.Base.Results.{ok, Result-cases}
use vertix.Sdk.{Sdk}
use vertix.Fees.Params.{FeesParams, fee_denom, validate}
use vertix.Fees.Keeper.{State, set_params}
use package.vertix.Fees.Genesis.{init_genesis, export_genesis}

-- The state after a genesis.
abbrev pub started : FeesParams → State → State
started gs s = record s { params = some gs; genesis_supply = some (pos (s.bank.supply fee_denom)) }

module _ (sdk : Sdk) (gs : FeesParams) (s : State) where
  pub init_genesis_sound :
      (s' : State) → init_genesis sdk gs s ≡ ok s' → (validate sdk gs ≡ ok tt) × (s' ≡ started gs s)
  unfolding init_genesis set_params
  init_genesis_sound s' h = elim (Result-cases (validate sdk gs)) [
    | inl (e, bad) ↦ absurd (ground arith)
    | inr (u, good) ↦ (ground arith, ground arith)
  ]

  init_genesis_complete : validate sdk gs ≡ ok tt → init_genesis sdk gs s ≡ ok (started gs s)
  unfolding init_genesis set_params
  init_genesis_complete good = ground arith

  export-init : (s' : State) → init_genesis sdk gs s ≡ ok s' → export_genesis sdk s' ≡ gs
  unfolding export_genesis
  export-init s' h = rw (init_genesis_sound s' h).1 refl

  -- The module starts exactly on accepted parameters, and then it stores them, with the bank's
  -- supply of `uvtx` as the baseline, and exports them again as they were given.
  pub genesis_round :
      (s' : State)
      → (init_genesis sdk gs s ≡ ok s')
        ↔ ((validate sdk gs ≡ ok tt) × (s' ≡ started gs s) × (export_genesis sdk s' ≡ gs))
  genesis_round s' = (
    λ h. let (good, same) = init_genesis_sound s' h in (good, same, export-init s' h),
    λ (good, e, exported). rw e (init_genesis_complete good),
  )
