-- ===== src/Fees/Chain.antt =====
-- The life of x/fees from genesis on: blocks, parameter updates, and what the rest of the chain
-- does to the bank.
use vertix.Base.{ℕ, ◌≤◌, ◌≡◌, refl, false, arith}
use vertix.Base.Bytes.{Bytes}
use vertix.Base.Int.{pos, ◌+ℤ◌, ◌≤ℤ◌, int_laws}
use vertix.Base.Results.{ok}
use vertix.Sdk.{Sdk, Bank, Hook}
use vertix.Fees.Params.{FeesParams, validate, fee_denom}
use vertix.Fees.Params.Range.{validate_iff}
use vertix.Fees.Keeper.{
  State, MsgUpdateParams, get_params, update_params, get_cumulative_burned, get_genesis_supply,
}
use vertix.Fees.Keeper.Update.{update_params_iff}
use vertix.Fees.EndBlock.{end_blocker, reconcile_invariant}
use vertix.Fees.EndBlock.Split.{Setting}
use vertix.Fees.EndBlock.Reconcile.{end_blocker-Counts, Counts-reconcile}
use vertix.Fees.Genesis.{init_genesis, empty_state}
use vertix.Fees.Genesis.Baseline.{init_genesis_sound}

module _ (sdk : Sdk) (hook : Hook) (authority : Bytes) where
  -- One step of the chain. Outside of x/fees nothing changes the supply of `uvtx`.
  pub data Step : State → State → Type 0 where
    update :
        {s s' : State} (msg : MsgUpdateParams)
        → update_params sdk authority msg s ≡ ok s'
        → Step s s'
    end_block : {s s' : State} → end_blocker sdk hook s ≡ ok s' → Step s s'
    outside :
        {s : State} (b : Bank)
        → b.supply fee_denom ≡ s.bank.supply fee_denom
        → Step s (record s { bank = b })

  pub data Reach (s : State) : State → Type 0 where
    here : Reach s s
    next : {t u : State} → Reach s t → Step t u → Reach s u

-- What holds at every height.
pub record IsSound (sdk : Sdk) (cap : ℕ) (s : State) : Type 0 where
  pub accepted : validate sdk (get_params sdk s) ≡ ok tt
  pub reconciled : reconcile_invariant s ≡ false
  pub burned_nonneg : pos 0 ≤ℤ get_cumulative_burned s
  pub baseline : get_genesis_supply s ≡ pos cap

module _ (sdk : Sdk) (hook : Hook) (w : Setting sdk hook) (authority : Bytes) where
  Step-IsSound :
      {cap : ℕ} {s s' : State}
      → Step sdk hook authority s s'
      → IsSound sdk cap s
      → IsSound sdk cap s'
  unfolding reconcile_invariant
  Step-IsSound {s = s} {s' = s'} (update msg e) v =
      let (may, same) = (update_params_iff sdk authority msg s s').0 e in
      rw same (record {
        accepted = may.accepted;
        reconciled = v.reconciled;
        burned_nonneg = v.burned_nonneg;
        baseline = v.baseline;
      })
  Step-IsSound {s = s} {s' = s'} (end_block e) v =
      let (burn, distr, whole) = (validate_iff sdk (get_params sdk s)).0 v.accepted in
      let (t, m, et, c) = end_blocker-Counts sdk hook w s burn distr whole in
      let same : t ≡ s' = cc in
      rw (← same) (record {
        accepted = rw c.params_kept v.accepted;
        reconciled = Counts-reconcile s t m c v.reconciled;
        burned_nonneg = grind (int_laws, c.counted, v.burned_nonneg);
        baseline = rw c.genesis_kept v.baseline;
      })
  Step-IsSound (outside b e) v = record {
    accepted = v.accepted;
    reconciled = rw e v.reconciled;
    burned_nonneg = v.burned_nonneg;
    baseline = v.baseline;
  }

  Reach-IsSound :
      {cap : ℕ} {s t : State} → IsSound sdk cap s → Reach sdk hook authority s t → IsSound sdk cap t
  Reach-IsSound v here = v
  Reach-IsSound v (next r st) = Step-IsSound st (Reach-IsSound v r)

  init_genesis-IsSound :
      (gs : FeesParams) (b : Bank) (s : State)
      → init_genesis sdk gs (empty_state b) ≡ ok s
      → IsSound sdk (b.supply fee_denom) s
  unfolding reconcile_invariant
  init_genesis-IsSound gs b s h =
      let (good, same) = init_genesis_sound sdk gs (empty_state b) s h in
      rw same (record {
        accepted = good;
        reconciled = grind int_laws;
        burned_nonneg = omega arith;
        baseline = refl;
      })

  IsSound-capped : {cap : ℕ} (s : State) → IsSound sdk cap s → s.bank.supply fee_denom ≤ cap
  unfolding reconcile_invariant
  IsSound-capped s v = grind (int_laws, v.baseline, v.reconciled, v.burned_nonneg)

  IsSound-counted :
      {cap : ℕ} (s : State)
      → IsSound sdk cap s
      → pos (s.bank.supply fee_denom) +ℤ get_cumulative_burned s ≡ pos cap
  unfolding reconcile_invariant
  IsSound-counted s v = grind (int_laws, v.baseline, v.reconciled)

  -- From a genesis that is accepted on, after any blocks, parameter updates and bank activity that
  -- keeps the supply of `uvtx`: the supply of `uvtx` is at most that of the genesis, which is
  -- still the recorded genesis supply; the difference is what has been counted as burnt; the
  -- reconcile invariant holds, and the next end blocker returns no error.
  pub chain_stays_capped :
      (gs : FeesParams) (b : Bank) (s t : State)
      → init_genesis sdk gs (empty_state b) ≡ ok s
      → Reach sdk hook authority s t
      → (t.bank.supply fee_denom ≤ b.supply fee_denom)
        × (get_genesis_supply t ≡ pos (b.supply fee_denom))
        × (pos (t.bank.supply fee_denom) +ℤ get_cumulative_burned t ≡ pos (b.supply fee_denom))
        × (reconcile_invariant t ≡ false)
        × (u : State) × (end_blocker sdk hook t ≡ ok u)
  chain_stays_capped gs b s t h r =
      let v = Reach-IsSound (init_genesis-IsSound gs b s h) r in
      let (burn, distr, whole) = (validate_iff sdk (get_params sdk t)).0 v.accepted in
      let (u, m, e, c) = end_blocker-Counts sdk hook w t burn distr whole in
      (IsSound-capped t v, v.baseline, IsSound-counted t v, v.reconciled, u, e)
