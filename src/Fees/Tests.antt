-- ===== src/Fees/Tests.antt =====
-- Runs of x/fees on a small chain.
use vertix.Base.{
  ℕ, ◌+◌, ◌*◌, ◌/◌, ◌≤◌, ◌≡◌, refl, ◌≢◌, ◌↔◌, Bool, true, false, Option, none, some, List, [], ◌∷◌,
  if◌then◌else◌, arith, ap,
}
use vertix.Base.Bytes.{Bytes, beq}
use vertix.Base.Int.{ℤ, pos, ◌+ℤ◌}
use vertix.Base.Results.{Result, ok, err}
use vertix.Sdk.{Bank, Coins, fee_collector_name}
use vertix.Sdk.Model.{
  sample_sdk, pass, sample-DecimalLaws, sample-BankLaws, sample_moves, sample_burns,
}
use vertix.Fees.Params.{FeesParams, validate, fee_denom, module_name}
use vertix.Fees.Params.Range.{SplitsWhole, validate_iff}
use vertix.Fees.Keeper.{
  State, MsgUpdateParams, get_params, get_genesis_supply, get_cumulative_burned, update_params,
}
use vertix.Fees.Keeper.Update.{MayUpdate, updated, update_params_iff}
use vertix.Fees.EndBlock.{end_blocker, reconcile_invariant, module_balance_invariant}
use vertix.Fees.EndBlock.Split.{Setting, BankWorks, Burns, end_blocker-Burns}
use vertix.Fees.EndBlock.Reconcile.{end_blocker_reconciles, end_blocker_empties_module}
use vertix.Fees.Genesis.{init_genesis, export_genesis, empty_state}
use vertix.Fees.Genesis.Baseline.{genesis_round, started}
use vertix.Fees.Chain.{here, next, end_block, chain_stays_capped}

-- Half of the collected fees is burnt.
abbrev halves : FeesParams
halves = record {
  burn_ratio = b'+' ∷ 500_000_000_000_000_000 ∷ [];
  distribution_ratio = b'+' ∷ 500_000_000_000_000_000 ∷ [];
}

abbrev collector : Bytes
collector = 0 ∷ fee_collector_name

-- The fee collector has 9 `uvtx` of 100.
abbrev sample_bank : Bank
sample_bank = record {
  balance = λ a d. if beq a collector then (if beq d fee_denom then 9 else 0) else 0;
  supply = λ d. if beq d fee_denom then 100 else 0;
}

abbrev genesis : State
genesis = started halves (empty_state sample_bank)

-- What a run leaves, or the state given where it fails.
abbrev or_else {ℓ κ} : {E : Type ℓ} {A : Type κ} → Result E A → A → A
or_else (ok a) b = a
or_else (err e) b = b

next_block : State
unfolding sample_sdk end_blocker pass
next_block = or_else (end_blocker sample_sdk pass genesis) genesis

burnt_four : next_block.bank.supply fee_denom ≡ 96
unfolding next_block beq vertix.Base.Int.◌-ℤ◌
burnt_four = refl

pass-keeps : (from to : Bytes) (cs : Coins) (to' : Bytes) → pass from to cs ≡ some to' → to' ≡ to
unfolding pass
pass-keeps from to cs to' h = cc

setting : Setting sample_sdk pass
unfolding sample_sdk
setting = record {
  decimals = sample-DecimalLaws;
  bank = sample-BankLaws;
  keeps = pass-keeps;
  apart = λ e. cc;
}

works : BankWorks sample_sdk pass
unfolding sample_sdk
works = record {
  transfers = λ b n le. sample_moves b fee_collector_name module_name fee_denom n le;
  burns = λ b n le backed. sample_burns b module_name fee_denom n le backed;
}

halves-SplitsWhole : SplitsWhole sample_sdk halves 500_000_000_000_000_000 500_000_000_000_000_000
unfolding sample_sdk
halves-SplitsWhole = record { burn_parsed = refl; distr_parsed = refl; whole = refl }

starts : init_genesis sample_sdk halves (empty_state sample_bank) ≡ ok genesis
unfolding sample_sdk init_genesis validate vertix.Fees.Keeper.set_params vertix.Base.Int.◌+ℤ◌
starts = refl

block_runs : end_blocker sample_sdk pass genesis ≡ ok next_block
unfolding next_block sample_sdk end_blocker pass beq vertix.Base.Int.◌-ℤ◌
block_runs = refl

chain_stays_capped_example :
    (next_block.bank.supply fee_denom ≤ 100)
    × (get_genesis_supply next_block ≡ pos 100)
    × (pos (next_block.bank.supply fee_denom) +ℤ get_cumulative_burned next_block ≡ pos 100)
    × (reconcile_invariant next_block ≡ false)
    × (u : State) × (end_blocker sample_sdk pass next_block ≡ ok u)
unfolding beq
chain_stays_capped_example =
    chain_stays_capped sample_sdk pass setting collector halves sample_bank genesis next_block
      starts (next here (end_block block_runs))

end_blocker-Burns_example :
    (s' : State) × (end_blocker sample_sdk pass genesis ≡ ok s') × Burns sample_sdk genesis 4 s'
unfolding beq sample_sdk
end_blocker-Burns_example =
    end_blocker-Burns sample_sdk pass setting works genesis 500_000_000_000_000_000
      500_000_000_000_000_000 halves-SplitsWhole (omega arith)

end_blocker_reconciles_example :
    (s' : State) × (end_blocker sample_sdk pass genesis ≡ ok s') × (reconcile_invariant s' ≡ false)
unfolding reconcile_invariant vertix.Base.Int.◌-ℤ◌ beq
end_blocker_reconciles_example =
    end_blocker_reconciles sample_sdk pass setting genesis 500_000_000_000_000_000
      500_000_000_000_000_000 halves-SplitsWhole refl

end_blocker_empties_module_example :
    (s' : State) × (end_blocker sample_sdk pass genesis ≡ ok s')
    × (module_balance_invariant sample_sdk s' ≡ false)
unfolding beq sample_sdk module_balance_invariant
end_blocker_empties_module_example =
    end_blocker_empties_module sample_sdk pass setting works genesis 500_000_000_000_000_000
      500_000_000_000_000_000 halves-SplitsWhole (omega arith) refl

validate_iff_example :
    (validate sample_sdk halves ≡ ok tt)
    ↔ ((burn : ℕ) × (distr : ℕ) × SplitsWhole sample_sdk halves burn distr)
validate_iff_example = validate_iff sample_sdk halves

abbrev to_halves : MsgUpdateParams
to_halves = record { authority = collector; params = halves }

update_params_iff_example :
    (update_params sample_sdk collector to_halves genesis ≡ ok (updated to_halves genesis)) ↔ (
      MayUpdate sample_sdk collector to_halves
      × (updated to_halves genesis ≡ updated to_halves genesis))
update_params_iff_example =
    update_params_iff sample_sdk collector to_halves genesis (updated to_halves genesis)

genesis_round_example : (init_genesis sample_sdk halves (empty_state sample_bank) ≡ ok genesis) ↔ (
    (validate sample_sdk halves ≡ ok tt)
    × (genesis ≡ started halves (empty_state sample_bank))
    × (export_genesis sample_sdk genesis ≡ halves))
genesis_round_example = genesis_round sample_sdk halves (empty_state sample_bank) genesis
