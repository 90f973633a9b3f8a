-- ===== src/Fees/EndBlock/Reconcile.antt =====
-- The crisis invariants of x/fees under the end blocker, whatever the bank answers.
use vertix.Base.{ℕ, zero, suc, ◌+◌, ◌*◌, ◌/◌, ◌≤◌, ◌≡◌, refl, false, arith, Option-cases, inl, inr}
use vertix.Base.Int.{pos, ◌+ℤ◌, int_laws}
use vertix.Base.Results.{ok}
use vertix.Sdk.{Sdk, Bank, Hook, one_dec}
use vertix.Fees.Params.{fee_denom}
use vertix.Fees.Params.Range.{SplitsWhole}
use vertix.Fees.Keeper.{State, get_params, get_cumulative_burned}
use package.vertix.Fees.EndBlock.{
  burn_fees, burn_share, end_blocker, reconcile_invariant, module_balance_invariant,
}
use vertix.Fees.EndBlock.Split.{
  Setting, BankWorks, move_fees-Moved, burn_fees_done, recorded, end_blocker-Burns, collected,
  fee_coins, move_fees, destroy_fees, share_le, share_zero, share_positive, Burns-done,
  recorded_lem,
}

-- What has left the supply is what has been counted.
pub record Counts (s : State) (n : ℕ) (s' : State) : Type 0 where
  pub supply : s'.bank.supply fee_denom + n ≡ s.bank.supply fee_denom
  pub counted : get_cumulative_burned s' ≡ get_cumulative_burned s +ℤ pos n
  pub genesis_kept : s'.genesis_supply ≡ s.genesis_supply
  pub params_kept : s'.params ≡ s.params

pub Counts-reconcile :
    (s s' : State) (n : ℕ)
    → Counts s n s'
    → reconcile_invariant s ≡ false
    → reconcile_invariant s' ≡ false
unfolding reconcile_invariant
Counts-reconcile s s' n c h = rw c.genesis_kept (grind (int_laws, c.supply, c.counted))

module _ (sdk : Sdk) (hook : Hook) (w : Setting sdk hook) where
  Counts-nothing :
      (s : State) (b : Bank)
      → b.supply fee_denom ≡ s.bank.supply fee_denom
      → Counts s 0 (record s { bank = b })
  Counts-nothing s b e = record {
    supply = omega (arith, e);
    counted = omega int_laws;
    genesis_kept = refl;
    params_kept = refl;
  }

  -- The three ways in which the burn may end.
  burn_fees-Counts :
      (s : State) (n : ℕ)
      → n ≤ collected sdk hook w s
      → (s' : State) × (m : ℕ) × (burn_fees sdk hook (pos n) (fee_coins sdk hook w n) s ≡ ok s')
        × Counts s m s'
  unfolding burn_fees
  burn_fees-Counts s n le = elim (Option-cases (move_fees sdk hook w n s.bank)) [
    | inl refused ↦ (s, 0, rw (refused, burn_fees), Counts-nothing s s.bank refl)
    | inr (moved, em) ↦ elim (Option-cases (destroy_fees sdk hook w n moved)) [
      | inl refused ↦ (
        record s { bank = moved },
        0,
        rw (em, burn_fees) (rw (refused, burn_fees)),
        Counts-nothing s moved
            ((move_fees-Moved sdk hook w s.bank moved n em).supply_kept fee_denom),
      )
      | inr (burnt, eb) ↦
          let b =
            Burns-done sdk hook w s (recorded sdk hook w s n burnt) n moved burnt em eb
              (recorded_lem sdk hook w s n burnt) in
          (
            recorded sdk hook w s n burnt,
            n,
            burn_fees_done sdk hook w s n moved burnt em eb le,
            record {
              supply = b.supply;
              counted = b.counted;
              genesis_kept = b.genesis_kept;
              params_kept = b.params_kept;
            },
          )
    ]
  ]

  burn_share-Counts :
      (s : State) (r n : ℕ)
      → r ≤ one_dec
      → collected sdk hook w s * r / one_dec ≡ n
      → (s' : State) × (m : ℕ) × (burn_share sdk hook (pos r) s ≡ ok s') × Counts s m s'
  burn_share-Counts s r zero le e =
      (s, 0, share_zero sdk hook w s r e, Counts-nothing s s.bank refl)
  burn_share-Counts s r (suc k) le e =
      rw (share_positive sdk hook w s r k e)
        (burn_fees-Counts s (suc k) (omega (arith, share_le (collected sdk hook w s) r le)))

  -- The end blocker counts what leaves the supply.
  pub end_blocker-Counts :
      (s : State) (burn distr : ℕ)
      → SplitsWhole sdk (get_params sdk s) burn distr
      → (s' : State) × (m : ℕ) × (end_blocker sdk hook s ≡ ok s') × Counts s m s'
  unfolding end_blocker
  end_blocker-Counts s burn distr v = rw v.burn_parsed (
      burn_share-Counts s burn (collected sdk hook w s * burn / one_dec) (omega (arith, v.whole))
        refl)

  -- With accepted parameters the end blocker never fails or panics, also where the bank refuses
  -- the transfer or the burn, and the genesis supply minus the current supply stays what has been
  -- counted as burnt.
  pub end_blocker_reconciles :
      (s : State) (burn distr : ℕ)
      → SplitsWhole sdk (get_params sdk s) burn distr
      → reconcile_invariant s ≡ false
      → (s' : State) × (end_blocker sdk hook s ≡ ok s') × (reconcile_invariant s' ≡ false)
  end_blocker_reconciles s burn distr v h =
      let (s', m, e, c) = end_blocker-Counts s burn distr v in (s', e, Counts-reconcile s s' m c h)

  -- With accepted parameters, a bank that refuses no coins that are there and in which the fee
  -- collector's `uvtx` is within the supply, the module account is empty after a block if it was
  -- empty before.
  pub end_blocker_empties_module :
      BankWorks sdk hook
      → (s : State) (burn distr : ℕ) → SplitsWhole sdk (get_params sdk s) burn distr
      → collected sdk hook w s ≤ s.bank.supply fee_denom
      → module_balance_invariant sdk s ≡ false
      → (s' : State) × (end_blocker sdk hook s ≡ ok s') × (module_balance_invariant sdk s' ≡ false)
  unfolding module_balance_invariant
  end_blocker_empties_module works s burn distr v backed h =
      let (s', e, b) = end_blocker-Burns sdk hook w works s burn distr v backed in
      (s', e, rw b.own h)
