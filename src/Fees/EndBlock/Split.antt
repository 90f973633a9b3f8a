-- ===== src/Fees/EndBlock/Split.antt =====
-- What the end blocker burns, and what it leaves to the stakers.
use vertix.Base.{
  ℕ, zero, suc, ◌+◌, ◌-◌, ◌*◌, ◌/◌, ◌≤◌, ◌≡◌, refl, subst, ◌≢◌, Option, none, some, [], ◌∷◌, arith,
  Option-cases, inl, inr, ltb, if◌then◌else◌,
}
use vertix.Base.Bytes.{Bytes, beq_refl}
use vertix.Base.Int.{pos, ◌+ℤ◌, ◌-ℤ◌, int_laws}
use vertix.Base.Results.{ok}
use vertix.Sdk.{
  Sdk, Bank, Coins, Hook, one_dec, DecimalLaws, BankLaws, Moved, amount_of, fee_collector_name,
  new_coins,
}
use vertix.Fees.Params.{fee_denom, module_name}
use vertix.Fees.Params.Range.{SplitsWhole}
use vertix.Fees.Keeper.{
  State, get_params, get_cumulative_burned, add_cumulative_burned, emit, fee_burned,
  fee_distributed,
}
use package.vertix.Fees.EndBlock.{burn_fees, burn_share, end_blocker}

-- A restriction never redirects coins. x/rwa's restriction is such a one.
abbrev pub KeepsRecipient : Hook → Type 0
KeepsRecipient hook =
    (from to : Bytes) (cs : Coins) (to' : Bytes) → hook from to cs ≡ some to' → to' ≡ to

-- What is known of the other parts of the chain.
pub record Setting (sdk : Sdk) (hook : Hook) : Type 0 where
  pub decimals : DecimalLaws sdk
  pub bank : BankLaws sdk
  pub keeps : KeepsRecipient hook
  pub apart : sdk.module_address fee_collector_name ≢ sdk.module_address module_name

-- The effect of burning `n`: the supply, the balances of the two module accounts and the counter.
pub record Burns (sdk : Sdk) (s : State) (n : ℕ) (s' : State) : Type 0 where
  pub supply : s'.bank.supply fee_denom + n ≡ s.bank.supply fee_denom
  pub collector :
      s'.bank.balance (sdk.module_address fee_collector_name) fee_denom + n
      ≡ s.bank.balance (sdk.module_address fee_collector_name) fee_denom
  pub own :
      s'.bank.balance (sdk.module_address module_name) fee_denom
      ≡ s.bank.balance (sdk.module_address module_name) fee_denom
  pub counted : get_cumulative_burned s' ≡ get_cumulative_burned s +ℤ pos n
  pub params_kept : s'.params ≡ s.params
  pub genesis_kept : s'.genesis_supply ≡ s.genesis_supply

-- The bank refuses neither the transfer nor the burn of coins that are there.
pub record BankWorks (sdk : Sdk) (hook : Hook) : Type 0 where
  pub transfers :
      (b : Bank) (n : ℕ)
      → n ≤ b.balance (sdk.module_address fee_collector_name) fee_denom
      → sdk.module_to_module hook b fee_collector_name module_name
          (record { denom = fee_denom; amount = n } ∷ [])
        ≢ none
  pub burns :
      (b : Bank) (n : ℕ)
      → n ≤ b.balance (sdk.module_address module_name) fee_denom
      → n ≤ b.supply fee_denom
      → sdk.burn_coins b module_name (record { denom = fee_denom; amount = n } ∷ []) ≢ none

pub share_le : (n r : ℕ) → r ≤ one_dec → n * r / one_dec ≤ n
share_le n r h = grind arith

-- `sdk.NewCoins` of an amount that is not negative.
abbrev sole_coin : Bytes → ℕ → Coins
sole_coin d k = if ltb 0 k then record { denom = d; amount = k } ∷ [] else []

new_coins-sub :
    (d : Bytes) (b n : ℕ) → n ≤ b → new_coins d (pos b -ℤ pos n) ≡ some (sole_coin d (b - n))
unfolding ◌-ℤ◌
new_coins-sub d b n h = ground arith

module _ (sdk : Sdk) (hook : Hook) (w : Setting sdk hook) where
  abbrev pub collected : State → ℕ
  collected s = s.bank.balance (sdk.module_address fee_collector_name) fee_denom

  abbrev pub fee_coins : ℕ → Coins
  fee_coins n = record { denom = fee_denom; amount = n } ∷ []

  abbrev pub move_fees : ℕ → Bank → Option Bank
  move_fees n b = sdk.module_to_module hook b fee_collector_name module_name (fee_coins n)

  abbrev pub destroy_fees : ℕ → Bank → Option Bank
  destroy_fees n b = sdk.burn_coins b module_name (fee_coins n)

  -- What the run leaves behind when both bank calls succeed.
  pub record Recorded (s : State) (n : ℕ) (burnt : Bank) (s' : State) : Type 0 where
    pub bank_is : s'.bank ≡ burnt
    pub counted : s'.cumulative_burned ≡ some (get_cumulative_burned s +ℤ pos n)
    pub params_kept : s'.params ≡ s.params
    pub genesis_kept : s'.genesis_supply ≡ s.genesis_supply

  -- The state in which a successful run ends.
  pub recorded : State → ℕ → Bank → State
  recorded s n burnt =
      emit (fee_distributed (sole_coin fee_denom (collected s - n))) (
        emit (fee_burned (fee_coins n)) (add_cumulative_burned (pos n) (record s { bank = burnt })))

  pub recorded_lem : (s : State) (n : ℕ) (burnt : Bank) → Recorded s n burnt (recorded s n burnt)
  unfolding recorded
  recorded_lem s n burnt = record {
    bank_is = refl;
    counted = refl;
    params_kept = refl;
    genesis_kept = refl;
  }

  pub burn_fees_done :
      (s : State) (n : ℕ) (moved burnt : Bank)
      → move_fees n s.bank ≡ some moved
      → destroy_fees n moved ≡ some burnt
      → n ≤ collected s
      → burn_fees sdk hook (pos n) (fee_coins n) s ≡ ok (recorded s n burnt)
  unfolding burn_fees recorded
  burn_fees_done s n moved burnt em eb le =
      rw (em, burn_fees)
        (rw (eb, burn_fees) (rw (new_coins-sub fee_denom (collected s) n le, burn_fees)))

  pub move_fees-Moved :
      (b moved : Bank) (n : ℕ)
      → move_fees n b ≡ some moved
      → Moved b
          (sdk.module_address fee_collector_name)
          (sdk.module_address module_name)
          (fee_coins n)
          moved
  move_fees-Moved b moved n e =
      let (to', passed, m) =
        w.bank.between_modules hook b fee_collector_name module_name (fee_coins n) moved e in
      subst (λ to. Moved b (sdk.module_address fee_collector_name) to (fee_coins n) moved)
        (w.keeps (sdk.module_address fee_collector_name) (sdk.module_address module_name)
          (fee_coins n) to' passed)
        m

  pub amount_of-fee_coins : (n : ℕ) → amount_of fee_denom (fee_coins n) ≡ n
  amount_of-fee_coins n = rw (beq_refl fee_denom) (omega arith)

  pub Burns-done :
      (s s' : State) (n : ℕ) (moved burnt : Bank)
      → move_fees n s.bank ≡ some moved
      → destroy_fees n moved ≡ some burnt
      → Recorded s n burnt s'
      → Burns sdk s n s'
  Burns-done s s' n moved burnt em eb r =
      let m = move_fees-Moved s.bank moved n em in
      let d = w.bank.burn moved module_name (fee_coins n) burnt eb in
      let amount = amount_of-fee_coins n in
      let fc = sdk.module_address fee_collector_name in
      record {
        supply =
            rw r.bank_is (omega (arith, m.supply_kept fee_denom, d.supply_down fee_denom, amount));
        collector = rw r.bank_is (
            omega (arith, m.debited fee_denom w.apart, d.others_kept fc fee_denom w.apart, amount));
        own =
            rw r.bank_is
              (omega (arith, m.credited fee_denom w.apart, d.owner_down fee_denom, amount));
        counted = rw r.counted refl;
        params_kept = r.params_kept;
        genesis_kept = r.genesis_kept;
      }

  burn_amount :
      (n r : ℕ) → sdk.truncate_dec (sdk.mul_dec (pos (n * one_dec)) (pos r)) ≡ pos (n * r / one_dec)
  burn_amount n r = rw (w.decimals.mul_whole n r) (w.decimals.truncate_pos (n * r))

  pub share_zero :
      (s : State) (r : ℕ) → collected s * r / one_dec ≡ 0 → burn_share sdk hook (pos r) s ≡ ok s
  unfolding burn_share
  share_zero s r z = ground (arith, burn_amount (collected s) r)

  pub share_positive :
      (s : State) (r k : ℕ)
      → collected s * r / one_dec ≡ suc k
      → burn_share sdk hook (pos r) s ≡ burn_fees sdk hook (pos (suc k)) (fee_coins (suc k)) s
  unfolding burn_share
  share_positive s r k e = ground (arith, burn_amount (collected s) r)

  Burns-zero : (s : State) → Burns sdk s 0 s
  Burns-zero s = record {
    supply = omega arith;
    collector = omega arith;
    own = refl;
    counted = omega int_laws;
    params_kept = refl;
    genesis_kept = refl;
  }

  burn_fees_ok :
      BankWorks sdk hook
      → (s : State) (n : ℕ) → n ≤ collected s
      → collected s ≤ s.bank.supply fee_denom
      → (s' : State) × (burn_fees sdk hook (pos n) (fee_coins n) s ≡ ok s') × Burns sdk s n s'
  burn_fees_ok works s n le backed = elim (Option-cases (move_fees n s.bank)) [
    | inl refused ↦ absurd (works.transfers s.bank n le refused)
    | inr (moved, em) ↦ elim (Option-cases (destroy_fees n moved)) [
      | inl refused ↦ absurd (
          works.burns moved n (arrived s.bank moved n em)
            (rw ((move_fees-Moved s.bank moved n em).supply_kept fee_denom)
              (omega (arith, le, backed)))
            refused)
      | inr (burnt, eb) ↦ (
        recorded s n burnt,
        burn_fees_done s n moved burnt em eb le,
        Burns-done s (recorded s n burnt) n moved burnt em eb (recorded_lem s n burnt),
      )
    ]
  ]
    where
      arrived :
          (b moved : Bank) (n : ℕ)
          → move_fees n b ≡ some moved
          → n ≤ moved.balance (sdk.module_address module_name) fee_denom
      arrived b moved n e =
          let m = move_fees-Moved b moved n e in
          omega (arith, m.credited fee_denom w.apart, amount_of-fee_coins n)

  -- With a bank that works, a ratio of at most one burns its share, and nothing else.
  burn_share-Burns :
      BankWorks sdk hook
      → (s : State) (r n : ℕ) → r ≤ one_dec
      → collected s * r / one_dec ≡ n
      → collected s ≤ s.bank.supply fee_denom
      → (s' : State) × (burn_share sdk hook (pos r) s ≡ ok s') × Burns sdk s n s'
  burn_share-Burns works s r zero le e backed = (s, share_zero s r e, Burns-zero s)
  burn_share-Burns works s r (suc k) le e backed =
      rw (share_positive s r k e)
        (burn_fees_ok works s (suc k) (omega (arith, share_le (collected s) r le)) backed)

  -- With accepted parameters, a bank that refuses no coins that are there and in which the fee
  -- collector's `uvtx` is within the supply, a block burns the burn ratio's share of the collected `uvtx`, rounded down. It takes just that from the supply
  -- and from the fee collector, counts it, and leaves the module's own balance as it was; the
  -- rest stays with the fee collector.
  pub end_blocker-Burns :
      BankWorks sdk hook
      → (s : State) (burn distr : ℕ) → SplitsWhole sdk (get_params sdk s) burn distr
      → collected s ≤ s.bank.supply fee_denom
      → (s' : State) × (end_blocker sdk hook s ≡ ok s')
        × Burns sdk s (collected s * burn / one_dec) s'
  unfolding end_blocker
  end_blocker-Burns works s burn distr v backed =
      rw v.burn_parsed (burn_share-Burns works s burn _ (omega (arith, v.whole)) refl backed)
