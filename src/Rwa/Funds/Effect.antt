-- ===== src/Rwa/Funds/Effect.antt =====
-- What each use of the bank does to the module account's `uvtx`, and to the supplies.
use vertix.Base.{
  ℕ, zero, suc, ◌+◌, ◌≡◌, refl, sym, subst, ◌≢◌, Option, none, some, [], ◌∷◌, if◌then◌else◌, ltb,
  arith, Bool-cases, inl, inr,
}
use vertix.Base.Bytes.{Bytes, beq, beq_refl, beq→eq, ≢_of_beq}
use vertix.Base.Int.{ℤ, pos, negsuc}
use vertix.Base.Results.{Result, ok, or_err, ◌>>=◌}
use vertix.Sdk.{
  Sdk, Bank, Coins, BankLaws, IntLaws, Moved, Sent, amount_of, new_coins, fee_collector_name,
  distribution_name,
}
use vertix.Rwa.Types.{RwaError, bond_denom, module_name, panicked}
use vertix.Rwa.Keeper.{State}
use vertix.Rwa.Restriction.{send_restriction, module_account}
use vertix.Rwa.Restriction.Passing.{send_restriction_keeps}
use package.vertix.Rwa.Funds.{
  with_bank, lock_bond, release_bond, slash_bond_to_community_pool, collect_fee,
}

-- What is known of the rest of the chain.
pub record Setting (sdk : Sdk) : Type 0 where
  pub bank : BankLaws sdk
  pub ints : IntLaws sdk
  pub fees_apart : sdk.module_address fee_collector_name ≢ sdk.module_address module_name
  pub pool_apart : sdk.module_address distribution_name ≢ sdk.module_address module_name

-- The module account's `uvtx`.
abbrev pub escrow : Sdk → State → ℕ
escrow sdk s = s.bank.balance (sdk.module_address module_name) bond_denom

abbrev pub nothing : Bytes → ℕ
nothing d = 0

-- Only the bank has changed: the escrow by `gain` and `loss`, each supply by `up` and `down`.
pub record Effect (sdk : Sdk) (s : State) (gain loss : ℕ) (up down : Bytes → ℕ) (s' : State)
    : Type 0 where
  pub escrowed : escrow sdk s' + loss ≡ escrow sdk s + gain
  pub supplied : (d : Bytes) → s'.bank.supply d + down d ≡ s.bank.supply d + up d
  pub rest : s' ≡ record s { bank = s'.bank }

pub with_bank-ok :
    (o : Option Bank) (s s' : State)
    → with_bank o s ≡ ok s'
    → (b : Bank) × (o ≡ some b) × (s' ≡ record s { bank = b })
with_bank-ok none s s' h = cc
with_bank-ok (some b) s s' h = (b, refl, cc)

-- The coins of one denom.
abbrev pub coins_of : Bytes → ℕ → Coins
coins_of d n = if ltb 0 n then record { denom = d; amount = n } ∷ [] else []

pub new_coins-pos : (d : Bytes) (n : ℕ) → new_coins d (pos n) ≡ some (coins_of d n)
new_coins-pos d n = ground arith

pub amount_of-coins_of :
    (e d : Bytes) (n : ℕ) → amount_of e (coins_of d n) ≡ (if beq e d then n else 0)
amount_of-coins_of e d n = ground arith

pub amount_of_self : (d : Bytes) (n : ℕ) → amount_of d (coins_of d n) ≡ n
amount_of_self d n = rw (amount_of-coins_of d d n) (rw (beq_refl d) refl)

pub amount_of-other : (e d : Bytes) (n : ℕ) → e ≢ d → amount_of e (coins_of d n) ≡ 0
amount_of-other e d n ne = ground (arith, amount_of-coins_of e d n, beq→eq e d)

-- Coins that hold no `uvtx` leave the escrow alone, wherever they go.
pub free-Moved :
    (sdk : Sdk) (s : State) (b : Bank) (from to : Bytes) (cs : Coins)
    → amount_of bond_denom cs ≡ 0
    → Moved s.bank from to cs b
    → Effect sdk s 0 0 nothing nothing (record s { bank = b })
free-Moved sdk s b from to cs free m = record {
  escrowed = kept;
  supplied = λ d. omega (arith, m.supply_kept d);
  rest = refl;
}
  where
    at : (a : Bytes) → b.balance a bond_denom ≡ s.bank.balance a bond_denom
    at a = elim (Bool-cases (beq from to)) [
      | inl same ↦ elim (Bool-cases (beq a from)) [
        | inl here ↦ rw (beq→eq a from here) (m.self_kept bond_denom (beq→eq from to same))
        | inr away ↦
            m.others_kept a bond_denom (≢_of_beq a from away)
              (rw (← beq→eq from to same) (≢_of_beq a from away))
      ]
      | inr apart ↦ elim (Bool-cases (beq a from)) [
        | inl here ↦
            rw (beq→eq a from here)
              (omega (arith, m.debited bond_denom (≢_of_beq from to apart), free))
        | inr away ↦ elim (Bool-cases (beq a to)) [
          | inl there ↦
              rw (beq→eq a to there)
                (omega (arith, m.credited bond_denom (≢_of_beq from to apart), free))
          | inr off ↦ m.others_kept a bond_denom (≢_of_beq a from away) (≢_of_beq a to off)
        ]
      ]
    ]

    kept : escrow sdk (record s { bank = b }) + 0 ≡ escrow sdk s + 0
    kept = omega (arith, at (sdk.module_address module_name))

-- Past the construction of the coins.
pub with_coins :
    (d : Bytes) (n : ℕ) (f : Coins → Result RwaError State) {s : State}
    → (or_err (new_coins d (pos n)) panicked >>= f) ≡ ok s
    → f (coins_of d n) ≡ ok s
with_coins d n f {s} h = subst (λ o. (or_err o panicked >>= f) ≡ ok s) (new_coins-pos d n) h

module _ (sdk : Sdk) (w : Setting sdk) where
  -- A send goes where it was meant to.
  pub Sent-Moved :
      (s : State) (b : Bank) (from to : Bytes) (cs : Coins) (b' : Bank)
      → Sent (send_restriction sdk s) b from to cs b'
      → Moved b from to cs b'
  Sent-Moved s b from to cs b' (to', passed, m) =
      subst (λ x. Moved b from x cs b') (send_restriction_keeps sdk s from to cs to' passed) m

  -- Coins that arrive at the module account, or leave it, or pass it by.
  arrives :
      {s : State} {b : Bank} {from : Bytes} {cs : Coins} {n : ℕ}
      → amount_of bond_denom cs ≡ n
      → from ≢ module_account sdk
      → Moved s.bank from (module_account sdk) cs b
      → Effect sdk s n 0 nothing nothing (record s { bank = b })
  arrives e ne m = record {
    escrowed = omega (arith, m.credited bond_denom ne, e);
    supplied = λ d. omega (arith, m.supply_kept d);
    rest = refl;
  }

  leaves :
      {s : State} {b : Bank} {to : Bytes} {cs : Coins} {n : ℕ}
      → amount_of bond_denom cs ≡ n
      → to ≢ module_account sdk
      → Moved s.bank (module_account sdk) to cs b
      → Effect sdk s 0 n nothing nothing (record s { bank = b })
  leaves e ne m = record {
    escrowed = omega (arith, m.debited bond_denom (λ q. ne (sym q)), e);
    supplied = λ d. omega (arith, m.supply_kept d);
    rest = refl;
  }

  passes :
      {s : State} {b : Bank} {from to : Bytes} {cs : Coins}
      → from ≢ module_account sdk
      → to ≢ module_account sdk
      → Moved s.bank from to cs b
      → Effect sdk s 0 0 nothing nothing (record s { bank = b })
  passes nf nt m = record {
    escrowed =
        omega (
          arith,
          m.others_kept (module_account sdk) bond_denom (λ e. nf (sym e)) (λ e. nt (sym e)),
        );
    supplied = λ d. omega (arith, m.supply_kept d);
    rest = refl;
  }

  pub stays : (s : State) → Effect sdk s 0 0 nothing nothing s
  stays s = record { escrowed = refl; supplied = λ d. refl; rest = refl }

  pub to_module_run :
      (s s' : State) (from name : Bytes) (cs : Coins)
      → with_bank (sdk.account_to_module (send_restriction sdk s) s.bank from name cs) s ≡ ok s'
      → (b : Bank) × Moved s.bank from (sdk.module_address name) cs b × (s' ≡ record s { bank = b })
  to_module_run s s' from name cs h =
      let (b, e, same) = with_bank-ok _ s s' h in
      (
        b,
        Sent-Moved s s.bank from (sdk.module_address name) cs b
            (w.bank.to_module (send_restriction sdk s) s.bank from name cs b e),
        same,
      )

  pub from_module_run :
      (s s' : State) (name to : Bytes) (cs : Coins)
      → with_bank (sdk.module_to_account (send_restriction sdk s) s.bank name to cs) s ≡ ok s'
      → (b : Bank) × Moved s.bank (sdk.module_address name) to cs b × (s' ≡ record s { bank = b })
  from_module_run s s' name to cs h =
      let (b, e, same) = with_bank-ok _ s s' h in
      (
        b,
        Sent-Moved s s.bank (sdk.module_address name) to cs b
            (w.bank.from_module (send_restriction sdk s) s.bank name to cs b e),
        same,
      )

  -- A bond that is locked arrives in escrow.
  pub lock_bond-Effect :
      (issuer : Bytes) (n : ℕ) (s s' : State)
      → issuer ≢ module_account sdk
      → lock_bond sdk issuer (pos n) s ≡ ok s'
      → Effect sdk s n 0 nothing nothing s'
  unfolding lock_bond
  lock_bond-Effect issuer n s s' user h =
      let (b, m, same) =
        to_module_run s s' issuer module_name (coins_of bond_denom n)
          (with_coins bond_denom n _ h) in
      rw same (arrives (amount_of_self bond_denom n) user m)

  pub release_bond-Effect :
      (issuer : Bytes) (n : ℕ) (s s' : State)
      → issuer ≢ module_account sdk
      → release_bond sdk issuer (pos n) s ≡ ok s'
      → Effect sdk s 0 n nothing nothing s'
  unfolding release_bond
  release_bond-Effect issuer n s s' user h =
      let (b, m, same) =
        from_module_run s s' module_name issuer (coins_of bond_denom n)
          (with_coins bond_denom n _ h) in
      rw same (leaves (amount_of_self bond_denom n) user m)

  pub slash_bond-Effect :
      (n : ℕ) (s s' : State)
      → slash_bond_to_community_pool sdk (pos n) s ≡ ok s'
      → Effect sdk s 0 n nothing nothing s'
  unfolding slash_bond_to_community_pool
  slash_bond-Effect n s s' h =
      let coins = coins_of bond_denom n in
      let (b, e, same) = with_bank-ok _ s s' (with_coins bond_denom n _ h) in
      let sent = w.bank.fund (send_restriction sdk s) s.bank coins (module_account sdk) b e in
      rw same (
        leaves (amount_of_self bond_denom n) w.pool_apart (
          Sent-Moved s s.bank (module_account sdk) (sdk.module_address distribution_name) coins b
            sent))

  -- A fee never touches the escrow.
  pub collect_fee-Effect :
      (payer : Bytes) (fee : ℤ) (s s' : State)
      → payer ≢ module_account sdk
      → collect_fee sdk payer fee s ≡ ok s'
      → Effect sdk s 0 0 nothing nothing s'
  unfolding collect_fee
  collect_fee-Effect payer (negsuc n) s s' user h =
      let same : s ≡ s' = ground arith in rw (← same) (stays s)
  collect_fee-Effect payer (pos zero) s s' user h =
      let same : s ≡ s' = ground arith in rw (← same) (stays s)
  collect_fee-Effect payer (pos (suc n)) s s' user h =
      let (b, m, same) =
        to_module_run s s' payer fee_collector_name (coins_of bond_denom (suc n))
          (with_coins bond_denom (suc n) _ (paid h)) in
      rw same (passes user w.fees_apart m)
    where
      paid :
          collect_fee sdk payer (pos (suc n)) s ≡ ok s'
          → (or_err (new_coins bond_denom (pos (suc n))) panicked >>= λ coins.
              with_bank
                (sdk.account_to_module
                  (send_restriction sdk s)
                  s.bank
                  payer
                  fee_collector_name
                  coins)
                s)
            ≡ ok s'
      paid e = ground arith
