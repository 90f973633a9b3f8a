-- ===== src/Rwa/Sound/Tokens.antt =====
-- What minting and burning tokens does to the escrow and to the supplies.
use vertix.Base.{ℕ, ◌≡◌, refl, sym, ap, subst, ◌∙◌, arith}
use vertix.Base.Bytes.{Bytes}
use vertix.Base.Results.{ok, >>=-eq-ok}
use vertix.Sdk.{Sdk, Bank, Coins, Created, Destroyed, amount_of}
use vertix.Rwa.Types.{bond_denom, module_name}
use vertix.Rwa.Keeper.{State}
use vertix.Rwa.Restriction.{send_restriction, module_account}
use vertix.Rwa.Funds.{with_bank}
use vertix.Rwa.Funds.Effect.{
  Setting, Effect, nothing, free-Moved, with_bank-ok, to_module_run, from_module_run,
}
use vertix.Rwa.Server.Tokens.{mint_out}
use vertix.Rwa.Server.Closing.{burn_back}

pub rest_trans :
    (s t u : State)
    → t ≡ record s { bank = t.bank }
    → u ≡ record t { bank = u.bank }
    → u ≡ record s { bank = u.bank }
rest_trans s t u p q = q ∙ ap (λ (x : State). let r : State = record x { bank = u.bank } in r) p

module _ (sdk : Sdk) (w : Setting sdk) where
  created :
      (s : State) (b : Bank) (cs : Coins)
      → amount_of bond_denom cs ≡ 0
      → Created s.bank (module_account sdk) cs b
      → Effect sdk s 0 0 (λ d. amount_of d cs) nothing (record s { bank = b })
  created s b cs free c = record {
    escrowed = omega (arith, c.owner_up bond_denom, free);
    supplied = λ d. omega (arith, c.supply_up d);
    rest = refl;
  }

  destroyed :
      (s : State) (b : Bank) (cs : Coins)
      → amount_of bond_denom cs ≡ 0
      → Destroyed s.bank (module_account sdk) cs b
      → Effect sdk s 0 0 nothing (λ d. amount_of d cs) (record s { bank = b })
  destroyed s b cs free c = record {
    escrowed = omega (arith, c.owner_down bond_denom, free);
    supplied = λ d. omega (arith, c.supply_down d);
    rest = refl;
  }

  -- Two effects of which one moves nothing.
  pub then_free :
      (s t u : State) (up down : Bytes → ℕ)
      → Effect sdk s 0 0 up down t
      → Effect sdk t 0 0 nothing nothing u
      → Effect sdk s 0 0 up down u
  then_free s t u up down a b = record {
    escrowed = omega (arith, a.escrowed, b.escrowed);
    supplied = λ d. omega (arith, a.supplied d, b.supplied d);
    rest = rest_trans s t u a.rest b.rest;
  }

  pub free_then :
      (s t u : State) (up down : Bytes → ℕ)
      → Effect sdk s 0 0 nothing nothing t
      → Effect sdk t 0 0 up down u
      → Effect sdk s 0 0 up down u
  free_then s t u up down a b = record {
    escrowed = omega (arith, a.escrowed, b.escrowed);
    supplied = λ d. omega (arith, a.supplied d, b.supplied d);
    rest = rest_trans s t u a.rest b.rest;
  }

  pub mint_out-Effect :
      (issuer : Bytes) (cs : Coins) (s u : State)
      → amount_of bond_denom cs ≡ 0
      → mint_out sdk issuer cs s ≡ ok u
      → Effect sdk s 0 0 (λ d. amount_of d cs) nothing u
  unfolding mint_out
  mint_out-Effect issuer cs s u free h =
      let (t, e, k) = >>=-eq-ok (with_bank (sdk.mint_coins s.bank module_name cs) s) _ h in
      let (b, eb, same) = with_bank-ok (sdk.mint_coins s.bank module_name cs) s t e in
      let (c, m, out) = from_module_run sdk w t u module_name issuer cs k in
      let made =
        subst (λ x. Effect sdk s 0 0 (λ d. amount_of d cs) nothing x) (sym same)
          (created s b cs free (w.bank.mint s.bank module_name cs b eb)) in
      let paid =
        subst (λ x. Effect sdk t 0 0 nothing nothing x) (sym out)
          (free-Moved sdk t c (module_account sdk) issuer cs free m) in
      then_free s t u (λ d. amount_of d cs) nothing made paid

  pub burn_back-Effect :
      (issuer : Bytes) (cs : Coins) (s u : State)
      → amount_of bond_denom cs ≡ 0
      → burn_back sdk issuer cs s ≡ ok u
      → Effect sdk s 0 0 nothing (λ d. amount_of d cs) u
  unfolding burn_back
  burn_back-Effect issuer cs s u free h =
      let (t, e, k) =
        >>=-eq-ok
          (with_bank (sdk.account_to_module (send_restriction sdk s) s.bank issuer module_name cs)
            s)
          _ h in
      let (c, m, same) = to_module_run sdk w s t issuer module_name cs e in
      let (b, eb, out) = with_bank-ok (sdk.burn_coins t.bank module_name cs) t u k in
      let taken =
        subst (λ x. Effect sdk s 0 0 nothing nothing x) (sym same)
          (free-Moved sdk s c issuer (module_account sdk) cs free m) in
      let burnt =
        subst (λ x. Effect sdk t 0 0 nothing (λ d. amount_of d cs) x) (sym out)
          (destroyed t b cs free (w.bank.burn t.bank module_name cs b eb)) in
      free_then s t u nothing (λ d. amount_of d cs) taken burnt
