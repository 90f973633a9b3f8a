-- ===== src/Rwa/Funds/Rate.antt =====
-- Which parameters x/rwa accepts, and the fee that a rate takes.
use vertix.Base.{ℕ, ◌*◌, ◌/◌, ◌<◌, ◌≡◌, ◌↔◌, some, arith, Option-cases, inl, inr}
use vertix.Base.Bytes.{Bytes}
use vertix.Base.Int.{pos, negsuc}
use vertix.Base.Results.{ok, check-then}
use vertix.Sdk.{Sdk, DecimalLaws, one_dec}
use vertix.Rwa.Types.{RwaParams, validate_params, validate_fee_rate}
use package.vertix.Rwa.Funds.{compute_fee}

-- A least bond that is not negative, and two rates below one.
pub record IsAccepted (sdk : Sdk) (p : RwaParams) (bond mint settle : ℕ) : Type 0 where
  pub bond_is : sdk.parse_int p.min_issuer_bond ≡ some (pos bond)
  pub mint_is : sdk.parse_dec p.mint_fee_rate ≡ some (pos mint)
  pub mint_below : mint < one_dec
  pub settle_is : sdk.parse_dec p.settle_fee_rate ≡ some (pos settle)
  pub settle_below : settle < one_dec

module _ (sdk : Sdk) where
  rate_sound :
      (s : Bytes)
      → validate_fee_rate sdk s ≡ ok tt
      → (r : ℕ) × (sdk.parse_dec s ≡ some (pos r)) × (r < one_dec)
  unfolding validate_fee_rate
  rate_sound s h = elim (Option-cases (sdk.parse_dec s)) [
    | inl bad ↦ absurd (ground arith)
    | inr (pos r, e) ↦ (r, e, ground arith)
    | inr (negsuc r, e) ↦ absurd (ground arith)
  ]

  validate_params_sound :
      (p : RwaParams)
      → validate_params sdk p ≡ ok tt
      → (bond : ℕ) × (mint : ℕ) × (settle : ℕ) × IsAccepted sdk p bond mint settle
  unfolding validate_params
  validate_params_sound p h = elim (Option-cases (sdk.parse_int p.min_issuer_bond)) [
    | inl bad ↦ absurd (ground arith)
    | inr (negsuc b, e) ↦ absurd (ground arith)
    | inr (pos b, e) ↦
        let (good, h₁) =
          check-then (validate_fee_rate sdk p.mint_fee_rate)
            (validate_fee_rate sdk p.settle_fee_rate) (ground arith) in
        let (m, em, lm) = rate_sound p.mint_fee_rate good in
        let (r, er, lr) = rate_sound p.settle_fee_rate h₁ in
        (
          b,
          m,
          r,
          record { bond_is = e; mint_is = em; mint_below = lm; settle_is = er; settle_below = lr },
        )
  ]

  validate_params_complete :
      (p : RwaParams) (bond mint settle : ℕ)
      → IsAccepted sdk p bond mint settle
      → validate_params sdk p ≡ ok tt
  unfolding validate_params validate_fee_rate
  validate_params_complete p bond mint settle a =
      ground (arith, a.bond_is, a.mint_is, a.mint_below, a.settle_is, a.settle_below)

  -- Parameters are accepted exactly when the least bond parses to an integer that is not negative,
  -- and both fee rates to decimals from zero to below one.
  pub validate_params_iff :
      (p : RwaParams)
      → (validate_params sdk p ≡ ok tt)
        ↔ ((bond : ℕ) × (mint : ℕ) × (settle : ℕ) × IsAccepted sdk p bond mint settle)
  validate_params_iff p =
      (validate_params_sound p, λ (b, m, r, a). validate_params_complete p b m r a)

  -- A rate below one takes its share of the notional, rounded down; of a notional that is not zero
  -- this is less than all of it.
  pub compute_fee-share :
      DecimalLaws sdk
      → (n r : ℕ) → r < one_dec
      → (compute_fee sdk (pos n) (pos r) ≡ pos (n * r / one_dec)) × (0 < n → n * r / one_dec < n)
  unfolding compute_fee
  compute_fee-share w n r below =
      (ground (arith, w.mul_whole n r, w.truncate_pos (n * r)), λ positive. grind arith)
