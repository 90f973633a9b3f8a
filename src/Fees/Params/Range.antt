-- ===== src/Fees/Params/Range.antt =====
-- Which parameters x/fees accepts.
use vertix.Base.{ℕ, ◌+◌, ◌≡◌, ◌↔◌, some, arith, Option-cases, inl, inr}
use vertix.Base.Int.{ℤ, pos, negsuc, int_laws}
use vertix.Base.Results.{ok}
use vertix.Sdk.{Sdk, one_dec}
use package.vertix.Fees.Params.{FeesParams, validate}

-- The two ratios are not negative, and sum to one.
pub record SplitsWhole (sdk : Sdk) (p : FeesParams) (burn distr : ℕ) : Type 0 where
  pub burn_parsed : sdk.parse_dec p.burn_ratio ≡ some (pos burn)
  pub distr_parsed : sdk.parse_dec p.distribution_ratio ≡ some (pos distr)
  pub whole : burn + distr ≡ one_dec

module _ (sdk : Sdk) (p : FeesParams) where
  validate_parsed :
      (b d : ℤ)
      → sdk.parse_dec p.burn_ratio ≡ some b
      → sdk.parse_dec p.distribution_ratio ≡ some d
      → validate sdk p ≡ ok tt
      → (burn : ℕ) × (distr : ℕ) × SplitsWhole sdk p burn distr
  unfolding validate
  validate_parsed (pos b) (pos d) pb pd h =
      (b, d, record { burn_parsed = pb; distr_parsed = pd; whole = grind int_laws })
  validate_parsed (pos b) (negsuc d) pb pd h = absurd (grind arith)
  validate_parsed (negsuc b) d pb pd h = absurd (grind arith)

  validate_sound : validate sdk p ≡ ok tt → (burn : ℕ) × (distr : ℕ) × SplitsWhole sdk p burn distr
  validate_sound h = elim (Option-cases (sdk.parse_dec p.burn_ratio)) [
    | inl bad ↦ absurd (unfold validate in ground arith)
    | inr (b, pb) ↦ elim (Option-cases (sdk.parse_dec p.distribution_ratio)) [
      | inl bad ↦ absurd (unfold validate in ground arith)
      | inr (d, pd) ↦ validate_parsed b d pb pd h
    ]
  ]

  validate_complete : (burn distr : ℕ) → SplitsWhole sdk p burn distr → validate sdk p ≡ ok tt
  unfolding validate
  validate_complete burn distr s = grind int_laws

  -- Parameters are accepted exactly when both ratios parse to decimals that are not negative and
  -- that sum to one.
  pub validate_iff :
      (validate sdk p ≡ ok tt) ↔ ((burn : ℕ) × (distr : ℕ) × SplitsWhole sdk p burn distr)
  validate_iff = (validate_sound, λ (burn, distr, s). validate_complete burn distr s)
