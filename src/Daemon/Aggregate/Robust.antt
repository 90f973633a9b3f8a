-- ===== src/Daemon/Aggregate/Robust.antt =====
-- What a minority of wrong quotes can do to the daemon's price.
use vertix.Base.{
  ℕ, ◌+◌, ◌*◌, ◌≤◌, ◌<◌, ◌≡◌, refl, sym, subst, ◌∙◌, ◌⊎◌, true, false, not, ◌&&◌, List, [], ◌∷◌,
  All, arith, inl, inr, if◌then◌else◌, length, Bool-cases, ◌==◌,
}
use vertix.Base.Int.{ℤ, pos, ltb_ℤ, leb_ℤ, ◌+ℤ◌, ◌-ℤ◌, ◌≤ℤ◌, ◌<ℤ◌, abs, is_positive}
use vertix.Base.Results.{ok, err, ◌>>◌, guard, guard-then, Result-cases, returned}
use vertix.Base.Sort.{sum_by}
use vertix.Sdk.{Sdk}
use vertix.Oracle.Aggregate.Middle.{at_most, at_least}
use package.vertix.Daemon.Aggregate.{
  insufficient_sources, median, within, drop_deviating, cross_source_median,
}
use package.vertix.Daemon.Aggregate.Middle.{Halves, IsMiddle, median-splits}

-- Is a price between two bounds?
abbrev pub between : ℤ → ℤ → ℤ → ℕ
between lo hi p = if leb_ℤ lo p && leb_ℤ p hi then 1 else 0

above-outside :
    (lo hi m : ℤ) (ps : List ℤ)
    → hi <ℤ m
    → sum_by (at_least m) ps + sum_by (between lo hi) ps ≤ length ps
unfolding sum_by
above-outside lo hi m [] h = omega arith
above-outside lo hi m (p ∷ ps) h = ground (arith, above-outside lo hi m ps)

below-outside :
    (lo hi m : ℤ) (ps : List ℤ)
    → m <ℤ lo
    → sum_by (at_most m) ps + sum_by (between lo hi) ps ≤ length ps
unfolding sum_by
below-outside lo hi m [] h = omega arith
below-outside lo hi m (p ∷ ps) h = ground (arith, below-outside lo hi m ps)

<ℤ-or : (a b : ℤ) → (a ≤ℤ b) ⊎ (b <ℤ a)
<ℤ-or a b = ground arith

-- A price in the middle is between two bounds where more than half of the prices are.
pub IsMiddle-between :
    (lo hi m : ℤ) (ps : List ℤ)
    → IsMiddle m ps
    → length ps < 2 * sum_by (between lo hi) ps
    → (lo ≤ℤ m) × (m ≤ℤ hi)
IsMiddle-between lo hi m ps mid most = (
  elim (<ℤ-or lo m) [
    | inl le ↦ le
    | inr lt ↦ absurd (omega (arith, mid.low_half, below-outside lo hi m ps lt))
  ],
  elim (<ℤ-or m hi) [
    | inl le ↦ le
    | inr lt ↦ absurd (omega (arith, mid.high_half, above-outside lo hi m ps lt))
  ],
)

between-All :
    (lo hi : ℤ) (ps : List ℤ)
    → All (λ p. (lo ≤ℤ p) × (p ≤ℤ hi)) ps
    → sum_by (between lo hi) ps ≡ length ps
unfolding sum_by
between-All lo hi [] a = refl
between-All lo hi (p ∷ ps) a = ground (arith, a.0, between-All lo hi ps a.1)

-- At most `band` away from `mid`.
abbrev pub IsNear : ℤ → ℤ → ℤ → Type 0
IsNear band mid p = (mid -ℤ band ≤ℤ p) × (p ≤ℤ mid +ℤ band)

abs-IsNear : (band mid p : ℤ) → leb_ℤ (abs (p -ℤ mid)) band ≡ true → IsNear band mid p
unfolding abs ◌-ℤ◌ ◌+ℤ◌
abs-IsNear band mid p h = ground arith

within-IsNear : (band mid : ℤ) (ps : List ℤ) → All (IsNear band mid) (within band mid ps)
unfolding within
within-IsNear band mid [] = tt
within-IsNear band mid (p ∷ ps) = elim (Bool-cases (leb_ℤ (abs (p -ℤ mid)) band)) [
  | inl near ↦ rw near (abs-IsNear band mid p near, within-IsNear band mid ps)
  | inr far ↦ rw far (within-IsNear band mid ps)
]

quoted : (lo hi : ℤ) (ps : List ℤ) → length ps < 2 * sum_by (between lo hi) ps → 0 < length ps
unfolding sum_by
quoted lo hi [] h = h
quoted lo hi (p ∷ ps) h = omega arith

length-within : (band mid : ℤ) (ps : List ℤ) → length (within band mid ps) ≤ length ps
unfolding within
length-within band mid [] = omega arith
length-within band mid (p ∷ ps) = ground (arith, length-within band mid ps)

not_ltb : (a b : ℤ) → not (ltb_ℤ b a) ≡ true → a ≤ℤ b
not_ltb a b h = ground arith

module _ (sdk : Sdk) (halve : ℤ → ℤ) (exact : Halves halve) (max_deviation : ℤ) where
  -- What is left when the median is positive.
  drop-within :
      (mid : ℤ) (ps : List ℤ)
      → 0 < length ps
      → median halve ps ≡ ok mid
      → is_positive mid ≡ true
      → drop_deviating sdk halve max_deviation ps ≡ within (sdk.mul_dec mid max_deviation) mid ps
  unfolding drop_deviating
  drop-within mid ps some_price e positive =
      let nonempty : (length ps == 0) ≡ false = ground arith in rw (nonempty, e, positive) refl

  length-drop : (ps : List ℤ) → length (drop_deviating sdk halve max_deviation ps) ≤ length ps
  unfolding drop_deviating
  length-drop ps = elim (Bool-cases (length ps == 0)) [
    | inl empty ↦ rw empty (omega arith)
    | inr full ↦ elim (Result-cases (median halve ps)) [
      | inl (e, h) ↦ rw (full, h) (omega arith)
      | inr (mid, h) ↦ elim (Bool-cases (is_positive mid)) [
        | inl p ↦ rw (full, h, p) (length-within (sdk.mul_dec mid max_deviation) mid ps)
        | inr p ↦ rw (full, h, p) (omega arith)
      ]
    ]
  ]

  -- With at least one provider required, a price is found exactly when enough of the quotes are
  -- left once the deviating ones are dropped; it is then in the middle of those that are left, and
  -- otherwise the error is that there are too few sources.
  pub cross_source_median-IsMiddle :
      (min_providers : ℤ) (ps : List ℤ)
      → pos 1 ≤ℤ min_providers
      → ((min_providers ≤ℤ pos (length (drop_deviating sdk halve max_deviation ps)))
          × (m : ℤ) × (cross_source_median sdk halve max_deviation min_providers ps ≡ ok m)
          × IsMiddle m (drop_deviating sdk halve max_deviation ps))
        ⊎ ((pos (length (drop_deviating sdk halve max_deviation ps)) <ℤ min_providers)
            × (cross_source_median sdk halve max_deviation min_providers ps
                ≡ err insufficient_sources))
  unfolding cross_source_median
  cross_source_median-IsMiddle min_providers ps one =
      let left = drop_deviating sdk halve max_deviation ps in
      elim (<ℤ-or min_providers (pos (length left))) [
        | inl enough ↦
            let (m, e, mid) = median-splits halve left exact (omega arith) in
            let asked : ltb_ℤ (pos (length ps)) min_providers ≡ false =
              ground (arith, length-drop ps) in
            let kept : ltb_ℤ (pos (length left)) min_providers ≡ false = ground arith in
            inl (enough, m, rw (asked, kept) e, mid)
        | inr few ↦
            let kept : ltb_ℤ (pos (length left)) min_providers ≡ true = ground arith in
            inr (
              few,
              elim (Bool-cases (ltb_ℤ (pos (length ps)) min_providers)) [
                | inl none_asked ↦ rw none_asked refl
                | inr asked ↦ rw (asked, kept) refl
              ],
            )
      ]

  -- Enough quotes, with their median.
  abbrev Survives : ℤ → ℤ → List ℤ → Type 0
  Survives min_providers m left = (min_providers ≤ℤ pos (length left)) × (median halve left ≡ ok m)

  cross_source_median-found :
      (min_providers m : ℤ) (ps : List ℤ)
      → cross_source_median sdk halve max_deviation min_providers ps ≡ ok m
      → Survives min_providers m (drop_deviating sdk halve max_deviation ps)
  unfolding cross_source_median
  cross_source_median-found min_providers m ps found =
      let left = drop_deviating sdk halve max_deviation ps in
      let many = λ (l : List ℤ). not (ltb_ℤ (pos (length l)) min_providers) in
      let after = guard (many left) insufficient_sources >> median halve left in
      let (asked, rest) = guard-then (many ps) insufficient_sources after found in
      let (kept, at_end) = guard-then (many left) insufficient_sources (median halve left) rest in
      (not_ltb min_providers (pos (length left)) kept, at_end)

  -- If more than half of the quotes are between two positive bounds, a price that is found is at
  -- most the allowed deviation away from a price between the bounds.
  pub cross_source_median-robust :
      (min_providers lo hi m : ℤ) (ps : List ℤ)
      → pos 1 ≤ℤ min_providers
      → pos 0 <ℤ lo
      → length ps < 2 * sum_by (between lo hi) ps
      → cross_source_median sdk halve max_deviation min_providers ps ≡ ok m
      → (mid : ℤ) × (lo ≤ℤ mid) × (mid ≤ℤ hi) × IsNear (sdk.mul_dec mid max_deviation) mid m
  cross_source_median-robust min_providers lo hi m ps one positive most found =
      let some_price = quoted lo hi ps most in
      let (mid, e, is_mid) = median-splits halve ps exact some_price in
      let (low, high) = IsMiddle-between lo hi mid ps is_mid most in
      let band = sdk.mul_dec mid max_deviation in
      let left = within band mid ps in
      let same = drop-within mid ps some_price e (ground arith) in
      let (enough, at_end) =
        subst (Survives min_providers m) same
          (cross_source_median-found min_providers m ps found) in
      let some_left : 0 < length left = omega arith in
      let (m', e', is_mid') = median-splits halve left exact some_left in
      let m_is : m ≡ m' = returned (sym e' ∙ at_end) in
      let near = between-All (mid -ℤ band) (mid +ℤ band) left (within-IsNear band mid ps) in
      (
        mid,
        low,
        high,
        subst (IsNear band mid) (sym m_is)
            (IsMiddle-between (mid -ℤ band) (mid +ℤ band) m' left is_mid' (omega arith)),
      )

abbrev pub AllPositive : List ℤ → Type 0
AllPositive = All (λ p. pos 0 <ℤ p)

at_most-none : (m : ℤ) (ps : List ℤ) → m ≤ℤ pos 0 → AllPositive ps → sum_by (at_most m) ps ≡ 0
unfolding sum_by
at_most-none m [] h a = refl
at_most-none m (p ∷ ps) h a = ground (arith, a.0, at_most-none m ps h a.1)

AllPositive-within :
    (band mid : ℤ) (ps : List ℤ) → AllPositive ps → AllPositive (within band mid ps)
unfolding within
AllPositive-within band mid [] a = tt
AllPositive-within band mid (p ∷ ps) a = elim (Bool-cases (leb_ℤ (abs (p -ℤ mid)) band)) [
  | inl near ↦ rw near (a.0, AllPositive-within band mid ps a.1)
  | inr far ↦ rw far (AllPositive-within band mid ps a.1)
]

module _ (sdk : Sdk) (halve : ℤ → ℤ) (exact : Halves halve) (max_deviation : ℤ) where
  AllPositive-drop :
      (ps : List ℤ) → AllPositive ps → AllPositive (drop_deviating sdk halve max_deviation ps)
  unfolding drop_deviating
  AllPositive-drop ps a = elim (Bool-cases (length ps == 0)) [
    | inl empty ↦ rw empty a
    | inr full ↦ elim (Result-cases (median halve ps)) [
      | inl (e, h) ↦ rw (full, h) a
      | inr (mid, h) ↦ elim (Bool-cases (is_positive mid)) [
        | inl p ↦ rw (full, h, p) (AllPositive-within (sdk.mul_dec mid max_deviation) mid ps a)
        | inr p ↦ rw (full, h, p) a
      ]
    ]
  ]

  -- A price found among positive quotes is positive.
  pub cross_source_median-positive :
      (min_providers m : ℤ) (ps : List ℤ)
      → pos 1 ≤ℤ min_providers
      → AllPositive ps
      → cross_source_median sdk halve max_deviation min_providers ps ≡ ok m
      → pos 0 <ℤ m
  cross_source_median-positive min_providers m ps one a found =
      let left = drop_deviating sdk halve max_deviation ps in
      let (enough, at_end) =
        cross_source_median-found sdk halve exact max_deviation min_providers m ps found in
      let (m', e', mid) = median-splits halve left exact (omega arith) in
      let m_is : m ≡ m' = returned (sym e' ∙ at_end) in
      elim (<ℤ-or m' (pos 0)) [
        | inl low ↦
            absurd (omega (arith, mid.low_half, at_most-none m' left low (AllPositive-drop ps a)))
        | inr high ↦ subst (λ v. pos 0 <ℤ v) (sym m_is) high
      ]
