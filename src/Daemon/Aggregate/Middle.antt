-- ===== src/Daemon/Aggregate/Middle.antt =====
-- Where the daemon's median lies among the quotes.
use vertix.Base.{
  ◌⊎◌, subst, false, ℕ, zero, suc, ◌-◌, ◌*◌, ◌/◌, ◌%◌, ◌≤◌, ◌<◌, ◌≡◌, refl, List, [], ◌∷◌, some,
  arith, inl, inr, length, get_elem?, Bool-cases, ◌==◌, ==_iff,
}
use vertix.Base.Int.{ℤ, pos, negsuc, pos_part, neg_part, ltb_ℤ, ◌+ℤ◌, ◌≤ℤ◌, +ℤ_parts}
use vertix.Base.Results.{ok}
use vertix.Base.Sort.{sort_by, sum_by, sum_by-sort_by}
use vertix.Base.Int64.{halve64}
use vertix.Oracle.Aggregate.Middle.{
  Rises, All-get, at_most, at_least, ranks, found, sorted-Rises, length-sort_by,
}
use package.vertix.Daemon.Aggregate.{median, middle}

-- `QuoInt64(2)` divides the stored integer by two and drops the rest.
abbrev pub Halves : (ℤ → ℤ) → Type 0
Halves halve = (d : ℤ) → halve d ≡ halve64 d

-- The half of an integer, by its parts: the sign is kept, or the half is zero.
halve64_parts :
    (d : ℤ) → (pos_part (halve64 d) ≡ pos_part d / 2) × (neg_part (halve64 d) ≡ neg_part d / 2)
unfolding halve64
halve64_parts (pos n) = ground arith
halve64_parts (negsuc n) = ground arith

one_sided : (d : ℤ) → (pos_part d ≡ 0) ⊎ (neg_part d ≡ 0)
one_sided (pos n) = inr refl
one_sided (negsuc n) = inl refl

halve-between : (a b : ℤ) → a ≤ℤ b → (a ≤ℤ halve64 (a +ℤ b)) × (halve64 (a +ℤ b) ≤ℤ b)
halve-between a b h =
    let parts = halve64_parts (a +ℤ b) in
    let sum = +ℤ_parts a b in
    elim (one_sided (a +ℤ b)) [
      | inl l ↦ elim (one_sided a) [
        | inl p ↦ elim (one_sided b) [ inl q ↦ omega arith | inr q ↦ omega arith ]
        | inr p ↦ elim (one_sided b) [ inl q ↦ omega arith | inr q ↦ omega arith ]
      ]
      | inr r ↦ elim (one_sided a) [
        | inl p ↦ elim (one_sided b) [ inl q ↦ omega arith | inr q ↦ omega arith ]
        | inr p ↦ elim (one_sided b) [ inl q ↦ omega arith | inr q ↦ omega arith ]
      ]
    ]

get_mono :
    (ps : List ℤ) (i : ℕ) {a b : ℤ}
    → Rises ps
    → get_elem? ps i ≡ some a
    → get_elem? ps (suc i) ≡ some b
    → a ≤ℤ b
get_mono [] i r h k = cc
get_mono (p ∷ ps) zero {a} {b} r h k =
    let same : p ≡ a = ground (arith, h) in subst (λ q. q ≤ℤ b) same (All-get b p ps 0 r.0 k)
get_mono (p ∷ ps) (suc i) r h k = get_mono ps i r.1 h k

at_most_mono : (a b : ℤ) (ps : List ℤ) → a ≤ℤ b → sum_by (at_most a) ps ≤ sum_by (at_most b) ps
unfolding sum_by
at_most_mono a b [] h = omega arith
at_most_mono a b (p ∷ ps) h = ground (arith, at_most_mono a b ps h)

at_least_mono : (a b : ℤ) (ps : List ℤ) → a ≤ℤ b → sum_by (at_least b) ps ≤ sum_by (at_least a) ps
unfolding sum_by
at_least_mono a b [] h = omega arith
at_least_mono a b (p ∷ ps) h = ground (arith, at_least_mono a b ps h)

-- A price with at least half of the prices on either side.
pub record IsMiddle (m : ℤ) (ps : List ℤ) : Type 0 where
  pub low_half : length ps ≤ 2 * sum_by (at_most m) ps
  pub high_half : length ps ≤ 2 * sum_by (at_least m) ps

middle-sorted :
    (halve : ℤ → ℤ) (ps : List ℤ)
    → Halves halve
    → Rises ps
    → 0 < length ps
    → (m : ℤ) × (middle halve ps ≡ ok m) × IsMiddle m ps
unfolding middle
middle-sorted halve ps exact r some_price =
    let n = length ps in
    let (hi, e) = found ps (n / 2) (omega arith) in
    let above = ranks hi ps (n / 2) r e in
    elim (Bool-cases (n % 2 == 1)) [
      | inl odd ↦
          let o = (==_iff (n % 2) 1).0 odd in
          (hi, rw (odd, e), record { low_half = omega arith; high_half = omega arith })
      | inr even ↦
          let two : n % 2 ≡ 0 = ground arith in
          let (lo, l) = found ps (n / 2 - 1) (omega arith) in
          let below = ranks lo ps (n / 2 - 1) r l in
          let order : lo ≤ℤ hi =
            get_mono ps (n / 2 - 1) r l (subst (λ i. get_elem? ps i ≡ some hi) (omega arith) e) in
          let mid = halve-between lo hi order in
          let m = halve64 (lo +ℤ hi) in
          (
            m,
            rw (even, l, e, exact (lo +ℤ hi)),
            record {
              low_half = omega (arith, at_most_mono lo m ps mid.0);
              high_half = omega (arith, at_least_mono m hi ps mid.1);
            },
          )
    ]

-- The daemon's median of quotes is found whenever there is a quote, and at least half of the quotes
-- are at or below it and at least half at or above it.
pub median-splits :
    (halve : ℤ → ℤ) (ps : List ℤ)
    → Halves halve
    → 0 < length ps
    → (m : ℤ) × (median halve ps ≡ ok m) × IsMiddle m ps
unfolding median
median-splits halve ps exact some_price =
    let sorted = sort_by ltb_ℤ ps in
    let same = length-sort_by ps in
    let (m, e, is_mid) = middle-sorted halve sorted exact (sorted-Rises ps) (omega arith) in
    let nonempty : (length ps == 0) ≡ false = ground arith in
    (
      m,
      rw nonempty e,
      record {
        low_half = omega (arith, is_mid.low_half, sum_by-sort_by (at_most m) ltb_ℤ ps);
        high_half = omega (arith, is_mid.high_half, sum_by-sort_by (at_least m) ltb_ℤ ps);
      },
    )
