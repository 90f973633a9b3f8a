-- ===== src/Oracle/Aggregate/Middle.antt =====
-- Where the unweighted median lies: half of the prices on either side.
use vertix.Base.{
  ℕ, zero, suc, ◌+◌, ◌-◌, ◌*◌, ◌/◌, ◌≤◌, ◌<◌, ◌≡◌, refl, subst, some, List, [], ◌∷◌, All, arith,
  if◌then◌else◌, length, get_elem?,
}
use vertix.Base.Int.{ℤ, ltb_ℤ, leb_ℤ, ◌≤ℤ◌}
use vertix.Base.Sort.{sort_by, sum_by, sum_by-sort_by, Ascends, Ascends-sort_by}
use package.vertix.Oracle.Aggregate.{unweighted_median}

-- How many prices are at or below a price, and how many at or above.
abbrev pub at_most : ℤ → ℤ → ℕ
at_most m p = if leb_ℤ p m then 1 else 0

abbrev pub at_least : ℤ → ℤ → ℕ
at_least m p = if leb_ℤ m p then 1 else 0

abbrev one_each : ℤ → ℕ
one_each p = 1

length-sum : (ps : List ℤ) → sum_by one_each ps ≡ length ps
unfolding sum_by
length-sum [] = refl
length-sum (p ∷ ps) = omega (arith, length-sum ps)

at_least-All : (m : ℤ) (ps : List ℤ) → All (λ p. m ≤ℤ p) ps → sum_by (at_least m) ps ≡ length ps
unfolding sum_by
at_least-All m [] a = refl
at_least-All m (p ∷ ps) a = ground (arith, at_least-All m ps a.1)

abbrev pub Rises : List ℤ → Type 0
Rises = Ascends (λ a b. a ≤ℤ b)

pub All-get :
    (m p : ℤ) (ps : List ℤ) (i : ℕ) → All (λ q. p ≤ℤ q) ps → get_elem? ps i ≡ some m → p ≤ℤ m
All-get m p [] i a h = cc
All-get m p (q ∷ ps) zero a h = ground (arith, a.0)
All-get m p (q ∷ ps) (suc i) a h = All-get m p ps i a.1 h

pub ranks :
    (m : ℤ) (ps : List ℤ) (i : ℕ)
    → Rises ps
    → get_elem? ps i ≡ some m
    → (i + 1 ≤ sum_by (at_most m) ps) × (length ps ≤ sum_by (at_least m) ps + i)
unfolding sum_by
ranks m [] i o h = cc
ranks m (p ∷ ps) zero o h =
    let same : p ≡ m = ground (arith, h) in
    let least = at_least-All m ps (subst (λ q. All (λ r. q ≤ℤ r) ps) same o.0) in
    (ground (arith, same), ground (arith, same, least))
ranks m (p ∷ ps) (suc i) o h =
    let below = All-get m p ps i o.0 h in
    let (most, least) = ranks m ps i o.1 h in (ground (arith, below, most), ground (arith, least))

pub found : (ps : List ℤ) (i : ℕ) → i < length ps → (m : ℤ) × (get_elem? ps i ≡ some m)
found [] i h = absurd (omega arith)
found (p ∷ ps) zero h = (p, refl)
found (p ∷ ps) (suc i) h = found ps i (omega arith)

pub sorted-Rises : (ps : List ℤ) → Rises (sort_by ltb_ℤ ps)
sorted-Rises ps =
    Ascends-sort_by (λ a b. a ≤ℤ b) ltb_ℤ (λ x y z h k. omega arith) (λ x y h. ground arith)
      (λ x y h. ground arith) ps

pub length-sort_by : (ps : List ℤ) → length (sort_by ltb_ℤ ps) ≡ length ps
length-sort_by ps =
    let sorted = sort_by ltb_ℤ ps in
    omega (arith, length-sum sorted, length-sum ps, sum_by-sort_by one_each ltb_ℤ ps)

-- The unweighted median is the lower middle: at least half of the prices are at or below it, and
-- more than half at or above it, if there is a price.
pub unweighted_median-splits :
    (ps : List ℤ)
    → 0 < length ps
    → (length ps ≤ 2 * sum_by (at_most (unweighted_median ps)) ps)
      × (length ps < 2 * sum_by (at_least (unweighted_median ps)) ps)
unfolding unweighted_median
unweighted_median-splits ps some_price =
    let sorted = sort_by ltb_ℤ ps in
    let same = length-sort_by ps in
    let i = (length sorted - 1) / 2 in
    let (m, e) = found sorted i (omega (arith, same)) in
    let (most, least) = ranks m sorted i (sorted-Rises ps) e in
    rw e (
      omega (arith, most, same, sum_by-sort_by (at_most m) ltb_ℤ ps),
      omega (arith, least, same, sum_by-sort_by (at_least m) ltb_ℤ ps),
    )
