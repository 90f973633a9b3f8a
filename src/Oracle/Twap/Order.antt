-- ===== src/Oracle/Twap/Order.antt =====
-- The entries of a pair stand in the order of time.
use vertix.Base.{
  ℕ, zero, suc, ◌+◌, ◌*◌, ◌/◌, ◌%◌, ◌≤◌, ◌<◌, ◌≡◌, subst, true, List, [], ◌∷◌, ◌++◌, arith, inl,
  inr, ◌⊎◌, Bool-cases, All, ltb,
}
use vertix.Base.Bytes.{Bytes, bytes_lt}
use vertix.Base.Int.{ℤ, pos, ◌+ℤ◌, ◌-ℤ◌, leb_ℤ}
use vertix.Base.Int64.{limit_64}
use vertix.Base.Map.{Map, IsSorted, IsAbove}
use vertix.Base.Sort.{Ascends}
use vertix.Oracle.Types.{TwapEntry}
use vertix.Oracle.Keys.{big_endian, unix_nano, twap_key, twap_prefix}
use package.vertix.Oracle.Twap.{has_prefix, entries_of, onto, collect}

-- 256 ^ k
abbrev bytes_range : ℕ → ℕ
bytes_range zero = 1
bytes_range (suc k) = 256 * bytes_range k

big_endian-step :
    (a b : ℕ) (s t : Bytes)
    → (a / 256 < b / 256) ⊎ ((a / 256 ≡ b / 256) × (bytes_lt (a % 256 ∷ s) (b % 256 ∷ t) ≡ true))
    → (a < b) ⊎ ((a ≡ b) × (bytes_lt s t ≡ true))
unfolding bytes_lt
big_endian-step a b s t (inl lt) = inl (omega arith)
big_endian-step a b s t (inr (same, h)) = ground (arith, same, h)

-- Big-endian numbers of one length compare as byte strings the way they compare as numbers.
big_endian-lt :
    (k a b : ℕ) (s t : Bytes)
    → a < bytes_range k
    → b < bytes_range k
    → bytes_lt (big_endian k a s) (big_endian k b t) ≡ true
    → (a < b) ⊎ ((a ≡ b) × (bytes_lt s t ≡ true))
big_endian-lt zero a b s t ha hb h = inr (omega arith, h)
big_endian-lt (suc k) a b s t ha hb h =
    big_endian-step a b s t (
      big_endian-lt k (a / 256) (b / 256) (a % 256 ∷ s) (b % 256 ∷ t) (omega arith) (omega arith) h)

-- The first moment of 1970, and the times whose nanoseconds since then fit 64 bits.
abbrev pub epoch : ℕ
epoch = 62_135_596_800_000_000_000

abbrev pub InEra : ℕ → Type 0
InEra t = (epoch ≤ t) × (t < epoch + limit_64)

unix_nano-era : (t : ℕ) → InEra t → (unix_nano t + epoch ≡ t) × (unix_nano t < limit_64)
unfolding unix_nano ◌-ℤ◌
unix_nano-era t era = ground arith

nothing-lt : bytes_lt [] [] ≡ true → ⊥
unfolding bytes_lt
nothing-lt h = cc

bytes_lt-cancel : (p s t : Bytes) → bytes_lt (p ++ s) (p ++ t) ≡ true → bytes_lt s t ≡ true
unfolding bytes_lt
bytes_lt-cancel [] s t h = h
bytes_lt-cancel (x ∷ p) s t h = bytes_lt-cancel p s t (ground arith)

twap_key-lt :
    (pair : Bytes) (t u : ℕ)
    → InEra t
    → InEra u
    → bytes_lt (twap_key pair t) (twap_key pair u) ≡ true
    → t < u
twap_key-lt pair t u era_t era_u h =
    let (t_is, t_fits) = unix_nano-era t era_t in
    let (u_is, u_fits) = unix_nano-era u era_u in
    let tail = bytes_lt-cancel (b'/' ∷ []) _ _ (bytes_lt-cancel (3 ∷ pair) _ _ h) in
    elim (big_endian-lt 8 (unix_nano t) (unix_nano u) [] [] t_fits u_fits tail) [
      | inl lt ↦ omega arith
      | inr (same, lt) ↦ absurd (nothing-lt lt)
    ]

abbrev pub Before : TwapEntry → TwapEntry → Type 0
Before e f = e.block_time < f.block_time

module _ {ℓ} (pair : Bytes) (P : TwapEntry → Type ℓ) where
  -- An entry under a key of the pair stands under the key of its time, and has the property.
  abbrev pub Keyed : Bytes × TwapEntry → Type ℓ
  Keyed (k, e) =
      has_prefix (twap_prefix pair) k ≡ true
      → (k ≡ twap_key pair e.block_time) × InEra e.block_time × P e

  pub entries_of-All : (m : Map TwapEntry) → All Keyed m → All P (entries_of (twap_prefix pair) m)
  unfolding entries_of
  entries_of-All [] a = tt
  entries_of-All ((k, e) ∷ m) a = elim (Bool-cases (has_prefix (twap_prefix pair) k)) [
    | inl own ↦ rw own ((a.0 own).2, entries_of-All m a.1)
    | inr other ↦ rw other (entries_of-All m a.1)
  ]

  later-All :
      (t : ℕ) (m : Map TwapEntry)
      → InEra t
      → IsAbove (twap_key pair t) m
      → All Keyed m
      → All (λ f. t < f.block_time) (entries_of (twap_prefix pair) m)
  unfolding entries_of
  later-All t [] era above a = tt
  later-All t ((k, f) ∷ m) era above a =
      let rest = later-All t m era above.1 a.1 in
      elim (Bool-cases (has_prefix (twap_prefix pair) k)) [
        | inl own ↦
            let (key, era', p) = a.0 own in
            let lt = subst (λ j. bytes_lt (twap_key pair t) j ≡ true) key above.0 in
            rw own (twap_key-lt pair t f.block_time era era' lt, rest)
        | inr other ↦ rw other rest
      ]

  pub entries_of-Ascends :
      (m : Map TwapEntry)
      → IsSorted m
      → All Keyed m
      → Ascends Before (entries_of (twap_prefix pair) m)
  unfolding entries_of
  entries_of-Ascends [] sorted a = tt
  entries_of-Ascends ((k, e) ∷ m) sorted a =
      let rest = entries_of-Ascends m sorted.1 a.1 in
      elim (Bool-cases (has_prefix (twap_prefix pair) k)) [
        | inl own ↦
            let (key, era, p) = a.0 own in
            let above = subst (λ j. IsAbove j m) key sorted.0 in
            rw own (later-All e.block_time m era above a.1, rest)
        | inr other ↦ rw other rest
      ]

module _ {ℓ} (P : TwapEntry → Type ℓ) where
  pub onto-All : (es acc : List TwapEntry) → All P es → All P acc → All P (onto es acc)
  unfolding onto
  onto-All [] acc a b = b
  onto-All (e ∷ es) acc a b = onto-All es (e ∷ acc) a.1 (a.0, b)

  pub collect-All :
      (now : ℕ) (window : ℤ) (es : List TwapEntry) → All P es → All P (collect now window es)
  unfolding collect
  collect-All now window [] a = tt
  collect-All now window (e ∷ es) a = elim (Bool-cases (ltb now e.block_time)) [
    | inl later ↦ rw later (collect-All now window es a.1)
    | inr past ↦ elim (Bool-cases (leb_ℤ (pos e.block_time +ℤ window) (pos now))) [
      | inl leading ↦ rw (past, leading) (a.0, tt)
      | inr within ↦ rw (past, within) (a.0, collect-All now window es a.1)
    ]
  ]

-- What is collected is not after now.
pub collect-past :
    (now : ℕ) (window : ℤ) (es : List TwapEntry)
    → All (λ e. e.block_time ≤ now) (collect now window es)
unfolding collect
collect-past now window [] = tt
collect-past now window (e ∷ es) =
    let rest = collect-past now window es in
    elim (Bool-cases (ltb now e.block_time)) [
      | inl later ↦ rw later rest
      | inr past ↦
          let le : e.block_time ≤ now = ground arith in
          elim (Bool-cases (leb_ℤ (pos e.block_time +ℤ window) (pos now))) [
            | inl leading ↦ rw (past, leading) (le, tt)
            | inr within ↦ rw (past, within) (le, rest)
          ]
    ]

module _ (R : TwapEntry → TwapEntry → Type 0) where
  pub collect-Ascends :
      (now : ℕ) (window : ℤ) (es : List TwapEntry)
      → Ascends R es
      → Ascends R (collect now window es)
  unfolding collect
  collect-Ascends now window [] a = tt
  collect-Ascends now window (e ∷ es) a =
      let rest = collect-Ascends now window es a.1 in
      elim (Bool-cases (ltb now e.block_time)) [
        | inl later ↦ rw later rest
        | inr past ↦ elim (Bool-cases (leb_ℤ (pos e.block_time +ℤ window) (pos now))) [
          | inl leading ↦ rw (past, leading) (tt, tt)
          | inr within ↦ rw (past, within) (collect-All (R e) now window es a.0, rest)
        ]
      ]

  pub onto-Ascends :
      (es acc : List TwapEntry)
      → Ascends (λ e f. R f e) es
      → Ascends R acc
      → All (λ e. All (R e) acc) es
      → Ascends R (onto es acc)
  unfolding onto
  onto-Ascends [] acc d a b = a
  onto-Ascends (e ∷ es) acc d a b = onto-Ascends es (e ∷ acc) d.1 (b.0, a) (both es d.0 b.1)
    where
      both :
          (fs : List TwapEntry)
          → All (λ f. R f e) fs
          → All (λ f. All (R f) acc) fs
          → All (λ f. All (R f) (e ∷ acc)) fs
      both [] p q = tt
      both (f ∷ fs) p q = ((p.0, q.0), both fs p.1 q.1)
