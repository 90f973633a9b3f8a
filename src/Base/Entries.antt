-- ===== src/Base/Entries.antt =====
-- The values of a store, written out in a list and put back under their own keys.
use mathlib.Core.Path.{◌≡◌, refl, subst, sym}
use mathlib.Core.Logic.{inl, inr}
use mathlib.Core.Bool.{Bool, false, ◌||◌}
use mathlib.Core.Option.{none, some}
use mathlib.Core.List.{List, [], ◌∷◌}
use native.Mathlib.Omega.{arith}
use vertix.Base.Tests.{if◌then◌else◌, Bool-cases}
use vertix.Base.Lists.{All}
use vertix.Base.Bytes.{Bytes, beq, beq_refl, bytes_lt_irrefl, beq→eq, beq_iff}
use vertix.Base.Map.{Map, IsSorted, IsAbove, lookup, lookup-above, insert, lookup-insert}
use vertix.Base.Sort.{Ascends, All-insert_by, insert_by, sort_by, All-sort_by}

module _ {ℓ} {V : Type ℓ} where
  unfoldable pub values : Map V → List V
  values [] = []
  values ((k, v) ∷ m) = v ∷ values m

  pub All-values {κ} : (P : V → Type κ) (m : Map V) → All (λ (k, v). P v) m → All P (values m)
  unfolding values
  All-values P [] a = tt
  All-values P ((k, v) ∷ m) a = (a.0, All-values P m a.1)

module _ {ℓ} {V : Type ℓ} where
  pub values-All {κ} : (P : V → Type κ) (m : Map V) → All P (values m) → All (λ (k, v). P v) m
  unfolding values
  values-All P [] a = tt
  values-All P ((k, v) ∷ m) a = (a.0, values-All P m a.1)

  found_later :
      (j : Bytes) (w : V) (m n : Map V)
      → lookup j m ≡ none
      → All (λ (k, v). lookup k m ≡ some v) n
      → All (λ (k, v). lookup k ((j, w) ∷ m) ≡ some v) n
  unfolding lookup
  found_later j w m [] absent found = tt
  found_later j w m ((k, v) ∷ n) absent found =
      (ground (arith, beq_iff k j, found.0), found_later j w m n absent found.1)

  -- Every entry of a store is found under its key.
  pub entries_found : (m : Map V) → IsSorted m → All (λ (k, v). lookup k m ≡ some v) m
  unfolding lookup
  entries_found [] sorted = tt
  entries_found ((k, v) ∷ m) sorted = (
    rw (beq_refl k) refl,
    found_later k v m m (lookup-above k m sorted.0) (entries_found m sorted.1),
  )

module _ {ℓ} {V : Type ℓ} (key : V → Bytes) where
  -- Is there a value of the key?
  unfoldable pub has_key : Bytes → List V → Bool
  has_key k [] = false
  has_key k (v ∷ vs) = beq k (key v) || has_key k vs

  -- Every value is put under its key.
  unfoldable pub load : List V → Map V → Map V
  load [] m = m
  load (v ∷ vs) m = load vs (insert (key v) v m)

  -- The values are those of a map.
  abbrev pub IsFrom : Map V → List V → Type ℓ
  IsFrom m vs = All (λ v. lookup (key v) m ≡ some v) vs

  -- Every value stands under its own key.
  abbrev pub IsKeyed : Map V → Type 0
  IsKeyed m = All (λ (k, v). k ≡ key v) m

  has_key-insert_by :
      (k : Bytes) (less : V → V → Bool) (v : V) (vs : List V)
      → has_key k (insert_by less v vs) ≡ beq k (key v) || has_key k vs
  unfolding has_key insert_by
  has_key-insert_by k less v [] = refl
  has_key-insert_by k less v (x ∷ vs) = ground (arith, has_key-insert_by k less v vs)

  pub has_key-sort_by :
      (k : Bytes) (less : V → V → Bool) (vs : List V) → has_key k (sort_by less vs) ≡ has_key k vs
  unfolding has_key sort_by
  has_key-sort_by k less [] = refl
  has_key-sort_by k less (v ∷ vs) =
      ground (arith, has_key-insert_by k less v (sort_by less vs), has_key-sort_by k less vs)

  -- Values that are those of a map are found as the map has them.
  pub lookup-load :
      (m : Map V) (vs : List V) (t : Map V) (k : Bytes)
      → IsFrom m vs
      → lookup k (load vs t) ≡ (if has_key k vs then lookup k m else lookup k t)
  unfolding load has_key
  lookup-load m [] t k from = refl
  lookup-load m (v ∷ vs) t k from =
      let later = lookup-load m vs (insert (key v) v t) k from.1 in
      let first = lookup-insert k (key v) v t in
      elim (Bool-cases (beq k (key v))) [
        | inl same ↦
            let of_map : lookup k m ≡ some v = rw (beq→eq k (key v) same) from.0 in ground arith
        | inr apart ↦ ground arith
      ]

  entries-IsFrom :
      (m n : Map V) → IsKeyed n → All (λ (k, v). lookup k m ≡ some v) n → IsFrom m (values n)
  unfolding values
  entries-IsFrom m [] keyed found = tt
  entries-IsFrom m ((k, v) ∷ n) keyed found =
      (rw (sym keyed.0) found.0, entries-IsFrom m n keyed.1 found.1)

  -- A key that no value has is not in the map.
  pub lookup-values :
      (k : Bytes) (m : Map V) → IsKeyed m → has_key k (values m) ≡ false → lookup k m ≡ none
  unfolding has_key values lookup
  lookup-values k [] keyed absent = refl
  lookup-values k ((j, v) ∷ m) keyed absent =
      let apart : beq k (key v) ≡ false = ground arith in
      rw keyed.0 (rw apart (lookup-values k m keyed.1 (ground arith)))

  -- A map is its values, written out in any order and put back.
  pub lookup-load-values :
      (less : V → V → Bool) (m : Map V) (k : Bytes)
      → IsSorted m
      → IsKeyed m
      → lookup k (load (sort_by less (values m)) []) ≡ lookup k m
  unfolding lookup
  lookup-load-values less m k sorted keyed =
      let from =
        All-sort_by _ less (values m) (entries-IsFrom m m keyed (entries_found m sorted)) in
      let read = lookup-load m (sort_by less (values m)) [] k from in
      let same = has_key-sort_by k less (values m) in
      elim (Bool-cases (has_key k (values m))) [
        | inl here ↦ rw read (rw (same, here) refl)
        | inr absent ↦ rw read (rw (same, absent, lookup-values k m keyed absent) refl)
      ]

  -- No two values have the same key.
  abbrev pub IsDistinct : List V → Type 0
  IsDistinct vs = Ascends (λ v w. beq (key v) (key w) ≡ false) vs

  beq_sym : (a b : Bytes) → beq a b ≡ false → beq b a ≡ false
  beq_sym a b h = ground (arith, beq_iff a b, beq_iff b a)

  insert_by-IsDistinct :
      (less : V → V → Bool) (v : V) (vs : List V)
      → All (λ w. beq (key v) (key w) ≡ false) vs
      → IsDistinct vs
      → IsDistinct (insert_by less v vs)
  unfolding insert_by
  insert_by-IsDistinct less v [] apart d = (tt, tt)
  insert_by-IsDistinct less v (w ∷ vs) apart d = elim (Bool-cases (less w v)) [
    | inl after ↦ rw after (
      All-insert_by _ less v vs (beq_sym (key v) (key w) apart.0) d.0,
      insert_by-IsDistinct less v vs apart.1 d.1,
    )
    | inr before ↦ rw before (apart, d)
  ]

  pub sort_by-IsDistinct :
      (less : V → V → Bool) (vs : List V) → IsDistinct vs → IsDistinct (sort_by less vs)
  unfolding sort_by
  sort_by-IsDistinct less [] d = tt
  sort_by-IsDistinct less (v ∷ vs) d =
      insert_by-IsDistinct less v (sort_by less vs) (All-sort_by _ less vs d.0)
        (sort_by-IsDistinct less vs d.1)

  values_apart :
      (v : V) (m : Map V)
      → IsAbove (key v) m
      → IsKeyed m
      → All (λ w. beq (key v) (key w) ≡ false) (values m)
  unfolding values
  values_apart v [] above keyed = tt
  values_apart v ((j, w) ∷ m) above keyed = (
    ground (arith, keyed.0, above.0, bytes_lt_irrefl (key v), beq_iff (key v) (key w)),
    values_apart v m above.1 keyed.1,
  )

  pub values-IsDistinct : (m : Map V) → IsSorted m → IsKeyed m → IsDistinct (values m)
  unfolding values
  values-IsDistinct [] sorted keyed = tt
  values-IsDistinct ((k, v) ∷ m) sorted keyed = (
    values_apart v m (subst (λ x. IsAbove x m) keyed.0 sorted.0) keyed.1,
    values-IsDistinct m sorted.1 keyed.1,
  )
