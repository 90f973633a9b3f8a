-- ===== src/Base/Map.antt =====
-- One prefix of a key-value store: its keys with their values, in ascending order of the keys.
use mathlib.Core.Path.{◌≡◌, refl}
use mathlib.Core.Bool.{Bool, true, false}
use mathlib.Core.Option.{Option, none, some}
use mathlib.Core.List.{List, [], ◌∷◌}
use Prim.Native.Nat.{ℕ, ◌+◌, ◌≤◌}
use native.Mathlib.Omega.{arith}
use mathlib.Core.Path.{subst}
use mathlib.Core.Logic.{inl, inr}
use vertix.Base.Tests.{if◌then◌else◌, Bool-cases}
use vertix.Base.Lists.{All}
use vertix.Base.Bytes.{
  Bytes, beq, beq_refl, bytes_lt, beq_iff, beq→eq, bytes_lt_irrefl, bytes_lt_trans, bytes_lt_total,
}

abbrev pub Map {ℓ} : Type ℓ → Type ℓ
Map V = List (Bytes × V)

pub none-some {ℓ} : {A : Type ℓ} {a : A} → none ≡ some a → ⊥
none-some h = cc

module _ {ℓ} {V : Type ℓ} where
  unfoldable pub lookup : Bytes → Map V → Option V
  lookup k [] = none
  lookup k ((j, v) ∷ m) = if beq k j then some v else lookup k m

  unfoldable pub contains : Bytes → Map V → Bool
  contains k [] = false
  contains k ((j, v) ∷ m) = if beq k j then true else contains k m

  -- `store.Set`
  unfoldable pub insert : Bytes → V → Map V → Map V
  insert k v [] = (k, v) ∷ []
  insert k v ((j, w) ∷ m) =
      let rest = insert k v m in
      if beq k j then (k, v) ∷ m else if bytes_lt k j then (k, v) ∷ (j, w) ∷ m else (j, w) ∷ rest

  -- `store.Delete`
  unfoldable pub erase : Bytes → Map V → Map V
  erase k [] = []
  erase k ((j, w) ∷ m) = let rest = erase k m in if beq k j then rest else (j, w) ∷ rest

  -- The keys ascend, so no key stands twice.
  abbrev pub IsAbove : Bytes → Map V → Type 0
  IsAbove k [] = Unit
  IsAbove k ((j, w) ∷ m) = (bytes_lt k j ≡ true) × IsAbove k m

  abbrev pub IsSorted : Map V → Type 0
  IsSorted [] = Unit
  IsSorted ((j, w) ∷ m) = IsAbove j m × IsSorted m

  pub lookup-insert :
      (j k : Bytes) (v : V) (m : Map V)
      → lookup j (insert k v m) ≡ (if beq j k then some v else lookup j m)
  unfolding lookup insert
  lookup-insert j k v [] = refl
  lookup-insert j k v ((i, w) ∷ m) =
      ground (arith, beq_iff j k, beq_iff k i, beq_iff j i, lookup-insert j k v m)

  pub lookup-erase :
      (j k : Bytes) (m : Map V) → lookup j (erase k m) ≡ (if beq j k then none else lookup j m)
  unfolding lookup erase
  lookup-erase j k [] = ground arith
  lookup-erase j k ((i, w) ∷ m) =
      ground (arith, beq_iff j k, beq_iff k i, beq_iff j i, lookup-erase j k m)

  pub contains-insert :
      (j k : Bytes) (v : V) (m : Map V)
      → contains j (insert k v m) ≡ (if beq j k then true else contains j m)
  unfolding contains insert
  contains-insert j k v [] = refl
  contains-insert j k v ((i, w) ∷ m) =
      ground (arith, beq_iff j k, beq_iff k i, beq_iff j i, contains-insert j k v m)

  pub contains-erase :
      (j k : Bytes) (m : Map V) → contains j (erase k m) ≡ (if beq j k then false else contains j m)
  unfolding contains erase
  contains-erase j k [] = ground arith
  contains-erase j k ((i, w) ∷ m) =
      ground (arith, beq_iff j k, beq_iff k i, beq_iff j i, contains-erase j k m)

  IsAbove-trans : (k j : Bytes) (m : Map V) → bytes_lt k j ≡ true → IsAbove j m → IsAbove k m
  IsAbove-trans k j [] h a = tt
  IsAbove-trans k j ((i, w) ∷ m) h a = (bytes_lt_trans k j i h a.0, IsAbove-trans k j m h a.1)

  pub lookup-above : (k : Bytes) (m : Map V) → IsAbove k m → lookup k m ≡ none
  unfolding lookup
  lookup-above k [] a = refl
  lookup-above k ((i, w) ∷ m) a = ground (arith, beq_iff k i, bytes_lt_irrefl i, lookup-above k m)

  IsAbove-insert :
      (i k : Bytes) (v : V) (m : Map V)
      → bytes_lt i k ≡ true
      → IsAbove i m
      → IsAbove i (insert k v m)
  unfolding insert
  IsAbove-insert i k v [] h a = (h, tt)
  IsAbove-insert i k v ((j, w) ∷ m) h a = ground (arith, IsAbove-insert i k v m)

  pub insert-IsSorted : (k : Bytes) (v : V) (m : Map V) → IsSorted m → IsSorted (insert k v m)
  unfolding insert
  insert-IsSorted k v [] s = (tt, tt)
  insert-IsSorted k v ((j, w) ∷ m) s = ground (
    arith,
    beq_iff k j,
    bytes_lt_total k j,
    IsAbove-insert j k v m,
    insert-IsSorted k v m,
    IsAbove-trans k j m,
  )

  IsAbove-erase : (i k : Bytes) (m : Map V) → IsAbove i m → IsAbove i (erase k m)
  unfolding erase
  IsAbove-erase i k [] a = tt
  IsAbove-erase i k ((j, w) ∷ m) a = ground (arith, IsAbove-erase i k m)

  pub erase-IsSorted : (k : Bytes) (m : Map V) → IsSorted m → IsSorted (erase k m)
  unfolding erase
  erase-IsSorted k [] s = tt
  erase-IsSorted k ((j, w) ∷ m) s = ground (arith, IsAbove-erase j k m, erase-IsSorted k m)

  -- A sum over the values.
  unfoldable pub sum_map : (V → ℕ) → Map V → ℕ
  sum_map f [] = 0
  sum_map f ((k, v) ∷ m) = f v + sum_map f m

  pub sum_map-insert :
      (f : V → ℕ) (k : Bytes) (v old : V) (m : Map V)
      → IsSorted m
      → lookup k m ≡ some old
      → sum_map f (insert k v m) + f old ≡ sum_map f m + f v
  unfolding sum_map insert lookup
  sum_map-insert f k v old [] s h = cc
  sum_map-insert f k v old ((j, w) ∷ m) s h =
      ground (arith, sum_map-insert f k v old m, lookup-above k m, IsAbove-trans k j m)

  pub sum_map-insert_new :
      (f : V → ℕ) (k : Bytes) (v : V) (m : Map V)
      → lookup k m ≡ none
      → sum_map f (insert k v m) ≡ sum_map f m + f v
  unfolding sum_map insert lookup
  sum_map-insert_new f k v [] h = omega arith
  sum_map-insert_new f k v ((j, w) ∷ m) h = ground (arith, sum_map-insert_new f k v m)

  pub sum_map-ge :
      (f : V → ℕ) (k : Bytes) (old : V) (m : Map V) → lookup k m ≡ some old → f old ≤ sum_map f m
  unfolding sum_map lookup
  sum_map-ge f k old [] h = cc
  sum_map-ge f k old ((j, w) ∷ m) h = ground (arith, sum_map-ge f k old m)

  pub All-lookup {κ} :
      (P : Bytes × V → Type κ) (k : Bytes) (v : V) (m : Map V)
      → All P m
      → lookup k m ≡ some v
      → P (k, v)
  unfolding lookup
  All-lookup P k v [] a h = absurd (none-some h)
  All-lookup P k v ((j, w) ∷ m) a h = elim (Bool-cases (beq k j)) [
    | inl same ↦
        let is_v : w ≡ v = ground arith in subst (λ x. P (k, x)) is_v (rw (beq→eq k j same) a.0)
    | inr apart ↦ All-lookup P k v m a.1 (ground arith)
  ]

  pub All-insert {κ} :
      (P : Bytes × V → Type κ) (k : Bytes) (v : V) (m : Map V)
      → All P m
      → P (k, v)
      → All P (insert k v m)
  unfolding insert
  All-insert P k v [] a p = (p, tt)
  All-insert P k v ((j, w) ∷ m) a p = elim (Bool-cases (beq k j)) [
    | inl same ↦ rw same (p, a.1)
    | inr apart ↦ elim (Bool-cases (bytes_lt k j)) [
      | inl before ↦ rw apart (rw before (p, a))
      | inr after ↦ rw apart (rw after (a.0, All-insert P k v m a.1 p))
    ]
  ]

  -- What holds of every value that is found holds of every entry.
  pub All-sorted {κ} :
      (P : Bytes × V → Type κ) (m : Map V)
      → IsSorted m
      → ((k : Bytes) (v : V) → lookup k m ≡ some v → P (k, v))
      → All P m
  unfolding lookup
  All-sorted P [] s f = tt
  All-sorted P ((j, w) ∷ m) s f = (
    f j w (rw (beq_refl j) refl),
    All-sorted P m s.1
        (λ k v h. f k v (ground (arith, beq_iff k j, beq→eq k j, lookup-above j m s.0, h))),
  )
