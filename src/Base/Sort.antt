-- ===== src/Base/Sort.antt =====
-- `sort.Slice`, as insertion, and what does not depend on the order of a list.
use Prim.Native.Nat.{ℕ, ◌+◌, ◌≤◌}
use mathlib.Core.Path.{◌≡◌, refl, subst}
use mathlib.Core.Bool.{Bool, true, false}
use mathlib.Core.List.{List, [], ◌∷◌}
use native.Mathlib.Omega.{arith}
use vertix.Base.Tests.{if◌then◌else◌, Bool-cases}
use vertix.Base.Lists.{All}
use mathlib.Core.Logic.{inl, inr}

module _ {ℓ} {A : Type ℓ} where
  unfoldable pub insert_by : (A → A → Bool) → A → List A → List A
  insert_by less x [] = x ∷ []
  insert_by less x (y ∷ ys) =
      let rest = insert_by less x ys in if less y x then y ∷ rest else x ∷ y ∷ ys

  unfoldable pub sort_by : (A → A → Bool) → List A → List A
  unfolding insert_by
  sort_by less [] = []
  sort_by less (x ∷ xs) = insert_by less x (sort_by less xs)

  -- A sum over a list.
  unfoldable pub sum_by : (A → ℕ) → List A → ℕ
  sum_by f [] = 0
  sum_by f (x ∷ xs) = f x + sum_by f xs

  sum_by-insert_by :
      (f : A → ℕ) (less : A → A → Bool) (x : A) (xs : List A)
      → sum_by f (insert_by less x xs) ≡ f x + sum_by f xs
  unfolding insert_by sum_by
  sum_by-insert_by f less x [] = refl
  sum_by-insert_by f less x (y ∷ ys) = ground (arith, sum_by-insert_by f less x ys)

  pub sum_by-sort_by :
      (f : A → ℕ) (less : A → A → Bool) (xs : List A) → sum_by f (sort_by less xs) ≡ sum_by f xs
  unfolding sort_by sum_by
  sum_by-sort_by f less [] = refl
  sum_by-sort_by f less (x ∷ xs) =
      omega (arith, sum_by-insert_by f less x (sort_by less xs), sum_by-sort_by f less xs)

  pub sum_by-le : (f g : A → ℕ) (xs : List A) → All (λ x. f x ≤ g x) xs → sum_by f xs ≤ sum_by g xs
  unfolding sum_by
  sum_by-le f g [] a = omega arith
  sum_by-le f g (x ∷ xs) a = omega (arith, a.0, sum_by-le f g xs a.1)

  pub All-insert_by {κ} :
      (P : A → Type κ) (less : A → A → Bool) (x : A) (xs : List A)
      → P x
      → All P xs
      → All P (insert_by less x xs)
  unfolding insert_by
  All-insert_by P less x [] p a = (p, tt)
  All-insert_by P less x (y ∷ ys) p a = elim (Bool-cases (less y x)) [
    | inl after ↦ rw after (a.0, All-insert_by P less x ys p a.1)
    | inr before ↦ rw before (p, a)
  ]

  pub All-sort_by {κ} :
      (P : A → Type κ) (less : A → A → Bool) (xs : List A) → All P xs → All P (sort_by less xs)
  unfolding sort_by
  All-sort_by P less [] a = tt
  All-sort_by P less (x ∷ xs) a =
      All-insert_by P less x (sort_by less xs) a.0 (All-sort_by P less xs a.1)

  unsorted_insert {κ} :
      (P : A → Type κ) (less : A → A → Bool) (x : A) (xs : List A)
      → All P (insert_by less x xs)
      → P x × All P xs
  unfolding insert_by
  unsorted_insert P less x [] a = a
  unsorted_insert P less x (y ∷ ys) a = elim (Bool-cases (less y x)) [
    | inl after ↦
        let a' : P y × All P (insert_by less x ys) =
          subst (λ b. All P (if b then y ∷ insert_by less x ys else x ∷ y ∷ ys)) after a in
        let (p, rest) = unsorted_insert P less x ys a'.1 in (p, (a'.0, rest))
    | inr before ↦ subst (λ b. All P (if b then y ∷ insert_by less x ys else x ∷ y ∷ ys)) before a
  ]

  pub unsorted_sort {κ} :
      (P : A → Type κ) (less : A → A → Bool) (xs : List A) → All P (sort_by less xs) → All P xs
  unfolding sort_by
  unsorted_sort P less [] a = tt
  unsorted_sort P less (x ∷ xs) a =
      let (p, rest) = unsorted_insert P less x (sort_by less xs) a in
      (p, unsorted_sort P less xs rest)

  -- Each element stands in the relation to all that follow it.
  abbrev pub Ascends {κ} : (A → A → Type κ) → List A → Type κ
  Ascends R [] = Unit
  Ascends R (x ∷ xs) = All (R x) xs × Ascends R xs

  pub All-map {κ μ} :
      (P : A → Type κ) (Q : A → Type μ) (xs : List A) → ((x : A) → P x → Q x) → All P xs → All Q xs
  All-map P Q [] f a = tt
  All-map P Q (x ∷ xs) f a = (f x a.0, All-map P Q xs f a.1)

  Ascends-insert_by {κ} :
      (R : A → A → Type κ) (less : A → A → Bool)
      → ((x y z : A) → R x y → R y z → R x z)
      → ((x y : A) → less x y ≡ true → R x y)
      → ((x y : A) → less x y ≡ false → R y x)
      → (x : A) (xs : List A) → Ascends R xs
      → Ascends R (insert_by less x xs)
  unfolding insert_by
  Ascends-insert_by R less trans le ge x [] a = (tt, tt)
  Ascends-insert_by R less trans le ge x (y ∷ ys) a = elim (Bool-cases (less y x)) [
    | inl after ↦ rw after (
      All-insert_by (R y) less x ys (le y x after) a.0,
      Ascends-insert_by R less trans le ge x ys a.1,
    )
    | inr before ↦
        let first : R x y = ge y x before in
        rw before ((first, All-map (R y) (R x) ys (λ z. trans x y z first) a.0), a)
  ]

  pub Ascends-sort_by {κ} :
      (R : A → A → Type κ) (less : A → A → Bool)
      → ((x y z : A) → R x y → R y z → R x z)
      → ((x y : A) → less x y ≡ true → R x y)
      → ((x y : A) → less x y ≡ false → R y x)
      → (xs : List A) → Ascends R (sort_by less xs)
  unfolding sort_by
  Ascends-sort_by R less trans le ge [] = tt
  Ascends-sort_by R less trans le ge (x ∷ xs) =
      Ascends-insert_by R less trans le ge x (sort_by less xs)
        (Ascends-sort_by R less trans le ge xs)
