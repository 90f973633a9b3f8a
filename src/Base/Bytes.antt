-- ===== src/Base/Bytes.antt =====
-- Byte strings, which stand for Go's `string` and `[]byte`, with equality and the lexicographic
-- order of Go's `<` and of the key-value store.
use Prim.Native.Nat.{ℕ}
use Prim.Native.Char.{code}
use Prim.Native.String.{String}
use mathlib.Core.Path.{◌≡◌, refl}
use mathlib.Core.Logic.{◌↔◌, ◌≢◌}
use mathlib.Core.Bool.{Bool, true, false, ◌&&◌, ◌||◌}
use mathlib.Core.List.{List, [], ◌∷◌}
use native.Mathlib.Omega.{arith}
use vertix.Base.Tests.{ltb, ◌==◌}

abbrev pub Bytes : Type 0
Bytes = List ℕ

-- The bytes of an ASCII text.
abbrev pub text : String → Bytes
text String.[] = []
text (String.◌∷◌ first rest) = code first ∷ text rest

unfoldable pub beq : Bytes → Bytes → Bool
beq [] [] = true
beq [] (y ∷ ys) = false
beq (x ∷ xs) [] = false
beq (x ∷ xs) (y ∷ ys) = x == y && beq xs ys

-- Go's `a < b` on strings, and the order in which a store iterates over its keys.
unfoldable pub bytes_lt : Bytes → Bytes → Bool
bytes_lt [] [] = false
bytes_lt [] (y ∷ ys) = true
bytes_lt (x ∷ xs) [] = false
bytes_lt (x ∷ xs) (y ∷ ys) = ltb x y || (x == y && bytes_lt xs ys)

pub beq_refl : (a : Bytes) → beq a a ≡ true
unfolding beq
beq_refl [] = refl
beq_refl (x ∷ a) = ground (arith, beq_refl a)

pub beq→eq : (a b : Bytes) → beq a b ≡ true → a ≡ b
unfolding beq
beq→eq [] [] h = refl
beq→eq [] (y ∷ b) h = cc
beq→eq (x ∷ a) [] h = cc
beq→eq (x ∷ a) (y ∷ b) h = ground (arith, beq→eq a b)

pub beq_iff : (a b : Bytes) → (beq a b ≡ true) ↔ (a ≡ b)
beq_iff a b = (beq→eq a b, λ e. rw e (beq_refl b))

pub bytes_lt_irrefl : (a : Bytes) → bytes_lt a a ≡ false
unfolding bytes_lt
bytes_lt_irrefl [] = refl
bytes_lt_irrefl (x ∷ a) = ground (arith, bytes_lt_irrefl a)

pub bytes_lt_trans :
    (a b c : Bytes) → bytes_lt a b ≡ true → bytes_lt b c ≡ true → bytes_lt a c ≡ true
unfolding bytes_lt
bytes_lt_trans [] [] c h k = cc
bytes_lt_trans [] (y ∷ b) [] h k = cc
bytes_lt_trans [] (y ∷ b) (z ∷ c) h k = refl
bytes_lt_trans (x ∷ a) [] c h k = cc
bytes_lt_trans (x ∷ a) (y ∷ b) [] h k = cc
bytes_lt_trans (x ∷ a) (y ∷ b) (z ∷ c) h k = ground (arith, bytes_lt_trans a b c)

pub bytes_lt_total : (a b : Bytes) → beq a b ≡ false → bytes_lt a b ≡ false → bytes_lt b a ≡ true
unfolding beq bytes_lt
bytes_lt_total [] [] n h = cc
bytes_lt_total [] (y ∷ b) n h = cc
bytes_lt_total (x ∷ a) [] n h = refl
bytes_lt_total (x ∷ a) (y ∷ b) n h = ground (arith, bytes_lt_total a b)

pub ≢_of_beq : (a b : Bytes) → beq a b ≡ false → a ≢ b
≢_of_beq a b h e = cc (beq_refl b)
