-- ===== src/Rwa/Genesis/Members.antt =====
-- x/rwa/keeper/restriction.go: what `IterateMembers` walks over.
use vertix.Base.{
  ℕ, ◌%◌, ◌<◌, ◌≡◌, refl, Bool, true, false, none, some, List, [], ◌∷◌, ◌++◌, length, drop,
  length-append, drop-append, if◌then◌else◌, ltb, arith, Option-cases, inl, inr, ap,
}
use vertix.Base.Bytes.{Bytes, beq}
use vertix.Base.Map.{Map, contains}
use vertix.Rwa.Keys.{membership_prefix, membership_key, trim_prefix}
use vertix.Rwa.Keys.Denoms.{trim_prefix-inv}
use package.vertix.Rwa.Genesis.{seen_id, member_of, visit, iterate_members}

drop_all : (xs ys : Bytes) (n : ℕ) → n ≡ length xs → drop n (xs ++ ys) ≡ ys
drop_all xs ys n e = rw e (drop-append xs ys)

-- An id of at most 255 bytes is skipped as a whole.
member_of-key :
    (c : ℕ) (id a : Bytes) → length id < 256 → member_of (membership_key c id a) ≡ some a
unfolding member_of
member_of-key c id a short =
    let fits : ltb (length (id ++ a)) (length id % 256) ≡ false =
      ground (arith, length-append id a) in
    rw fits (ap some (drop_all id a (length id % 256) (omega arith)))

pub beq-append : (p a b : Bytes) → beq (p ++ a) (p ++ b) ≡ beq a b
unfolding beq
beq-append [] a b = refl
beq-append (x ∷ p) a b = ground (arith, beq-append p a b)

beq-other : (p k a : Bytes) → trim_prefix p k ≡ none → beq (p ++ a) k ≡ false
unfolding beq trim_prefix
beq-other [] k a h = cc
beq-other (x ∷ p) [] a h = refl
beq-other (x ∷ p) (y ∷ k) a h = ground (arith, beq-other p k a)

beq-key : (k p a tail : Bytes) → k ≡ p ++ tail → beq (p ++ a) k ≡ beq a tail
beq-key k p a tail e = rw e (beq-append p a tail)

-- One turn, for a key whose member is read back.
seen_id-visit :
    (a k p : Bytes) (rest : List Bytes) (b : Bool)
    → ((tail : Bytes) → member_of (p ++ tail) ≡ some tail)
    → seen_id a rest ≡ b
    → seen_id a (visit (trim_prefix p k) (member_of k) rest) ≡ (if beq (p ++ a) k then true else b)
unfolding seen_id visit
seen_id-visit a k p rest b back h = elim (Option-cases (trim_prefix p k)) [
  | inl other ↦ rw (other, beq-other p k a other) h
  | inr (tail, e) ↦
      let key : k ≡ p ++ tail = trim_prefix-inv p k tail e in
      let member : member_of k ≡ some tail = rw key (back tail) in
      rw (e, member, beq-key k p a tail key) (ground (arith, h))
]

-- For an id of at most 255 bytes, the addresses that IterateMembers walks over are exactly those
-- whose membership key is in the store.
pub iterate_members-contains :
    (c : ℕ) (id a : Bytes) (m : Map (Unit {0}))
    → length id < 256
    → seen_id a (iterate_members (membership_prefix c id) m) ≡ contains (membership_key c id a) m
unfolding seen_id iterate_members contains
iterate_members-contains c id a [] short = refl
iterate_members-contains c id a ((k, v) ∷ m) short =
    seen_id-visit a k (membership_prefix c id) (iterate_members (membership_prefix c id) m)
      (contains (membership_key c id a) m) (λ tail. member_of-key c id tail short)
      (iterate_members-contains c id a m short)
