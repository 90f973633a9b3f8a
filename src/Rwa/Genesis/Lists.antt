-- ===== src/Rwa/Genesis/Lists.antt =====
-- x/rwa/keeper/genesis.go: the transfer restrictions, written out and read in.
pub mod Written
use vertix.Base.{
  ℕ, ◌+◌, ◌%◌, ◌<◌, ◌≡◌, refl, ◌∙◌, Bool, true, false, ◌&&◌, ◌||◌, Option, none, some, List, [],
  ◌∷◌, ◌++◌, length, ◌==◌, if◌then◌else◌, All, arith, Bool-cases, inl, inr,
}
use vertix.Base.Bytes.{Bytes, beq, beq_refl, beq→eq}
use vertix.Base.Map.{contains, insert, contains-insert}
use vertix.Base.Results.{
  Result, ok, err, ◌>>=◌, guard, guard-then, or_err, or_err-then, or_err-some,
}
use vertix.Sdk.{Sdk}
use vertix.Rwa.Keys.{membership_key}
use vertix.Rwa.Keeper.{State}
use vertix.Rwa.Restriction.{add_allowlist, add_denylist, is_allowlisted, is_denylisted}
use package.vertix.Rwa.Genesis.{
  Restriction, seen_id, check_restrictions, add_restriction, add_restrictions, bad_address,
  unknown_asset,
}

abbrev pub same : Bool → Bool → Bool
same true b = b
same false true = false
same false false = true

-- The denylist, or the allowlist.
abbrev pub on_list : Bool → Bytes → Bytes → State → Bool
on_list true id a s = is_denylisted id a s
on_list false id a s = is_allowlisted id a s

abbrev pub is_address : Bytes → Option Bytes → Bool
is_address a none = false
is_address a (some b) = beq a b

abbrev pub IsShort : Restriction → Type 0
IsShort r = length r.asset_id < 256

-- Is an address put on a list of an asset by one of the restrictions?
unfoldable pub names : Sdk → Bool → Bytes → Bytes → List Restriction → Bool
names sdk deny id a [] = false
names sdk deny id a (r ∷ rs) =
    (same deny r.is_deny && beq id r.asset_id && is_address a (sdk.acc_address r.address))
    || names sdk deny id a rs

beq-length : (a b : Bytes) → beq a b ≡ true → length a ≡ length b
beq-length a b h = rw (beq→eq a b h) refl

beq-two : (x y a b : Bytes) → length x ≡ length y → beq (x ++ a) (y ++ b) ≡ beq x y && beq a b
unfolding beq
beq-two [] [] a b e = refl
beq-two [] (q ∷ y) a b e = absurd (omega arith)
beq-two (p ∷ x) [] a b e = absurd (omega arith)
beq-two (p ∷ x) (q ∷ y) a b e = ground (arith, beq-two x y a b)

-- The keys of two short ids are the same only for the same id and address.
pub beq-membership_key :
    (c : ℕ) (id j a b : Bytes)
    → length id < 256
    → length j < 256
    → beq (membership_key c id a) (membership_key c j b) ≡ beq id j && beq a b
unfolding beq
beq-membership_key c id j a b sid sj = ground (arith, beq-two id j a b, beq-length id j)

-- The lists after one address has been added to one of them.
on_list-add :
    (deny flag : Bool) (id a j b : Bytes) (s : State)
    → length id < 256
    → length j < 256
    → on_list deny id a (if flag then add_denylist j b s else add_allowlist j b s)
      ≡ (same deny flag && beq id j && beq a b) || on_list deny id a s
on_list-add true true id a j b s sid sj =
    rw (contains-insert (membership_key 4 id a) (membership_key 4 j b) tt s.denylist)
      (ground (arith, beq-membership_key 4 id j a b sid sj))
on_list-add true false id a j b s sid sj = refl
on_list-add false true id a j b s sid sj = refl
on_list-add false false id a j b s sid sj =
    rw (contains-insert (membership_key 3 id a) (membership_key 3 j b) tt s.allowlist)
      (ground (arith, beq-membership_key 3 id j a b sid sj))

add_keeps :
    (flag : Bool) (j b : Bytes) (s : State)
    → let t : State = if flag then add_denylist j b s else add_allowlist j b s in
      (t.params ≡ s.params) × (t.assets ≡ s.assets) × (t.bank ≡ s.bank)
add_keeps true j b s = (refl, refl, refl)
add_keeps false j b s = (refl, refl, refl)

-- What reading the restrictions has done.
pub record Joined (sdk : Sdk) (rs : List Restriction) (s t : State) : Type 0 where
  pub listed :
      (deny : Bool) (id a : Bytes)
      → length id < 256
      → on_list deny id a t ≡ names sdk deny id a rs || on_list deny id a s
  pub params_kept : t.params ≡ s.params
  pub assets_kept : t.assets ≡ s.assets
  pub bank_kept : t.bank ≡ s.bank

module _ (sdk : Sdk) where
  Joined-next :
      (r : Restriction) (rs : List Restriction) (b : Bytes) (s t : State)
      → sdk.acc_address r.address ≡ some b
      → IsShort r
      → Joined sdk rs (add_restriction r b s) t
      → Joined sdk (r ∷ rs) s t
  unfolding names
  Joined-next r rs b s t e short j = record {
    listed = λ deny id a sid. ground (
      arith,
      e,
      j.listed deny id a sid,
      on_list-add deny r.is_deny id a r.asset_id b s sid short,
    );
    params_kept = rw j.params_kept (add_keeps r.is_deny r.asset_id b s).0;
    assets_kept = rw j.assets_kept (add_keeps r.is_deny r.asset_id b s).1;
    bank_kept = rw j.bank_kept (add_keeps r.is_deny r.asset_id b s).2;
  }

  -- Restrictions that have passed the validation are all read in.
  pub add_restrictions-Joined :
      (seen : List Bytes) (rs : List Restriction) (s : State)
      → All IsShort rs
      → check_restrictions sdk seen rs ≡ ok tt
      → (t : State) × (add_restrictions sdk rs s ≡ ok t) × Joined sdk rs s t
  unfolding check_restrictions add_restrictions names
  add_restrictions-Joined seen [] s short h = (
    s,
    refl,
    record {
      listed = λ deny id a sid. refl;
      params_kept = refl;
      assets_kept = refl;
      bank_kept = refl;
    },
  )
  add_restrictions-Joined seen (r ∷ rs) s short h =
      let (known, h₁) = guard-then (seen_id r.asset_id seen) unknown_asset _ h in
      let (b, e, h₂) = or_err-then (sdk.acc_address r.address) bad_address _ h₁ in
      let (t, run, j) = add_restrictions-Joined seen rs (add_restriction r b s) short.1 h₂ in
      (
        t,
        or_err-some (sdk.acc_address r.address) bad_address _ e ∙ run,
        Joined-next r rs b s t e short.0 j,
      )
