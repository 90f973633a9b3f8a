-- ===== src/Rwa/Genesis/Lists/Written.antt =====
-- x/rwa/keeper/genesis.go: the restrictions that `ExportGenesis` writes out name the members of
-- the lists.
use vertix.Base.{
  ◌<◌, ◌≡◌, refl, Bool, true, false, ◌&&◌, ◌||◌, Option, none, some, List, [], ◌∷◌, ◌++◌, map,
  length, All, arith,
}
use vertix.Base.Bytes.{Bytes, beq, beq→eq}
use vertix.Base.Map.{Map}
use vertix.Sdk.{Sdk, AddressLaws, IsAddress}
use vertix.Rwa.Types.{AssetRecord}
use vertix.Rwa.Keys.{allowlist_prefix, denylist_prefix, trim_prefix}
use vertix.Rwa.Keeper.{State}
use vertix.Rwa.Genesis.{
  Restriction, seen_id, member_of, visit, iterate_members, to_restriction, export_lists,
  export_restrictions,
}
use vertix.Rwa.Genesis.Members.{iterate_members-contains}
use vertix.Base.Entries.{has_key}
use vertix.Rwa.Sound.Store.{beq-asset_key}
use vertix.Rwa.Genesis.Records.{has_id}
use package.vertix.Rwa.Genesis.Lists.{names, same, on_list}

-- Every member is an address.
abbrev pub IsMembers : Map (Unit {0}) → Type 0
IsMembers m = All (λ (k, v). (a : Bytes) → member_of k ≡ some a → IsAddress a) m

All-visit :
    (o p : Option Bytes) (rest : List Bytes)
    → ((a : Bytes) → p ≡ some a → IsAddress a)
    → All IsAddress rest
    → All IsAddress (visit o p rest)
unfolding visit
All-visit none p rest ne more = more
All-visit (some tail) none rest ne more = more
All-visit (some tail) (some a) rest ne more = (ne a refl, more)

pub All-iterate_members :
    (prefix : Bytes) (m : Map (Unit {0})) → IsMembers m → All IsAddress (iterate_members prefix m)
unfolding iterate_members
All-iterate_members prefix [] ms = tt
All-iterate_members prefix ((k, v) ∷ m) ms =
    All-visit (trim_prefix prefix k) (member_of k) (iterate_members prefix m) ms.0
      (All-iterate_members prefix m ms.1)

both_lists :
    (deny : Bool) (id j a : Bytes) (s : State)
    → beq id j ≡ true
    → (same deny false && on_list false j a s) || (same deny true && on_list true j a s)
      ≡ on_list deny id a s
both_lists true id j a s e = rw (beq→eq id j e) refl
both_lists false id j a s e = rw (beq→eq id j e) (ground arith)

of_one :
    (deny : Bool) (id j a : Bytes) (s : State)
    → (same deny false && beq id j && on_list false j a s)
        || (same deny true && beq id j && on_list true j a s)
      ≡ beq id j && on_list deny id a s
of_one deny id j a s = ground (arith, both_lists deny id j a s)

module _ (sdk : Sdk) (laws : AddressLaws sdk) where
  names-append :
      (deny : Bool) (id a : Bytes) (rs ts : List Restriction)
      → names sdk deny id a (rs ++ ts) ≡ names sdk deny id a rs || names sdk deny id a ts
  unfolding names
  names-append deny id a [] ts = refl
  names-append deny id a (r ∷ rs) ts = ground (arith, names-append deny id a rs ts)

  names-map :
      (deny flag : Bool) (id a j : Bytes) (members : List Bytes)
      → All IsAddress members
      → names sdk deny id a (map (to_restriction sdk j flag) members)
        ≡ same deny flag && beq id j && seen_id a members
  unfolding names seen_id
  names-map deny flag id a j [] ne = ground arith
  names-map deny flag id a j (b ∷ members) ne =
      rw (laws.acc_round b ne.0) (ground (arith, names-map deny flag id a j members ne.1))

  -- The lists of one asset name its members.
  names-export_lists :
      (deny : Bool) (id a j : Bytes) (s : State)
      → length j < 256
      → IsMembers s.allowlist
      → IsMembers s.denylist
      → names sdk deny id a (export_lists sdk s j) ≡ beq id j && on_list deny id a s
  unfolding export_lists
  names-export_lists deny id a j s short allow refuse =
      let allowed = iterate_members (allowlist_prefix j) s.allowlist in
      let denied = iterate_members (denylist_prefix j) s.denylist in
      let first =
        names-map deny false id a j allowed
          (All-iterate_members (allowlist_prefix j) s.allowlist allow) in
      let second =
        names-map deny true id a j denied
          (All-iterate_members (denylist_prefix j) s.denylist refuse) in
      rw
        (names-append deny id a (map (to_restriction sdk j false) allowed)
          (map (to_restriction sdk j true) denied))
        (rw
          (
            first,
            second,
            iterate_members-contains 3 j a s.allowlist short,
            iterate_members-contains 4 j a s.denylist short,
          )
          (of_one deny id j a s))

  -- The restrictions of all assets name the members of the assets that are written out.
  pub names-export_restrictions :
      (deny : Bool) (id a : Bytes) (s : State) (rs : List AssetRecord)
      → All (λ r. length r.asset_id < 256) rs
      → IsMembers s.allowlist
      → IsMembers s.denylist
      → names sdk deny id a (export_restrictions sdk s rs) ≡ has_id id rs && on_list deny id a s
  unfolding export_restrictions names has_key
  names-export_restrictions deny id a s [] short allow refuse = refl
  names-export_restrictions deny id a s (r ∷ rs) short allow refuse = ground (
    arith,
    beq-asset_key id r.asset_id,
    names-append deny id a (export_lists sdk s r.asset_id) (export_restrictions sdk s rs),
    names-export_lists deny id a r.asset_id s short.0 allow refuse,
    names-export_restrictions deny id a s rs short.1 allow refuse,
  )

All-append {ℓ} :
    (P : Restriction → Type ℓ) (rs ts : List Restriction) → All P rs → All P ts → All P (rs ++ ts)
All-append P [] ts p q = q
All-append P (r ∷ rs) ts p q = (p.0, All-append P rs ts p.1 q)

-- A restriction whose id is as asked, and whose address can be read.
abbrev pub Meets {ℓ} : Sdk → (Bytes → Type ℓ) → Restriction → Type ℓ
Meets sdk P r = P r.asset_id × (a : Bytes) × (sdk.acc_address r.address ≡ some a)

module _ {ℓ} (sdk : Sdk) (laws : AddressLaws sdk) (P : Bytes → Type ℓ) where
  Meets-map :
      (j : Bytes) (flag : Bool) (members : List Bytes)
      → P j
      → All IsAddress members
      → All (Meets sdk P) (map (to_restriction sdk j flag) members)
  Meets-map j flag [] p vs = tt
  Meets-map j flag (b ∷ members) p vs =
      ((p, b, laws.acc_round b vs.0), Meets-map j flag members p vs.1)

  -- The restrictions are of the assets that are written out, and their addresses can be read.
  pub export_restrictions-Meets :
      (s : State) (rs : List AssetRecord)
      → All (λ r. P r.asset_id) rs
      → IsMembers s.allowlist
      → IsMembers s.denylist
      → All (Meets sdk P) (export_restrictions sdk s rs)
  unfolding export_restrictions export_lists
  export_restrictions-Meets s [] ps allowed denied = tt
  export_restrictions-Meets s (r ∷ rs) ps allowed denied =
      let id = r.asset_id in
      All-append (Meets sdk P) _ (export_restrictions sdk s rs)
        (All-append (Meets sdk P) _ _
          (Meets-map id false (iterate_members (allowlist_prefix id) s.allowlist) ps.0
            (All-iterate_members (allowlist_prefix id) s.allowlist allowed))
          (Meets-map id true (iterate_members (denylist_prefix id) s.denylist) ps.0
            (All-iterate_members (denylist_prefix id) s.denylist denied)))
        (export_restrictions-Meets s rs ps.1 allowed denied)
