-- ===== src/Rwa/Queries/Listing.antt =====
-- x/rwa/keeper/grpc_query.go: the answers of `Restrictions` and `AssetsByIssuer`.
use vertix.Base.{
  ◌≡◌, refl, sym, ◌∙◌, ◌<◌, Option, none, some, List, [], ◌∷◌, ◌≢◌, map, length, All, arith,
  Bool-cases, inl, inr, Option-cases, ◌⊎◌,
}
use vertix.Base.Bytes.{Bytes, beq, beq→eq, beq_refl, beq_iff, ≢_of_beq}
use vertix.Base.Results.{Result, ok, err}
use vertix.Sdk.{Sdk, AddressLaws, IsAddress}
use vertix.Rwa.Types.{AssetRecord}
use vertix.Rwa.Keys.{allowlist_prefix, denylist_prefix}
use vertix.Rwa.Keeper.{State, get_asset}
use vertix.Rwa.Restriction.{is_allowlisted, is_denylisted}
use vertix.Rwa.Genesis.{seen_id, iterate_members}
use vertix.Rwa.Genesis.Members.{iterate_members-contains}
use vertix.Rwa.Genesis.Lists.Written.{IsMembers, All-iterate_members}
use package.vertix.Rwa.Queries.{
  QueryError, invalid_argument, not_found, QueryRestrictionsResponse, query_restrictions,
}

acc_string_inj :
    (sdk : Sdk) (a b : Bytes)
    → AddressLaws sdk
    → IsAddress a
    → IsAddress b
    → beq (sdk.acc_string a) (sdk.acc_string b) ≡ beq a b
acc_string_inj sdk a b laws va vb = elim (Bool-cases (beq a b)) [
  | inl same ↦ rw (beq→eq a b same) (beq_refl (sdk.acc_string b) ∙ sym (beq_refl b))
  | inr apart ↦ elim (Bool-cases (beq (sdk.acc_string a) (sdk.acc_string b))) [
    | inl same ↦
        let e : sdk.acc_address (sdk.acc_string a) ≡ some b =
          rw (beq→eq (sdk.acc_string a) (sdk.acc_string b) same) (laws.acc_round b vb) in
        ground (arith, e, laws.acc_round a va, beq_iff a b)
    | inr other ↦ ground arith
  ]
]

seen_id-map :
    (sdk : Sdk) (a : Bytes) (members : List Bytes)
    → AddressLaws sdk
    → IsAddress a
    → All IsAddress members
    → seen_id (sdk.acc_string a) (map sdk.acc_string members) ≡ seen_id a members
unfolding seen_id
seen_id-map sdk a [] laws va vs = refl
seen_id-map sdk a (b ∷ members) laws va vs =
    ground (arith, acc_string_inj sdk a b laws va vs.0, seen_id-map sdk a members laws va vs.1)

-- The answer for an asset: its policy, and the members of its lists by their bech32 names.
pub record Lists (sdk : Sdk) (s : State) (id : Bytes) (rec : AssetRecord)
    (a : QueryRestrictionsResponse) : Type 0 where
  pub policy : a.allow_all ≡ rec.allow_all
  pub allows :
      (m : Bytes) → IsAddress m → seen_id (sdk.acc_string m) a.allowlist ≡ is_allowlisted id m s
  pub denies :
      (m : Bytes) → IsAddress m → seen_id (sdk.acc_string m) a.denylist ≡ is_denylisted id m s

-- The answer by what is registered.
abbrev pub Answers :
    Sdk → State → Bytes → Option AssetRecord → Result QueryError QueryRestrictionsResponse → Type 0
Answers sdk s id none r = r ≡ err not_found
Answers sdk s id (some rec) r = (a : QueryRestrictionsResponse) × (r ≡ ok a) × Lists sdk s id rec a

-- In a store whose members are addresses, Restrictions answers a request for an id of at most 255
-- bytes in one of three ways: the empty id is an invalid argument; an asset that is not registered
-- is not found; for a registered one it returns its policy and the two lists, in which an address
-- is named exactly when it is on the list.
pub query_restrictions-Answers :
    (sdk : Sdk) (laws : AddressLaws sdk) (s : State) (id : Bytes)
    → length id < 256
    → IsMembers s.allowlist
    → IsMembers s.denylist
    → ((id ≡ []) × (query_restrictions sdk (some id) s ≡ err invalid_argument))
      ⊎ ((id ≢ []) × Answers sdk s id (get_asset id s) (query_restrictions sdk (some id) s))
unfolding query_restrictions
query_restrictions-Answers sdk laws s id short allowed denied = elim (Bool-cases (beq id [])) [
  | inl empty ↦ inl (beq→eq id [] empty, rw empty refl)
  | inr apart ↦ inr (
    ≢_of_beq id [] apart,
    elim (Option-cases (get_asset id s)) [
      | inl gone ↦ rw gone (rw (apart, gone) refl)
      | inr (rec, e) ↦
          let allowlist = iterate_members (allowlist_prefix id) s.allowlist in
          let denylist = iterate_members (denylist_prefix id) s.denylist in
          let answer : QueryRestrictionsResponse = record {
            allow_all = rec.allow_all;
            allowlist = map sdk.acc_string allowlist;
            denylist = map sdk.acc_string denylist;
          } in
          rw e (
            answer,
            rw (apart, e) refl,
            record {
              policy = refl;
              allows = λ m vm.
                  seen_id-map sdk m allowlist laws vm
                    (All-iterate_members (allowlist_prefix id) s.allowlist allowed)
                  ∙ iterate_members-contains 3 id m s.allowlist short;
              denies = λ m vm.
                  seen_id-map sdk m denylist laws vm
                    (All-iterate_members (denylist_prefix id) s.denylist denied)
                  ∙ iterate_members-contains 4 id m s.denylist short;
            },
          )
    ],
  )
]
