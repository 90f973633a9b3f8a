-- ===== src/Rwa/Queries.antt =====
-- x/rwa/keeper/grpc_query.go: the queries, which change nothing. A request that is `nil` is
-- `none`.
pub mod Listing
use vertix.Base.{ℕ, Bool, not, Option, none, some, List, [], ◌∷◌, map, ◌==◌, if◌then◌else◌}
use vertix.Base.Bytes.{Bytes, beq}
use vertix.Base.Map.{Map}
use vertix.Base.Results.{Result, ok, err, ◌>>=◌, ◌>>◌, guard, or_err}
use vertix.Sdk.{Sdk}
use vertix.Rwa.Types.{RwaParams, AssetRecord}
use vertix.Rwa.Keys.{allowlist_prefix, denylist_prefix, issuer_index_prefix, trim_prefix}
use vertix.Rwa.Keeper.{State, get_asset, get_params}
use vertix.Rwa.Genesis.{iterate_members}

pub data QueryError : Type 0 where
  invalid_argument not_found internal : QueryError
  -- a Go panic
  panicked : QueryError

pub record QueryRestrictionsResponse : Type 0 where
  pub allow_all : Bool
  pub allowlist : List Bytes
  pub denylist : List Bytes

-- A field of the request that must not be empty.
abbrev pub requested : Option Bytes → Result QueryError Bytes
requested none = err invalid_argument
requested (some field) = guard (not (beq field [])) invalid_argument >> ok field

-- `prefix.NewStore`: what follows the prefix in the keys that have it.
unfoldable pub keys_under : Bytes → Map (Unit {0}) → List Bytes
unfolding trim_prefix
keys_under prefix [] = []
keys_under prefix ((k, v) ∷ m) =
    let rest = keys_under prefix m in
    elim (trim_prefix prefix k) [ none ↦ rest | some tail ↦ tail ∷ rest ]

-- The id in a key of the index, without its slash.
abbrev pub strip_slash : Bytes → Bytes
strip_slash [] = []
strip_slash (c ∷ id) = if c == b'/' then id else c ∷ id

-- The records of the ids that are registered.
unfoldable pub records_of : State → List Bytes → List AssetRecord
records_of s [] = []
records_of s (key ∷ keys) =
    let rest = records_of s keys in
    elim (get_asset (strip_slash key) s) [ none ↦ rest | some rec ↦ rec ∷ rest ]

-- `Asset`
unfoldable pub query_asset : Option Bytes → State → Result QueryError AssetRecord
query_asset req s = do id ← requested req; or_err (get_asset id s) not_found

module _ (sdk : Sdk) where
  -- `AssetsByIssuer`; `paginate` picks the keys of the page, or fails.
  unfoldable pub query_assets_by_issuer {ℓ} :
      {P : Type ℓ}
      → (List Bytes → Option (List Bytes × P))
      → Option Bytes
      → State
      → Result QueryError (List AssetRecord × P)
  unfolding keys_under records_of
  query_assets_by_issuer paginate req s = do
    field ← requested req
    issuer ← or_err (sdk.acc_address field) invalid_argument
    prefix ← or_err (issuer_index_prefix sdk issuer) panicked
    page ← or_err (paginate (keys_under prefix s.issuer_index)) internal
    ok (records_of s page.0, page.1)

  -- `Restrictions`
  unfoldable pub query_restrictions :
      Option Bytes → State → Result QueryError QueryRestrictionsResponse
  unfolding iterate_members
  query_restrictions req s = do
    id ← requested req
    rec ← or_err (get_asset id s) not_found
    ok (record {
      allow_all = rec.allow_all;
      allowlist = map sdk.acc_string (iterate_members (allowlist_prefix id) s.allowlist);
      denylist = map sdk.acc_string (iterate_members (denylist_prefix id) s.denylist);
    })

  -- `Params`
  unfoldable pub query_params : Option (Unit {0}) → State → Result QueryError RwaParams
  query_params req s = do _ ← or_err req invalid_argument; ok (get_params sdk s)
