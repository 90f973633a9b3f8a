-- ===== src/Rwa/Keys.antt =====
-- x/rwa/types/keys.go and x/rwa/keeper/denom.go.
pub mod Denoms
use vertix.Base.{
  ℕ, ◌%◌, ◌==◌, Bool, Option, none, some, List, [], ◌∷◌, ◌++◌, length, drop, take, if◌then◌else◌,
}
use vertix.Base.Bytes.{Bytes, beq, text}
use vertix.Sdk.{Sdk}
use vertix.Rwa.Types.{rwa_denom_prefix}

abbrev pub asset_key : Bytes → Bytes
asset_key id = 1 ∷ id

-- `byte(len(...))` keeps the low eight bits.
abbrev pub membership_prefix : ℕ → Bytes → Bytes
membership_prefix prefix id = prefix ∷ (length id % 256) ∷ id

abbrev pub membership_key : ℕ → Bytes → Bytes → Bytes
membership_key prefix id addr = membership_prefix prefix id ++ addr

abbrev pub allowlist_key : Bytes → Bytes → Bytes
allowlist_key id addr = membership_key 3 id addr

abbrev pub denylist_key : Bytes → Bytes → Bytes
denylist_key id addr = membership_key 4 id addr

abbrev pub allowlist_prefix : Bytes → Bytes
allowlist_prefix id = membership_prefix 3 id

abbrev pub denylist_prefix : Bytes → Bytes
denylist_prefix id = membership_prefix 4 id

module _ (sdk : Sdk) where
  -- `none` is a panic.
  abbrev pub issuer_index_prefix : Bytes → Option Bytes
  issuer_index_prefix issuer = elim (sdk.length_prefix issuer) [
    | none ↦ none
    | some p ↦ some (2 ∷ p)
  ]

  abbrev pub issuer_index_key : Bytes → Bytes → Option Bytes
  issuer_index_key issuer id = elim (sdk.length_prefix issuer) [
    | none ↦ none
    | some p ↦ some ((2 ∷ p) ++ b'/' ∷ id)
  ]

unfoldable pub build_denom : Bytes → Bytes
build_denom id = rwa_denom_prefix ++ id

-- `strings.HasPrefix` and, on its success, `strings.TrimPrefix`.
unfoldable pub trim_prefix : Bytes → Bytes → Option Bytes
trim_prefix [] s = some s
trim_prefix (p ∷ ps) [] = none
trim_prefix (p ∷ ps) (c ∷ cs) = let rest = trim_prefix ps cs in if p == c then rest else none

-- An empty id is none.
unfoldable pub nonempty : Option Bytes → Option Bytes
nonempty none = none
nonempty (some id) = if beq id [] then none else some id

unfoldable pub parse_rwa_denom : Bytes → Option Bytes
unfolding trim_prefix nonempty
parse_rwa_denom denom = nonempty (trim_prefix rwa_denom_prefix denom)
