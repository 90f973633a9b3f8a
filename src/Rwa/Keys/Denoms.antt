-- ===== src/Rwa/Keys/Denoms.antt =====
-- The factory denoms: a denom for each asset id, from which the id can be read back.
use vertix.Base.{ℕ, ◌≡◌, refl, ◌≢◌, ◌↔◌, Option, none, some, [], ◌∷◌, ◌++◌, arith, ap}
use vertix.Base.Bytes.{Bytes, beq}
use vertix.Rwa.Types.{bond_denom, rwa_denom_prefix}
use package.vertix.Rwa.Keys.{build_denom, parse_rwa_denom, trim_prefix, nonempty}

pub trim_prefix-append : (p s : Bytes) → trim_prefix p (p ++ s) ≡ some s
unfolding trim_prefix
trim_prefix-append [] s = refl
trim_prefix-append (x ∷ p) s = ground (arith, trim_prefix-append p s)

pub trim_prefix-inv : (p d s : Bytes) → trim_prefix p d ≡ some s → d ≡ p ++ s
unfolding trim_prefix
trim_prefix-inv [] d s h = cc
trim_prefix-inv (x ∷ p) [] s h = cc
trim_prefix-inv (x ∷ p) (y ∷ d) s h = ground (arith, trim_prefix-inv p d s)

nonempty-some : (o : Option Bytes) (id : Bytes) → nonempty o ≡ some id → (o ≡ some id) × (id ≢ [])
unfolding nonempty beq
nonempty-some none id h = cc
nonempty-some (some []) id h = cc
nonempty-some (some (x ∷ r)) id h = (h, λ e. cc)

parse-build : (id : Bytes) → id ≢ [] → parse_rwa_denom (build_denom id) ≡ some id
unfolding parse_rwa_denom build_denom nonempty beq
parse-build [] ne = absurd (ne refl)
parse-build (x ∷ id) ne =
    rw (trim_prefix-append rwa_denom_prefix (x ∷ id), trim_prefix, nonempty) refl

parse_rwa_denom_sound :
    (d id : Bytes) → parse_rwa_denom d ≡ some id → (d ≡ build_denom id) × (id ≢ [])
unfolding parse_rwa_denom build_denom
parse_rwa_denom_sound d id h =
    let (e, ne) = nonempty-some (trim_prefix rwa_denom_prefix d) id h in
    (trim_prefix-inv rwa_denom_prefix d id e, ne)

-- A denom parses to an asset id exactly when it is the denom of that id, which is not empty.
pub parse_rwa_denom_iff :
    (d id : Bytes) → (parse_rwa_denom d ≡ some id) ↔ ((d ≡ build_denom id) × (id ≢ []))
parse_rwa_denom_iff d id = (parse_rwa_denom_sound d id, λ (e, ne). rw e (parse-build id ne))

pub build_denom_inj : (a b : Bytes) → build_denom a ≡ build_denom b → a ≡ b
unfolding build_denom
build_denom_inj a b e = cc

abbrev head_or : Bytes → ℕ
head_or [] = 0
head_or (x ∷ xs) = x

-- No factory denom is the bond denom.
pub build_denom-ne-bond : (id : Bytes) → bond_denom ≢ build_denom id
unfolding build_denom
build_denom-ne-bond id e = omega (arith, ap head_or e)
