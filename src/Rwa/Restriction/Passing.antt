-- ===== src/Rwa/Restriction/Passing.antt =====
-- The send restriction as the bank sees it.
use vertix.Base.{◌≡◌, refl, true, some, [], ◌∷◌, arith, All}
use vertix.Base.Bytes.{Bytes}
use vertix.Sdk.{Sdk, Coins}
use vertix.Rwa.Keeper.{State}
use package.vertix.Rwa.Restriction.{coin_allowed, send_restriction}

module _ (sdk : Sdk) (s : State) where
  -- The restriction never redirects a send.
  pub send_restriction_keeps :
      (from to : Bytes) (cs : Coins) (to' : Bytes)
      → send_restriction sdk s from to cs ≡ some to'
      → to' ≡ to
  unfolding send_restriction
  send_restriction_keeps from to [] to' h = cc
  send_restriction_keeps from to (c ∷ cs) to' h =
      ground (arith, send_restriction_keeps from to cs to')

  -- Every coin has been let through.
  abbrev pub EachAllowed : Bytes → Bytes → Coins → Type 0
  EachAllowed from to cs = All (λ c. coin_allowed sdk s from to c.denom ≡ true) cs

  pub send_restriction_sound :
      (from to : Bytes) (cs : Coins) (to' : Bytes)
      → send_restriction sdk s from to cs ≡ some to'
      → EachAllowed from to cs
  unfolding send_restriction
  send_restriction_sound from to [] to' h = tt
  send_restriction_sound from to (c ∷ cs) to' h =
      ground (arith, send_restriction_sound from to cs to')

  pub send_restriction_complete :
      (from to : Bytes) (cs : Coins)
      → EachAllowed from to cs
      → send_restriction sdk s from to cs ≡ some to
  unfolding send_restriction
  send_restriction_complete from to [] h = refl
  send_restriction_complete from to (c ∷ cs) h =
      ground (arith, send_restriction_complete from to cs)
