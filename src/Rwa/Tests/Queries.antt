-- ===== src/Rwa/Tests/Queries.antt =====
-- Queries of x/rwa on a small chain.
use vertix.Base.{ℕ, ◌≡◌, refl, ◌≢◌, some, [], ◌∷◌, ◌++◌, ◌⊎◌, arith}
use vertix.Base.Bytes.{beq}
use vertix.Base.Map.{lookup}
use vertix.Base.Results.{ok, err}
use vertix.Sdk.Model.{sample_sdk, sample-AddressLaws}
use vertix.Rwa.Keeper.{State, get_asset}
use vertix.Rwa.Queries.{invalid_argument, query_restrictions, query_assets_by_issuer}
use vertix.Rwa.Queries.Listing.{Answers, query_restrictions-Answers}
use package.vertix.Rwa.Tests.{alice, house, live_house}
use package.vertix.Rwa.Tests.Restart.{listed, member_bob, member_alice}

query_restrictions-Answers_example :
    ((house ≡ []) × (query_restrictions sample_sdk (some house) listed ≡ err invalid_argument))
    ⊎ ((house ≢ [])
        × Answers sample_sdk listed house
            (get_asset house listed)
            (query_restrictions sample_sdk (some house) listed))
query_restrictions-Answers_example =
    query_restrictions-Answers sample_sdk sample-AddressLaws listed house (omega arith)
      (member_bob, tt) (member_alice, tt)

-- The index has the house under its issuer.
abbrev indexed : State
indexed = record listed { issuer_index = (2 ∷ 5 ∷ (alice ++ b'/' ∷ house), tt) ∷ [] }

lists_house :
    query_assets_by_issuer sample_sdk {P = ℕ} (λ keys. some (keys, 7)) (some alice) indexed
    ≡ ok (live_house ∷ [], 7)
unfolding query_assets_by_issuer sample_sdk beq lookup
lists_house = refl
