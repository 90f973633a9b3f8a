-- ===== src/Wiring/Tests.antt =====
-- A house that is attested against a price of the oracle.
use vertix.Base.{◌≡◌, refl, some, [], ◌∷◌}
use vertix.Base.Bytes.{Bytes, beq, text}
use vertix.Base.Int.{pos}
use vertix.Base.Map.{lookup, insert}
use vertix.Base.Results.{ok}
use vertix.Sdk.Model.{sample_sdk}
use vertix.Pattern.{is_slug, is_pair}
use vertix.Base.Int64.{wrap64}
use vertix.Oracle.Types.{pair_accepted}
use vertix.Oracle.Keeper.{get_price, seconds, time_sub}
use vertix.Rwa.Messages.{basic_attest, basic_register}
use vertix.Rwa.Funds.{lock_bond}
use vertix.Rwa.Restriction.{send_restriction}
use vertix.Rwa.Keys.{parse_rwa_denom}
use vertix.Oracle.Tests.{sample_params, sample_ctx}
use vertix.Rwa.Keeper.{State, set_asset}
use vertix.Rwa.Server.Register.{attest_asset, require_issuer}
use vertix.Rwa.Sound.{IsSound}
use vertix.Rwa.Sound.Chain.{IsFresh-IsSound, Reach-IsSound}
use vertix.Rwa.Tests.{or_else, opened, attest_house}
use vertix.Rwa.Tests.Books.{setting, no_authority, start-IsFresh, to_opened}
use package.vertix.Wiring.{rwa_context}
use package.vertix.Wiring.Attesting.{Attested, attest_asset-Attested}

abbrev house_pair : Bytes
house_pair = text "HSE:USD"

-- A fresh price of the house.
abbrev priced : vertix.Oracle.Keeper.State
priced = record vertix.Oracle.Tests.start {
  params = some (record sample_params { accept_list = house_pair ∷ [] });
  prices =
      (
        2 ∷ house_pair,
        record {
          pair = house_pair;
          price = b'+' ∷ 5 ∷ [];
          block_height = pos 2;
          block_time = 63_000_000_000_000_000_000;
        },
      )
      ∷ [];
}

opened-IsSound : IsSound sample_sdk opened
opened-IsSound =
    Reach-IsSound sample_sdk setting no_authority to_opened
      (IsFresh-IsSound sample_sdk vertix.Rwa.Tests.start start-IsFresh)

vouched : State
unfolding attest_asset sample_sdk
vouched =
    or_else (attest_asset sample_sdk (rwa_context sample_sdk sample_ctx priced) attest_house opened)
      opened

vouches :
    attest_asset sample_sdk (rwa_context sample_sdk sample_ctx priced) attest_house opened
    ≡ ok vouched
unfolding vouched basic_attest is_slug require_issuer lookup opened basic_register beq is_pair
    lock_bond send_restriction parse_rwa_denom set_asset insert get_price pair_accepted seconds
    wrap64 time_sub
vouches = refl

attest_asset-Attested_example : Attested sample_sdk sample_ctx priced attest_house opened vouched
attest_asset-Attested_example =
    attest_asset-Attested sample_sdk sample_ctx priced attest_house opened vouched opened-IsSound
      vouches
