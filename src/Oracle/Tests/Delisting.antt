-- ===== src/Oracle/Tests/Delisting.antt =====
-- A pair that leaves the accept list while its price is stored.
use vertix.Base.{◌≡◌, refl, ◌↔◌, ◌⊎◌, true, false, some, [], ◌∷◌}
use vertix.Base.Bytes.{Bytes, beq, text}
use vertix.Base.Int.{pos}
use vertix.Base.Results.{ok}
use vertix.Pattern.{is_pair}
use vertix.Sdk.Model.{sample_sdk}
use vertix.Oracle.Types.{
  MsgUpdateParams, basic_update_params, validate, validate_dec_open_closed, validate_slash_rate,
  accept_list_changed, pair_accepted,
}
use vertix.Oracle.Keeper.{State, set_params}
use vertix.Oracle.Invariants.{prices_invariant}
use vertix.Oracle.Server.{update_params}
use vertix.Oracle.Server.Delisting.{Updated, AllListed, update_params_prices}
use package.vertix.Oracle.Tests.{or_else, vtx, sample_params, start}

abbrev btc : Bytes
btc = text "BTC:USD"

-- A price of a pair that is about to leave the accept list.
abbrev priced : State
priced = record start {
  params = some (record sample_params { accept_list = vtx ∷ btc ∷ [] });
  prices =
      (2 ∷ btc, record { pair = btc; price = b'+' ∷ 5 ∷ []; block_height = pos 2; block_time = 1 })
      ∷ [];
}

abbrev without_btc : MsgUpdateParams
without_btc = record { authority = text "gov"; params = sample_params }

delisted : State
unfolding sample_sdk update_params
delisted = or_else (update_params sample_sdk (text "gov") without_btc priced) priced

delists : update_params sample_sdk (text "gov") without_btc priced ≡ ok delisted
unfolding delisted beq basic_update_params validate validate_dec_open_closed validate_slash_rate
    is_pair set_params
delists = refl

-- The price stays, and breaks the invariant.
delisting_breaks : prices_invariant sample_sdk delisted ≡ true
unfolding delisted prices_invariant beq basic_update_params validate validate_dec_open_closed
    validate_slash_rate is_pair set_params accept_list_changed pair_accepted
delisting_breaks = refl

update_params_prices_example :
    Updated sample_sdk (text "gov") without_btc priced delisted
    × ((prices_invariant sample_sdk priced ≡ true)
        ⊎ ((prices_invariant sample_sdk priced ≡ false)
            × ((prices_invariant sample_sdk delisted ≡ false)
                ↔ AllListed sample_params priced.prices)))
update_params_prices_example =
    update_params_prices sample_sdk (text "gov") without_btc priced delisted delists
