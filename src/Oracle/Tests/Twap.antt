-- ===== src/Oracle/Tests/Twap.antt =====
-- The average of two prices.
use vertix.Base.{ℕ, ◌⊎◌, ◌≤◌, ◌≡◌, refl, ◌+◌, ◌<◌, true, false, some, none, [], ◌∷◌, arith}
use vertix.Base.Bytes.{beq, bytes_lt}
use vertix.Base.Int.{pos, ◌+ℤ◌, ◌-ℤ◌}
use vertix.Base.Int64.{wrap64}
use vertix.Base.Results.{ok, err}
use vertix.Sdk.Model.{sample_sdk, sample-AverageLaws}
use vertix.Oracle.Types.{TwapEntry, pair_accepted, pair_not_accepted}
use vertix.Oracle.Keys.{twap_key, twap_prefix, unix_nano}
use vertix.Oracle.Keeper.{State, Context, get_params, time_sub, seconds}
use vertix.Oracle.Twap.{entries_of, onto, get_twap}
use vertix.Oracle.Twap.Order.{epoch, Keyed}
use vertix.Oracle.Twap.Bounds.{IsKept, IsPriced, Reads, latest, get_twap-Reads}
use package.vertix.Oracle.Tests.{vtx, sample_params, start}

abbrev early : TwapEntry
early = record { pair = vtx; price = b'+' ∷ 100 ∷ []; block_time = epoch + 1000 }

abbrev late : TwapEntry
late = record { pair = vtx; price = b'+' ∷ 200 ∷ []; block_time = epoch + 4000 }

abbrev pub two_prices : State
two_prices = record start {
  params = some sample_params;
  twap = (twap_key vtx (epoch + 1000), early) ∷ (twap_key vtx (epoch + 4000), late) ∷ [];
}

abbrev pub later_on : Context
later_on = record {
  height = pos 7;
  block_time = epoch + 5000;
  staking = none;
  slashes = λ call. true;
}

-- 100 for 3000 nanoseconds and 200 for 1000.
weighs_time : get_twap sample_sdk later_on vtx (pos 10000) two_prices ≡ ok (pos 125)
unfolding get_twap sample_sdk pair_accepted beq ◌+ℤ◌ seconds wrap64 time_sub vertix.Base.Int.◌-ℤ◌
weighs_time = refl

abbrev keys_ascend : bytes_lt (twap_key vtx (epoch + 1000)) (twap_key vtx (epoch + 4000)) ≡ true
unfolding bytes_lt unix_nano ◌-ℤ◌
keys_ascend = refl

kept_at :
    (t p : ℕ) (e : TwapEntry)
    → e.block_time ≡ epoch + t
    → e.price ≡ b'+' ∷ p ∷ []
    → t < 10000
    → 100 ≤ p
    → p ≤ 200
    → Keyed vtx (IsPriced sample_sdk 100 200) (twap_key vtx (epoch + t), e)
unfolding sample_sdk
kept_at t p e at priced soon low high own = (
  rw at refl,
  (omega (arith, at), omega (arith, at, soon)),
  record { price_of = p; price_is = rw priced refl; low = low; high = high },
)

kept : IsKept sample_sdk 100 200 vtx two_prices
unfolding sample_sdk
kept = record {
  sorted = ((keys_ascend, tt), (tt, tt));
  keyed = (
    kept_at 1000 100 early refl refl (omega arith) (omega arith) (omega arith),
    (kept_at 4000 200 late refl refl (omega arith) (omega arith) (omega arith), tt),
  );
}

get_twap-Reads_example :
    ((pair_accepted (get_params sample_sdk two_prices) vtx ≡ true)
      × Reads 100 200 later_on
          (get_params sample_sdk two_prices)
          (latest (epoch + 5000) (onto (entries_of (twap_prefix vtx) two_prices.twap) []))
          (get_twap sample_sdk later_on vtx (pos 10000) two_prices))
    ⊎ ((pair_accepted (get_params sample_sdk two_prices) vtx ≡ false)
        × (get_twap sample_sdk later_on vtx (pos 10000) two_prices ≡ err pair_not_accepted))
get_twap-Reads_example =
    get_twap-Reads sample_sdk sample-AverageLaws 100 200 later_on vtx (pos 10000) two_prices kept
