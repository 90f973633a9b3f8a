-- ===== src/Rwa/Tests/Restart.antt =====
-- A small chain of x/rwa that is exported and started again.
use vertix.Base.{◌⊎◌, ◌≡◌, refl, subst, ◌++◌, arith, some, [], ◌∷◌}
use vertix.Base.Bytes.{Bytes, beq}
use vertix.Base.Int.{pos}
use vertix.Base.Results.{ok, err}
use vertix.Base.Sort.{sort_by}
use vertix.Sdk.{IsAddress}
use vertix.Sdk.Model.{sample_sdk, sample-AddressLaws}
use vertix.Pattern.{is_slug, is_pair}
use vertix.Rwa.Types.{validate_params}
use vertix.Rwa.Keys.{allowlist_key, denylist_key}
use vertix.Rwa.Keeper.{State}
use vertix.Rwa.Genesis.{
  GenesisError, member_of, export_genesis, init_genesis, validate_genesis, bond_below_min,
}
use vertix.Rwa.Genesis.Restoring.{IsExportable, HasBonds, Restored}
use vertix.Rwa.Genesis.Round.{empty_store, registry_restarts}
use package.vertix.Rwa.Tests.{alice, bob, house, tenth, live}
use package.vertix.Rwa.Tests.Books.{live-IsSound}

-- Bob may hold the house, and Alice may not.
abbrev pub listed : State
listed = record live {
  allowlist = (allowlist_key house bob, tt) ∷ [];
  denylist = (denylist_key house alice, tt) ∷ [];
}

pub member_bob : (a : Bytes) → member_of (allowlist_key house bob) ≡ some a → IsAddress a
unfolding member_of
member_bob a e =
    let is_bob : bob ≡ a = ground arith in subst IsAddress is_bob ((λ empty. cc), omega arith)

pub member_alice : (a : Bytes) → member_of (denylist_key house alice) ≡ some a → IsAddress a
unfolding member_of
member_alice a e =
    let is_alice : alice ≡ a = ground arith in subst IsAddress is_alice ((λ empty. cc), omega arith)

listed-IsExportable : IsExportable sample_sdk listed
unfolding sample_sdk member_of is_slug is_pair validate_params
listed-IsExportable = record {
  sound = record {
    sorted = live-IsSound.sorted;
    records = live-IsSound.records;
    entries = live-IsSound.entries;
    covered = live-IsSound.covered;
    tracked = live-IsSound.tracked;
  };
  params_valid = refl;
  formed = (
    record {
      slug = refl;
      issuer = alice;
      issuer_is = refl;
      specified = refl;
      pair = refl;
      bond = pos 20;
      bond_is = refl;
      minted = pos 100;
      minted_is = refl;
    },
    tt,
  );
  indexed = ((alice, 2 ∷ 5 ∷ (alice ++ b'/' ∷ house), refl, refl), tt);
  allowed = (member_bob, tt);
  denied = (member_alice, tt);
}

listed-validates : validate_genesis sample_sdk (export_genesis sample_sdk listed) ≡ ok tt
unfolding validate_genesis validate_params sample_sdk export_genesis sort_by is_slug is_pair beq
listed-validates = refl

registry_restarts_example :
    (HasBonds sample_sdk listed
      × (t : State) × (init_genesis sample_sdk
            (export_genesis sample_sdk listed)
            (empty_store live.bank)
          ≡ ok t)
      × Restored sample_sdk listed t
      × (t.bank ≡ live.bank))
    ⊎ ((HasBonds sample_sdk listed → ⊥)
        × (e : GenesisError) × (init_genesis sample_sdk
              (export_genesis sample_sdk listed)
              (empty_store live.bank)
            ≡ err e))
registry_restarts_example =
    registry_restarts sample_sdk sample-AddressLaws listed live.bank listed-IsExportable

-- The parameters after the minimum bond has been raised from ten to thirty.
abbrev raised : State
raised = record listed {
  params = some (record {
    min_issuer_bond = b'+' ∷ 30 ∷ [];
    mint_fee_rate = tenth.mint_fee_rate;
    settle_fee_rate = tenth.settle_fee_rate;
  });
}

raised-refused : validate_genesis sample_sdk (export_genesis sample_sdk raised) ≡ err bond_below_min
unfolding validate_genesis validate_params sample_sdk export_genesis sort_by is_slug is_pair beq
raised-refused = refl
