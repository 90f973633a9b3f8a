-- ===== src/Rwa/Tests.antt =====
-- Runs of x/rwa on a small chain.
pub mod Books
pub mod Restart
mod Queries
use vertix.Base.{
  ℕ, ◌+◌, ◌≤◌, ◌≡◌, refl, ◌≢◌, Bool, true, false, Option, none, some, List, [], ◌∷◌, if◌then◌else◌,
  arith,
}
use vertix.Base.Bytes.{Bytes, beq, bytes_lt, text}
use vertix.Base.Int.{ℤ, pos, ◌+ℤ◌, ltb_ℤ, is_positive}
use vertix.Base.Map.{contains, lookup, insert, sum_map}
use vertix.Base.Results.{Result, ok, err}
use vertix.Sdk.{Sdk, Bank, Coins, one_dec, fee_collector_name}
use vertix.Sdk.Model.{sample_sdk, sample-DecimalLaws, sample-IntLaws, sample-BankLaws}
use vertix.Pattern.{is_pair, is_slug}
use vertix.Rwa.Types.{active, RwaParams, AssetRecord, bond_denom, module_name, validate_params}
use vertix.Rwa.Keys.{asset_key, build_denom, parse_rwa_denom}
use vertix.Rwa.Messages.{
  MsgRegisterAsset, MsgAttestAsset, MsgMintRwa, MsgTransferRwa, MsgSettleRwa, basic_register,
  basic_attest, basic_mint, basic_transfer, basic_settle,
}
use vertix.Rwa.Keeper.{State, Context, get_asset, set_asset}
use vertix.Rwa.Restriction.{send_restriction, check_transfer_allowed, check_policy}
use vertix.Rwa.Funds.{lock_bond, release_bond, collect_fee, compute_fee}
use vertix.Rwa.Funds.Effect.{Setting, escrow}
use vertix.Rwa.Server.Register.{register_asset, attest_asset, require_issuer}
use vertix.Rwa.Server.Tokens.{mint_rwa, transfer_rwa}
use vertix.Rwa.Server.Closing.{settle_rwa, burn_back}
use vertix.Rwa.Sound.Handlers.{IsUser}
use vertix.Rwa.Sound.Chain.{Step, Reach, IsFresh, here, next, register, attest, mint, transfer}

abbrev pub alice : Bytes
alice = text "alice"

abbrev pub bob : Bytes
bob = text "bob"

abbrev pub house : Bytes
house = text "house-1"

-- Alice has 100 `uvtx`.
abbrev sample_bank : Bank
sample_bank = record {
  balance = λ a d. if beq a alice then (if beq d bond_denom then 100 else 0) else 0;
  supply = λ d. if beq d bond_denom then 100 else 0;
}

-- A bond of at least ten, and fees of a tenth.
abbrev pub tenth : RwaParams
tenth = record {
  min_issuer_bond = b'+' ∷ 10 ∷ [];
  mint_fee_rate = b'+' ∷ 100_000_000_000_000_000 ∷ [];
  settle_fee_rate = b'+' ∷ 100_000_000_000_000_000 ∷ [];
}

abbrev pub start : State
start = record {
  params = some tenth;
  assets = [];
  issuer_index = [];
  allowlist = [];
  denylist = [];
  bank = sample_bank;
  events = [];
}

abbrev pub sample_ctx : Context
sample_ctx = record { block_time = 7; get_price = λ p. some (pos 5) }

abbrev pub open_house : MsgRegisterAsset
open_house = record {
  issuer = alice;
  asset_id = house;
  name = text "House";
  description = [];
  oracle_pair = text "HSE:USD";
  bond = b'+' ∷ 20 ∷ [];
}

abbrev pub or_else {ℓ κ} : {E : Type ℓ} {A : Type κ} → Result E A → A → A
or_else (ok a) b = a
or_else (err e) b = b

unfoldable pub opened : State
unfolding sample_sdk register_asset
opened = or_else (register_asset sample_sdk sample_ctx open_house start) start

abbrev pub attest_house : MsgAttestAsset
attest_house = record { issuer = alice; asset_id = house }

pub vouched : State
unfolding opened sample_sdk attest_asset
vouched = or_else (attest_asset sample_sdk sample_ctx attest_house opened) start

-- The house once 100 tokens of it have been minted.
abbrev pub live_house : AssetRecord
live_house = record {
  asset_id = house;
  issuer = alice;
  name = text "House";
  description = [];
  status = active;
  oracle_pair = text "HSE:USD";
  denom = text "rwa/house-1";
  bond = b'+' ∷ 20 ∷ [];
  notional_minted = b'+' ∷ 100 ∷ [];
  allow_all = true;
  attested_price = b'+' ∷ 5 ∷ [];
  attested_at = 7;
  created_at = 7;
  settled_at = 0;
}

-- Alice has the tokens, and her bond is in escrow.
abbrev pub live : State
live = record {
  params = some tenth;
  assets = (asset_key house, live_house) ∷ [];
  issuer_index = [];
  allowlist = [];
  denylist = [];
  bank = record {
    balance = λ a d.
        if beq a alice
        then (if beq d bond_denom then 80 else if beq d (text "rwa/house-1") then 100 else 0)
        else if beq a (0 ∷ module_name)
        then (if beq d bond_denom then 20 else 0)
        else 0;
    supply = λ d. if beq d bond_denom then 100 else if beq d (text "rwa/house-1") then 100 else 0;
  };
  events = [];
}

abbrev pub to_bob : MsgTransferRwa
to_bob = record { sender = alice; recipient = bob; asset_id = house; amount = b'+' ∷ 30 ∷ [] }

pub paid_bob : State
unfolding sample_sdk transfer_rwa
paid_bob = or_else (transfer_rwa sample_sdk to_bob live) start

abbrev pub close_house : MsgSettleRwa
close_house = record { issuer = alice; asset_id = house }

pub closed : State
unfolding sample_sdk settle_rwa
closed = or_else (settle_rwa sample_sdk sample_ctx close_house live) start

pub opens : register_asset sample_sdk sample_ctx open_house start ≡ ok opened
unfolding opened register_asset sample_sdk basic_register is_slug is_pair lock_bond set_asset beq
    lookup send_restriction parse_rwa_denom
opens = refl

pub vouches : attest_asset sample_sdk sample_ctx attest_house opened ≡ ok vouched
unfolding vouched basic_attest is_slug require_issuer lookup basic_register beq is_pair lock_bond
    send_restriction parse_rwa_denom set_asset insert
vouches = refl

pub pays_bob : transfer_rwa sample_sdk to_bob live ≡ ok paid_bob
unfolding paid_bob transfer_rwa sample_sdk basic_transfer is_slug lookup beq send_restriction
    parse_rwa_denom check_transfer_allowed check_policy contains
pays_bob = refl

pub closes : settle_rwa sample_sdk sample_ctx close_house live ≡ ok closed
unfolding closed settle_rwa sample_sdk basic_settle is_slug require_issuer lookup beq collect_fee
    compute_fee send_restriction parse_rwa_denom check_transfer_allowed check_policy burn_back
    release_bond set_asset insert
closes = refl
