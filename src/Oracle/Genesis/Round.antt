-- ===== src/Oracle/Genesis/Round.antt =====
-- x/oracle/keeper/genesis.go: a chain that is exported and started again.
use vertix.Base.{
  ◌≡◌, refl, ◌∙◌, ap, subst, ◌≢◌, true, false, ◌||◌, none, some, List, [], ◌∷◌, leb, All, arith,
  Bool-cases, inl, inr, ℕ,
}
use vertix.Base.Bytes.{Bytes, beq}
use vertix.Base.Map.{Map, IsSorted, lookup, none-some}
use vertix.Base.Results.{ok, check-then}
use vertix.Base.Sort.{sort_by, All-sort_by}
use vertix.Base.Entries.{
  values, All-values, has_key, has_key-sort_by, load, IsKeyed, entries_found, lookup-load-values,
}
use vertix.Sdk.{Sdk, AddressLaws, IsAddress}
use vertix.Oracle.Types.{AggregatedPrice, validate}
use vertix.Oracle.Keys.{aggregated_price_key, valoper_to_feeder_key}
use vertix.Oracle.Keeper.{
  State, Context, get_params, set_params, get_aggregated_price, set_aggregated_price,
}
use vertix.Oracle.Feeder.{feeder_or, get_feeder_for_validator, resolve_authorized_feeder}
use vertix.Oracle.Feeder.Binding.{IsBound, validator_of, beq-valoper_key}
use package.vertix.Oracle.Genesis.{
  GenesisState, lift, check_times, set_prices, set_feeders, check_validator, validate_genesis,
  init_genesis, pair_lt, validator_lt, after_byte, add_feeder, all_feeders, export_genesis,
}
use package.vertix.Oracle.Genesis.Feeders.{
  lift-ok, IsOf, Delegated, validator_name, val_string_inj, set_feeders-Delegated,
}

abbrev pub price_key : AggregatedPrice → Bytes
price_key p = aggregated_price_key p.pair

-- A delegation in the store: a validator that the staking keeper knows, and an account.
abbrev pub IsDelegation : Context → Bytes × Bytes → Type 0
IsDelegation ctx (k, feeder) =
    (v : Bytes) × (k ≡ valoper_to_feeder_key v)
    × IsAddress v
    × IsAddress feeder
    × (check_validator ctx.staking v ≡ ok tt)

-- What the chain is before the export, seen from the block that starts it again.
pub record IsExportable (ctx : Context) (s : State) : Type 0 where
  pub bound : IsBound s
  pub prices_sorted : IsSorted s.prices
  pub prices_keyed : IsKeyed price_key s.prices
  pub prices_past : All (λ (k, p). leb p.block_time ctx.block_time ≡ true) s.prices
  pub feeders_sorted : IsSorted s.valoper_to_feeder
  pub delegations : All (IsDelegation ctx) s.valoper_to_feeder

-- A store with nothing of the module in it.
abbrev pub empty_store : State
empty_store = record {
  params = none;
  feeds = [];
  prices = [];
  miss_counters = [];
  total_windows = [];
  feeder_to_valoper = [];
  valoper_to_feeder = [];
  twap = [];
  slash_calls = [];
  events = [];
}

-- A chain that has been started again: what it answers is as before.
pub record Restored (sdk : Sdk) (s t : State) : Type 0 where
  pub params_same : get_params sdk t ≡ get_params sdk s
  pub prices_same :
      (now : Context) (pair : Bytes)
      → get_aggregated_price sdk now pair t ≡ get_aggregated_price sdk now pair s
  pub feeders_same :
      (v : Bytes) → IsAddress v → resolve_authorized_feeder v t ≡ resolve_authorized_feeder v s
  pub bound : IsBound t
  pub nothing_else :
      (f v : Bytes) → validator_of f t ≡ some v → get_feeder_for_validator v t ≡ some f

set_prices-load :
    (ps : List AggregatedPrice) (s : State)
    → set_prices ps s ≡ record s { prices = load price_key ps s.prices }
unfolding set_prices load
set_prices-load [] s = refl
set_prices-load (p ∷ ps) s = set_prices-load ps (set_aggregated_price p s)

check_times-past :
    (now : ℕ) (ps : List AggregatedPrice)
    → All (λ p. leb p.block_time now ≡ true) ps
    → check_times now ps ≡ ok tt
unfolding check_times
check_times-past now [] past = refl
check_times-past now (p ∷ ps) past = rw past.0 (check_times-past now ps past.1)

after_byte-key : (v : Bytes) → v ≢ [] → after_byte (valoper_to_feeder_key v) ≡ some v
after_byte-key [] ne = absurd (ne refl)
after_byte-key (x ∷ v) ne = refl

module _ (sdk : Sdk) (laws : AddressLaws sdk) (ctx : Context) where
  all_feeders-IsOf :
      (s : State) (m : Map Bytes)
      → All (IsDelegation ctx) m
      → All (λ (k, f). lookup k s.valoper_to_feeder ≡ some f) m
      → All (IsOf sdk ctx s) (all_feeders sdk m)
  unfolding all_feeders add_feeder
  all_feeders-IsOf s [] ds found = tt
  all_feeders-IsOf s ((k, f) ∷ m) ((v, key, av, af, known), ds) found =
      let after : after_byte k ≡ some v = rw key (after_byte-key v av.0) in
      let first : IsOf sdk ctx s
          (record { validator = sdk.val_string v; feeder = sdk.acc_string f }) =
        record {
          val = v;
          feeder = f;
          named = refl;
          val_valid = av;
          val_read = laws.val_round v av;
          feeder_read = laws.acc_round f af;
          delegated = subst (λ x. lookup x s.valoper_to_feeder ≡ some f) key found.0;
          known = known;
        } in
      rw after (first, all_feeders-IsOf s m ds found.1)

  has_name-none :
      (v : Bytes) (m : Map Bytes)
      → IsAddress v
      → All (IsDelegation ctx) m
      → has_key validator_name (sdk.val_string v) (all_feeders sdk m) ≡ false
      → lookup (valoper_to_feeder_key v) m ≡ none
  unfolding all_feeders add_feeder has_key lookup
  has_name-none v [] av ds absent = refl
  has_name-none v ((k, f) ∷ m) av ((w, key, aw, af, known), ds) absent =
      let after : after_byte k ≡ some w = rw key (after_byte-key w aw.0) in
      let names : has_key validator_name (sdk.val_string v) (all_feeders sdk ((k, f) ∷ m))
          ≡ beq (sdk.val_string v) (sdk.val_string w)
            || has_key validator_name (sdk.val_string v) (all_feeders sdk m) =
        rw after refl in
      let apart : beq (valoper_to_feeder_key v) (valoper_to_feeder_key w) ≡ false =
        ground (arith, absent, names, beq-valoper_key v w, val_string_inj sdk v w laws av aw) in
      rw key (rw apart (has_name-none v m av ds (ground arith)))

  -- A genesis that has passed the validation.
  validated : (gs : GenesisState) → validate_genesis sdk gs ≡ ok tt → validate sdk gs.params ≡ ok tt
  unfolding validate_genesis
  validated gs h =
      lift-ok (validate sdk gs.params) tt (check-then (lift (validate sdk gs.params)) _ h).0

  price_same :
      (s t : State) (now : Context) (pair : Bytes)
      → get_params sdk t ≡ get_params sdk s
      → lookup (aggregated_price_key pair) t.prices ≡ lookup (aggregated_price_key pair) s.prices
      → get_aggregated_price sdk now pair t ≡ get_aggregated_price sdk now pair s
  unfolding get_aggregated_price
  price_same s t now pair params prices = rw (params, prices) refl

  feeder_same :
      (s t₁ t : State) (v : Bytes)
      → IsExportable ctx s
      → t₁.valoper_to_feeder ≡ []
      → Delegated sdk (sort_by validator_lt (all_feeders sdk s.valoper_to_feeder)) s t₁ t
      → IsAddress v
      → get_feeder_for_validator v t ≡ get_feeder_for_validator v s
  unfolding lookup
  feeder_same s t₁ t v x blank d av =
      let name = sdk.val_string v in
      let fds = all_feeders sdk s.valoper_to_feeder in
      let same = has_key-sort_by validator_name name validator_lt fds in
      elim (Bool-cases (has_key validator_name name fds)) [
        | inl here ↦ rw (d.feeders v av) (rw (same, here) refl)
        | inr absent ↦ rw (d.feeders v av) (
            rw (same, absent, blank, has_name-none v s.valoper_to_feeder av x.delegations absent)
              refl)
      ]

  -- A store whose prices stand under their own pairs and are not of the future, whose delegations
  -- are between addresses, of validators that the staking keeper knows, with each validator's
  -- account bound to that validator, and whose export passes the validation, starts again from the
  -- export: InitGenesis succeeds on an empty store; the parameters, the answer of
  -- GetAggregatedPrice for every pair at every time, and the account that submits for every
  -- validator address are then as before; each validator's account is bound to that validator,
  -- and an account is bound to no validator but one that has delegated to it.
  pub oracle_restarts :
      (s : State)
      → IsExportable ctx s
      → validate_genesis sdk (export_genesis sdk s) ≡ ok tt
      → (t : State) × (init_genesis sdk ctx (export_genesis sdk s) empty_store ≡ ok t)
        × Restored sdk s t
  unfolding export_genesis init_genesis set_params lookup
  oracle_restarts s x valid =
      let ps = sort_by pair_lt (values s.prices) in
      let fds = sort_by validator_lt (all_feeders sdk s.valoper_to_feeder) in
      let p = validated (export_genesis sdk s) valid in
      let past =
        check_times-past ctx.block_time ps
          (All-sort_by _ pair_lt (values s.prices) (All-values _ s.prices x.prices_past)) in
      let t₁ : State = record empty_store { params = some (get_params sdk s) } in
      let t₂ : State = record t₁ { prices = load price_key ps [] } in
      let of = All-sort_by (IsOf sdk ctx s) validator_lt (all_feeders sdk s.valoper_to_feeder) (
        all_feeders-IsOf s s.valoper_to_feeder x.delegations
          (entries_found s.valoper_to_feeder x.feeders_sorted)) in
      let (t, run, d) =
        set_feeders-Delegated sdk laws ctx s x.bound fds t₂ of (λ v f h. absurd (none-some h))
          (λ v f h. absurd (none-some h)) in
      let params : get_params sdk t ≡ get_params sdk s = rw d.params_kept refl in
      (
        t,
        rw (valid, past, p) (ap (set_feeders sdk ctx fds) (set_prices-load ps t₁) ∙ run),
        record {
          params_same = params;
          prices_same = λ now pair. price_same s t now pair params (
              rw d.prices_kept (
                lookup-load-values price_key pair_lt s.prices (aggregated_price_key pair)
                  x.prices_sorted x.prices_keyed));
          feeders_same = λ v av. ap (feeder_or v) (feeder_same s t₂ t v x refl d av);
          bound = d.bound;
          nothing_else =
              λ f v h. let (av, was) = d.within f v h in feeder_same s t₂ t v x refl d av ∙ was;
        },
      )
