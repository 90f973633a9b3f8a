-- ===== src/Oracle/Server/Delisting.antt =====
-- What an update of the parameters of x/oracle does to the stored prices.
use vertix.Base.{
  ◌≡◌, refl, sym, ap, ◌∙◌, ◌↔◌, ◌⊎◌, true, false, Bool-cases, inl, inr, some, [], ◌∷◌, All, arith,
  if◌then◌else◌,
}
use vertix.Base.Bytes.{Bytes, beq, beq→eq}
use vertix.Base.Map.{Map}
use vertix.Base.Results.{ok, returned, guard-then, check-then, >>=-eq-ok}
use vertix.Sdk.{Sdk}
use vertix.Oracle.Types.{
  OracleParams, AggregatedPrice, MsgUpdateParams, basic_update_params, accept_list_changed,
  pair_accepted, validate, invalid_signer,
}
use vertix.Oracle.Keeper.{State, get_params, set_params, emit, params_updated}
use vertix.Oracle.Invariants.{price_good, prices_invariant}
use vertix.Oracle.EndBlock.Prices.{Good, scan-Good, Good-scan}
use package.vertix.Oracle.Server.{reset_if, update_params}

-- What an update has changed.
pub record Updated (sdk : Sdk) (authority : Bytes) (msg : MsgUpdateParams) (s u : State)
    : Type 0 where
  pub by_authority : msg.authority ≡ authority
  pub accepted : validate sdk msg.params ≡ ok tt
  pub params_are : u.params ≡ some msg.params
  pub prices_kept : u.prices ≡ s.prices
  pub counters :
      (u.miss_counters
        ≡ (if accept_list_changed (get_params sdk s) msg.params then [] else s.miss_counters))
      × (u.total_windows
          ≡ (if accept_list_changed (get_params sdk s) msg.params then [] else s.total_windows))

-- The pair of every stored price is in a list.
abbrev pub AllListed : OracleParams → Map AggregatedPrice → Type 0
AllListed params m = All (λ e. pair_accepted params e.1.pair ≡ true) m

module _ (sdk : Sdk) where
  set_params-ok :
      (p : OracleParams) (s t : State)
      → set_params sdk p s ≡ ok t
      → (validate sdk p ≡ ok tt) × (t ≡ record s { params = some p })
  unfolding set_params
  set_params-ok p s t h = let (good, h₁) = check-then (validate sdk p) _ h in (good, returned h₁)

  update_params-ok :
      (authority : Bytes) (msg : MsgUpdateParams) (s u : State)
      → update_params sdk authority msg s ≡ ok u
      → Updated sdk authority msg s u
  unfolding update_params
  update_params-ok authority msg s u h =
      let changed = accept_list_changed (get_params sdk s) msg.params in
      let (same, h₁) = guard-then (beq authority msg.authority) invalid_signer _ h in
      let (basic, h₂) = check-then (basic_update_params sdk msg) _ h₁ in
      let (t, sets, h₃) = >>=-eq-ok (set_params sdk msg.params (reset_if sdk changed s)) _ h₂ in
      let (good, is_t) = set_params-ok msg.params (reset_if sdk changed s) t sets in
      let is_u = returned h₃ ∙ ap (emit (params_updated changed)) is_t in
      record {
        by_authority = sym (beq→eq authority msg.authority same);
        accepted = good;
        params_are = rw is_u refl;
        prices_kept = rw is_u (ground arith);
        counters = rw is_u (ground arith, ground arith);
      }

  relisted :
      (old new : OracleParams) (m : Map AggregatedPrice)
      → All (Good sdk old) m
      → AllListed new m
      → All (Good sdk new) m
  unfolding price_good
  relisted old new [] a b = tt
  relisted old new ((k, ap) ∷ m) (g, a) (l, b) = (ground arith, relisted old new m a b)

  listed : (p : OracleParams) (m : Map AggregatedPrice) → All (Good sdk p) m → AllListed p m
  unfolding price_good
  listed p [] a = tt
  listed p ((k, ap) ∷ m) (g, a) = (ground arith, listed p m a)

  listed_iff :
      (authority : Bytes) (msg : MsgUpdateParams) (s u : State)
      → prices_invariant sdk s ≡ false
      → Updated sdk authority msg s u
      → (prices_invariant sdk u ≡ false) ↔ AllListed msg.params s.prices
  unfolding prices_invariant
  listed_iff authority msg s u holds d =
      rw (d.params_are, d.prices_kept)
        (
          λ fine. listed msg.params s.prices (scan-Good sdk msg.params s.prices fine),
          λ l. Good-scan sdk msg.params s.prices (
              relisted (get_params sdk s) msg.params s.prices
                (scan-Good sdk (get_params sdk s) s.prices holds) l),
        )

  -- An update that succeeds is signed by the keeper's authority, stores accepted parameters and
  -- leaves the stored prices alone; the counters start again exactly when the accept list has
  -- changed. The prices invariant was broken before, or it held, and then it holds afterwards
  -- exactly if the pair of every stored price is still in the accept list.
  pub update_params_prices :
      (authority : Bytes) (msg : MsgUpdateParams) (s u : State)
      → update_params sdk authority msg s ≡ ok u
      → Updated sdk authority msg s u
        × ((prices_invariant sdk s ≡ true)
            ⊎ ((prices_invariant sdk s ≡ false)
                × ((prices_invariant sdk u ≡ false) ↔ AllListed msg.params s.prices)))
  update_params_prices authority msg s u h =
      let d = update_params-ok authority msg s u h in
      (
        d,
        elim (Bool-cases (prices_invariant sdk s)) [
          | inl broken ↦ inl broken
          | inr holds ↦ inr (holds, listed_iff authority msg s u holds d)
        ],
      )
