-- ===== src/Oracle/Server/Submit.antt =====
-- Which feeds are accepted, and what is stored then.
use vertix.Base.{
  ◌≡◌, refl, sym, subst, ap, ◌∙◌, ◌≢◌, ◌↔◌, true, false, not, Option, none, some, [], arith,
  Option-cases, inl, inr,
}
use vertix.Base.Bytes.{Bytes, beq, beq→eq, beq_refl, beq_iff}
use vertix.Base.Int.{ℤ, is_zero, is_positive}
use vertix.Base.Map.{insert}
use vertix.Base.Results.{ok, returned, guard-then, check-then, or_err-then, >>=-eq-ok, guard-true}
use vertix.Sdk.{Sdk}
use vertix.Oracle.Types.{
  OracleFeed, MsgSubmitFeed, basic_submit_feed, pair_accepted, feeder_not_authorized,
  pair_not_accepted, invalid_address, invalid_price, invalid_pair_format, panicked,
}
use vertix.Oracle.Keys.{feed_key}
use vertix.Oracle.Keeper.{
  State, Context, Staking, Validator, emit, feed_submitted, get_params, set_feed,
}
use vertix.Oracle.Feeder.{resolve_authorized_feeder}
use package.vertix.Oracle.Server.{check_bonded, check_power, submit_feed}

-- The staking keeper, where there is one, knows the validator as bonded and with some power.
pub record IsBonded (st : Staking) (val : Bytes) : Type 0 where
  pub validator : Validator
  pub known : st.get_validator val ≡ some validator
  pub is_bonded : validator.bonded ≡ true
  pub power : ℤ
  pub power_is : st.last_power val ≡ some power
  pub some_power : is_zero power ≡ false

abbrev pub BondedIfAny : Option Staking → Bytes → Type 0
BondedIfAny none val = Unit
BondedIfAny (some st) val = IsBonded st val

pub record MaySubmit (sdk : Sdk) (ctx : Context) (msg : MsgSubmitFeed) (s : State) (val key : Bytes)
    : Type 0 where
  pub validator_is : sdk.val_address msg.validator ≡ some val
  pub by_feeder : sdk.acc_address msg.feeder ≡ some (resolve_authorized_feeder val s)
  pub pair_named : msg.pair ≢ []
  pub price : ℤ
  pub price_is : sdk.parse_dec msg.price ≡ some price
  pub price_pos : is_positive price ≡ true
  pub accepted : pair_accepted (get_params sdk s) msg.pair ≡ true
  pub bonded : BondedIfAny ctx.staking val
  pub key_is : feed_key sdk val msg.pair ≡ some key

-- The state once the feed is stored.
abbrev pub submitted : Context → MsgSubmitFeed → Bytes → State → State
submitted ctx msg key s =
    emit (feed_submitted msg.validator msg.feeder msg.pair msg.price) (record s {
      feeds =
          insert key
            (record {
              validator = msg.validator;
              pair = msg.pair;
              price = msg.price;
              block_height = ctx.height;
            })
            s.feeds;
    })

bonded-ok :
    (o : Option Staking) (val : Bytes)
    → check_bonded o val ≡ ok tt
    → check_power o val ≡ ok tt
    → BondedIfAny o val
unfolding check_bonded check_power
bonded-ok none val b p = tt
bonded-ok (some st) val b p = elim (Option-cases (st.get_validator val)) [
  | inl unknown ↦ absurd (ground arith)
  | inr (v, ev) ↦ elim (Option-cases (st.last_power val)) [
    | inl powerless ↦ absurd (ground arith)
    | inr (n, en) ↦ record {
      validator = v;
      known = ev;
      is_bonded = ground arith;
      power = n;
      power_is = en;
      some_power = ground arith;
    }
  ]
]

bonded_complete :
    (o : Option Staking) (val : Bytes)
    → BondedIfAny o val
    → (check_bonded o val ≡ ok tt) × (check_power o val ≡ ok tt)
unfolding check_bonded check_power
bonded_complete none val b = (refl, refl)
bonded_complete (some st) val b =
    (ground (arith, b.known, b.is_bonded), ground (arith, b.power_is, b.some_power))

module _ (sdk : Sdk) (ctx : Context) (msg : MsgSubmitFeed) (s : State) where
  basic_submit_feed-ok :
      basic_submit_feed sdk msg ≡ ok tt
      → (msg.pair ≢ []) × (p : ℤ) × (sdk.parse_dec msg.price ≡ some p) × (is_positive p ≡ true)
  unfolding basic_submit_feed
  basic_submit_feed-ok h =
      let (a, ea, h₁) = or_err-then (sdk.acc_address msg.feeder) invalid_address _ h in
      let (v, ev, h₂) = or_err-then (sdk.val_address msg.validator) invalid_address _ h₁ in
      let (named, h₃) = guard-then (not (beq msg.pair [])) invalid_pair_format _ h₂ in
      let (p, ep, h₄) = or_err-then (sdk.parse_dec msg.price) invalid_price _ h₃ in
      (λ e. ground (arith, beq_iff msg.pair []), p, ep, guard-true (is_positive p) invalid_price h₄)

  set_feed-ok :
      (val : Bytes) (feed : OracleFeed) (u : State)
      → sdk.val_address feed.validator ≡ some val
      → set_feed sdk feed s ≡ ok u
      → (key : Bytes) × (feed_key sdk val feed.pair ≡ some key)
        × (u ≡ record s { feeds = insert key feed s.feeds })
  unfolding set_feed
  set_feed-ok val feed u e h =
      let (v, ev, h₁) = or_err-then (sdk.val_address feed.validator) invalid_address _ h in
      let same : v ≡ val = ground arith in
      let (key, ek, h₂) = or_err-then (feed_key sdk v feed.pair) panicked _ h₁ in
      (key, subst (λ x. feed_key sdk x feed.pair ≡ some key) same ek, returned h₂)

  submit_feed_sound :
      (u : State)
      → submit_feed sdk ctx msg s ≡ ok u
      → (val : Bytes) × (key : Bytes) × MaySubmit sdk ctx msg s val key
        × (u ≡ submitted ctx msg key s)
  unfolding submit_feed
  submit_feed_sound u h =
      let (basic, h₁) = check-then (basic_submit_feed sdk msg) _ h in
      let (named, p, ep, pp) = basic_submit_feed-ok basic in
      let (val, ev, h₂) = or_err-then (sdk.val_address msg.validator) invalid_address _ h₁ in
      let (feeder, ef, h₃) = or_err-then (sdk.acc_address msg.feeder) invalid_address _ h₂ in
      let (auth, h₄) =
        guard-then (beq (resolve_authorized_feeder val s) feeder) feeder_not_authorized _ h₃ in
      let (acc, h₅) =
        guard-then (pair_accepted (get_params sdk s) msg.pair) pair_not_accepted _ h₄ in
      let (bonded, h₆) = check-then (check_bonded ctx.staking val) _ h₅ in
      let (powered, h₇) = check-then (check_power ctx.staking val) _ h₆ in
      let (t, sets, h₈) = >>=-eq-ok (set_feed sdk _ s) _ h₇ in
      let (key, ek, same) = set_feed-ok val _ t ev sets in
      (
        val,
        key,
        record {
          validator_is = ev;
          by_feeder = ef ∙ ap some (sym (beq→eq (resolve_authorized_feeder val s) feeder auth));
          pair_named = named;
          price = p;
          price_is = ep;
          price_pos = pp;
          accepted = acc;
          bonded = bonded-ok ctx.staking val bonded powered;
          key_is = ek;
        },
        returned h₈ ∙ ap (emit (feed_submitted msg.validator msg.feeder msg.pair msg.price)) same,
      )

  submit_feed_complete :
      (val key : Bytes)
      → MaySubmit sdk ctx msg s val key
      → submit_feed sdk ctx msg s ≡ ok (submitted ctx msg key s)
  unfolding submit_feed basic_submit_feed set_feed
  submit_feed_complete val key m =
      let (b, p) = bonded_complete ctx.staking val m.bonded in
      ground (
        arith,
        m.validator_is,
        m.by_feeder,
        m.price_is,
        m.price_pos,
        m.accepted,
        b,
        p,
        m.key_is,
        beq_iff msg.pair [],
        m.pair_named,
        beq_refl (resolve_authorized_feeder val s),
      )

  -- A feed is accepted exactly when it is signed by the account that submits for its validator, its
  -- pair is accepted and not empty, its price parses to a positive decimal, and the staking keeper,
  -- if there is one, knows the validator as bonded with a power that is not zero. It is then stored
  -- under the key of the validator and the pair, an earlier one overwritten, and one event emitted;
  -- a validator address that is too long for a key panics.
  pub submit_feed_iff :
      (u : State)
      → (submit_feed sdk ctx msg s ≡ ok u) ↔ (
          (val : Bytes) × (key : Bytes) × MaySubmit sdk ctx msg s val key
          × (u ≡ submitted ctx msg key s))
  submit_feed_iff u =
      (submit_feed_sound u, λ (val, key, m, same). rw same (submit_feed_complete val key m))
