-- ===== src/Daemon/Broadcaster/Batch.antt =====
-- From the cache to the messages of a batch.
use vertix.Base.{
  ℕ, ◌≡◌, refl, sym, subst, ◌∙◌, ap, Bool, true, false, Option, none, some, List, [], ◌∷◌, arith,
  map, All, inl, inr, Bool-cases, Option-cases,
}
use vertix.Base.Bytes.{Bytes, beq}
use vertix.Base.Int.{ℤ, pos, ◌<ℤ◌, is_positive, ltb_ℤ}
use vertix.Base.Results.{ok}
use vertix.Pattern.{is_pair}
use vertix.Sdk.{Sdk, DecimalLaws}
use vertix.Oracle.Types.{basic_submit_feed}
use vertix.Oracle.Keeper.{time_sub}
use vertix.Daemon.Cache.{Cache, new_cache, fresh}
use vertix.Daemon.Aggregate.Middle.{Halves}
use vertix.Daemon.PriceLoop.{PriceProvider, Round, rounds, new_price_loop}
use vertix.Daemon.PriceLoop.Positive.{SetsPositive, RoundsPositive, IsMade, start-IsMade}
use vertix.Daemon.Cache.History.{CacheCall, sets, marks, calls, last_set, recent, fresh-last_set}
use vertix.Daemon.Config.{Config, PairConfig, validate}
use vertix.Daemon.Config.Startup.{IsUsable, validate-IsStartable}
use vertix.Daemon.SubmitLoop.{gather_feeds}
use package.vertix.Daemon.Broadcaster.{FeedSubmission, print_price, to_msg, build_msgs}

-- A submission that can be signed: it names a pair, and its price is a positive number.
pub record IsSubmittable (f : FeedSubmission) : Type 0 where
  pub named : beq f.pair [] ≡ false
  pub price_of : ℤ
  pub price_is : f.price ≡ some price_of
  pub positive : pos 0 <ℤ price_of

last_set-positive :
    (pair : Bytes) (cs : List CacheCall) (price : ℤ) (t : ℕ)
    → SetsPositive cs
    → last_set pair cs ≡ some (price, t)
    → pos 0 <ℤ price
unfolding last_set
last_set-positive pair [] price t p h = cc
last_set-positive pair (sets q x u ∷ cs) price t p h =
    ground (arith, p.0, last_set-positive pair cs price t)
last_set-positive pair (marks q ∷ cs) price t p h =
    ground (arith, last_set-positive pair cs price t p)

recent-some :
    (max_age : ℤ) (now : ℕ) (o : Option (ℤ × ℕ)) (v : Option ℤ)
    → recent max_age now o ≡ some v
    → (price : ℤ) × (t : ℕ) × (o ≡ some (price, t)) × (v ≡ some price)
recent-some max_age now none v h = cc
recent-some max_age now (some (price, t)) v h = elim (Bool-cases (ltb_ℤ max_age (time_sub now t))) [
  | inl old ↦ cc (rw old at h)
  | inr young ↦ (price, t, refl, cc (rw young at h))
]

is_pair-named : (pair : Bytes) → is_pair pair ≡ true → beq pair [] ≡ false
unfolding is_pair beq
is_pair-named [] h = cc
is_pair-named (c ∷ cs) h = refl

gathered-IsSubmittable :
    (c : Config) (max_age : ℤ) (now : ℕ) (cs : List CacheCall) (pcs : List PairConfig)
    → SetsPositive cs
    → All (IsUsable c) pcs
    → All IsSubmittable (gather_feeds max_age now (calls cs) pcs)
unfolding gather_feeds
gathered-IsSubmittable c max_age now cs [] p u = tt
gathered-IsSubmittable c max_age now cs (pc ∷ pcs) p u =
    let rest = gathered-IsSubmittable c max_age now cs pcs p u.1 in
    elim (Option-cases (fresh pc.pair max_age now (calls cs))) [
      | inl stale ↦ rw (stale, gather_feeds) rest
      | inr (v, found) ↦
          let (price, t, set, v_is) =
            recent-some max_age now (last_set pc.pair cs) v
              (sym (fresh-last_set pc.pair max_age now cs) ∙ found) in
          rw (found, gather_feeds)
            (
              record {
                named = is_pair-named pc.pair u.0.pair_form;
                price_of = price;
                price_is = v_is;
                positive = last_set-positive pc.pair cs price t p set;
              },
              rest,
            )
    ]

module _ (sdk : Sdk) (laws : DecimalLaws sdk) (feeder validator : Bytes) where
  open laws use {parse-print}

  submittable-basic :
      {acc val : Bytes} (f : FeedSubmission)
      → sdk.acc_address feeder ≡ some acc
      → sdk.val_address validator ≡ some val
      → IsSubmittable f
      → basic_submit_feed sdk (to_msg sdk feeder validator f) ≡ ok tt
  unfolding basic_submit_feed
  submittable-basic f acc_is val_is sub =
      let printed : print_price sdk f.price ≡ sdk.print_dec sub.price_of =
        ap (print_price sdk) sub.price_is in
      let positive : is_positive sub.price_of ≡ true = ground (arith, sub.positive) in
      rw (acc_is, val_is, sub.named, printed, parse-print sub.price_of, positive) refl

  build_msgs-submittable :
      {acc val : Bytes} (fs : List FeedSubmission)
      → sdk.acc_address feeder ≡ some acc
      → sdk.val_address validator ≡ some val
      → All IsSubmittable fs
      → build_msgs sdk feeder validator fs ≡ ok (map (to_msg sdk feeder validator) fs)
  unfolding build_msgs
  build_msgs-submittable [] acc_is val_is all = refl
  build_msgs-submittable (f ∷ fs) acc_is val_is all =
      rw (submittable-basic f acc_is val_is all.0, build_msgs-submittable fs acc_is val_is all.1)
        refl

  All-basic :
      {acc val : Bytes}
      → sdk.acc_address feeder ≡ some acc
      → sdk.val_address validator ≡ some val
      → (fs : List FeedSubmission) → All IsSubmittable fs
      → All (λ m. basic_submit_feed sdk m ≡ ok tt) (map (to_msg sdk feeder validator) fs)
  All-basic acc_is val_is [] all = tt
  All-basic acc_is val_is (f ∷ fs) all =
      (submittable-basic f acc_is val_is all.0, All-basic acc_is val_is fs all.1)

  batch :
      (parse_coins : Bytes → Bool) (c : Config) (acc : Bytes) (now : ℕ) (cache : Cache)
      → validator ≡ c.validator
      → validate sdk parse_coins c ≡ ok tt
      → sdk.acc_address feeder ≡ some acc
      → IsMade cache
      → (build_msgs sdk feeder validator (gather_feeds c.quality.max_quote_age now cache c.pairs)
          ≡ ok (
              map
                (to_msg sdk feeder validator)
                (gather_feeds c.quality.max_quote_age now cache c.pairs)))
        × All
            (λ m. basic_submit_feed sdk m ≡ ok tt)
            (map
              (to_msg sdk feeder validator)
              (gather_feeds c.quality.max_quote_age now cache c.pairs))
  batch parse_coins c acc now cache same valid acc_is made =
      let (start, dev) = validate-IsStartable sdk parse_coins (λ d. d) c [] valid in
      let all =
        subst (λ k. All IsSubmittable (gather_feeds c.quality.max_quote_age now k c.pairs))
          (sym made.made)
          (gathered-IsSubmittable c c.quality.max_quote_age now made.history c.pairs made.positive
            start.usable) in
      let feeds = gather_feeds c.quality.max_quote_age now cache c.pairs in
      let val_is = ap sdk.val_address same ∙ start.operator_is in
      (build_msgs-submittable feeds acc_is val_is all, All-basic acc_is val_is feeds all)

  -- With a configuration that was accepted at startup, after any rounds of the price loop in which
  -- no provider answered with a price that is not positive, the batch of a poll is built without an
  -- error: one message for each fresh price, in the order of the pairs, each of which passes the
  -- checks that the chain makes before it runs the message.
  pub build_msgs-rounds :
      (parse_coins : Bytes → Bool) (halve : ℤ → ℤ) (c : Config) (acc : Bytes) (now : ℕ)
      (providers : List PriceProvider) (rs : List Round)
      → Halves halve
      → validator ≡ c.validator
      → validate sdk parse_coins c ≡ ok tt
      → sdk.acc_address feeder ≡ some acc
      → RoundsPositive rs
      → let cache =
          (rounds sdk halve
            (new_price_loop sdk halve c.pairs providers c.quality)
            rs
            (new_cache, [])).0 in
        let feeds = gather_feeds c.quality.max_quote_age now cache c.pairs in
        (build_msgs sdk feeder validator feeds ≡ ok (map (to_msg sdk feeder validator) feeds))
        × All (λ m. basic_submit_feed sdk m ≡ ok tt) (map (to_msg sdk feeder validator) feeds)
  unfolding new_price_loop
  build_msgs-rounds parse_coins halve c acc now providers rs exact same valid acc_is answers =
      let (start, dev) = validate-IsStartable sdk parse_coins halve c providers valid in
      let pl = new_price_loop sdk halve c.pairs providers c.quality in
      batch parse_coins c acc now (rounds sdk halve pl rs (new_cache, [])).0 same valid acc_is
        (start-IsMade sdk halve exact pl rs start.some_source answers)
