-- ===== src/Daemon/SubmitLoop.antt =====
-- feeder/feeder/submitloop.go: the cached medians are broadcast once in each vote window.
pub mod Windows
pub mod Attempts
use vertix.Base.{
  ℕ, zero, suc, ◌+◌, ◌-◌, ◌/◌, ◌==◌, Bool, not, Option, none, some, List, [], ◌∷◌, ◌++◌,
  if◌then◌else◌, length,
}
use vertix.Base.Bytes.{Bytes, text}
use vertix.Base.Int.{ℤ, pos, negsuc, eqb_ℤ, ltb_ℤ, leb_ℤ}
use vertix.Daemon.Broadcaster.{FeedSubmission}
use vertix.Daemon.Cache.{Cache, fresh}
use vertix.Daemon.Config.{PairConfig}
use vertix.Daemon.PriceLoop.{Count, feed_failed, feed_submitted, last_submit}

-- What the loop meets in one poll: the height (`none` is an error), the time, the cache, and what
-- the broadcaster answers to each attempt (`none` is an error).
pub record Poll : Type 0 where
  pub height : Option ℤ
  pub now : ℕ
  pub cache : Cache
  pub submit_feeds : ℕ → List FeedSubmission → Option Bytes

pub record SubmitLoop : Type 0 where
  pub pairs : List PairConfig
  pub vote_window : ℤ
  pub max_quote_age : ℤ
  pub retries : ℤ
  pub last_window : ℤ
  pub counts : List Count
  -- what the broadcaster has been asked, and what it has accepted, with the window, latest first
  pub calls : ℕ
  pub sent : List (ℤ × List FeedSubmission)

-- `NewSubmitLoop`, with the retries that `Configure` sets.
abbrev pub new_submit_loop : List PairConfig → ℤ → ℤ → ℤ → SubmitLoop
new_submit_loop pairs vote_window max_quote_age retries = record {
  pairs = pairs;
  vote_window = vote_window;
  max_quote_age = max_quote_age;
  retries = retries;
  last_window = negsuc 0;
  counts = [];
  calls = 0;
  sent = [];
}

-- `-n`, and Go's quotient, which is rounded towards zero.
abbrev pub minus : ℕ → ℤ
minus zero = pos 0
minus (suc n) = negsuc n

abbrev pub quot : ℤ → ℤ → ℤ
quot (pos a) (pos b) = pos (a / b)
quot (negsuc a) (pos b) = minus (suc a / b)
quot (pos a) (negsuc b) = minus (a / suc b)
quot (negsuc a) (negsuc b) = pos (suc a / suc b)

-- The pairs with a fresh price, in the order of the configuration.
unfoldable pub gather_feeds : ℤ → ℕ → Cache → List PairConfig → List FeedSubmission
gather_feeds max_age now c [] = []
gather_feeds max_age now c (pc ∷ pcs) =
    let rest = gather_feeds max_age now c pcs in
    elim (fresh pc.pair max_age now c) [
      | none ↦ rest
      | some price ↦ record { pair = pc.pair; price = price } ∷ rest
    ]

-- The number of attempts.
abbrev pub attempts : ℤ → ℕ
attempts (pos zero) = 1
attempts (pos (suc n)) = suc n
attempts (negsuc n) = 1

-- The attempts, `left` of them, from the `i`-th on: the hash of the transaction, and the number of
-- calls.
unfoldable pub broadcast :
    (ℕ → List FeedSubmission → Option Bytes) → List FeedSubmission → ℕ → ℕ → Option Bytes × ℕ
broadcast submit_feeds feeds zero i = (none, 0)
broadcast submit_feeds feeds (suc left) i =
    let rest = broadcast submit_feeds feeds left (i + 1) in
    elim (submit_feeds i feeds) [ some hash ↦ (some hash, 1) | none ↦ (rest.0, suc rest.1) ]

unfoldable pub count_failed : List FeedSubmission → List Count
count_failed [] = []
count_failed (f ∷ fs) = feed_failed f.pair (text "broadcast_error") ∷ count_failed fs

unfoldable pub count_submitted : ℕ → List FeedSubmission → List Count
count_submitted now [] = []
count_submitted now (f ∷ fs) =
    feed_submitted f.pair ∷ last_submit f.pair now ∷ count_submitted now fs

-- The end of a poll, once the attempts are over.
abbrev pub finish : SubmitLoop → ℕ → ℤ → List FeedSubmission → Option Bytes × ℕ → SubmitLoop
finish sl now window feeds (none, n) = record sl {
  counts = sl.counts ++ count_failed feeds;
  calls = sl.calls + n;
}
finish sl now window feeds (some hash, n) = record sl {
  last_window = window;
  counts = sl.counts ++ count_submitted now feeds;
  calls = sl.calls + n;
  sent = (window, feeds) ∷ sl.sent;
}

-- `maybeSubmit`
unfoldable pub maybe_submit : SubmitLoop → Poll → ℤ → SubmitLoop
unfolding gather_feeds broadcast count_failed count_submitted
maybe_submit sl poll height =
    let window = quot height sl.vote_window in
    let feeds = gather_feeds sl.max_quote_age poll.now poll.cache sl.pairs in
    if leb_ℤ sl.vote_window (pos 0)
    then sl
    else if eqb_ℤ window sl.last_window
    then sl
    else if length feeds == 0
    then sl
    else finish sl poll.now window feeds (broadcast poll.submit_feeds feeds (attempts sl.retries) 0)

-- `Run`: one poll after the other.
unfoldable pub run : SubmitLoop → List Poll → SubmitLoop
unfolding maybe_submit
run sl [] = sl
run sl (poll ∷ polls) = run (elim poll.height [ none ↦ sl | some h ↦ maybe_submit sl poll h ]) polls
