-- ===== src/Daemon/SubmitLoop/Windows.antt =====
-- No window is submitted twice.
use vertix.Base.{
  ℕ, zero, suc, ap, ◌/◌, ◌≤◌, ◌<◌, ◌≡◌, refl, ◌⊎◌, false, Option, none, some, List, [], ◌∷◌, arith,
  inl, inr, Bool-cases, All, length, ◌==◌,
}
use vertix.Base.Bytes.{Bytes}
use vertix.Base.Int.{ℤ, pos, ◌≤ℤ◌, ◌<ℤ◌, eqb_ℤ, leb_ℤ}
use vertix.Base.Sort.{Ascends}
use vertix.Daemon.Config.{PairConfig}
use vertix.Daemon.Broadcaster.{FeedSubmission}
use package.vertix.Daemon.SubmitLoop.{
  SubmitLoop, Poll, new_submit_loop, quot, gather_feeds, attempts, broadcast, finish, maybe_submit,
  run,
}

-- The chain's height never falls, from `low` on.
abbrev pub HeightsRise : ℕ → List Poll → Type 0
HeightsRise low [] = Unit
HeightsRise low (poll ∷ polls) =
    ((poll.height ≡ none) × HeightsRise low polls)
    ⊎ ((h : ℕ) × (poll.height ≡ some (pos h)) × (low ≤ h) × HeightsRise h polls)

-- Of two submissions the later is of a later window.
abbrev pub Later : ℤ × List FeedSubmission → ℤ × List FeedSubmission → Type 0
Later a b = b.0 <ℤ a.0

-- The submissions stand latest first, and none is of a later window than the last.
pub record IsOrdered (vote_window low : ℕ) (sl : SubmitLoop) : Type 0 where
  pub window_kept : sl.vote_window ≡ pos vote_window
  pub last_low : sl.last_window ≤ℤ pos (low / vote_window)
  pub within_last : All (λ s. s.0 ≤ℤ sl.last_window) sl.sent
  pub ordered : Ascends Later sl.sent

div_mono : (a b n : ℕ) → a ≤ b → a / suc n ≤ b / suc n
div_mono a b n h = grind arith

All-le :
    (a b : ℤ) (ss : List (ℤ × List FeedSubmission))
    → a ≤ℤ b
    → All (λ s. s.0 ≤ℤ a) ss
    → All (λ s. s.0 ≤ℤ b) ss
All-le a b [] h all = tt
All-le a b (s ∷ ss) h all = (omega (arith, h, all.0), All-le a b ss h all.1)

All-lt :
    (a b : ℤ) (ss : List (ℤ × List FeedSubmission))
    → a <ℤ b
    → All (λ s. s.0 ≤ℤ a) ss
    → All (λ s. s.0 <ℤ b) ss
All-lt a b [] h all = tt
All-lt a b (s ∷ ss) h all = (omega (arith, h, all.0), All-lt a b ss h all.1)

module _ (n : ℕ) where
  IsOrdered-low :
      (low h : ℕ) (sl : SubmitLoop) → low ≤ h → IsOrdered (suc n) low sl → IsOrdered (suc n) h sl
  IsOrdered-low low h sl le o = record {
    window_kept = o.window_kept;
    last_low = omega (arith, o.last_low, div_mono low h n le);
    within_last = o.within_last;
    ordered = o.ordered;
  }

  finish-IsOrdered :
      (low h now : ℕ) (sl : SubmitLoop) (window : ℤ) (feeds : List FeedSubmission)
      (answer : Option Bytes × ℕ)
      → low ≤ h
      → IsOrdered (suc n) low sl
      → window ≡ pos (h / suc n)
      → eqb_ℤ window sl.last_window ≡ false
      → IsOrdered (suc n) h (finish sl now window feeds answer)
  finish-IsOrdered low h now sl window feeds (none, calls) le o w new = record {
    window_kept = o.window_kept;
    last_low = omega (arith, o.last_low, div_mono low h n le);
    within_last = o.within_last;
    ordered = o.ordered;
  }
  finish-IsOrdered low h now sl window feeds (some hash, calls) le o w new =
      let reached : window ≤ℤ pos (h / suc n) = rw w (omega arith) in
      let up : sl.last_window ≤ℤ window = rw w (omega (arith, o.last_low, div_mono low h n le)) in
      let later : sl.last_window <ℤ window = ground arith in
      record {
        window_kept = o.window_kept;
        last_low = reached;
        within_last = (omega arith, All-le sl.last_window window sl.sent up o.within_last);
        ordered = (All-lt sl.last_window window sl.sent later o.within_last, o.ordered);
      }

  maybe_submit-IsOrdered :
      (low h : ℕ) (sl : SubmitLoop) (poll : Poll)
      → low ≤ h
      → IsOrdered (suc n) low sl
      → IsOrdered (suc n) h (maybe_submit sl poll (pos h))
  unfolding maybe_submit
  maybe_submit-IsOrdered low h sl poll le o =
      let same = IsOrdered-low low h sl le o in
      let window = quot (pos h) sl.vote_window in
      let w : window ≡ pos (h / suc n) = ap (quot (pos h)) o.window_kept in
      let feeds = gather_feeds sl.max_quote_age poll.now poll.cache sl.pairs in
      elim (Bool-cases (leb_ℤ sl.vote_window (pos 0))) [
        | inl off ↦ rw off same
        | inr on ↦ elim (Bool-cases (eqb_ℤ window sl.last_window)) [
          | inl old ↦ rw (on, old) same
          | inr new ↦ elim (Bool-cases (length feeds == 0)) [
            | inl empty ↦ rw (on, new, empty) same
            | inr full ↦
                rw (on, new, full)
                  (finish-IsOrdered low h poll.now sl window feeds
                    (broadcast poll.submit_feeds feeds (attempts sl.retries) 0) le o w new)
          ]
        ]
      ]

  run-IsOrdered :
      (low : ℕ) (sl : SubmitLoop) (polls : List Poll)
      → HeightsRise low polls
      → IsOrdered (suc n) low sl
      → (h : ℕ) × IsOrdered (suc n) h (run sl polls)
  unfolding run
  run-IsOrdered low sl [] rise o = (low, o)
  run-IsOrdered low sl (poll ∷ polls) (inl (failed, rise)) o =
      rw failed (run-IsOrdered low sl polls rise o)
  run-IsOrdered low sl (poll ∷ polls) (inr (h, at, le, rise)) o = rw at (
      run-IsOrdered h (maybe_submit sl poll (pos h)) polls rise
        (maybe_submit-IsOrdered low h sl poll le o))

-- While the height that the node reports never falls, whatever the cache holds and the broadcaster
-- answers, the batches that the broadcaster has accepted are of windows that rise strictly, so no
-- window is submitted twice.
pub run-once :
    (pairs : List PairConfig) (vote_window : ℕ) (max_quote_age retries : ℤ) (polls : List Poll)
    → 0 < vote_window
    → HeightsRise 0 polls
    → Ascends Later (run (new_submit_loop pairs (pos vote_window) max_quote_age retries) polls).sent
run-once pairs zero max_quote_age retries polls some_window rise = absurd (omega arith)
run-once pairs (suc n) max_quote_age retries polls some_window rise =
    let start : IsOrdered (suc n) 0 (new_submit_loop pairs (pos (suc n)) max_quote_age retries) =
      record { window_kept = refl; last_low = omega arith; within_last = tt; ordered = tt } in
    (run-IsOrdered n 0 _ polls rise start).1.ordered
