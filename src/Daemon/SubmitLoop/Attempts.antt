-- ===== src/Daemon/SubmitLoop/Attempts.antt =====
-- How often a batch is tried, and what a poll leaves behind.
use vertix.Base.{
  ℕ, zero, suc, ◌+◌, ◌<◌, ◌≡◌, refl, subst, ◌⊎◌, inl, inr, Option-cases, false, Option, none, some,
  List, ◌∷◌, arith, length, ◌==◌,
}
use vertix.Base.Bytes.{Bytes}
use vertix.Base.Int.{ℤ, pos, ◌<ℤ◌, eqb_ℤ, leb_ℤ}
use vertix.Daemon.Broadcaster.{FeedSubmission}
use package.vertix.Daemon.SubmitLoop.{
  SubmitLoop, Poll, quot, gather_feeds, attempts, broadcast, maybe_submit,
}

-- An attempt that is the first to be accepted, and what follows from it.
abbrev pub FirstAccepted {ℓ} :
    (ℕ → List FeedSubmission → Option Bytes) → List FeedSubmission → ℕ → (ℕ → Type ℓ) → Type ℓ
FirstAccepted submit_feeds feeds n P =
    (k : ℕ) × (k < n)
    × (hash : Bytes) × (submit_feeds k feeds ≡ some hash)
    × ((j : ℕ) → j < k → submit_feeds j feeds ≡ none)
    × P k

abbrev pub AllRefused : (ℕ → List FeedSubmission → Option Bytes) → List FeedSubmission → ℕ → Type 0
AllRefused submit_feeds feeds n = (j : ℕ) → j < n → submit_feeds j feeds ≡ none

module _ (submit_feeds : ℕ → List FeedSubmission → Option Bytes) (feeds : List FeedSubmission) where
  later :
      (i n : ℕ)
      → submit_feeds (i + 0) feeds ≡ none
      → ((j : ℕ) → j < n → submit_feeds (i + suc j) feeds ≡ none)
      → (j : ℕ) → j < suc n
      → submit_feeds (i + j) feeds ≡ none
  later i n first rest zero lt = first
  later i n first rest (suc j) lt = rest j (omega arith)

  -- The first attempt that succeeds ends the loop; or they all fail.
  broadcast-cases :
      (left i : ℕ)
      → ((k : ℕ) × (k < left)
          × (hash : Bytes) × (submit_feeds (i + k) feeds ≡ some hash)
          × ((j : ℕ) → j < k → submit_feeds (i + j) feeds ≡ none)
          × (broadcast submit_feeds feeds left i ≡ (some hash, suc k)))
        ⊎ (((j : ℕ) → j < left → submit_feeds (i + j) feeds ≡ none)
            × (broadcast submit_feeds feeds left i ≡ (none, left)))
  unfolding broadcast
  broadcast-cases zero i = inr ((λ j lt. absurd (omega arith)), refl)
  broadcast-cases (suc left) i =
      let start : i ≡ i + 0 = omega arith in
      let shift : (j : ℕ) → i + 1 + j ≡ i + suc j = λ j. omega arith in
      elim (Option-cases (submit_feeds i feeds)) [
        | inr (hash, now) ↦ inl (
          0,
          omega arith,
          hash,
          subst (λ t. submit_feeds t feeds ≡ some hash) start now,
          λ j lt. absurd (omega arith),
          rw (now, broadcast) refl,
        )
        | inl failed ↦
            let first = subst (λ t. submit_feeds t feeds ≡ none) start failed in
            elim (broadcast-cases left (i + 1)) [
              | inl (k, lt, hash, at, before, e) ↦ inl (
                suc k,
                omega arith,
                hash,
                subst (λ t. submit_feeds t feeds ≡ some hash) (shift k) at,
                later i k first
                    (λ j l. subst (λ t. submit_feeds t feeds ≡ none) (shift j) (before j l)),
                rw (failed, broadcast) (rw e refl),
              )
              | inr (all, e) ↦ inr (
                later i left first
                    (λ j l. subst (λ t. submit_feeds t feeds ≡ none) (shift j) (all j l)),
                rw (failed, broadcast) (rw e refl),
              )
            ]
      ]

-- Accepted at the `k`-th attempt, counted from zero: the window is done.
pub record Accepted (sl : SubmitLoop) (window : ℤ) (feeds : List FeedSubmission) (k : ℕ)
    (sl' : SubmitLoop) : Type 0 where
  pub sent : sl'.sent ≡ (window, feeds) ∷ sl.sent
  pub last_window : sl'.last_window ≡ window
  pub calls : sl'.calls ≡ sl.calls + suc k

-- Refused at every attempt: the window is left for the next poll.
pub record Refused (sl : SubmitLoop) (n : ℕ) (sl' : SubmitLoop) : Type 0 where
  pub sent : sl'.sent ≡ sl.sent
  pub last_window : sl'.last_window ≡ sl.last_window
  pub calls : sl'.calls ≡ sl.calls + n

-- In a new window with a fresh price, the batch of all fresh prices is tried until the broadcaster
-- accepts it, at most as often as configured and at least once: accepted, it is recorded with its
-- window, which is then the last; refused by every attempt, it leaves the window to the next poll.
pub maybe_submit-retries :
    (sl : SubmitLoop) (poll : Poll) (height : ℤ)
    → pos 0 <ℤ sl.vote_window
    → eqb_ℤ (quot height sl.vote_window) sl.last_window ≡ false
    → 0 < length (gather_feeds sl.max_quote_age poll.now poll.cache sl.pairs)
    → (FirstAccepted poll.submit_feeds
        (gather_feeds sl.max_quote_age poll.now poll.cache sl.pairs)
        (attempts sl.retries)
        (λ k.
          Accepted sl
            (quot height sl.vote_window)
            (gather_feeds sl.max_quote_age poll.now poll.cache sl.pairs)
            k
            (maybe_submit sl poll height)))
      ⊎ (AllRefused poll.submit_feeds
            (gather_feeds sl.max_quote_age poll.now poll.cache sl.pairs)
            (attempts sl.retries)
          × Refused sl (attempts sl.retries) (maybe_submit sl poll height))
unfolding maybe_submit
maybe_submit-retries sl poll height on new some_feed =
    let feeds = gather_feeds sl.max_quote_age poll.now poll.cache sl.pairs in
    let on' : leb_ℤ sl.vote_window (pos 0) ≡ false = ground arith in
    let full : (length feeds == 0) ≡ false = ground arith in
    let plain : (j : ℕ) → 0 + j ≡ j = λ j. omega arith in
    elim (broadcast-cases poll.submit_feeds feeds (attempts sl.retries) 0) [
      | inl (k, lt, hash, at, before, e) ↦ inl (
        k,
        lt,
        hash,
        subst (λ t. poll.submit_feeds t feeds ≡ some hash) (plain k) at,
        λ j l. subst (λ t. poll.submit_feeds t feeds ≡ none) (plain j) (before j l),
        rw (on', new, full) (rw e (record { sent = refl; last_window = refl; calls = refl })),
      )
      | inr (all, e) ↦ inr (
        λ j l. subst (λ t. poll.submit_feeds t feeds ≡ none) (plain j) (all j l),
        rw (on', new, full) (rw e (record { sent = refl; last_window = refl; calls = refl })),
      )
    ]
