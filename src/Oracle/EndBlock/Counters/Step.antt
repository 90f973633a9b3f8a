-- ===== src/Oracle/EndBlock/Counters/Step.antt =====
-- What one window makes of one validator's counters.
use vertix.Base.{
  ℕ, suc, ◌+◌, ◌≤◌, ◌<◌, ◌≡◌, refl, subst, ap, ◌∙◌, Bool, true, false, ◌∷◌, arith, Bool-cases, inl,
  inr, if◌then◌else◌,
}
use vertix.Base.Bytes.{Bytes, beq, beq→eq}
use vertix.Base.Int.{ℤ, pos, leb_ℤ}
use vertix.Base.Int64.{add64, add64-small, limit_63}
use vertix.Base.Map.{Map, lookup, insert, erase, lookup-insert, lookup-erase}
use vertix.Oracle.Keys.{miss_counter_key, total_windows_key}
use vertix.Oracle.Keeper.{
  State, or_zero, get_miss_counter, get_total_windows, inc_miss_counter, reset_validator_windows,
}
use package.vertix.Oracle.EndBlock.Counters.{Uncounted}

-- A validator has missed at most the windows that have been counted, and these are below `n`.
pub record Counted (n : ℕ) (val : Bytes) (s : State) : Type 0 where
  pub misses : ℕ
  pub total : ℕ
  pub misses_are : get_miss_counter val s ≡ pos misses
  pub total_is : get_total_windows val s ≡ pos total
  pub missed : misses ≤ total
  pub below : total < n

abbrev pub CountersFit : ℕ → State → Type 0
CountersFit n s = (val : Bytes) → Counted n val s

-- A counter after a write and after a reset.
count-insert :
    (k : ℕ) (val a : Bytes) (v : ℤ) (m : Map ℤ)
    → or_zero (lookup (k ∷ val) (insert (k ∷ a) v m))
      ≡ (if beq val a then v else or_zero (lookup (k ∷ val) m))
unfolding beq
count-insert k val a v m = ground (arith, lookup-insert (k ∷ val) (k ∷ a) v m)

count-erase :
    (k : ℕ) (val a : Bytes) (m : Map ℤ)
    → or_zero (lookup (k ∷ val) (erase (k ∷ a) m))
      ≡ (if beq val a then pos 0 else or_zero (lookup (k ∷ val) m))
unfolding beq
count-erase k val a m = ground (arith, lookup-erase (k ∷ val) (k ∷ a) m)

-- What one more window makes of the counters of `a`.
pub record Counts (a : Bytes) (misses total : ℕ) (all_live : Bool) (s t : State) : Type 0 where
  pub totals : t.total_windows ≡ insert (total_windows_key a) (pos (suc total)) s.total_windows
  pub missed : t.miss_counters ≡ (
      if all_live
      then s.miss_counters
      else insert (miss_counter_key a) (pos (suc misses)) s.miss_counters)

module _ (n : ℕ) (a val : Bytes) (s t : State) (all_live : Bool) (c : Counted n a s) where
  total_then :
      Counts a c.misses c.total all_live s t
      → get_total_windows val t ≡ (if beq val a then pos (suc c.total) else get_total_windows val s)
  total_then k =
      ap (λ m. or_zero (lookup (total_windows_key val) m)) k.totals
      ∙ count-insert 5 val a (pos (suc c.total)) s.total_windows

  misses_then :
      Counts a c.misses c.total all_live s t
      → get_miss_counter val t ≡ (
          if beq val a
          then (if all_live then get_miss_counter val s else pos (suc c.misses))
          else get_miss_counter val s)
  misses_then k = elim (Bool-cases all_live) [
    | inl live ↦ ground (arith, k.missed, live)
    | inr missed ↦
        ap (λ m. or_zero (lookup (miss_counter_key val) m)) k.missed
        ∙ rw missed (count-insert 4 val a (pos (suc c.misses)) s.miss_counters)
  ]

  abbrev after_reset : State
  after_reset = if leb_ℤ (pos n) (pos (suc c.total)) then reset_validator_windows a t else t

  other-Counted :
      beq val a ≡ false
      → Counts a c.misses c.total all_live s t
      → Counted n val s
      → Counted n val after_reset
  other-Counted apart k cv =
      let total : get_total_windows val t ≡ pos cv.total = total_then k ∙ rw apart cv.total_is in
      let misses : get_miss_counter val t ≡ pos cv.misses =
        misses_then k ∙ rw apart cv.misses_are in
      elim (Bool-cases (leb_ℤ (pos n) (pos (suc c.total)))) [
        | inl full ↦ rw full (record {
          misses = cv.misses;
          total = cv.total;
          misses_are = count-erase 4 val a t.miss_counters ∙ rw apart misses;
          total_is = count-erase 5 val a t.total_windows ∙ rw apart total;
          missed = cv.missed;
          below = cv.below;
        })
        | inr room ↦ rw room (record {
          misses = cv.misses;
          total = cv.total;
          misses_are = misses;
          total_is = total;
          missed = cv.missed;
          below = cv.below;
        })
      ]

  own-room :
      get_total_windows val t ≡ pos (suc c.total)
      → get_miss_counter val t ≡ (if all_live then pos c.misses else pos (suc c.misses))
      → suc c.total < n
      → Counted n val t
  own-room total missed fits = elim (Bool-cases all_live) [
    | inl live ↦ record {
      misses = c.misses;
      total = suc c.total;
      misses_are = missed ∙ rw live refl;
      total_is = total;
      missed = omega (arith, c.missed);
      below = fits;
    }
    | inr miss ↦ record {
      misses = suc c.misses;
      total = suc c.total;
      misses_are = missed ∙ rw miss refl;
      total_is = total;
      missed = omega (arith, c.missed);
      below = fits;
    }
  ]

  own-Counted :
      beq val a ≡ true → 1 ≤ n → Counts a c.misses c.total all_live s t → Counted n val after_reset
  own-Counted same some_window k =
      let own : val ≡ a = beq→eq val a same in
      let total : get_total_windows val t ≡ pos (suc c.total) = total_then k ∙ rw same refl in
      let before : get_miss_counter val s ≡ pos c.misses =
        ap (λ v. get_miss_counter v s) own ∙ c.misses_are in
      let missed : get_miss_counter val t
          ≡ (if all_live then pos c.misses else pos (suc c.misses)) =
        misses_then k ∙ rw (same, before) refl in
      elim (Bool-cases (leb_ℤ (pos n) (pos (suc c.total)))) [
        | inl full ↦ rw full (record {
          misses = 0;
          total = 0;
          misses_are = count-erase 4 val a t.miss_counters ∙ rw same refl;
          total_is = count-erase 5 val a t.total_windows ∙ rw same refl;
          missed = omega arith;
          below = omega arith;
        })
        | inr room ↦
            let fits : suc c.total < n = ground (arith, room) in
            rw room (own-room total missed fits)
      ]

same_state-Counted :
    (n : ℕ) (a val : Bytes) (s t : State) (all_live : Bool) (c : Counted n a s)
    → 1 ≤ n
    → Counted n val s
    → Counts a c.misses c.total all_live s t
    → Counted n val (if leb_ℤ (pos n) (pos (suc c.total)) then reset_validator_windows a t else t)
same_state-Counted n a val s t all_live c some_window cv k = elim (Bool-cases (beq val a)) [
  | inl same ↦ own-Counted n a val s t all_live c same some_window k
  | inr apart ↦ other-Counted n a val s t all_live c apart k cv
]

pub closed-Counted :
    (n : ℕ) (a val : Bytes) (s t u : State) (all_live : Bool) (c : Counted n a s)
    (window_size count : ℤ)
    → 1 ≤ n
    → Counted n val s
    → window_size ≡ pos n
    → count ≡ pos (suc c.total)
    → Counts a c.misses c.total all_live s t
    → Counts a c.misses c.total all_live s u
    → Counted n val (if leb_ℤ window_size count then reset_validator_windows a u else t)
closed-Counted n a val s t u all_live c window_size count some_window cv size_is count_is k k' =
    rw (size_is, count_is)
      (elim (Bool-cases (leb_ℤ (pos n) (pos (suc c.total)))) [
        | inl full ↦ rw full (
            subst (λ b. Counted n val (if b then reset_validator_windows a u else u)) full
              (same_state-Counted n a val s u all_live c some_window cv k'))
        | inr room ↦ rw room (
            subst (λ b. Counted n val (if b then reset_validator_windows a t else t)) room
              (same_state-Counted n a val s t all_live c some_window cv k))
      ])

module _ (a : Bytes) (misses total : ℕ) (s : State) where
  -- The counters of a window, the misses counted if a live pair is missing.
  abbrev pub counted : Bool → ℤ → ℤ × State
  counted all_live count =
      let s₁ : State = record s {
        total_windows = insert (total_windows_key a) count s.total_windows;
      } in
      if all_live then (get_miss_counter a s₁, s₁) else inc_miss_counter a s₁

  pub counted-Counts :
      (all_live : Bool) (count : ℤ)
      → count ≡ pos (suc total)
      → get_miss_counter a s ≡ pos misses
      → misses + 1 < limit_63
      → Counts a misses total all_live s (counted all_live count).1
  unfolding inc_miss_counter
  counted-Counts true count count_is before small = record {
    totals = ap (λ v. insert (total_windows_key a) v s.total_windows) count_is;
    missed = refl;
  }
  counted-Counts false count count_is before small =
      let up : add64 (get_miss_counter a s) (pos 1) ≡ pos (suc misses) =
        ap (λ v. add64 v (pos 1)) before ∙ add64-small misses 1 small ∙ ap pos (omega arith) in
      record {
        totals = ap (λ v. insert (total_windows_key a) v s.total_windows) count_is;
        missed = ap (λ v. insert (miss_counter_key a) v s.miss_counters) up;
      }

  pub Counts-Uncounted :
      (all_live : Bool) (t u : State)
      → Counts a misses total all_live s t
      → Uncounted t u
      → Counts a misses total all_live s u
  Counts-Uncounted all_live t u k same = record {
    totals = same.totals_kept ∙ k.totals;
    missed = same.misses_kept ∙ k.missed;
  }
