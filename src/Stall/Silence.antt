-- ===== src/Stall/Silence.antt =====
-- The watchdog measures silence.
use execution_policy.Base.{
  ℕ, zero, suc, ◌+◌, ◌<◌, ◌==◌, ◌≡◌, refl, sym, ap, ◌∙◌, arith, u64, Duration, ◌⊎◌, inl, inr,
}
use execution_policy.Base.{Instant, Bool, true, false, Option, none, some, List, [], ◌∷◌, leb}
use execution_policy.Base.{if◌then◌else◌}
use execution_policy.Outcome.{Result, ok, err}
use execution_policy.Stall.{
  StallError, stalled, operation, ended, Progress, Poll, Watch, Watched, watching, watch,
  stall_timeout, ticked, observe, armed, settle,
}

module _ {T E : Type 0} where
  -- How long the operation has been silent after a poll.
  abbrev pub silence : Duration → Poll T E → Duration
  silence quiet p = if u64 p.ticks == 0 then quiet + p.passed else 0

  -- What the operation gave, for the caller of the watchdog.
  abbrev pub given : Result T E → Result T (StallError E)
  given (ok x) = ok x
  given (err e) = err (operation e)

  -- The watchdog by its promise, with neither counters nor deadlines nor timers: the result of the
  -- operation at the poll that has one, or a stall at the first poll before it that finds a silence of
  -- the budget.
  abbrev pub by_silence : Duration → Duration → Instant → List (Poll T E) → Watched T E
  by_silence budget quiet now [] = watching
  by_silence budget quiet now (p ∷ ps) =
      let now' = now + p.passed in
      let quiet' = silence quiet p in
      let again = by_silence budget quiet' now' ps in
      elim p.op [
        | some r ↦ ended (given r) now'
        | none ↦ if leb budget quiet' then ended (err (stalled budget)) now' else again
      ]

ticked_lem :
    (n : ℕ) (p : Progress) → p.ticks < 18446744073709551616 → (ticked n p).ticks ≡ u64 (p.ticks + n)
ticked_lem zero p h = omega arith
ticked_lem (suc n) p h =
    omega (arith, ticked_lem n (record { ticks = u64 (p.ticks + 1) }) (omega arith))

-- A sample differs from the one before it unless there were no ticks, or a multiple of 2^64.
same_ticks : (t n : ℕ) → t < 18446744073709551616 → (u64 (t + n) == t) ≡ (u64 n == 0)
same_ticks t n h = ground arith

-- What the watch holds between two polls: the deadline is a budget after the last contact, and so is
-- the sleep, once it is armed.
record Holds (budget contact : ℕ) (progress : Progress) (w : Watch) : Type 0 where
  bounded : progress.ticks < 18446744073709551616
  sampled : w.last_ticks ≡ progress.ticks
  due : w.deadline ≡ contact + budget
  timer : (w.sleep ≡ none) ⊎ (w.sleep ≡ some w.deadline)

armed_due :
    (now : Instant) (w : Watch)
    → (w.sleep ≡ none) ⊎ (w.sleep ≡ some w.deadline)
    → (leb (armed now w) now ≡ leb w.deadline now)
      × (leb w.deadline now ≡ false → armed now w ≡ w.deadline)
armed_due now w (inl e) = rw e (ground arith, ground arith)
armed_due now w (inr e) = rw e (refl, ground arith)

-- The watch after a sample, by whether the sample is the one before it.
abbrev seen : Bool → Duration → Instant → ℕ → Watch → Watch
seen true budget now n w = w
seen false budget now n w = record { last_ticks = n; deadline = now + budget; sleep = none }

seen-observe :
    (budget : Duration) (now : Instant) (n : ℕ) (w : Watch)
    → observe budget now n w ≡ seen (n == w.last_ticks) budget now n w
seen-observe budget now n w = ground arith

abbrev contact_after : Bool → Instant → Instant → Instant
contact_after true contact now = contact
contact_after false contact now = now

module _ (budget contact quiet now : ℕ) (progress : Progress) (w : Watch) where
  -- The timer fires exactly when the silence has reached the budget.
  fired_lem :
      (passed n : ℕ) (b : Bool)
      → Holds budget contact progress w
      → now ≡ contact + quiet
      → leb (armed (now + passed) (seen b budget (now + passed) n w)) (now + passed)
        ≡ leb budget (if b then quiet + passed else 0)
  fired_lem passed n true h e = (armed_due (now + passed) w h.timer).0 ∙ ground (arith, h.due)
  fired_lem passed n false h e = ground arith

  -- And the watch goes on as it was if it does not.
  seen-Holds :
      (passed : ℕ) (progress' : Progress) (b : Bool)
      → Holds budget contact progress w
      → progress'.ticks < 18446744073709551616
      → (progress'.ticks == w.last_ticks) ≡ b
      → leb (armed (now + passed) (seen b budget (now + passed) progress'.ticks w)) (now + passed)
        ≡ false
      → let now' = now + passed in
        let w' = seen b budget now' progress'.ticks w in
        Holds budget
          (contact_after b contact now')
          progress'
          (record w' { sleep = some (armed now' w') })
  seen-Holds passed progress' true h bound same early =
      let (fires, holds) = armed_due (now + passed) w h.timer in
      record {
        bounded = bound;
        sampled = ground arith;
        due = h.due;
        timer = inr (ap (λ t. some t) (holds (sym fires ∙ early)));
      }
  seen-Holds passed progress' false h bound same early = record {
    bounded = bound;
    sampled = refl;
    due = refl;
    timer = inr (ap (λ t. some t) (omega arith));
  }

-- A ready result wins over the timer, which counts only without one.
settle_eq :
    {T E : Type 0} (budget : Duration) (now : Instant) (op : Option (Result T E)) (b b' : Bool)
    (again again' : Watched T E)
    → b ≡ b'
    → (b ≡ false → again ≡ again')
    → settle budget now op b again ≡ elim op [
      | some r ↦ ended (given r) now
      | none ↦ if b' then ended (err (stalled budget)) now else again'
    ]
settle_eq budget now (some (ok x)) b b' again again' e h = refl
settle_eq budget now (some (err x)) b b' again again' e h = refl
settle_eq budget now none true b' again again' e h = rw (sym e) refl
settle_eq budget now none false b' again again' e h = rw (sym e) (h refl)

module _ {T E : Type 0} where
  watch-by_silence :
      (budget : Duration) (polls : List (Poll T E)) (contact quiet now : ℕ) (progress : Progress)
      (w : Watch)
      → Holds budget contact progress w
      → now ≡ contact + quiet
      → watch budget polls now progress w ≡ by_silence budget quiet now polls
  unfolding watch
  watch-by_silence budget [] contact quiet now progress w h e = refl
  watch-by_silence budget (p ∷ ps) contact quiet now progress w h e =
      let now' = now + p.passed in
      let b = u64 p.ticks == 0 in
      let progress' = ticked p.ticks progress in
      let w' = seen b budget now' progress'.ticks w in
      let fired = fired_lem budget contact quiet now progress w p.passed progress'.ticks b h e in
      let count = ticked_lem p.ticks progress h.bounded in
      let same : (progress'.ticks == w.last_ticks) ≡ b =
        rw (count, h.sampled) (same_ticks progress.ticks p.ticks h.bounded) in
      let is_seen : observe budget now' progress'.ticks w ≡ w' =
        seen-observe budget now' progress'.ticks w
        ∙ ap (λ c. seen c budget now' progress'.ticks w) same in
      rw is_seen (
        settle_eq budget now' p.op _ _ _ _ fired (λ early.
          watch-by_silence budget ps (contact_after b contact now') (silence quiet p) now' progress'
            (record w' { sleep = some (armed now' w') })
            (seen-Holds budget contact quiet now progress w p.passed progress' b h (omega arith)
              same early)
            (contact_lem b)))
    where
      contact_lem :
          (b : Bool)
          → now + p.passed
            ≡ contact_after b contact (now + p.passed) + (if b then quiet + p.passed else 0)
      contact_lem true = omega arith
      contact_lem false = omega arith

module _ {T E : Type 0} where
  -- The watchdog with its counter, deadline and lazily armed sleep does what silence alone decides: it
  -- gives the operation's result at the poll that has one, be the timer due or not, or a stall at the
  -- first poll before it that finds the operation silent for the budget.
  pub stall_timeout-by_silence :
      (budget : Duration) (now : Instant) (polls : List (Poll T E))
      → stall_timeout budget now polls ≡ by_silence budget 0 now polls
  unfolding stall_timeout
  stall_timeout-by_silence budget now polls =
      watch-by_silence budget polls now 0 now _ _
        (record { bounded = omega arith; sampled = refl; due = refl; timer = inl refl })
        (omega arith)
