-- ===== src/Stall.antt =====
-- The watchdog of operations that report their progress (src/stall.rs).
pub mod Silence
pub mod Endings
use execution_policy.Base.{ℕ, zero, suc, ◌+◌, ◌-◌, ◌==◌, u64, Duration, Instant, Bool, true, false}
use execution_policy.Base.{Option, none, some, List, [], ◌∷◌, leb, if◌then◌else◌}
use execution_policy.Outcome.{Result, ok, err}

-- The counter behind the `Arc`. `fetch_add` wraps around.
pub record Progress : Type 0 where
  pub ticks : ℕ

abbrev pub new : Progress
new = record { ticks = 0 }

abbrev pub tick : Progress → Progress
tick p = record { ticks = u64 (p.ticks + 1) }

abbrev pub sample : Progress → ℕ
sample p = p.ticks

abbrev pub ticked : ℕ → Progress → Progress
ticked zero p = p
ticked (suc n) p = ticked n (tick p)

pub data StallError (E : Type 0) : Type 0 where
  stalled : (idle : Duration) → StallError E
  operation : E → StallError E

-- One poll of the watchdog: the time since the poll before it, the ticks since then, those of this poll
-- of the operation included, and what the operation gives.
pub record Poll (T E : Type 0) : Type 0 where
  pub passed : Duration
  pub ticks : ℕ
  pub op : Option (Result T E)

-- What the closure holds between polls. The sleep is the instant from which it is ready.
pub record Watch : Type 0 where
  pub last_ticks : ℕ
  pub deadline : Instant
  pub sleep : Option Instant

-- The watchdog has ended at an instant, or waits for a poll that is not in the list.
pub data Watched (T E : Type 0) : Type 0 where
  ended : Result T (StallError E) → Instant → Watched T E
  watching : Watched T E

module _ {T E : Type 0} where
  -- `r.map_err(StallError::Operation)`
  abbrev pub map_err : Result T E → Result T (StallError E)
  map_err (ok x) = ok x
  map_err (err e) = err (operation e)

-- A tick that is seen moves the deadline and drops the sleep.
abbrev pub observe : Duration → Instant → ℕ → Watch → Watch
observe budget now now_ticks w =
    if now_ticks == w.last_ticks
    then w
    else record { last_ticks = now_ticks; deadline = now + budget; sleep = none }

-- `get_or_insert_with`
abbrev pub armed : Instant → Watch → Instant
armed now w = elim w.sleep [ none ↦ now + (w.deadline - now) | some due ↦ due ]

module _ {T E : Type 0} where
  -- The operation's result wins over the timer.
  abbrev pub settle : Duration → Instant → Option (Result T E) → Bool → Watched T E → Watched T E
  settle budget now (some r) fired again = ended (map_err r) now
  settle budget now none fired again = if fired then ended (err (stalled budget)) now else again

  -- The closure of `poll_fn`, over the polls.
  unfoldable pub watch : Duration → List (Poll T E) → Instant → Progress → Watch → Watched T E
  watch budget [] now progress w = watching
  watch budget (p ∷ ps) now progress w =
      let now' = now + p.passed in
      let progress' = ticked p.ticks progress in
      let seen = observe budget now' (sample progress') w in
      let due = armed now' seen in
      let again = watch budget ps now' progress' (record seen { sleep = some due }) in
      settle budget now' p.op (leb due now') again

  unfoldable pub stall_timeout : Duration → Instant → List (Poll T E) → Watched T E
  unfolding watch
  stall_timeout budget now polls =
      watch budget polls now new
        (record { last_ticks = sample new; deadline = now + budget; sleep = none })
