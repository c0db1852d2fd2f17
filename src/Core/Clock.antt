-- ===== src/Core/Clock.antt =====
-- src/core/test.rs: the manual clock, the sleeps on it, and the core for tests.
use execution_policy.Base.{ℕ, ◌+◌, Duration, Instant, duration_max, leb, if◌then◌else◌}
use execution_policy.Base.{Bool, true, false, Option, none, some, List, [], ◌∷◌, ◌++◌}
use execution_policy.Core.Rng.{SplitMix64}
use execution_policy.Core.Rng

-- The state behind the mutex. A waker is the number of its task.
pub record ClockState : Type 0 where
  pub base : Instant
  pub offset : Duration
  pub wakers : List (Duration × ℕ)

-- `start` is the platform's clock.
abbrev pub new : Instant → ClockState
new start = record { base = start; offset = 0; wakers = [] }

-- `retain` with a closure that hands the wakers that it drops to `ready`: the ready ones and the rest.
abbrev pub part : Duration → List (Duration × ℕ) → List ℕ × List (Duration × ℕ)
part now [] = ([], [])
part now ((deadline, w) ∷ ws) =
    let (ready, kept) = part now ws in
    if leb deadline now then (w ∷ ready, kept) else (ready, (deadline, w) ∷ kept)

-- The tasks that it wakes, in order; `none` where the addition of durations panics.
abbrev pub advance : Duration → ClockState → Option (List ℕ × ClockState)
advance dur st =
    let now = st.offset + dur in
    let (ready, kept) = part now st.wakers in
    if leb now duration_max
    then some (ready, record { base = st.base; offset = now; wakers = kept })
    else none

abbrev pub now : ClockState → Instant
now st = st.base + st.offset

abbrev pub register : Duration → ℕ → ClockState → ClockState
register deadline waker st = record {
  base = st.base;
  offset = st.offset;
  wakers = st.wakers ++ (deadline, waker) ∷ [];
}

-- The offset, read under a lock of its own.
abbrev pub offset : ClockState → Duration
offset st = st.offset

pub record ManualSleep : Type 0 where
  pub deadline : Duration

-- The test of `ManualSleep::poll`, on the offset that it read: whether the sleep is ready.
abbrev pub is_ready : ManualSleep → Duration → Bool
is_ready sleep seen = leb sleep.deadline seen

-- The rest of a poll, by that test. A pending one registers the waker of its task, under another lock.
abbrev pub finish_poll : ManualSleep → ℕ → Bool → ClockState → ClockState
finish_poll sleep waker true st = st
finish_poll sleep waker false st = register sleep.deadline waker st

-- `ManualSleep::poll`: whether it is ready, and the clock after it. Other tasks may use the clock
-- between its two locks: `between` is what they do to it.
abbrev pub poll : ManualSleep → ℕ → (ClockState → ClockState) → ClockState → Bool × ClockState
poll sleep waker between st =
    let ready = is_ready sleep (offset st) in (ready, finish_poll sleep waker ready (between st))

pub record TestCore : Type 0 where
  pub clock : ClockState
  pub rng : SplitMix64

abbrev pub with_seed : ClockState → ℕ → TestCore
with_seed clock seed = record { clock = clock; rng = Rng.new seed }

abbrev pub test_core : ClockState → TestCore
test_core clock = with_seed clock 0xDEAD_BEEF

abbrev pub sleep : Duration → TestCore → ManualSleep
sleep dur core = record { deadline = core.clock.offset + dur }

abbrev pub next_u64 : TestCore → ℕ × TestCore
next_u64 core =
    let (x, rng') = Rng.next_u64 core.rng in (x, record { clock = core.clock; rng = rng' })
