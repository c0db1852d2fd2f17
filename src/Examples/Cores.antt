-- ===== src/Examples/Cores.antt =====
-- Examples for src/core.
use execution_policy.Base.{ℕ, ◌≡◌, ◌≢◌, refl, ◌+◌, some, ◌⊎◌, false, map, [], ◌∷◌, arith}
use execution_policy.Core.Rng.{SplitMix64, mix, stream}
use execution_policy.Core.Rng
use execution_policy.Core.Tokio.{TokioCore, drawn}
use execution_policy.Core.Tokio
use execution_policy.Core.Clock.{ClockState, ManualSleep, poll}
use execution_policy.Core.Clock
use execution_policy.Core.Draws.{drawn-stream, drawn-distinct}
use execution_policy.Core.Sleeps.{registered, advanced, run, Waits, Woken, Missed, sleep-served}

-- The second number of the generator with seed 0 in the algorithm's reference implementation.
second : stream 2 (Rng.new 0) ≡ 16294208416658607535 ∷ 7960286522194355700 ∷ []
unfolding mix
second = refl

-- Two tasks draw from a core whose clock's readings were 25 ns apart.
abbrev core : TokioCore
core = Tokio.new 25

drawn-stream_example :
    map (λ d. d.1) (drawn (0 ∷ 1 ∷ 0 ∷ []) core) ≡ stream 3 (Rng.new core.rng_state)
drawn-stream_example = drawn-stream (0 ∷ 1 ∷ 0 ∷ []) core

-- What task 0 draws first and last.
abbrev first_draw : ℕ × ℕ
first_draw = (0, mix 14086536477059537177)

abbrev last_draw : ℕ × ℕ
last_draw = (0, mix 18441222041996382531)

drawn-distinct_example : first_draw.1 ≢ last_draw.1
drawn-distinct_example =
    drawn-distinct (0 ∷ 1 ∷ 0 ∷ []) core 0 2 first_draw last_draw (omega arith) (omega arith)
      (omega arith) refl refl

-- Task 7 sleeps for 10 ns, task 8 for 30. The clock advances by 4 while task 7 is polled, and by 6 once it
-- has registered.
abbrev clock : ClockState
clock = Clock.new 1000

abbrev nap : ManualSleep
nap = record { deadline = 10 }

abbrev later : ManualSleep
later = record { deadline = 30 }

abbrev moved_by : ℕ → ClockState → ClockState
moved_by n st = record { base = st.base; offset = st.offset + n; wakers = st.wakers }

abbrev end : ClockState
end = record { base = 1000; offset = 10; wakers = (30, 8) ∷ [] }

sleep-served_example :
    Waits nap 7 (moved_by 4 clock) (registered later 8 ∷ advanced 6 ∷ []) (7 ∷ []) end
    ⊎ Woken nap 7 (moved_by 4 clock) (registered later 8 ∷ advanced 6 ∷ []) (7 ∷ []) end
    ⊎ Missed nap 7 (moved_by 4 clock) (registered later 8 ∷ advanced 6 ∷ []) (7 ∷ []) end
sleep-served_example =
    sleep-served nap 7 (moved_by 4) clock (registered later 8 ∷ advanced 6 ∷ []) (7 ∷ []) end refl
      refl

-- An advance by 10 between the two locks is missed: the poll is pending, nobody is woken, and a further
-- advance by nothing wakes the task.
nap-missed :
    (poll nap 7 (moved_by 10) clock
      ≡ (false, record { base = 1000; offset = 10; wakers = (10, 7) ∷ [] }))
    × (run (advanced 0 ∷ []) (poll nap 7 (moved_by 10) clock).1
        ≡ some (7 ∷ [], record { base = 1000; offset = 10; wakers = [] }))
nap-missed = (refl, refl)
