-- ===== src/Examples/Breakers.antt =====
-- Examples for src/breaker.rs.
use execution_policy.Base.{
  ◌+◌, ◌-◌, ◌/◌, max_of, millis, secs, ◌≡◌, refl, Instant, none, some, List, [], ◌∷◌, Bool, true,
  false, arith, min_of,
}
use execution_policy.Examples.Support.{thousandths}
use execution_policy.Outcome.{BreakerState}
use execution_policy.Breaker.{
  closed, opened, half_open, consecutive, failure_ratio, BreakerRuntime, new, gate, state_at,
  record_success, record_failure,
}
use execution_policy.Breaker.Window
use execution_policy.Breaker.Window.Tallies.{recorded}
use execution_policy.Breaker.Window.Counts.{Between, totals-Between}
use execution_policy.Breaker.Trips.{first_trip, streak_reaches, first_trip-streak}
use execution_policy.Breaker.Ratio
use execution_policy.Breaker.Ratio.{Untripped, succeeded, failed, Judged, outcome-Judged}
use execution_policy.Breaker.Cooldown.{Cooling, record_failure-Cooling}
use execution_policy.Breaker.Probes.{admitted, admitted-min_of}

abbrev fresh : BreakerRuntime
fresh = new (consecutive 2) 100 2

abbrev outcomes : List (Instant × Bool)
outcomes = (1, false) ∷ (2, true) ∷ (3, false) ∷ (4, false) ∷ []

outcomes_trip : streak_reaches 2 0 outcomes ≡ some 4
unfolding streak_reaches
outcomes_trip = refl

first_trip-streak_example : first_trip fresh outcomes ≡ streak_reaches 2 0 outcomes
first_trip-streak_example = first_trip-streak 2 2 100 outcomes (omega arith) (omega arith)

abbrev failed_once : BreakerRuntime
failed_once = record fresh { consecutive_failures = 1 }

record_failure-Cooling_example : Cooling (5 + 100) 50 (record_failure failed_once 5).1
unfolding record_failure new Window.count
record_failure-Cooling_example = record_failure-Cooling failed_once 5 50 refl

abbrev tripped : BreakerRuntime
tripped = record fresh { state = opened; open_until = some 105 }

abbrev probed : BreakerRuntime
probed = record fresh { state = half_open; half_open_in_flight = 1 }

admitted-min_of_example :
    admitted probed (7 ∷ 8 ∷ 9 ∷ []) ≡ min_of 3 (probed.half_open_max_calls - 1)
unfolding new
admitted-min_of_example = admitted-min_of probed (7 ∷ 8 ∷ 9 ∷ []) refl (omega arith) (omega arith)

-- Two failures and a success, newest first; the oldest has left a window of a second by 1.3 s.
abbrev mixed : List (Instant × Bool)
mixed = (millis 1250, true) ∷ (millis 900, false) ∷ (millis 100, true) ∷ []

mixed-totals : (Window.totals (recorded (Window.new (secs 1)) mixed) (millis 1300)).1 ≡ 1
unfolding recorded Window.new Window.totals Window.count
mixed-totals = refl

totals-Between_example :
    Between Window.one_if
      (millis 1300 - secs 1)
      (max_of (secs 1 / 10) (millis 1))
      mixed
      (Window.totals (recorded (Window.new (secs 1)) mixed) (millis 1300)).1
    × Between
        (λ _. 1)
        (millis 1300 - secs 1)
        (max_of (secs 1 / 10) (millis 1))
        mixed
        (Window.totals (recorded (Window.new (secs 1)) mixed) (millis 1300)).2
totals-Between_example =
    totals-Between (secs 1) mixed (millis 1300) (omega arith, (omega arith, (omega arith, tt)))
      (omega arith)

-- Half of at least two calls in the last second.
abbrev watcher : BreakerRuntime
watcher = new (failure_ratio 500 2 (secs 1)) 100 1

-- A failure and a success, 300 ms apart, do not trip it.
abbrev calm : List (Instant × Bool)
calm = (millis 600, false) ∷ (millis 300, true) ∷ []

abbrev calmed : BreakerRuntime
calmed = (record_success (record_failure watcher (millis 300)).1 (millis 600)).1

calmed-Untripped : Untripped 500 2 (secs 1) 100 1 calm calmed
unfolding record_success record_failure new Window.count Window.new Window.totals
calmed-Untripped = succeeded (millis 600) (failed (millis 300) fresh_watcher refl) refl
  where
    fresh_watcher : Untripped 500 2 (secs 1) 100 1 [] watcher
    fresh_watcher = execution_policy.Breaker.Ratio.fresh

outcome-Judged_example :
    ((record_success calmed (millis 900)).0 ≡ none)
    × Judged 500 2 (secs 1) calm (millis 900) (record_failure calmed (millis 900)).0
outcome-Judged_example =
    outcome-Judged 500 2 (secs 1) calmed-Untripped (millis 900) (omega arith, (omega arith, tt))
      (omega arith)

calmed_trips : (record_failure calmed (millis 900)).0 ≡ some BreakerState.opened
unfolding record_success record_failure new Window.count Window.new Window.totals
calmed_trips = refl
