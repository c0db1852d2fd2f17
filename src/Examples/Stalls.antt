-- ===== src/Examples/Stalls.antt =====
-- Examples for src/stall.rs and src/meter.rs.
use execution_policy.Base.{ℕ, ◌+◌, ◌≤◌, ◌≡◌, refl, true, false, none, some, [], ◌∷◌, ◌++◌, List}
use execution_policy.Base.{Instant, Duration, arith}
use execution_policy.Base.Float.{F64}
use execution_policy.Outcome.{ok, err}
use execution_policy.Stall.{Poll, ended, stalled, map_err, watch, stall_timeout}
use execution_policy.Stall.Silence.{by_silence, stall_timeout-by_silence}
use execution_policy.Stall.Endings.{
  Lively, span, silent_for, stall_timeout-Lively, stall_timeout-Silent,
}
use execution_policy.Member.{Sample, PeakEwmaState}
use execution_policy.Ewma.{peak_ewma, fold_all}
use execution_policy.Ewma.Peaks.{fold_all-peak}
use execution_policy.Examples.Support.{thousandths}

-- A poll with a tick 40 ns after the one before, one without, and one that gives the result.
abbrev ticking : Poll ℕ ℕ
ticking = record { passed = 40; ticks = 1; op = none }

abbrev quiet : Poll ℕ ℕ
quiet = record { passed = 60; ticks = 0; op = none }

abbrev finished : Poll ℕ ℕ
finished = record { passed = 40; ticks = 0; op = some (ok 7) }

abbrev slow : List (Poll ℕ ℕ)
slow = ticking ∷ quiet ∷ ticking ∷ ticking ∷ []

slow-Lively : Lively 100 0 slow
slow-Lively = (refl, omega arith, (refl, omega arith, (refl, omega arith, (refl, omega arith, tt))))

stall_timeout-by_silence_example :
    stall_timeout 100 5 (slow ++ quiet ∷ quiet ∷ [])
    ≡ by_silence 100 0 5 (slow ++ quiet ∷ quiet ∷ [])
stall_timeout-by_silence_example = stall_timeout-by_silence 100 5 (slow ++ quiet ∷ quiet ∷ [])

slow_run : stall_timeout 100 5 (slow ++ quiet ∷ quiet ∷ []) ≡ ended (err (stalled 100)) 305
unfolding stall_timeout watch
slow_run = refl

stall_timeout-Lively_example :
    stall_timeout 100 5 (slow ++ finished ∷ []) ≡ ended (map_err (ok 7)) (5 + span slow + 40)
stall_timeout-Lively_example = stall_timeout-Lively 100 5 slow [] finished (ok 7) slow-Lively refl

stall_timeout-Silent_example :
    (t : Instant) × (stall_timeout 100 5 (slow ++ ((quiet ∷ quiet ∷ []) ++ []))
      ≡ ended (err (stalled 100)) t)
    × (5 + span slow + 100 ≤ t + silent_for 0 slow)
    × (t ≤ 5 + span slow + span (quiet ∷ quiet ∷ []))
stall_timeout-Silent_example =
    stall_timeout-Silent 100 5 slow (quiet ∷ quiet ∷ []) [] slow-Lively (omega arith)
      ((refl, refl), ((refl, refl), tt)) (omega arith)

-- A success of 800 ms, and a failure of 5 ms.
abbrev success : Sample
success = record {
  latency = 800000000;
  at = 2000000000;
  last_update = 2000000000;
  in_flight = 1;
  is_ok = true;
}

abbrev failure : Sample
failure = record {
  latency = 5000000;
  at = 3000000000;
  last_update = 2000000000;
  in_flight = 1;
  is_ok = false;
}

thousandths_refl :
    (d : Duration) → thousandths.le (thousandths.as_secs d) (thousandths.as_secs d) ≡ true
thousandths_refl d = ground arith

thousandths_max :
    (x : F64) (d : Duration)
    → thousandths.le (thousandths.as_secs d) (thousandths.max x (thousandths.as_secs d)) ≡ true
thousandths_max x d = ground arith

fold_all-peak_example :
    (p : PeakEwmaState) × (fold_all (peak_ewma 10000000000) none (failure ∷ success ∷ failure ∷ [])
      ≡ some p)
    × (thousandths.le 800 p.value_secs ≡ true)
    × (p.last_update ≡ 2000000000)
fold_all-peak_example =
    fold_all-peak thousandths_refl thousandths_max 10000000000 none (failure ∷ []) (failure ∷ [])
      success refl (refl, tt)
