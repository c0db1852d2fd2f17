-- ===== src/Ewma/Peaks.antt =====
-- What a peak-EWMA reading says of the calls.
use execution_policy.Base.{Duration, Instant, true, false, Option, none, some, List, [], ◌∷◌, ◌++◌}
use execution_policy.Base.{◌≡◌, refl, ◌∙◌, All}
use execution_policy.Base.Float.{Float64, F64}
use execution_policy.Member.{Sample, PeakEwmaState, Meter}
use execution_policy.Ewma.{fold_ok, peak_ewma, fold_all}

module _ ⦃f : Float64⦄ where
  fold_all-append :
      (m : Meter) (prev : Option PeakEwmaState) (ss ts : List Sample)
      → fold_all m prev (ss ++ ts) ≡ fold_all m (fold_all m prev ss) ts
  fold_all-append m prev [] ts = refl
  fold_all-append m prev (s ∷ ss) ts = fold_all-append m (some (m.fold prev s)) ss ts

  fold_all-failed :
      (half_life : Duration) (p : PeakEwmaState) (ss : List Sample)
      → All (λ (s : Sample). s.is_ok ≡ false) ss
      → fold_all (peak_ewma half_life) (some p) ss ≡ some p
  unfolding peak_ewma
  fold_all-failed half_life p [] h = refl
  fold_all-failed half_life p (s ∷ ss) (e, h) = rw e (fold_all-failed half_life p ss h)

  fold_ok-at :
      (tau observed : F64) (at : Instant) (prev : Option PeakEwmaState)
      → (fold_ok tau observed at prev).last_update ≡ at
  fold_ok-at tau observed at none = refl
  fold_ok-at tau observed at (some p) = refl

  module _ (le_refl : (d : Duration) → f.le (f.as_secs d) (f.as_secs d) ≡ true)
      (le_max : (x : F64) (d : Duration) → f.le (f.as_secs d) (f.max x (f.as_secs d)) ≡ true) where
    fold_ok-peak :
        (tau : F64) (d : Duration) (at : Instant) (prev : Option PeakEwmaState)
        → f.le (f.as_secs d) (fold_ok tau (f.as_secs d) at prev).value_secs ≡ true
    fold_ok-peak tau d at none = le_refl d
    fold_ok-peak tau d at (some p) = le_max _ d

    -- Where a number of seconds is at most itself, and at most its `max` with any number: after a success
    -- and any failures since, the reading is at least that success's latency, and dates from it.
    pub fold_all-peak :
        (half_life : Duration) (prev : Option PeakEwmaState) (before after : List Sample)
        (s : Sample)
        → s.is_ok ≡ true
        → All (λ (t : Sample). t.is_ok ≡ false) after
        → (p : PeakEwmaState) × (fold_all (peak_ewma half_life) prev (before ++ s ∷ after) ≡ some p)
          × (f.le (f.as_secs s.latency) p.value_secs ≡ true)
          × (p.last_update ≡ s.at)
    unfolding peak_ewma
    fold_all-peak half_life prev before after s ok failed =
        let tau = f.max (f.as_secs half_life) f.min_positive in
        let held = fold_all (peak_ewma half_life) prev before in
        let p = fold_ok tau (f.as_secs s.latency) s.at held in
        (
          p,
          fold_all-append (peak_ewma half_life) prev before (s ∷ after)
              ∙ rw ok (fold_all-failed half_life p after failed),
          fold_ok-peak tau s.latency s.at held,
          fold_ok-at tau (f.as_secs s.latency) s.at held,
        )
