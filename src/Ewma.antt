-- ===== src/Ewma.antt =====
-- The peak-EWMA latency meter (src/meter.rs), over the float interface.
pub mod Peaks
use execution_policy.Base.{Duration, Instant, ◌-◌, Option, none, some, List, [], ◌∷◌, if◌then◌else◌}
use execution_policy.Base.Float.{Float64, F64}
use execution_policy.Member.{Sample, PeakEwmaState, Meter}

module _ ⦃f : Float64⦄ where
  -- `prev.unwrap_or(...)`
  abbrev pub kept : Option PeakEwmaState → Instant → PeakEwmaState
  kept none at = record { value_secs = f.of_u64 0; last_update = at }
  kept (some p) at = p

  -- A success, with the half-life in seconds.
  abbrev pub fold_ok : F64 → F64 → Instant → Option PeakEwmaState → PeakEwmaState
  fold_ok tau observed at none = record { value_secs = observed; last_update = at }
  fold_ok tau observed at (some p) =
      let dt = f.as_secs (at - p.last_update) in
      let w = f.exp (f.neg (f.div dt tau)) in
      let ewma = f.add (f.mul p.value_secs w) (f.mul observed (f.sub (f.of_u64 1) w)) in
      record { value_secs = f.max ewma observed; last_update = at }

  abbrev pub peak_fold : F64 → Option PeakEwmaState → Sample → PeakEwmaState
  peak_fold tau prev s =
      if s.is_ok then fold_ok tau (f.as_secs s.latency) s.at prev else kept prev s.at

  unfoldable pub peak_ewma : Duration → Meter
  peak_ewma half_life =
      let tau = f.max (f.as_secs half_life) f.min_positive in record { fold = peak_fold tau }

  unfoldable pub custom : (Option PeakEwmaState → Sample → PeakEwmaState) → Meter
  custom g = record { fold = g }

  -- What a member's cell holds after the samples of its calls, oldest first.
  abbrev pub fold_all : Meter → Option PeakEwmaState → List Sample → Option PeakEwmaState
  fold_all m prev [] = prev
  fold_all m prev (s ∷ ss) = fold_all m (some (m.fold prev s)) ss
