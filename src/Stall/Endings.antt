-- ===== src/Stall/Endings.antt =====
-- What ends a watchdog.
use execution_policy.Base.{◌+◌, ◌<◌, ◌≤◌, ◌≡◌, refl, ap, ◌∙◌, arith, u64, Duration}
use execution_policy.Base.{Instant, none, some, List, [], ◌∷◌, ◌++◌, leb}
use execution_policy.Base.{All, leb-false, Bool-cases, inl, inr, leb→le}
use execution_policy.Outcome.{Result, ok, err}
use execution_policy.Stall.{stalled, Poll, ended, map_err, stall_timeout}
use execution_policy.Stall.Silence.{given, silence, by_silence, stall_timeout-by_silence}

module _ {T E : Type 0} where
  abbrev pub span : List (Poll T E) → Duration
  span [] = 0
  span (p ∷ ps) = p.passed + span ps

  -- How long the operation has been silent after some polls.
  abbrev pub silent_for : Duration → List (Poll T E) → Duration
  silent_for quiet [] = quiet
  silent_for quiet (p ∷ ps) = silent_for (silence quiet p) ps

  -- No poll ends the operation, and each finds a silence below the budget.
  abbrev pub Lively : Duration → Duration → List (Poll T E) → Type 0
  Lively budget quiet [] = Unit
  Lively budget quiet (p ∷ ps) =
      (p.op ≡ none) × (silence quiet p < budget) × Lively budget (silence quiet p) ps

  abbrev pub Silent : Poll T E → Type 0
  Silent p = (p.op ≡ none) × (u64 p.ticks ≡ 0)

  by_silence-Lively :
      (budget quiet : Duration) (now : Instant) (before after : List (Poll T E))
      → Lively budget quiet before
      → by_silence budget quiet now (before ++ after)
        ≡ by_silence budget (silent_for quiet before) (now + span before) after
  by_silence-Lively budget quiet now [] after h =
      ap (λ t. by_silence budget quiet t after) (omega arith)
  by_silence-Lively budget quiet now (p ∷ ps) after (op, early, h) =
      rw (op, leb-false budget (silence quiet p) early)
        (by_silence-Lively budget (silence quiet p) (now + p.passed) ps after h
          ∙ ap (λ t. by_silence budget (silent_for (silence quiet p) ps) t after) (omega arith))

  -- An operation that no poll finds silent for the budget runs to completion, however long it takes.
  pub stall_timeout-Lively :
      (budget : Duration) (now : Instant) (before after : List (Poll T E)) (p : Poll T E)
      (r : Result T E)
      → Lively budget 0 before
      → p.op ≡ some r
      → stall_timeout budget now (before ++ p ∷ after)
        ≡ ended (map_err r) (now + span before + p.passed)
  stall_timeout-Lively budget now before after p r h e =
      stall_timeout-by_silence budget now (before ++ p ∷ after)
      ∙ by_silence-Lively budget 0 now before (p ∷ after) h
      ∙ rw e (at_end r)
    where
      at_end :
          (x : Result T E)
          → ended (given x) (now + span before + p.passed)
            ≡ ended (map_err x) (now + span before + p.passed)
      at_end (ok x) = refl
      at_end (err x) = refl

  by_silence-Silent :
      (budget quiet : Duration) (now : Instant) (silent after : List (Poll T E))
      → quiet < budget
      → All Silent silent
      → budget ≤ quiet + span silent
      → (t : Instant) × (by_silence budget quiet now (silent ++ after)
          ≡ ended (err (stalled budget)) t)
        × (now + budget ≤ t + quiet)
        × (t ≤ now + span silent)
  by_silence-Silent budget quiet now [] after early h late = absurd (omega arith)
  by_silence-Silent budget quiet now (p ∷ ps) after early ((op, still), h) late =
      elim (Bool-cases (leb budget (quiet + p.passed))) [
        | inl e ↦ (now + p.passed, rw (op, still, e) refl, omega (arith, leb→le _ _ e), omega arith)
        | inr e ↦
            let (t, ends, low, high) =
              by_silence-Silent budget (quiet + p.passed) (now + p.passed) ps after
                (ground (arith, e)) h (omega arith) in
            (t, rw (op, still, e) ends, omega arith, omega arith)
      ]

  -- An operation that falls silent is dropped, if it does not end: when its silence reaches the budget, and
  -- not before.
  pub stall_timeout-Silent :
      (budget : Duration) (now : Instant) (before silent after : List (Poll T E))
      → Lively budget 0 before
      → silent_for 0 before < budget
      → All Silent silent
      → budget ≤ silent_for 0 before + span silent
      → (t : Instant) × (stall_timeout budget now (before ++ (silent ++ after))
          ≡ ended (err (stalled budget)) t)
        × (now + span before + budget ≤ t + silent_for 0 before)
        × (t ≤ now + span before + span silent)
  stall_timeout-Silent budget now before silent after h early still late =
      let (t, ends, low, high) =
        by_silence-Silent budget (silent_for 0 before) (now + span before) silent after early still
          late in
      (
        t,
        stall_timeout-by_silence budget now (before ++ (silent ++ after))
            ∙ by_silence-Lively budget 0 now before (silent ++ after) h
            ∙ ends,
        low,
        high,
      )
