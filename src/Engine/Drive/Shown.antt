-- ===== src/Engine/Drive/Shown.antt =====
-- A round of the retry loop (`drive` of src/engine.rs) returns nothing that it has no evidence of.
use execution_policy.Base.{
  ◌-◌, ◌≡◌, refl, subst, ap, ◌⊎◌, inl, inr, Duration, true, false, Option, none, some, List, arith,
  leb, Bool-cases,
}
use execution_policy.Base.Float.{Float64}
use execution_policy.Outcome.{Result, ok, err, ExecutionError}
use execution_policy.Event.{Event}
use execution_policy.Classify.{RetryDecision, retry, stop}
use execution_policy.Retry.{RetryBudget, decide}
use execution_policy.Retry.Budget.{Bucket, try_withdraw}
use execution_policy.Engine.World.{World, Poll, Flow, next, set_bucket}
use execution_policy.Engine.Ensures.{Ensures}
use execution_policy.Engine.Awaits.{AttemptOutcome, completed}
use execution_policy.Engine.Awaits.Polls.{Shows}
use execution_policy.Engine.Drive.{
  Loop, Call, judge, check_elapsed, judge_completed, elapsed_error, withdraw, withdrawn, exceeds,
}
use execution_policy.Engine.Evidence.{Polled, Evidence, Sane, Known, ElapsedLate}

some_inj : {A : Type 0} {x y : A} → some x ≡ some y → x ≡ y
some_inj {A} {x} h = ap (λ (o : Option A). elim o [ none ↦ x | some z ↦ z ]) h

pub false-true : false ≡ true → ⊥
false-true h = ground arith

module _ ⦃f : Float64⦄ {T E : Type 0} (c : Call T E) (polls : List (Poll T E)) where
  abbrev pub Fine : World T E → Type 0
  Fine = Sane c.plan c.start c.total_deadline polls

  abbrev pub Justified : Result T (ExecutionError E) → World T E → Type 0
  Justified r w = Evidence c.plan c.start c.total_deadline polls r w.clock

  abbrev pub KeptError : Option E → Type 0
  KeptError = Known c.plan c.start c.total_deadline polls

  -- What goes on keeps the call sane, and what returns is justified.
  abbrev pub Honest : {A : Type 0} → (A → World T E → Type 0) → Flow T E A → Type 0
  Honest Q = Ensures Q Justified (λ _. Unit)

  -- Nothing that the evidence rests on changes when an event is told.
  pub told-Fine : (w : World T E) (log : List Event) → Fine w → Fine (record w { log = log })
  told-Fine w log s = record { rest = s.rest; begun = s.begun }

  bucket-Fine : (w : World T E) (b : Bucket) → Fine w → Fine (set_bucket w b)
  bucket-Fine w b s = record { rest = s.rest; begun = s.begun }

  module _ (l : Loop E) (known : KeptError l.last_error) where
    completed-Honest :
        (d : RetryDecision) (r : Result T E) (w : World T E)
        → Fine w
        → Polled c.plan c.start c.total_deadline polls r
        → Honest (λ last w'. Fine w' × KeptError last) (judge_completed c l d r w)
    completed-Honest stop (ok v) w s h = h
    completed-Honest stop (err e) w s h = h
    completed-Honest retry (ok v) w s h =
        elim (Bool-cases (leb c.retry.max_attempts l.attempt_no)) [
          | inl full ↦ rw full h
          | inr room ↦ rw room (s, known)
        ]
    completed-Honest retry (err e) w s h =
        elim (Bool-cases (leb c.retry.max_attempts l.attempt_no)) [
          | inl full ↦ rw full h
          | inr room ↦ rw room (told-Fine w _ s, this)
        ]
      where
        this : KeptError (some e)
        this source same =
            subst (λ (x : E). Polled c.plan c.start c.total_deadline polls (err x)) (some_inj same)
              h

    pub judge-Honest :
        (o : AttemptOutcome T E) (w : World T E)
        → Fine w
        → Shows c.plan c.start c.total_deadline polls o w.clock
        → Honest (λ last w'. Fine w' × KeptError last) (judge c l o w)
    unfolding judge
    judge-Honest AttemptOutcome.total_timeout w s h = h
    judge-Honest AttemptOutcome.attempt_timeout w s h =
        elim (Bool-cases (leb c.retry.max_attempts l.attempt_no)) [
          | inl full ↦ rw full (inl h)
          | inr room ↦ rw room (told-Fine w _ s, known)
        ]
    judge-Honest (completed r) w s h = completed-Honest (decide c.retry r) r w s h

    pub check_elapsed-Honest :
        (last : Option E) (w : World T E)
        → Fine w
        → KeptError last
        → Honest (λ _ w'. Fine w') (check_elapsed c l last w)
    unfolding check_elapsed
    check_elapsed-Honest last w s k =
        elim (Bool-cases (exceeds c.retry.max_elapsed (w.clock - c.start))) [
          | inl over ↦ rw over (spent last k over)
          | inr within ↦ rw within s
        ]
      where
        long :
            (o : Option Duration)
            → c.retry.max_elapsed ≡ o
            → exceeds o (w.clock - c.start) ≡ true
            → ElapsedLate c.plan c.start c.total_deadline polls w.clock
        long none e h = absurd (false-true h)
        long (some m) e h = (m, e, ground (arith, h, s.begun))

        spent :
            (last : Option E)
            → KeptError last
            → exceeds c.retry.max_elapsed (w.clock - c.start) ≡ true
            → Justified (err (elapsed_error c l last w.clock)) w
        spent none k over = inr (long c.retry.max_elapsed refl over)
        spent (some e) k over = k e refl

    pub withdraw-Honest : (w : World T E) → Fine w → Honest (λ _ w'. Fine w') (withdraw c l w)
    unfolding withdraw
    withdraw-Honest w s = by_budget c.retry.budget refl
      where
        paid :
            (b : RetryBudget)
            → c.retry.budget ≡ some b
            → ((try_withdraw w.shared.bucket).0 ≡ true) ⊎ ((try_withdraw w.shared.bucket).0 ≡ false)
            → Honest
                (λ _ w'. Fine w')
                (withdrawn c l
                  (try_withdraw w.shared.bucket).0
                  (set_bucket w (try_withdraw w.shared.bucket).1))
        paid b e (inl granted) = rw granted (bucket-Fine w _ s)
        paid b e (inr refused) = rw refused (b, e)

        by_budget :
            (o : Option RetryBudget)
            → c.retry.budget ≡ o
            → Honest
                (λ _ w'. Fine w')
                (elim o [
                  | none ↦ next tt w
                  | some _ ↦
                      let (granted, bucket) = try_withdraw w.shared.bucket in
                      withdrawn c l granted (set_bucket w bucket)
                ])
        by_budget none e = s
        by_budget (some b) e = paid b e (Bool-cases (try_withdraw w.shared.bucket).0)
