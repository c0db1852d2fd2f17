-- ===== src/Breaker/Ratio.antt =====
-- When a breaker that watches the ratio of failures trips (src/breaker.rs).
use execution_policy.Base.{
  ℕ, ◌+◌, ◌-◌, ◌/◌, ◌≤◌, ◌<◌, ◌≡◌, refl, sym, subst, inl, inr, Duration, Instant, Bool, true, false,
  ◌&&◌, Option, none, some, List, [], ◌∷◌, arith, leb, All, length, retain, max_of, millis,
  checked_sub, u32, Bool-cases, if◌then◌else◌,
}
use execution_policy.Base.Float.{Float64, F64}
use execution_policy.Outcome.{BreakerState}
use execution_policy.Breaker.Window
use execution_policy.Breaker.Window.{
  Bucket, Window, evict, one_if, count, count_in, keep_from, totals, clear,
}
use execution_policy.Breaker.Window.Tallies.{recorded, InOrder}
use execution_policy.Breaker.Window.Counts.{Between, totals-Between}
use execution_policy.Breaker.{
  closed, failure_ratio, BreakerRuntime, new, record_success, record_failure,
}

-- The buckets that start at `k` or later.
abbrev From : Instant → List Bucket → Type 0
From k = All (λ b. k ≤ b.start)

retain-From : (k : Instant) (bs : List Bucket) → From k (retain (λ b. leb k b.start) bs)
retain-From k [] = tt
retain-From k (b ∷ bs) = ground (arith, retain-From k bs)

retain-all : (k : Instant) (bs : List Bucket) → From k bs → retain (λ b. leb k b.start) bs ≡ bs
retain-all k [] h = refl
retain-all k (b ∷ bs) h = ground (arith, retain-all k bs h.1)

count_in-From :
    (width k now : Instant) (failure : Bool) (bs : List Bucket)
    → k ≤ now
    → From k bs
    → From k (count_in width now failure bs)
count_in-From width k now failure [] le h = ground arith
count_in-From width k now failure (b ∷ bs) le h = ground arith

-- A window that has just counted an outcome has nothing to evict.
keep_from-count_in :
    (width span now : Instant) (failure : Bool) (bs : List Bucket)
    → let kept = count_in width now failure (keep_from (checked_sub now span) bs) in
      keep_from (checked_sub now span) kept ≡ kept
keep_from-count_in width span now failure bs = elim (Bool-cases (leb span now)) [
  | inl long ↦ rw long (
      retain-all (now - span) _ (
        count_in-From width (now - span) now failure _ (omega arith) (retain-From (now - span) bs)))
  | inr short ↦ rw short refl
]

evict-count :
    (w : Window) (now : Instant) (failure : Bool)
    → evict (count w now failure) now ≡ count w now failure
unfolding evict count
evict-count w now failure i = record w {
  buckets = keep_from-count_in w.bucket w.span now failure w.buckets i;
}

module _ ⦃f : Float64⦄ (ratio : F64) (min_throughput : ℕ) (span : Duration) where
  -- The breaker is closed, and its window has counted the outcomes `h`, newest first.
  pub record Watches (h : List (Instant × Bool)) (b : BreakerRuntime) : Type 0 where
    pub latch : b.state ≡ closed
    pub trip_set : b.trip ≡ failure_ratio ratio min_throughput span
    pub counted : b.window ≡ recorded (Window.new span) h

  -- The outcomes `h`, newest first, were recorded in turn, and none of them was a transition.
  pub data Untripped (open_for : Duration) (calls : ℕ)
      : List (Instant × Bool) → BreakerRuntime → Type 0 where
    fresh :
        Untripped open_for calls [] (new (failure_ratio ratio min_throughput span) open_for calls)
    succeeded :
        {h : List (Instant × Bool)} {b : BreakerRuntime} (now : Instant)
        → Untripped open_for calls h b
        → (record_success b now).0 ≡ none
        → Untripped open_for calls ((now, false) ∷ h) (record_success b now).1
    failed :
        {h : List (Instant × Bool)} {b : BreakerRuntime} (now : Instant)
        → Untripped open_for calls h b
        → (record_failure b now).0 ≡ none
        → Untripped open_for calls ((now, true) ∷ h) (record_failure b now).1

  abbrev tripping : ℕ → ℕ → Bool
  tripping failures total =
      leb min_throughput total && f.ge (f.div (f.of_u64 failures) (f.of_u64 total)) ratio

  -- The breaker `b` with the latch closed, the trip of this section, and the window `w`.
  abbrev watching : BreakerRuntime → Window → BreakerRuntime
  watching b w = record b {
    state = closed;
    trip = failure_ratio ratio min_throughput span;
    window = w;
  }

  abbrev FailsAs : Window → Instant → Option BreakerState × BreakerRuntime → Type 0
  FailsAs w now r =
      let t = totals (count w now true) now in
      (r.0 ≡ (if tripping t.1 t.2 then some BreakerState.opened else none))
      × (r.0 ≡ none
          → (r.1.state ≡ closed)
            × (r.1.trip ≡ failure_ratio ratio min_throughput span)
            × (r.1.window ≡ count w now true))

  watching-FailsAs :
      (b : BreakerRuntime) (w : Window) (now : Instant)
      → FailsAs w now (record_failure (watching b w) now)
  unfolding record_failure totals
  watching-FailsAs b w now =
      let t = totals (count w now true) now in
      by_test (tripping t.1 t.2) _
        (watching (record b { consecutive_failures = u32 (b.consecutive_failures + 1) })
          (evict (count w now true) now))
        refl refl (evict-count w now true)
    where
      by_test :
          (t : Bool) (o q : BreakerRuntime)
          → q.state ≡ closed
          → q.trip ≡ failure_ratio ratio min_throughput span
          → q.window ≡ count w now true
          → let r : Option BreakerState × BreakerRuntime =
              if t then (some BreakerState.opened, o) else (none, q) in
            (r.0 ≡ (if t then some BreakerState.opened else none))
            × (r.0 ≡ none
                → (r.1.state ≡ closed)
                  × (r.1.trip ≡ failure_ratio ratio min_throughput span)
                  × (r.1.window ≡ count w now true))
      by_test true o q e e' e'' = (refl, λ h. absurd (opened_not_none h))
        where
          opened_not_none : some BreakerState.opened ≡ none → ⊥
          opened_not_none h = ground arith
      by_test false o q e e' e'' = (refl, λ h. (e, e', e''))

  -- What a failure does to a breaker that watches.
  failure-FailsAs :
      (h : List (Instant × Bool)) (b : BreakerRuntime) (now : Instant)
      → Watches h b
      → FailsAs (recorded (Window.new span) h) now (record_failure b now)
  failure-FailsAs h b now w =
      subst
        (λ (v : BreakerRuntime). FailsAs (recorded (Window.new span) h) now (record_failure v now))
        (λ i. record b { state = sym w.latch i; trip = sym w.trip_set i; window = sym w.counted i })
        (watching-FailsAs b (recorded (Window.new span) h) now)

  success-Watches :
      (h : List (Instant × Bool)) (b : BreakerRuntime) (now : Instant)
      → Watches h b
      → ((record_success b now).0 ≡ none) × Watches ((now, false) ∷ h) (record_success b now).1
  unfolding record_success recorded
  success-Watches h b now w = ground (arith, w.latch, w.trip_set, w.counted)

  Untripped-Watches :
      {open_for : Duration} {calls : ℕ} {h : List (Instant × Bool)} {b : BreakerRuntime}
      → Untripped open_for calls h b
      → Watches h b
  unfolding new recorded
  Untripped-Watches fresh = record { latch = refl; trip_set = refl; counted = refl }
  Untripped-Watches (succeeded {h} {b} now u quiet) =
      (success-Watches h b now (Untripped-Watches u)).1
  Untripped-Watches (failed {h} {b} now u quiet) =
      let kept = (failure-FailsAs h b now (Untripped-Watches u)).1 quiet in
      record { latch = kept.0; trip_set = kept.1; counted = kept.2 }

  -- The counts of the window's calls and failures, up to the width of a bucket, and the outcome.
  pub record Judged (h : List (Instant × Bool)) (now : Instant) (answer : Option BreakerState)
      : Type 0 where
    pub failures : ℕ
    pub total : ℕ
    pub failed_since :
        Between one_if (now - span) (max_of (span / 10) (millis 1)) ((now, true) ∷ h) failures
    pub called_since :
        Between (λ _. 1) (now - span) (max_of (span / 10) (millis 1)) ((now, true) ∷ h) total
    pub answered : answer ≡ (if tripping failures total then some BreakerState.opened else none)

  -- A new breaker that watches the ratio of failures, and has not tripped on the outcomes so far, which
  -- came in the order of time and are fewer than 2^64: a success never trips it. A failure trips it if
  -- and only if the calls that the window counts are at least `min_throughput`, and the failures it
  -- counts, divided by the calls, at least `ratio`. It counts this failure, all outcomes of the last
  -- span, less the width of a bucket or not, and none from before the span.
  pub outcome-Judged :
      {open_for : Duration} {calls : ℕ} {h : List (Instant × Bool)} {b : BreakerRuntime}
      → Untripped open_for calls h b
      → (now : Instant) → InOrder now h
      → length h + 1 < 18446744073709551616
      → ((record_success b now).0 ≡ none) × Judged h now (record_failure b now).0
  unfolding recorded
  outcome-Judged {h = h} {b = b} u now o small =
      let w = Untripped-Watches u in
      let t = totals (recorded (Window.new span) ((now, true) ∷ h)) now in
      let between =
        totals-Between span ((now, true) ∷ h) now (omega arith, o) (omega (arith, small)) in
      (
        (success-Watches h b now w).0,
        record {
          failures = t.1;
          total = t.2;
          failed_since = between.0;
          called_since = between.1;
          answered = (failure-FailsAs h b now w).0;
        },
      )
