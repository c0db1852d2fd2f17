-- ===== src/Breaker/Window/Counts.antt =====
-- What the sliding window counts (`Window` of src/breaker.rs).
use execution_policy.Base.{
  ℕ, ◌+◌, ◌-◌, ◌/◌, ◌≤◌, ◌<◌, ◌≡◌, refl, Duration, Instant, Bool, List, [], ◌∷◌, arith, leb, length,
  retain, max_of, millis,
}
use execution_policy.Breaker.Window.{Bucket, new, evict, one_if, sum_failures, sum_total, totals}
use execution_policy.Breaker.Window.Tallies.{
  recorded, InOrder, since, in_buckets, keep_from-retain, failure_tally, total_tally, since-le,
  Explains, Explains-recorded,
}

sum_failures-in_buckets :
    (k : Instant) (bs : List Bucket)
    → in_buckets (λ b. b.failures) k bs < 18446744073709551616
    → sum_failures (retain (λ b. leb k b.start) bs) ≡ in_buckets (λ b. b.failures) k bs
sum_failures-in_buckets k [] h = refl
sum_failures-in_buckets k (b ∷ bs) h = ground (arith, sum_failures-in_buckets k bs)

sum_total-in_buckets :
    (k : Instant) (bs : List Bucket)
    → in_buckets (λ b. b.total) k bs < 18446744073709551616
    → sum_total (retain (λ b. leb k b.start) bs) ≡ in_buckets (λ b. b.total) k bs
sum_total-in_buckets k [] h = refl
sum_total-in_buckets k (b ∷ bs) h = ground (arith, sum_total-in_buckets k bs)

-- A count that lies between those of the outcomes of the last `span`, less the width of a bucket or not.
abbrev pub Between : (Bool → ℕ) → Instant → Duration → List (Instant × Bool) → ℕ → Type 0
Between weight from width h n = (since weight (from + width) h ≤ n) × (n ≤ since weight from h)

-- The totals of a window at `now` count every outcome since the start of the span and a bucket's width,
-- none from before the start of the span, and between the two only outcomes that were recorded: no
-- failure and no call is counted twice. The outcomes were recorded in the order of time, and are fewer
-- than 2^64; the start of the span stops at 0.
pub totals-Between :
    (span : Duration) (h : List (Instant × Bool)) (now : Instant)
    → InOrder now h
    → length h < 18446744073709551616
    → let w = recorded (new span) h in
      let width = max_of (span / 10) (millis 1) in
      Between one_if (now - span) width h (totals w now).1
      × Between (λ _. 1) (now - span) width h (totals w now).2
unfolding new totals evict
totals-Between span h now o small =
    let (fails, same_span, _) = Explains-recorded failure_tally (new span) h now refl o small in
    let (all, _, _) = Explains-recorded total_tally (new span) h now refl o small in
    let bs : List Bucket = (recorded (new span) h).buckets in
    let from : Instant = now - span in
    rw (same_span, keep_from-retain now span bs)
      (
        (
          omega (arith, fails.lower from (omega arith), failed fails),
          omega (arith, fails.upper from (omega arith), failed fails),
        ),
        (
          omega (arith, all.lower from (omega arith), counted all),
          omega (arith, all.upper from (omega arith), counted all),
        ),
      )
  where
    failed :
        Explains failure_tally
          (max_of (span / 10) (millis 1))
          (now - span)
          now
          (recorded (new span) h).buckets
          h
        → sum_failures (retain (λ b. leb (now - span) b.start) (recorded (new span) h).buckets)
          ≡ in_buckets (λ b. b.failures) (now - span) (recorded (new span) h).buckets
    failed e = sum_failures-in_buckets (now - span) (recorded (new span) h).buckets (
        omega
          (arith, e.upper (now - span) (omega arith), since-le failure_tally (now - span) h, small))

    counted :
        Explains total_tally
          (max_of (span / 10) (millis 1))
          (now - span)
          now
          (recorded (new span) h).buckets
          h
        → sum_total (retain (λ b. leb (now - span) b.start) (recorded (new span) h).buckets)
          ≡ in_buckets (λ b. b.total) (now - span) (recorded (new span) h).buckets
    counted e = sum_total-in_buckets (now - span) (recorded (new span) h).buckets (
        omega
          (arith, e.upper (now - span) (omega arith), since-le total_tally (now - span) h, small))
