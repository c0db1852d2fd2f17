-- ===== src/Breaker/Window.antt =====
-- The sliding window of failure counts (`Window` of src/breaker.rs).
pub mod Tallies
pub mod Counts
use execution_policy.Base.{
  ℕ, ◌+◌, ◌-◌, ◌/◌, Duration, Instant, Bool, true, false, Option, none, some, List, [], ◌∷◌, ltb,
  leb, if◌then◌else◌, max_of, millis, checked_sub, u64, retain,
}

pub record Bucket : Type 0 where
  pub start : Instant
  pub failures : ℕ  -- u64
  pub total : ℕ  -- u64

-- The head of the list is the back of the vector.
pub record Window : Type 0 where
  pub span : Duration
  pub bucket : Duration
  pub buckets : List Bucket

unfoldable pub new : Duration → Window
new span = record { span = span; bucket = max_of (span / 10) (millis 1); buckets = [] }

unfoldable pub clear : Window → Window
clear w = record w { buckets = [] }

abbrev pub keep_from : Option Instant → List Bucket → List Bucket
keep_from none bs = bs
keep_from (some cutoff) bs = retain (λ b. leb cutoff b.start) bs

unfoldable pub evict : Window → Instant → Window
evict w now = record w { buckets = keep_from (checked_sub now w.span) w.buckets }

abbrev pub one_if : Bool → ℕ
one_if true = 1
one_if false = 0

-- `now.duration_since(*b_start)` stops at zero.
abbrev pub count_in : Duration → Instant → Bool → List Bucket → List Bucket
count_in width now failure [] = record { start = now; failures = one_if failure; total = 1 } ∷ []
count_in width now failure (b ∷ bs) =
    if ltb (now - b.start) width
    then record b { failures = u64 (b.failures + one_if failure); total = u64 (b.total + 1) } ∷ bs
    else record { start = now; failures = one_if failure; total = 1 } ∷ b ∷ bs

-- `Window::record`
unfoldable pub count : Window → Instant → Bool → Window
unfolding evict
count w now failure =
    let w' = evict w now in record w' { buckets = count_in w.bucket now failure w'.buckets }

abbrev pub sum_failures : List Bucket → ℕ
sum_failures [] = 0
sum_failures (b ∷ bs) = u64 (sum_failures bs + b.failures)

abbrev pub sum_total : List Bucket → ℕ
sum_total [] = 0
sum_total (b ∷ bs) = u64 (sum_total bs + b.total)

-- `totals` evicts, too: the window after it, the failures, and the calls.
unfoldable pub totals : Window → Instant → Window × ℕ × ℕ
unfolding evict
totals w now = let w' = evict w now in (w', sum_failures w'.buckets, sum_total w'.buckets)
