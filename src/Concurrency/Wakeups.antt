-- ===== src/Concurrency/Wakeups.antt =====
-- Who is woken when a permit comes back (src/concurrency.rs).
use execution_policy.Base.{ℕ, zero, suc, ◌+◌, ◌≡◌, List, [], ◌∷◌, arith, length-append}
use execution_policy.Concurrency.{Semaphore, queued, poll_acquire}

-- The polls of one pending task, one after another.
abbrev pub polls : ℕ → ℕ → Semaphore → Semaphore
polls zero task s = s
polls (suc k) task s = polls k task (poll_acquire s task).1

poll_acquire-queued :
    (s : Semaphore) (task : ℕ)
    → s.permits ≡ 0
    → ((poll_acquire s task).1.permits ≡ 0) × (queued (poll_acquire s task).1 ≡ queued s + 1)
unfolding poll_acquire queued
poll_acquire-queued s task e = ground (arith, length-append s.waiters (task ∷ []))

-- While no permit is free, each poll of the same waiting task puts one more waker in the queue: a task
-- that is polled `k` times counts `k` times in `queued`.
pub queued-polls :
    (k task : ℕ) (s : Semaphore) → s.permits ≡ 0 → queued (polls k task s) ≡ queued s + k
queued-polls zero task s e = omega arith
queued-polls (suc k) task s e =
    let (still, more) = poll_acquire-queued s task e in
    omega (arith, more, queued-polls k task (poll_acquire s task).1 still)
