-- ===== src/Examples/Permits.antt =====
-- Examples for src/concurrency.rs.
use execution_policy.Base.{◌+◌, ◌≤◌, ◌≡◌, refl, [], ◌∷◌, arith}
use execution_policy.Concurrency.{new, queued, try_acquire, poll_acquire}
use execution_policy.Concurrency.Permits.{
  System, Reach, start, next, take, poll_pending, abandon, Reach-held_le,
}
use execution_policy.Concurrency.Wakeups.{polls, queued-polls}

-- Task 0 holds the only permit, task 1 has queued up and given up, task 2 has queued up behind it.
abbrev crowded : System
crowded = record {
  sem = record { permits = 0; waiters = 1 ∷ 2 ∷ [] };
  held = 1;
  pending = 2 ∷ [];
  woken = [];
}

crowded_reached : Reach 1 crowded
unfolding new try_acquire poll_acquire
crowded_reached =
    next (next (next (next start (take refl)) (poll_pending 1 refl)) (abandon 1))
      (poll_pending 2 refl)

Reach-held_le_example : (crowded.sem.permits + crowded.held ≡ 1) × (crowded.held ≤ 1)
Reach-held_le_example = Reach-held_le (omega arith) crowded_reached

queued-polls_example : queued (polls 3 7 (new 0)) ≡ queued (new 0) + 3
unfolding new
queued-polls_example = queued-polls 3 7 (new 0) refl
