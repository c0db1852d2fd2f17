-- ===== src/Concurrency/Permits.antt =====
-- The semaphore of src/concurrency.rs among any number of tasks: no permit is lost or made up.
use execution_policy.Base.{
  ℕ, ◌+◌, ◌-◌, ◌^◌, ◌≤◌, ◌<◌, ◌≡◌, true, false, Option, none, some, List, [], ◌∷◌, arith, retain,
  not, ◌==◌,
}
use execution_policy.Concurrency.{Semaphore, new, try_acquire, poll_acquire, release}

-- The semaphore, the permits that tasks hold, the tasks whose `Acquire` is pending, and those that a
-- release has woken since they last polled.
pub record System : Type 0 where
  pub sem : Semaphore
  pub held : ℕ
  pub pending : List ℕ
  pub woken : List ℕ

abbrev pub without : ℕ → List ℕ → List ℕ
without t = retain (λ u. not (u == t))

abbrev pub wake : Option ℕ → List ℕ → List ℕ
wake none ws = ws
wake (some w) ws = w ∷ ws

abbrev pub init : ℕ → System
init n = record { sem = new n; held = 0; pending = []; woken = [] }

-- A task takes a permit at once, polls a pending `Acquire` or a new one, drops it (a queue timeout, or
-- a cancelled call; `Acquire` has no `Drop`), or drops a permit.
pub data Step (s : System) : System → Type 0 where
  take :
      (try_acquire s.sem).0 ≡ true
      → Step s (record s { sem = (try_acquire s.sem).1; held = s.held + 1 })
  poll_ready :
      (t : ℕ)
      → (poll_acquire s.sem t).0 ≡ true
      → Step s (record {
        sem = (poll_acquire s.sem t).1;
        held = s.held + 1;
        pending = without t s.pending;
        woken = without t s.woken;
      })
  poll_pending :
      (t : ℕ)
      → (poll_acquire s.sem t).0 ≡ false
      → Step s (record {
        sem = (poll_acquire s.sem t).1;
        held = s.held;
        pending = t ∷ without t s.pending;
        woken = without t s.woken;
      })
  abandon : (t : ℕ) → Step s (record s { pending = without t s.pending; woken = without t s.woken })
  give_back :
      0 < s.held
      → Step s (record s {
        sem = (release s.sem).1;
        held = s.held - 1;
        woken = wake (release s.sem).0 s.woken;
      })

pub data Reach (n : ℕ) : System → Type 0 where
  start : Reach n (init n)
  next : {s t : System} → Reach n s → Step s t → Reach n t

abbrev Balanced : ℕ → System → Type 0
Balanced n s = s.sem.permits + s.held ≡ n

Step-Balanced : {n : ℕ} {s t : System} → n < 2 ^ 64 → Step s t → Balanced n s → Balanced n t
unfolding try_acquire poll_acquire release
Step-Balanced lt (take h) b = ground arith
Step-Balanced lt (poll_ready t h) b = ground arith
Step-Balanced lt (poll_pending t h) b = ground arith
Step-Balanced lt (abandon t) b = b
Step-Balanced lt (give_back h) b = ground arith

-- In every reachable state the free permits and the held ones make up the limit, so that no more tasks
-- than the limit allows ever hold one.
pub Reach-held_le :
    {n : ℕ} {s : System} → n < 2 ^ 64 → Reach n s → (s.sem.permits + s.held ≡ n) × (s.held ≤ n)
Reach-held_le lt start = unfold new in ground arith
Reach-held_le lt (next r st) =
    let b = Step-Balanced lt st (Reach-held_le lt r).0 in (b, omega arith)
