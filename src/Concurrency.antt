-- ===== src/Concurrency.antt =====
-- Bounded concurrency (src/concurrency.rs). Each method of the semaphore is one atomic step under its
-- mutex; a waker is the number of the task that it wakes.
pub mod Permits
pub mod Wakeups
use execution_policy.Base.{
  ℕ, ◌+◌, ◌-◌, Duration, Bool, true, false, Option, none, some, List, [], ◌∷◌, ◌++◌, ltb,
  if◌then◌else◌, max_of, u64, u64_max, length,
}

pub data SaturationPolicy : Type 0 where
  wait : (max_queued : ℕ) (queue_timeout : Option Duration) → SaturationPolicy
  reject : SaturationPolicy

pub data Scope : Type 0 where
  operations attempts : Scope

pub record ConcurrencyLimit : Type 0 where
  pub permits : ℕ
  pub scope : Scope
  pub saturation : SaturationPolicy

-- `new`, behind `operations` and `attempts`
unfoldable pub limit : ℕ → Scope → ConcurrencyLimit
limit permits scope = record {
  permits = max_of permits 1;
  scope = scope;
  saturation = wait u64_max none;
}

abbrev queue_at_most : SaturationPolicy → ℕ → SaturationPolicy
queue_at_most (wait _ queue_timeout) n = wait n queue_timeout
queue_at_most reject n = reject

abbrev queue_for : SaturationPolicy → Duration → SaturationPolicy
queue_for (wait max_queued _) d = wait max_queued (some d)
queue_for reject d = reject

unfoldable pub max_queued : ConcurrencyLimit → ℕ → ConcurrencyLimit
max_queued c n = record c { saturation = queue_at_most c.saturation n }

unfoldable pub queue_timeout : ConcurrencyLimit → Duration → ConcurrencyLimit
queue_timeout c d = record c { saturation = queue_for c.saturation d }

unfoldable pub rejecting : ConcurrencyLimit → ConcurrencyLimit
rejecting c = record c { saturation = reject }

-- The oldest waker stands first.
pub record Semaphore : Type 0 where
  pub permits : ℕ
  pub waiters : List ℕ

unfoldable pub new : ℕ → Semaphore
new permits = record { permits = permits; waiters = [] }

-- `CompiledConcurrency`, less the semaphore, which stands in the state that the engine shares.
pub record CompiledConcurrency : Type 0 where
  pub saturation : SaturationPolicy
  pub scope : Scope

unfoldable pub compile : ConcurrencyLimit → CompiledConcurrency × Semaphore
compile c = (record { saturation = c.saturation; scope = c.scope }, new c.permits)

unfoldable pub queued : Semaphore → ℕ
queued s = length s.waiters

-- `true` is a permit.
unfoldable pub try_acquire : Semaphore → Bool × Semaphore
try_acquire s = if ltb 0 s.permits then (true, record s { permits = s.permits - 1 }) else (false, s)

-- `Acquire::poll` by the task `task`: `false` is `Pending`.
unfoldable pub poll_acquire : Semaphore → ℕ → Bool × Semaphore
poll_acquire s task =
    if ltb 0 s.permits
    then (true, record s { permits = s.permits - 1 })
    else (false, record s { waiters = s.waiters ++ task ∷ [] })

abbrev pop_front : List ℕ → Option ℕ × List ℕ
pop_front [] = (none, [])
pop_front (w ∷ ws) = (some w, ws)

-- Also the waker that it wakes.
unfoldable pub release : Semaphore → Option ℕ × Semaphore
release s =
    let (woken, rest) = pop_front s.waiters in
    (woken, record { permits = u64 (s.permits + 1); waiters = rest })
