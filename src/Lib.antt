-- ===== src/Lib.antt =====
-- Verification of execution-policy, a Rust library of reliability policies for any asynchronous
-- operation: retry with backoff and jitter, retry budgets, timeouts, a circuit breaker, and bounded
-- concurrency.
--
-- How the program is put together. A builder (src/builder.rs) checks a configuration and compiles it
-- to a plan (src/plan.rs). `run_pipeline` of src/engine.rs runs an operation under it: it takes a
-- permit of the concurrency limit, asks the breaker's gate, runs the retry loop `drive`, and gives
-- the breaker one vote on the result. The loop calls the operation, races it against the attempt's
-- and the call's timers, classifies the outcome, pays a retry from the budget, and sleeps for the
-- delay of the backoff. The breaker, the semaphore and the budget are shared by all calls of a
-- policy, and by its clones. A router (src/router.rs) runs an operation on one of several policies:
-- it skips those whose breaker is open, chooses among the others by a strategy (src/pick.rs), and
-- goes on to the next one after an error that is transient.
--
-- The files, and the code that they model:
--   Base            the numbers, the tests, lists, machine words and `Duration`; the float operations
--                   that the code calls, as an interface (Base/Float)
--   Outcome, Event  src/error.rs, src/event.rs
--   Classify        src/classify.rs
--   Retry           src/retry/mod.rs, with Config for its setters and Backoff, Jitter and Budget for the
--                   files of that directory; Delays, Hints, Budget/Steps and Budget/Fairness prove what
--                   they promise
--   Breaker         src/breaker.rs, with Config for its setters and Window for its sliding window;
--                   Window/Tallies, Window/Counts, Invariant, Trips, Ratio, Cooldown and Probes prove
--                   what it promises
--   Concurrency     src/concurrency.rs; Permits has the tasks as a step relation, Wakeups its wakers
--   Engine          src/engine.rs: World has the state and the control flow, Awaits the three awaits,
--                   Drive the retry loop, Pipeline the layers around it; Ensures has the rules for what
--                   a stretch of code ensures, Awaits/Frame what an await leaves alone, Drive/Rounds one
--                   round with its Returns, Drive/Handed the attempts, Drive/Attempts the loop,
--                   Drive/Story and Drive/Told what a hook is told of it, Drive/Pause and Drive/Paced
--                   its backoffs. Pipeline/Lift takes what the loop ensures to a whole call:
--                   Pipeline/Runs, Pipeline/Endings with Pipeline/Told, and Pipeline/Paced. Clients says
--                   what other tasks do to the breaker, as any relation; Pipeline/Cast writes out the
--                   vote of a result, Pipeline/Ballot has a call's part in the breaker's life,
--                   Pipeline/Sound what follows from it, and Pipeline/Votes what a rejection and a
--                   missing vote do. Evidence says what a result shows; Awaits/Polls, Drive/Shown,
--                   Drive/Late and Drive/Truthful prove it of the loop, and Pipeline/Truthful of a call.
--                   Books says what an account of a call is, and Awaits/Held, Drive/Held and
--                   Pipeline/Held prove that a call keeps each account, with its rule for that in
--                   Books/Rule; Pipeline/Balance is the account of the permits and Pipeline/Paid that of
--                   the retry budget
--   Stall           src/stall.rs; Silence has what it promises and Endings what that comes to
--   Core            src/core: Rng, Tokio and Clock model its files (rng.rs, tokio.rs, test.rs), Rng/Unmix
--                   inverts the mixing of the generator, Draws and Sleeps prove what they promise
--   Policy          src/policy.rs: the pollable health, and in Runs the ways to run an operation
--   Attempt         src/attempt.rs
--   Pick, Member    src/pick.rs, src/member.rs and the data of src/meter.rs
--   Ewma            the folds of src/meter.rs; Peaks proves what a reading says
--   Router          src/router.rs: its data and the scan of its members' health; Choose has the choice
--                   of a member, Run the loop, Builder the builder. Members has the lemmas on lists of
--                   members, Chosen, Rotation and Drawn on a round, and Lift takes what the rounds keep
--                   to a whole run: Visits has the members it tries, Loads what it leaves on them.
--                   Serving has the engine serve the members, Calls the calls that a run makes, Sourced
--                   where a result then comes from, and Sound what becomes of the breakers. Turns, Prompt
--                   and Fairness are about round robin; Health, Least, Argmin, Sampling and
--                   Builder/Checks prove what the parts do
--   Builder         src/builder.rs, with Setters for its setters; Built proves what it lets through, and
--                   what that means for a call, Configured has what a client can configure, and Sound
--                   proves it sound
--   Examples        the definitions run on concrete inputs, and the theorems applied to them
--
-- The model. An operation keeps its name; a struct is a record and an enum a data type. An instant and a
-- duration are nanoseconds, the instants from some fixed origin, `Duration::MAX` is the largest
-- duration, and a difference of instants stops at 0, as `duration_since` does. A u32, u64 or usize
-- counter wraps where the code's could. A method of the breaker or the semaphore is one atomic step,
-- since it holds the mutex; a method that reads the breaker's state before it takes it is taken to read
-- the same value. The budget's compare-exchange loops take the values that failed exchanges observed.
--
-- A future is modelled by its polls. The world of a call has the polls to come: each says how much time
-- passed before it, what other tasks did to the shared state meanwhile (any function), and what the
-- operation's future gives when it is polled. A call whose polls are used up is pending. So a theorem on
-- every world is one on every interleaving. The retry loop runs on fuel, `max_attempts` rounds: a round
-- that goes on has an attempt number below the cap, so that the fuel is never used up. The builder
-- checks that the cap is at least 1.
--
-- A callback (a classifier, a predicate, a hint extractor) is a parameter. Of an event hook only the
-- events that it is given are modelled. The live parts that the plan holds behind an `Arc` stand in the
-- shared state; `run_pipeline_boxed` and `drive_boxed` repeat the text of their twins for an operation
-- of another type.
--
-- The router works on a pool: the clock, the breaker and the load of each target, and the random
-- numbers. What the run of a member's policy does to the pool, with other tasks, is a parameter (any
-- function), and so is its result. Router/Serving fills the parameter with the engine: each member has a
-- plan and a world of its own, whose clock and breaker are those of the pool. (Members whose policies
-- are clones of one another, and so share a budget and a semaphore, are not covered there.) The router's
-- loop has fuel for one round more than there are healthy members, since each round removes one. A score
-- closure that panics gives no score, and a panic is an outcome of the run.
--
-- The watchdog of src/stall.rs is modelled by its polls, too: each has the time since the one before, the
-- ticks since then, and what the operation gives. The code of one poll runs at one instant. The wakers
-- of the manual clock are the numbers of their tasks. A poll of its sleep reads the offset and registers
-- the waker under two locks; what others do to the clock between them is a parameter (any function).
--
-- Not modelled: the clock and the sleeps of the tokio core, which are the runtime's, and the text of
-- errors. A call that is cancelled half way is modelled only for the semaphore.
pub mod Attempt
pub mod Base
pub mod Outcome
pub mod Event
pub mod Ewma
pub mod Classify
pub mod Retry
pub mod Breaker
pub mod Concurrency
pub mod Core
pub mod Engine
pub mod Policy
pub mod Pick
pub mod Member
pub mod Router
pub mod Stall
pub mod Builder
mod Examples
