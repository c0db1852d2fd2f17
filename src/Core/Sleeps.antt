-- ===== src/Core/Sleeps.antt =====
-- The sleeps of tasks on a manual clock.
use mathlib.Core.List.{Memᴰ}
use mathlib.Core.List.Memᴰ
use execution_policy.Base.{
  ℕ, ◌+◌, ◌≤◌, ◌<◌, ◌≡◌, refl, ap, subst, sym, arith, Bool-cases, le→leb, leb-false, duration_max,
  Duration, true, false,
}
use execution_policy.Base.{Option, none, some, List, [], ◌∷◌, ◌++◌, ◌⊎◌, inl, inr, leb}
use execution_policy.Core.Clock

-- What the tests' code does to a clock under one lock: a poll that found its sleep pending registers its
-- task's waker, or an advance. A poll reads the offset under a lock before, which changes nothing.
pub data Action : Type 0 where
  registered : Clock.ManualSleep → ℕ → Action
  advanced : Duration → Action

abbrev also_woken : List ℕ → Option (List ℕ × Clock.ClockState) → Option (List ℕ × Clock.ClockState)
also_woken woken none = none
also_woken woken (some (more, end)) = some (woken ++ more, end)

abbrev wake_then :
    (Clock.ClockState → Option (List ℕ × Clock.ClockState))
    → Option (List ℕ × Clock.ClockState)
    → Option (List ℕ × Clock.ClockState)
wake_then rest none = none
wake_then rest (some (woken, st)) = also_woken woken (rest st)

-- The wakers woken by the actions, in order, and the clock after them; `none` if an advance panics.
abbrev pub run : List Action → Clock.ClockState → Option (List ℕ × Clock.ClockState)
run [] st = some ([], st)
run (registered sleep task ∷ rest) st = run rest (Clock.finish_poll sleep task false st)
run (advanced dur ∷ rest) st = wake_then (λ st'. run rest st') (Clock.advance dur st)

abbrev passed : Duration → Clock.ClockState → Clock.ClockState
passed dur st = record {
  base = st.base;
  offset = st.offset + dur;
  wakers = (Clock.part (st.offset + dur) st.wakers).1;
}

-- Where an advance is followed by a run, both give the wakers of the whole.
run-advanced :
    (dur : Duration) (rest : List Action) (st end : Clock.ClockState) (woken : List ℕ)
    → run (advanced dur ∷ rest) st ≡ some (woken, end)
    → (more : List ℕ) × (run rest (passed dur st) ≡ some (more, end))
      × (woken ≡ (Clock.part (st.offset + dur) st.wakers).0 ++ more)
run-advanced dur rest st end woken h = elim (Bool-cases (leb (st.offset + dur) duration_max)) [
  | inl e ↦ also_woken_lem _ (run rest (passed dur st)) (rw e at h)
  | inr e ↦ absurd (nothing (rw e at h))
]
  where
    nothing : {A : Type 0} {x : A} → none ≡ some x → ⊥
    nothing g = cc

    also_woken_lem :
        (ready : List ℕ) (o : Option (List ℕ × Clock.ClockState))
        → also_woken ready o ≡ some (woken, end)
        → (more : List ℕ) × (o ≡ some (more, end)) × (woken ≡ ready ++ more)
    also_woken_lem ready none g = absurd (nothing g)
    also_woken_lem ready (some (more, end')) g = (more, cc, cc)

-- A waker in the list goes to the ready ones or stays, by its deadline.
part-crossed :
    (now d : Duration) (t : ℕ) (ws : List (Duration × ℕ))
    → Memᴰ (d, t) ws
    → d ≤ now
    → Memᴰ t (Clock.part now ws).0
part-crossed now d t [] m h = elim m [ ]
part-crossed now d t ((d', t') ∷ ws) (Memᴰ.head e) h =
    rw (le→leb d' now (omega (arith, ap (λ (p : ℕ × ℕ). p.0) e)))
      (Memᴰ.head (ap (λ (p : ℕ × ℕ). p.1) e))
part-crossed now d t ((d', t') ∷ ws) (Memᴰ.tail m) h =
    let below = part-crossed now d t ws m h in
    elim (Bool-cases (leb d' now)) [ inl e ↦ rw e (Memᴰ.tail below) | inr e ↦ rw e below ]

part-kept :
    (now d : Duration) (t : ℕ) (ws : List (Duration × ℕ))
    → Memᴰ (d, t) ws
    → now < d
    → Memᴰ (d, t) (Clock.part now ws).1
part-kept now d t [] m h = elim m [ ]
part-kept now d t ((d', t') ∷ ws) (Memᴰ.head e) h =
    rw (leb-false d' now (omega (arith, ap (λ (p : ℕ × ℕ). p.0) e))) (Memᴰ.head e)
part-kept now d t ((d', t') ∷ ws) (Memᴰ.tail m) h =
    let below = part-kept now d t ws m h in
    elim (Bool-cases (leb d' now)) [ inl e ↦ rw e below | inr e ↦ rw e (Memᴰ.tail below) ]

-- Time does not go back.
run-offset :
    (actions : List Action) (st end : Clock.ClockState) (woken : List ℕ)
    → run actions st ≡ some (woken, end)
    → st.offset ≤ end.offset
run-offset [] st end woken h = ground arith
run-offset (registered sleep task ∷ rest) st end woken h =
    run-offset rest (Clock.finish_poll sleep task false st) end woken h
run-offset (advanced dur ∷ rest) st end woken h =
    let (more, g, e) = run-advanced dur rest st end woken h in
    omega (arith, run-offset rest (passed dur st) end more g)

same_clock : (st end : Clock.ClockState) (woken : List ℕ) → run [] st ≡ some (woken, end) → st ≡ end
same_clock st end woken h = cc

le-or-lt : (a b : ℕ) → (a ≤ b) ⊎ (b < a)
le-or-lt a b = ground arith

-- A waker in the list is served: it is woken once its deadline is crossed, and is kept until then.
run-served :
    (actions : List Action) (st end : Clock.ClockState) (woken : List ℕ) (d : Duration) (t : ℕ)
    → st.offset < d
    → Memᴰ (d, t) st.wakers
    → run actions st ≡ some (woken, end)
    → ((end.offset < d) × Memᴰ (d, t) end.wakers) ⊎ ((d ≤ end.offset) × Memᴰ t woken)
run-served [] st end woken d t early m h =
    let e = same_clock st end woken h in
    inl (
      omega (arith, ap (λ (c : Clock.ClockState). c.offset) e),
      subst (λ (c : Clock.ClockState). Memᴰ (d, t) c.wakers) e m,
    )
run-served (registered sleep task ∷ rest) st end woken d t early m h =
    run-served rest (Clock.finish_poll sleep task false st) end woken d t early
      (Memᴰ.append_left _ m) h
run-served (advanced dur ∷ rest) st end woken d t early m h =
    let (more, g, e) = run-advanced dur rest st end woken h in
    elim (le-or-lt d (st.offset + dur)) [
      | inl crossed ↦ inr (
        omega (arith, run-offset rest (passed dur st) end more g),
        subst (λ (l : List ℕ). Memᴰ t l) (sym e)
            (Memᴰ.append_left more (part-crossed (st.offset + dur) d t st.wakers m crossed)),
      )
      | inr still ↦
          elim (run-served rest (passed dur st) end more d t still
            (part-kept (st.offset + dur) d t st.wakers m still) g) [
              | inl kept ↦ inl kept
              | inr (due, w) ↦
                  inr (due, subst (λ (l : List ℕ). Memᴰ t l) (sym e) (Memᴰ.append_right _ w))
            ]
    ]

abbrev pub NoAdvance : List Action → Type 0
NoAdvance [] = Unit {0}
NoAdvance (registered sleep task ∷ rest) = NoAdvance rest
NoAdvance (advanced dur ∷ rest) = ⊥

none_woken :
    (st end : Clock.ClockState) (woken : List ℕ) → run [] st ≡ some (woken, end) → woken ≡ []
none_woken st end woken h = cc

-- A waker that was registered too late, its deadline being past, is woken by the next advance.
run-due :
    (actions : List Action) (st end : Clock.ClockState) (woken : List ℕ) (d : Duration) (t : ℕ)
    → d ≤ st.offset
    → Memᴰ (d, t) st.wakers
    → run actions st ≡ some (woken, end)
    → (NoAdvance actions × (woken ≡ []) × Memᴰ (d, t) end.wakers) ⊎ Memᴰ t woken
run-due [] st end woken d t late m h = inl (
  tt,
  none_woken st end woken h,
  subst (λ (c : Clock.ClockState). Memᴰ (d, t) c.wakers) (same_clock st end woken h) m,
)
run-due (registered sleep task ∷ rest) st end woken d t late m h =
    run-due rest (Clock.finish_poll sleep task false st) end woken d t late (Memᴰ.append_left _ m) h
run-due (advanced dur ∷ rest) st end woken d t late m h =
    let (more, g, e) = run-advanced dur rest st end woken h in
    inr (
      subst (λ (l : List ℕ). Memᴰ t l) (sym e)
        (Memᴰ.append_left more
          (part-crossed (st.offset + dur) d t st.wakers m (omega (arith, late)))))

-- What has become of a pending poll, of a sleep until `sleep.deadline`, that registered at `mid`.
module _ (sleep : Clock.ManualSleep) (task : ℕ) (mid : Clock.ClockState) (actions : List Action)
    (woken : List ℕ) (end : Clock.ClockState) where
  -- The deadline is ahead, and the waker is on the list.
  abbrev pub Waits : Type 0
  Waits = (end.offset < sleep.deadline) × Memᴰ (sleep.deadline, task) end.wakers

  -- The deadline is past, the task has been woken, and its next poll is ready.
  abbrev pub Woken : Type 0
  Woken =
      ((between : Clock.ClockState → Clock.ClockState)
        → (Clock.poll sleep task between end).0 ≡ true)
      × Memᴰ task woken

  -- The deadline was past when the waker was registered, and nobody has been woken since.
  abbrev pub Missed : Type 0
  Missed =
      (sleep.deadline ≤ mid.offset)
      × NoAdvance actions
      × (woken ≡ [])
      × Memᴰ (sleep.deadline, task) end.wakers

-- A poll of a sleep on a manual clock reads the offset and registers its waker under two locks, between
-- which other tasks may do anything to the clock. After a poll that is pending, and any polls and advances since
-- it registered: while the deadline is ahead, the task's waker is on the list; once the clock has reached
-- the deadline, the task has been woken, and its next poll is ready. The only exception is a clock
-- that reached the deadline between the two locks and was not advanced since the task registered:
-- its waker is then on the list, and nobody has been woken. Any further advance wakes the task.
pub sleep-served :
    (sleep : Clock.ManualSleep) (task : ℕ) (between : Clock.ClockState → Clock.ClockState)
    (st : Clock.ClockState) (actions : List Action) (woken : List ℕ) (end : Clock.ClockState)
    → (Clock.poll sleep task between st).0 ≡ false
    → run actions (Clock.poll sleep task between st).1 ≡ some (woken, end)
    → Waits sleep task (between st) actions woken end
      ⊎ Woken sleep task (between st) actions woken end
      ⊎ Missed sleep task (between st) actions woken end
sleep-served sleep task between st actions woken end asleep h =
    let mid = between st in
    let pending = Clock.finish_poll sleep task false mid in
    let listed : Memᴰ (sleep.deadline, task) pending.wakers =
      Memᴰ.append_right mid.wakers (Memᴰ.head refl) in
    let rest : run actions pending ≡ some (woken, end) =
      subst (λ b. run actions (Clock.finish_poll sleep task b mid) ≡ some (woken, end)) asleep h in
    elim (le-or-lt sleep.deadline mid.offset) [
      | inl late ↦ elim (run-due actions pending end woken sleep.deadline task late listed rest) [
        | inl (still, quiet, kept) ↦ inr (inr (late, still, quiet, kept))
        | inr w ↦
            inr (inl (due (omega (arith, late, run-offset actions pending end woken rest)), w))
      ]
      | inr early ↦
          elim (run-served actions pending end woken sleep.deadline task early listed rest) [
            | inl waiting ↦ inl waiting
            | inr (past, w) ↦ inr (inl (due past, w))
          ]
    ]
  where
    due :
        sleep.deadline ≤ end.offset
        → (b : Clock.ClockState → Clock.ClockState) → (Clock.poll sleep task b end).0 ≡ true
    due past b = le→leb sleep.deadline end.offset past
