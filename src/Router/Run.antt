-- ===== src/Router/Run.antt =====
-- A run of the router (`run` of src/router.rs; `run_owned` and `run_boxed` are the same text with other
-- types of operation).
use execution_policy.Base.{
  ℕ, zero, suc, ◌+◌, ◌-◌, Instant, Bool, Option, none, some, List, [], ◌∷◌, not, ◌==◌,
  if◌then◌else◌, nth, retain, length, u32, u64,
}
use execution_policy.Base.Float.{Float64}
use execution_policy.Outcome.{Result, ok, err, ExecutionError, operation, into_inner, is_ok}
use execution_policy.Member.{MemberState, Member, Meter, PeakEwmaState}
use execution_policy.Router.{
  RouterPolicy, Pool, Served, RouterError, all_unavailable, exhausted, score_error, healthy_members,
}
use execution_policy.Router.Choose.{Choice, chosen, bad_score, panicked, choose}

abbrev pub others : ℕ → List ℕ → List ℕ
others i = retain (λ j. not (j == i))

abbrev or_last : {E : Type 0} → Option E → Option E → Option E
or_last none last = last
or_last (some e) last = some e

-- The variables of the loop.
pub record RunState (E : Type 0) : Type 0 where
  pub healthy : List ℕ
  pub attempts : ℕ  -- u32
  pub last_err : Option E
  pub tried : List ℕ

abbrev pub first_loop : {E : Type 0} → List ℕ → RunState E
first_loop healthy = record { healthy = healthy; attempts = 0; last_err = none; tried = [] }

module _ ⦃f : Float64⦄ where
  abbrev set_load : Pool → ℕ → MemberState → Pool
  set_load p i s = record p { loads = λ k. if k == i then s else p.loads k }

  abbrev updated : Option PeakEwmaState → Instant → Instant
  updated none now = now
  updated (some c) now = c.last_update

  abbrev fold_with : Option Meter → MemberState → Instant → Instant → Bool → Option PeakEwmaState
  fold_with none s attempt_start now is_ok = s.meter
  fold_with (some m) s attempt_start now is_ok = some (
      m.fold s.meter (record {
        latency = now - attempt_start;
        at = now;
        last_update = updated s.meter now;
        in_flight = s.in_flight;
        is_ok = is_ok;
      }))

  -- `InFlightGuard::acquire`, and its drop
  unfoldable pub enter : Pool → ℕ → Pool
  enter p i = let s = p.loads i in set_load p i (record s { in_flight = u64 (s.in_flight + 1) })

  unfoldable pub leave : Pool → ℕ → Pool
  leave p i =
      let s = p.loads i in
      set_load p i (record s { in_flight = u64 (s.in_flight + 18446744073709551615) })

  unfoldable pub record_attempt : Option Meter → ℕ → Instant → Bool → Pool → Pool
  record_attempt meter i attempt_start is_ok p =
      let s = p.loads i in
      set_load p i (record s {
        meter = fold_with meter s attempt_start p.clock is_ok;
        pick_count = u64 (s.pick_count + 1);
      })

  -- What a run comes to: a result, a member's call that stays pending, a panic, or no fuel.
  pub data Routed (Key T E : Type 0) : Type 0 where
    served : Served Key T → Routed Key T E
    failed : RouterError Key E → Routed Key T E
    waiting panic out_of_fuel : Routed Key T E

  pub data After (Key T E : Type 0) : Type 0 where
    done : Routed Key T E → After Key T E
    advance : Option E → After Key T E

  -- A run's outcome, the members that it ran, newest first, and the pool after it.
  abbrev pub Journey : Type 0 → Type 0 → Type 0 → Type 0
  Journey Key T E = Routed Key T E × List ℕ × Pool

  -- What the run of a member's policy comes to, with all that other tasks did meanwhile: `none` is a
  -- call that stays pending.
  abbrev pub Serve : Type 0 → Type 0 → Type 0
  Serve T E = ℕ → Pool → Option (Result T (ExecutionError E) × Pool)

  module _ {Key T E : Type 0} where
    unfoldable pub after_attempt :
        (E → Bool) → Key → ℕ → Result T (ExecutionError E) → Option E → After Key T E
    after_attempt advance_when id attempts (ok value) last =
        done (served (record { value = value; target = id; attempts = attempts }))
    after_attempt advance_when id attempts (err (operation source context)) last =
        if advance_when source then advance (some source) else done (failed (exhausted source))
    after_attempt advance_when id attempts (err e) last = advance (or_last (into_inner e) last)

    -- With no member left: the last operation error, or the hint when there was none.
    abbrev pub spent : Option E → Option Instant → Routed Key T E
    spent (some e) soonest = failed (exhausted e)
    spent none soonest = failed (all_unavailable soonest)

    abbrev pub resolve :
        (RunState E → Pool → Journey Key T E)
        → RunState E
        → ℕ
        → Pool
        → After Key T E
        → Journey Key T E
    resolve again l i p (done x) = (x, i ∷ l.tried, p)
    resolve again l i p (advance last) =
        again
          (record {
            healthy = others i l.healthy;
            attempts = u32 (l.attempts + 1);
            last_err = last;
            tried = i ∷ l.tried;
          })
          p

    -- The attempt on the member `i`, with its guard.
    abbrev pub visit :
        RouterPolicy Key E
        → Serve T E
        → (RunState E → Pool → Journey Key T E)
        → RunState E
        → ℕ
        → Pool
        → Option (Member Key)
        → Journey Key T E
    visit r serve again l i p none = (panic, l.tried, p)
    visit r serve again l i p (some t) = elim (serve i (enter p i)) [
      | none ↦ (waiting, i ∷ l.tried, enter p i)
      | some (outcome, p1) ↦
          let p2 = leave (record_attempt r.meter i p.clock (is_ok outcome) p1) i in
          resolve again l i p2
            (after_attempt r.advance_when t.id (u32 (l.attempts + 1)) outcome l.last_err)
    ]

    abbrev pub proceed :
        RouterPolicy Key E
        → Serve T E
        → (RunState E → Pool → Journey Key T E)
        → RunState E
        → Choice Key × Pool
        → Journey Key T E
    proceed r serve again l (bad_score id value, p) = (failed (score_error id value), l.tried, p)
    proceed r serve again l (panicked, p) = (panic, l.tried, p)
    proceed r serve again l (chosen i, p) = visit r serve again l i p (nth r.targets i)

    -- A round, or the end of the loop when no member is left.
    abbrev pub round :
        RouterPolicy Key E
        → Serve T E
        → Option Instant
        → (RunState E → Pool → Journey Key T E)
        → RunState E
        → Pool
        → List ℕ
        → Journey Key T E
    round r serve soonest again l p [] = (spent l.last_err soonest, l.tried, p)
    round r serve soonest again l p (_ ∷ _) = proceed r serve again l (choose r l.healthy p)

    -- The loop, with fuel for its rounds.
    unfoldable pub run_loop :
        ℕ → RouterPolicy Key E → Serve T E → Option Instant → RunState E → Pool → Journey Key T E
    run_loop zero r serve soonest l p = (out_of_fuel, l.tried, p)
    run_loop (suc fuel) r serve soonest l p =
        round r serve soonest (run_loop fuel r serve soonest) l p l.healthy

    -- A round for each healthy member and one to see that none is left are fuel enough, since a member
    -- is removed once it was tried.
    abbrev pub start :
        RouterPolicy Key E → Serve T E → Pool → List ℕ × Option Instant → Journey Key T E
    start r serve p ([], soonest) = (failed (all_unavailable soonest), [], p)
    start r serve p (i ∷ is, soonest) =
        run_loop (suc (length (i ∷ is))) r serve soonest (first_loop (i ∷ is)) p

    unfoldable pub run : RouterPolicy Key E → Serve T E → Pool → Journey Key T E
    run r serve p = start r serve p (healthy_members r p)

    -- The twins, of an operation that takes the member's id by value.
    abbrev pub run_owned : RouterPolicy Key E → Serve T E → Pool → Journey Key T E
    run_owned r serve p = run r serve p

    abbrev pub run_boxed : RouterPolicy Key E → Serve T E → Pool → Journey Key T E
    run_boxed r serve p = run r serve p
