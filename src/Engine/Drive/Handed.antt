-- ===== src/Engine/Drive/Handed.antt =====
-- The attempts that the retry loop hands to the operation (`drive` of src/engine.rs), with their
-- metadata (src/attempt.rs).
use execution_policy.Base.{ℕ, suc, ◌≤◌, ◌≡◌, ◌∙◌, ap, subst, sym, Instant, List, ◌∷◌, arith}
use execution_policy.Attempt
use execution_policy.Attempt.{Attempt}

-- `Handed start before since n t xs`: at the time `t` the calls are `xs`, the newest first: those of
-- `before`, and since then the attempts 1 to `n` in this order, each of which knows its number, the
-- start of the pipeline and its own time, which is no earlier than `since`, than the time of the attempt
-- before it, and no later than `t`.
pub data Handed (start : Instant) (before : List Attempt) (since : Instant)
    : ℕ → Instant → List Attempt → Type 0 where
  none_yet : {t : Instant} → since ≤ t → Handed start before since 0 t before
  hand :
      {n : ℕ} {t t' : Instant} {xs : List Attempt}
      → Handed start before since n t xs
      → t ≤ t'
      → Handed start before since (suc n) t' (Attempt.new (suc n) start t ∷ xs)

module _ {start : Instant} {before : List Attempt} {since : Instant} where
  Handed-later :
      {n : ℕ} {t t' : Instant} {xs : List Attempt}
      → t ≤ t'
      → Handed start before since n t xs
      → Handed start before since n t' xs
  Handed-later le (none_yet lo) = none_yet (omega (arith, le, lo))
  Handed-later le (hand h lo) = hand h (omega (arith, le, lo))

  pub Handed-same :
      {n : ℕ} {t t' : Instant} {xs xs' : List Attempt}
      → xs' ≡ xs
      → t ≤ t'
      → Handed start before since n t xs
      → Handed start before since n t' xs'
  Handed-same {n} {t} {t'} same le h =
      subst (Handed start before since n t') (sym same) (Handed-later le h)

  pub Handed-hand :
      {n m : ℕ} {t t' : Instant} {xs xs' : List Attempt}
      → xs' ≡ Attempt.new m start t ∷ xs
      → m ≡ suc n
      → t ≤ t'
      → Handed start before since n t xs
      → Handed start before since (suc n) t' xs'
  Handed-hand {n} {m} {t} {t'} {xs} more numbered le h =
      Handed-same (more ∙ ap (λ k. Attempt.new k start t ∷ xs) numbered) (omega arith) (hand h le)

  pub Handed-since :
      {n : ℕ} {t : Instant} {xs : List Attempt} → Handed start before since n t xs → since ≤ t
  Handed-since (none_yet lo) = lo
  Handed-since (hand h le) = omega (arith, Handed-since h, le)

-- What came after `since` came after any earlier time.
pub Handed-sooner :
    {start : Instant} {before before' : List Attempt} {since since' t : Instant} {n : ℕ}
    {xs : List Attempt}
    → before ≡ before'
    → since' ≤ since
    → Handed start before since n t xs
    → Handed start before' since' n t xs
Handed-sooner {start} {before} {before'} {since} {since'} {t} {n} {xs} same le h =
    subst (λ b. Handed start b since' n t xs) same (sooner h)
  where
    sooner :
        {n : ℕ} {t : Instant} {xs : List Attempt}
        → Handed start before since n t xs
        → Handed start before since' n t xs
    sooner (none_yet lo) = none_yet (omega (arith, le, lo))
    sooner (hand h' lo) = hand (sooner h') lo
