-- ===== src/Engine/Ensures.antt =====
-- A rule for stretches of the engine: what holds when one goes on, returns, or waits. None is stuck.
use execution_policy.Base.{◌≡◌, refl, Bool, true, false, if◌then◌else◌}
use execution_policy.Base.Float.{Float64}
use execution_policy.Outcome.{Result, ExecutionError}
use execution_policy.Engine.World.{World, Flow, next, finish, pending, stuck, M, ◌>>=◌, catch}

module _ ⦃f : Float64⦄ {T E : Type 0} where
  module _ {A : Type 0} (Q : A → World T E → Type 0)
      (R : Result T (ExecutionError E) → World T E → Type 0) (S : World T E → Type 0) where
    abbrev pub Ensures : Flow T E A → Type 0
    Ensures (next a w) = Q a w
    Ensures (finish r w) = R r w
    Ensures (pending w) = S w
    Ensures (stuck w) = ⊥

    pub Ensures-if :
        (b : Bool) (x y : Flow T E A)
        → (b ≡ true → Ensures x)
        → (b ≡ false → Ensures y)
        → Ensures (if b then x else y)
    Ensures-if true x y hx hy = hx refl
    Ensures-if false x y hx hy = hy refl

  -- An await neither returns nor is stuck.
  abbrev pub Awaits :
      {A : Type 0} → (A → World T E → Type 0) → (World T E → Type 0) → Flow T E A → Type 0
  Awaits Q S = Ensures Q (λ _ _. ⊥) S

  module _ {A B : Type 0} (P : A → World T E → Type 0) (Q : B → World T E → Type 0)
      (R : Result T (ExecutionError E) → World T E → Type 0) (S : World T E → Type 0)
      (k : A → M T E B) where
    Ensures-flow :
        (x : Flow T E A)
        → Ensures P R S x
        → ((a : A) (w' : World T E) → P a w' → Ensures Q R S (k a w'))
        → Ensures Q R S (elim x [
          | next a w' ↦ k a w'
          | finish r w' ↦ finish r w'
          | pending w' ↦ pending w'
          | stuck w' ↦ stuck w'
        ])
    Ensures-flow (next a w) h g = g a w h
    Ensures-flow (finish r w) h g = h
    Ensures-flow (pending w) h g = h
    Ensures-flow (stuck w) h g = h

    pub Ensures-bind :
        (m : M T E A) (w : World T E)
        → Ensures P R S (m w)
        → ((a : A) (w' : World T E) → P a w' → Ensures Q R S (k a w'))
        → Ensures Q R S ((m >>= k) w)
    Ensures-bind m w h g = Ensures-flow (m w) h g

    await-flow :
        (S' : World T E → Type 0) (x : Flow T E A)
        → Awaits P S' x
        → ((w' : World T E) → S' w' → S w')
        → Ensures P R S x
    await-flow S' (next a w) h s = h
    await-flow S' (finish r w) h s = absurd h
    await-flow S' (pending w) h s = s w h
    await-flow S' (stuck w) h s = h

    pub Awaits-bind :
        (S' : World T E → Type 0) (m : M T E A) (w : World T E)
        → Awaits P S' (m w)
        → ((w' : World T E) → S' w' → S w')
        → ((a : A) (w' : World T E) → P a w' → Ensures Q R S (k a w'))
        → Ensures Q R S ((m >>= k) w)
    Awaits-bind S' m w h s g = Ensures-flow (m w) (await-flow S' (m w) h s) g

    weaken-flow :
        (R' : Result T (ExecutionError E) → World T E → Type 0) (S' : World T E → Type 0)
        (x : Flow T E A)
        → Ensures P R' S' x
        → ((r : Result T (ExecutionError E)) (w' : World T E) → R' r w' → R r w')
        → ((w' : World T E) → S' w' → S w')
        → Ensures P R S x
    weaken-flow R' S' (next a w) h rc sc = h
    weaken-flow R' S' (finish r w) h rc sc = rc r w h
    weaken-flow R' S' (pending w) h rc sc = sc w h
    weaken-flow R' S' (stuck w) h rc sc = h

    -- The rule for two stretches in a row, with what the first one ensures made weaker.
    pub Ensures-then :
        (R' : Result T (ExecutionError E) → World T E → Type 0) (S' : World T E → Type 0)
        (m : M T E A) (w : World T E)
        → Ensures P R' S' (m w)
        → ((r : Result T (ExecutionError E)) (w' : World T E) → R' r w' → R r w')
        → ((w' : World T E) → S' w' → S w')
        → ((a : A) (w' : World T E) → P a w' → Ensures Q R S (k a w'))
        → Ensures Q R S ((m >>= k) w)
    Ensures-then R' S' m w h rc sc g = Ensures-flow (m w) (weaken-flow R' S' (m w) h rc sc) g

  -- Two things that a stretch ensures.
  pub Ensures-both :
      {A : Type 0} (Q Q' : A → World T E → Type 0)
      (R R' : Result T (ExecutionError E) → World T E → Type 0) (S S' : World T E → Type 0)
      (x : Flow T E A)
      → Ensures Q R S x
      → Ensures Q' R' S' x
      → Ensures (λ a w. Q a w × Q' a w) (λ r w. R r w × R' r w) (λ w. S w × S' w) x
  Ensures-both Q Q' R R' S S' (next a w) h h' = (h, h')
  Ensures-both Q Q' R R' S S' (finish r w) h h' = (h, h')
  Ensures-both Q Q' R R' S S' (pending w) h h' = (h, h')
  Ensures-both Q Q' R R' S S' (stuck w) h h' = h

  pub Ensures-mono :
      {A : Type 0} (Q Q' : A → World T E → Type 0)
      (R R' : Result T (ExecutionError E) → World T E → Type 0) (S S' : World T E → Type 0)
      (x : Flow T E A)
      → Ensures Q R S x
      → ((a : A) (w : World T E) → Q a w → Q' a w)
      → ((r : Result T (ExecutionError E)) (w : World T E) → R r w → R' r w)
      → ((w : World T E) → S w → S' w)
      → Ensures Q' R' S' x
  Ensures-mono Q Q' R R' S S' (next a w) h q r s = q a w h
  Ensures-mono Q Q' R R' S S' (finish a w) h q r s = r a w h
  Ensures-mono Q Q' R R' S S' (pending w) h q r s = s w h
  Ensures-mono Q Q' R R' S S' (stuck w) h q r s = h

  -- What an inner function returned is the value of `catch`.
  pub catch-Ensures :
      (R : Result T (ExecutionError E) → World T E → Type 0) (S : World T E → Type 0)
      (m : M T E (Result T (ExecutionError E))) (w : World T E)
      → Ensures R R S (m w)
      → Awaits R S (catch m w)
  catch-Ensures R S m w h = caught (m w) h
    where
      caught :
          (x : Flow T E (Result T (ExecutionError E)))
          → Ensures R R S x
          → Awaits R S (elim x [
            | next r w' ↦ next r w'
            | finish r w' ↦ next r w'
            | pending w' ↦ pending w'
            | stuck w' ↦ stuck w'
          ])
      caught (next r w) h = h
      caught (finish r w) h = h
      caught (pending w) h = h
      caught (stuck w) h = h
