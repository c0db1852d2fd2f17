-- ===== src/Engine/Books/Rule.antt =====
-- A rule for stretches of the engine that says nothing of one that is stuck.
use execution_policy.Base.{◌≡◌, refl, Bool, true, false, if◌then◌else◌}
use execution_policy.Base.Float.{Float64}
use execution_policy.Outcome.{Result, ExecutionError}
use execution_policy.Engine.World.{World, Flow, next, finish, pending, stuck, M, ◌>>=◌, catch}

module _ ⦃f : Float64⦄ {T E : Type 0} where
  module _ {A : Type 0} (Q : A → World T E → Type 0) (R S : World T E → Type 0) where
    abbrev pub Kept : Flow T E A → Type 0
    Kept (next a w) = Q a w
    Kept (finish r w) = R w
    Kept (pending w) = S w
    Kept (stuck w) = Unit

    pub Kept-if :
        (b : Bool) (x y : Flow T E A)
        → (b ≡ true → Kept x)
        → (b ≡ false → Kept y)
        → Kept (if b then x else y)
    Kept-if true x y hx hy = hx refl
    Kept-if false x y hx hy = hy refl

  module _ {A B : Type 0} (P : A → World T E → Type 0) (Q : B → World T E → Type 0)
      (R S : World T E → Type 0) (k : A → M T E B) where
    Kept-flow :
        (x : Flow T E A)
        → Kept P R S x
        → ((a : A) (w' : World T E) → P a w' → Kept Q R S (k a w'))
        → Kept Q R S (elim x [
          | next a w' ↦ k a w'
          | finish r w' ↦ finish r w'
          | pending w' ↦ pending w'
          | stuck w' ↦ stuck w'
        ])
    Kept-flow (next a w) h g = g a w h
    Kept-flow (finish r w) h g = h
    Kept-flow (pending w) h g = h
    Kept-flow (stuck w) h g = h

    -- The rule for two stretches in a row.
    pub Kept-bind :
        (m : M T E A) (w : World T E)
        → Kept P R S (m w)
        → ((a : A) (w' : World T E) → P a w' → Kept Q R S (k a w'))
        → Kept Q R S ((m >>= k) w)
    Kept-bind m w h g = Kept-flow (m w) h g

    await-flow : (x : Flow T E A) → Kept P (λ _. ⊥) S x → Kept P R S x
    await-flow (next a w) h = h
    await-flow (finish r w) h = absurd h
    await-flow (pending w) h = h
    await-flow (stuck w) h = h

    -- The same where the first one does not return.
    pub Kept-await :
        (m : M T E A) (w : World T E)
        → Kept P (λ _. ⊥) S (m w)
        → ((a : A) (w' : World T E) → P a w' → Kept Q R S (k a w'))
        → Kept Q R S ((m >>= k) w)
    Kept-await m w h g = Kept-flow (m w) (await-flow (m w) h) g

  pub Kept-mono :
      {A : Type 0} (Q Q' : A → World T E → Type 0) (R R' S S' : World T E → Type 0) (x : Flow T E A)
      → Kept Q R S x
      → ((a : A) (w : World T E) → Q a w → Q' a w)
      → ((w : World T E) → R w → R' w)
      → ((w : World T E) → S w → S' w)
      → Kept Q' R' S' x
  Kept-mono Q Q' R R' S S' (next a w) h q r s = q a w h
  Kept-mono Q Q' R R' S S' (finish a w) h q r s = r w h
  Kept-mono Q Q' R R' S S' (pending w) h q r s = s w h
  Kept-mono Q Q' R R' S S' (stuck w) h q r s = tt

  -- What an inner function returned is the value of `catch`.
  pub catch-Kept :
      (R S : World T E → Type 0) (m : M T E (Result T (ExecutionError E))) (w : World T E)
      → Kept (λ _ w'. R w') R S (m w)
      → Kept (λ _ w'. R w') (λ _. ⊥) S (catch m w)
  catch-Kept R S m w h = caught (m w) h
    where
      caught :
          (x : Flow T E (Result T (ExecutionError E)))
          → Kept (λ _ w'. R w') R S x
          → Kept
              (λ _ w'. R w')
              (λ _. ⊥)
              S
              (elim x [
                | next r w' ↦ next r w'
                | finish r w' ↦ next r w'
                | pending w' ↦ pending w'
                | stuck w' ↦ stuck w'
              ])
      caught (next r w) h = h
      caught (finish r w) h = h
      caught (pending w) h = h
      caught (stuck w) h = h
