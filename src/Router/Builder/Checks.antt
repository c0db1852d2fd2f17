-- ===== src/Router/Builder/Checks.antt =====
-- What the router's builder lets through (`build_with` of src/router.rs).
use execution_policy.Base.{
  ◌≡◌, ◌≢◌, refl, ◌⊎◌, inl, inr, Bool, true, false, Option, none, some, List, [], ◌∷◌, arith,
  length, ◌<◌, not, ◌&&◌, if◌then◌else◌,
}
use execution_policy.Base.Float.{Float64}
use execution_policy.Outcome.{Result, ok, err}
use execution_policy.Pick.{sample_is_valid}
use execution_policy.Member.{Member}
use execution_policy.Router.{RouterPolicy}
use execution_policy.Router.Builder.{
  Equality, Mistake, no_targets, duplicate, empty_sample, no_meter, no_advance_when, contains,
  RouterPolicyBuilder, any_target, is_absent, first_duplicate, checked, built, build_with,
}

metered :
    {A : Type 0} (needs : Bool) (o : Option A)
    → needs && is_absent o ≡ false
    → needs ≡ true
    → o ≢ none
metered true none h e = ground arith
metered true (some m) h e = λ p. cc
metered false o h e = ground arith

unmetered :
    {A : Type 0} (needs : Bool) (o : Option A)
    → needs && is_absent o ≡ true
    → (needs ≡ true) × (o ≡ none)
unmetered true none h = (refl, refl)
unmetered true (some m) h = ground arith
unmetered false o h = ground arith

module _ ⦃f : Float64⦄ {Key : Type 0} ⦃q : Equality Key⦄ where
  -- No id is that of an earlier target, or one of `seen`.
  abbrev pub AllNew : List Key → List (Member Key) → Type 0
  AllNew seen [] = Unit {0}
  AllNew seen (t ∷ ts) = (contains seen t.id ≡ false) × AllNew (t.id ∷ seen) ts

  -- The id stands twice.
  abbrev pub Repeats : List Key → List (Member Key) → Key → Type 0
  Repeats seen [] id = ⊥
  Repeats seen (t ∷ ts) id =
      ((contains seen t.id ≡ true) × (t.id ≡ id)) ⊎ Repeats (t.id ∷ seen) ts id

  abbrev NoRepeat : List Key → List (Member Key) → Option Key → Type 0
  NoRepeat seen ts none = AllNew seen ts
  NoRepeat seen ts (some id) = Repeats seen ts id

  first_duplicate-NoRepeat :
      (seen : List Key) (ts : List (Member Key)) → NoRepeat seen ts (first_duplicate seen ts)
  first_duplicate-NoRepeat seen [] = tt
  first_duplicate-NoRepeat seen (t ∷ ts) =
      one (contains seen t.id) refl (first_duplicate (t.id ∷ seen) ts)
        (first_duplicate-NoRepeat (t.id ∷ seen) ts)
    where
      one :
          (b : Bool)
          → contains seen t.id ≡ b
          → (o : Option Key) → NoRepeat (t.id ∷ seen) ts o
          → NoRepeat seen (t ∷ ts) (if b then some t.id else o)
      one true e o h = inl (e, refl)
      one false e none h = (e, h)
      one false e (some id) h = inr h

module _ ⦃f : Float64⦄ {Key E : Type 0} ⦃q : Equality Key⦄ where
  -- What the result of the builder says of its configuration.
  abbrev pub Verdict :
      RouterPolicyBuilder Key E → Result (RouterPolicy Key E) (Mistake Key) → Type 0
  Verdict b (ok r) =
      (0 < length r.targets)
      × AllNew [] r.targets
      × (sample_is_valid r.select ≡ true)
      × (r.select.requires_meter ≡ true → r.meter ≢ none)
      × (b.advance_when ≡ some r.advance_when)
      × (r.targets ≡ b.targets)
      × (r.select ≡ b.select)
      × (r.meter ≡ b.meter)
      × (r.deadline ≡ b.deadline)
  Verdict b (err no_targets) = b.targets ≡ []
  Verdict b (err (duplicate id)) = Repeats [] b.targets id
  Verdict b (err empty_sample) = sample_is_valid b.select ≡ false
  Verdict b (err no_meter) = (b.select.requires_meter ≡ true) × (b.meter ≡ none)
  Verdict b (err no_advance_when) = b.advance_when ≡ none

  if-Verdict :
      (b : RouterPolicyBuilder Key E) (t : Bool) (x y : Result (RouterPolicy Key E) (Mistake Key))
      → (t ≡ true → Verdict b x)
      → (t ≡ false → Verdict b y)
      → Verdict b (if t then x else y)
  if-Verdict b true x y h g = h refl
  if-Verdict b false x y h g = g refl

  built-Verdict :
      (b : RouterPolicyBuilder Key E) (o : Option (E → Bool))
      → b.advance_when ≡ o
      → 0 < length b.targets
      → AllNew [] b.targets
      → sample_is_valid b.select ≡ true
      → (b.select.requires_meter ≡ true → b.meter ≢ none)
      → Verdict b (built b o)
  built-Verdict b none e h n s m = e
  built-Verdict b (some g) e h n s m = (h, n, s, m, e, refl, refl, refl, refl)

  checked-Verdict :
      (b : RouterPolicyBuilder Key E) (o : Option Key)
      → 0 < length b.targets
      → NoRepeat [] b.targets o
      → Verdict b (checked b o)
  checked-Verdict b (some id) h n = n
  checked-Verdict b none h n =
      if-Verdict b (not (sample_is_valid b.select)) _ _ (λ e. not_true _ e)
        (λ s.
          if-Verdict b (b.select.requires_meter && is_absent b.meter) _ _
            (λ e. unmetered b.select.requires_meter b.meter e)
            (λ e.
              built-Verdict b b.advance_when refl h n (not_false _ s)
                (metered b.select.requires_meter b.meter e)))
    where
      not_true : (t : Bool) → not t ≡ true → t ≡ false
      not_true t e = ground arith

      not_false : (t : Bool) → not t ≡ false → t ≡ true
      not_false t e = ground arith

  -- A router that is built has targets, no id twice, a sample size other than 0, a meter if its
  -- strategy needs one, and a classifier, and is configured as the builder was. Every panic of the
  -- builder names a mistake that the configuration has.
  pub build_with-Verdict : (b : RouterPolicyBuilder Key E) → Verdict b (build_with b)
  unfolding build_with
  build_with-Verdict b =
      if-Verdict b (any_target b.targets) _ _
        (λ e.
          checked-Verdict b (first_duplicate [] b.targets) (some_target b.targets e)
            (first_duplicate-NoRepeat [] b.targets))
        (λ e. no_target b.targets e)
    where
      some_target : (ts : List (Member Key)) → any_target ts ≡ true → 0 < length ts
      some_target [] e = ground arith
      some_target (t ∷ ts) e = ground arith

      no_target : (ts : List (Member Key)) → any_target ts ≡ false → ts ≡ []
      no_target [] e = refl
      no_target (t ∷ ts) e = ground arith
