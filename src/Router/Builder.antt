-- ===== src/Router/Builder.antt =====
-- The router's builder and its checks (`RouterPolicyBuilder` of src/router.rs).
pub mod Checks
use execution_policy.Base.{
  Duration, Bool, true, false, Option, none, some, List, [], ◌∷◌, ◌++◌, not, ◌&&◌, ◌||◌,
  if◌then◌else◌, secs,
}
use execution_policy.Base.Float.{Float64}
use execution_policy.Outcome.{Result, ok, err}
use execution_policy.Pick.{Pick, first_healthy, sample_is_valid}
use execution_policy.Member.{Member, Meter}
use execution_policy.Router.{RouterPolicy}

-- `Eq` of the ids.
pub record Equality (Key : Type 0) : Type 0 where
  pub same : Key → Key → Bool

-- The panics of `build_with`.
pub data Mistake (Key : Type 0) : Type 0 where
  no_targets : Mistake Key
  duplicate : Key → Mistake Key
  empty_sample : Mistake Key
  no_meter : Mistake Key
  no_advance_when : Mistake Key

abbrev pub is_absent : {A : Type 0} → Option A → Bool
is_absent none = true
is_absent (some _) = false

module _ {Key : Type 0} ⦃q : Equality Key⦄ where
  abbrev pub contains : List Key → Key → Bool
  contains [] id = false
  contains (s ∷ seen) id = q.same s id || contains seen id

module _ ⦃f : Float64⦄ where
  pub record RouterPolicyBuilder (Key E : Type 0) : Type 0 where
    pub targets : List (Member Key)
    pub select : Pick Key
    pub meter : Option Meter
    pub advance_when : Option (E → Bool)
    pub deadline : Duration

  abbrev pub any_target : {Key : Type 0} → List (Member Key) → Bool
  any_target [] = false
  any_target (_ ∷ _) = true

  module _ {Key : Type 0} ⦃q : Equality Key⦄ where
    -- The first id that was `seen` before.
    abbrev pub first_duplicate : List Key → List (Member Key) → Option Key
    first_duplicate seen [] = none
    first_duplicate seen (t ∷ ts) =
        let rest = first_duplicate (t.id ∷ seen) ts in
        if contains seen t.id then some t.id else rest

  module _ {Key E : Type 0} where
    unfoldable pub builder : RouterPolicyBuilder Key E
    builder = record {
      targets = [];
      select = first_healthy;
      meter = none;
      advance_when = none;
      deadline = secs 3600;
    }

    unfoldable pub target : RouterPolicyBuilder Key E → Member Key → RouterPolicyBuilder Key E
    target b m = record b { targets = b.targets ++ m ∷ [] }

    abbrev pub select : RouterPolicyBuilder Key E → Pick Key → RouterPolicyBuilder Key E
    select b pick = record b { select = pick }

    abbrev pub meter : RouterPolicyBuilder Key E → Meter → RouterPolicyBuilder Key E
    meter b m = record b { meter = some m }

    abbrev pub advance_when : RouterPolicyBuilder Key E → (E → Bool) → RouterPolicyBuilder Key E
    advance_when b g = record b { advance_when = some g }

    abbrev pub deadline : RouterPolicyBuilder Key E → Duration → RouterPolicyBuilder Key E
    deadline b d = record b { deadline = d }

    abbrev pub built :
        RouterPolicyBuilder Key E → Option (E → Bool) → Result (RouterPolicy Key E) (Mistake Key)
    built b none = err no_advance_when
    built b (some advance_when) = ok (record {
      targets = b.targets;
      select = b.select;
      meter = b.meter;
      advance_when = advance_when;
      deadline = b.deadline;
    })

    abbrev pub checked :
        RouterPolicyBuilder Key E → Option Key → Result (RouterPolicy Key E) (Mistake Key)
    checked b (some id) = err (duplicate id)
    checked b none =
        if not (sample_is_valid b.select)
        then err empty_sample
        else if b.select.requires_meter && is_absent b.meter
        then err no_meter
        else built b b.advance_when

    -- An error is a panic.
    unfoldable pub build_with :
        ⦃q : Equality Key⦄ → RouterPolicyBuilder Key E → Result (RouterPolicy Key E) (Mistake Key)
    build_with b =
        if any_target b.targets then checked b (first_duplicate [] b.targets) else err no_targets
