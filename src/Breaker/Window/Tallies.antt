-- ===== src/Breaker/Window/Tallies.antt =====
-- The buckets of the sliding window against the outcomes recorded (`Window` of src/breaker.rs).
use execution_policy.Base.{
  ℕ, ◌+◌, ◌-◌, ◌≤◌, ◌<◌, ◌≡◌, refl, Duration, Instant, Bool, true, false, List, [], ◌∷◌, arith, leb,
  ltb, ltb→lt, All, Bool-cases, inl, inr, sym, if◌then◌else◌, length, u64, checked_sub, retain,
}
use execution_policy.Breaker.Window.{Bucket, Window, evict, keep_from, one_if, count_in, count}

-- The outcomes recorded, newest first; `true` is a failure.
unfoldable pub recorded : Window → List (Instant × Bool) → Window
recorded w [] = w
recorded w ((t, failure) ∷ h) = count (recorded w h) t failure

-- No outcome is later than `now`, or than the one recorded after it.
abbrev pub InOrder : Instant → List (Instant × Bool) → Type 0
InOrder now [] = Unit {0}
InOrder now ((t, _) ∷ h) = (t ≤ now) × InOrder t h

-- The weights of the outcomes at `from` or later.
abbrev pub since : (Bool → ℕ) → Instant → List (Instant × Bool) → ℕ
since weight from [] = 0
since weight from ((t, failure) ∷ h) =
    (if leb from t then weight failure else 0) + since weight from h

module _ (field : Bucket → ℕ) where
  abbrev pub in_buckets : Instant → List Bucket → ℕ
  in_buckets from [] = 0
  in_buckets from (b ∷ bs) = (if leb from b.start then field b else 0) + in_buckets from bs

  in_buckets-retain :
      (c k : Instant) (bs : List Bucket)
      → k ≤ c
      → in_buckets c (retain (λ b. leb k b.start) bs) ≡ in_buckets c bs
  in_buckets-retain c k [] h = refl
  in_buckets-retain c k (b ∷ bs) h = ground (arith, in_buckets-retain c k bs h)

pub keep_from-retain :
    (now : Instant) (span : Duration) (bs : List Bucket)
    → keep_from (checked_sub now span) bs ≡ retain (λ b. leb (now - span) b.start) bs
keep_from-retain now span bs = elim (Bool-cases (leb span now)) [
  | inl long ↦ rw long refl
  | inr short ↦ rw short (sym (keeps_all short bs))
]
  where
    keeps_all :
        leb span now ≡ false → (bs : List Bucket) → retain (λ b. leb (now - span) b.start) bs ≡ bs
    keeps_all short [] = refl
    keeps_all short (b ∷ bs) = ground (arith, keeps_all short bs)

-- A count that each bucket keeps, of outcomes that weigh at most 1.
pub record Tally : Type 0 where
  pub field : Bucket → ℕ
  pub weight : Bool → ℕ
  pub light : (x : Bool) → weight x ≤ 1
  opened :
      (t : Instant) (x : Bool)
      → field (record { start = t; failures = one_if x; total = 1 }) ≡ weight x
  added :
      (b : Bucket) (x : Bool)
      → field (record b { failures = u64 (b.failures + one_if x); total = u64 (b.total + 1) })
        ≡ u64 (field b + weight x)

abbrev pub failure_tally : Tally
failure_tally = record {
  field = λ b. b.failures;
  weight = one_if;
  light = λ x. one_if-le x;
  opened = λ t x. refl;
  added = λ b x. refl;
}
  where
    one_if-le : (x : Bool) → one_if x ≤ 1
    one_if-le true = omega arith
    one_if-le false = omega arith

abbrev pub total_tally : Tally
total_tally = record {
  field = λ b. b.total;
  weight = λ _. 1;
  light = λ x. omega arith;
  opened = λ t x. refl;
  added = λ b x. refl;
}

module _ (y : Tally) where
  pub since-le : (from : Instant) (h : List (Instant × Bool)) → since y.weight from h ≤ length h
  since-le from [] = omega arith
  since-le from ((t, x) ∷ h) = ground (arith, since-le from h, y.light x)

  module _ (width : Duration) where
    -- The buckets from any cutoff on count no outcome before it, and each that is a bucket later.
    pub record Explains (k last : Instant) (bs : List Bucket) (h : List (Instant × Bool))
        : Type 0 where
      pub upper : (c : Instant) → k ≤ c → in_buckets y.field c bs ≤ since y.weight c h
      pub lower : (c : Instant) → k ≤ c → since y.weight (c + width) h ≤ in_buckets y.field c bs
      early : All (λ b. b.start ≤ last) bs

    All-retain :
        (last : Instant) (keep : Bucket → Bool) (bs : List Bucket)
        → All (λ b. b.start ≤ last) bs
        → All (λ b. b.start ≤ last) (retain keep bs)
    All-retain last keep [] a = tt
    All-retain last keep (b ∷ bs) a = elim (Bool-cases (keep b)) [
      | inl kept ↦ rw kept (a.0, All-retain last keep bs a.1)
      | inr dropped ↦ rw dropped (All-retain last keep bs a.1)
    ]

    All-later :
        (last t : Instant) (bs : List Bucket)
        → last ≤ t
        → All (λ b. b.start ≤ last) bs
        → All (λ b. b.start ≤ t) bs
    All-later last t [] le a = tt
    All-later last t (b ∷ bs) le a = (omega (arith, a.0, le), All-later last t bs le a.1)

    Explains-retain :
        (k k' last : Instant) (bs : List Bucket) (h : List (Instant × Bool))
        → k ≤ k'
        → Explains k last bs h
        → Explains k' last (retain (λ b. leb k' b.start) bs) h
    Explains-retain k k' last bs h le e = record {
      upper = λ c q.
          omega (arith, in_buckets-retain y.field c k' bs q, e.upper c (omega (arith, le, q)));
      lower = λ c q.
          omega (arith, in_buckets-retain y.field c k' bs q, e.lower c (omega (arith, le, q)));
      early = All-retain last (λ b. leb k' b.start) bs e.early;
    }

    Explains-count_in :
        (k last t : Instant) (x : Bool) (bs : List Bucket) (h : List (Instant × Bool))
        → last ≤ t
        → length h + 1 < 18446744073709551616
        → Explains k last bs h
        → Explains k t (count_in width t x bs) ((t, x) ∷ h)
    Explains-count_in k last t x [] h le small e = record {
      upper = λ c q. ground (arith, e.upper c q, y.opened t x);
      lower = λ c q. ground (arith, e.lower c q, y.opened t x);
      early = (omega arith, tt);
    }
    Explains-count_in k last t x (b ∷ bs) h le small e =
        elim (Bool-cases (ltb (t - b.start) width)) [
          | inl young ↦ rw young (record {
            upper = λ c q.
                ground (arith, e.upper c q, y.added b x, y.light x, since-le c h, ltb→lt _ _ young);
            lower = λ c q. ground (
              arith,
              e.lower c q,
              e.upper c q,
              y.added b x,
              y.light x,
              since-le c h,
              ltb→lt _ _ young,
            );
            early = (omega (arith, e.early.0, le), All-later last t bs le e.early.1);
          })
          | inr old ↦ rw old (record {
            upper = λ c q. ground (arith, e.upper c q, y.opened t x);
            lower = λ c q. ground (arith, e.lower c q, y.opened t x);
            early = (omega arith, (omega (arith, e.early.0, le), All-later last t bs le e.early.1));
          })
        ]

  pub Explains-recorded :
      (w : Window) (h : List (Instant × Bool)) (now : Instant)
      → w.buckets ≡ []
      → InOrder now h
      → length h < 18446744073709551616
      → Explains w.bucket (now - w.span) now (recorded w h).buckets h
        × ((recorded w h).span ≡ w.span)
        × ((recorded w h).bucket ≡ w.bucket)
  unfolding recorded count evict
  Explains-recorded w [] now e o small = (
    rw e (record { upper = λ c q. omega arith; lower = λ c q. omega arith; early = tt }),
    refl,
    refl,
  )
  Explains-recorded w ((t, x) ∷ h) now e o small =
      let (ih, same_span, same_width) = Explains-recorded w h t e o.1 (omega (arith, small)) in
      (
        rw (same_width, same_span, keep_from-retain t w.span (recorded w h).buckets)
            (at_later t now ((t, x) ∷ h) _ o.0 (
              Explains-count_in w.bucket (t - w.span) t t x _ h (omega arith) (omega (arith, small))
                (Explains-retain w.bucket (t - w.span) (t - w.span) t _ h (omega arith) ih))),
        same_span,
        same_width,
      )
    where
      at_later :
          (t now : Instant) (h : List (Instant × Bool)) (bs : List Bucket)
          → t ≤ now
          → Explains w.bucket (t - w.span) t bs h
          → Explains w.bucket (now - w.span) now bs h
      at_later t now h bs le e = record {
        upper = λ c q. e.upper c (omega (arith, le, q));
        lower = λ c q. e.lower c (omega (arith, le, q));
        early = All-later w.bucket t now bs le e.early;
      }
