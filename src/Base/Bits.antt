-- ===== src/Base/Bits.antt =====
-- Exclusive or and the right shift of `u64` values, with the laws that undo an xorshift.
use Prim.Native.Nat.{ℕ, zero, suc, ◌+◌, ◌*◌, ◌/◌, ◌%◌, ◌^◌, ◌≤◌, ◌<◌, digits, differ}
use Prim.Native.Nat.{bit_xor, bit_xor-bitwise}
use mathlib.Core.Path.{◌≡◌, refl, sym, ap, ◌∙◌}
use native.Mathlib.Nat.{le_refl, pow-suc, div-div-eq-div-mul}
use native.Mathlib.Omega.{arith}

infixl 66 ◌⊕◌
infixl 68 ◌>>>◌
abbrev pub ◌⊕◌ : ℕ → ℕ → ℕ
a ⊕ b = bit_xor a b

abbrev pub ◌>>>◌ : ℕ → ℕ → ℕ
a >>> k = a / 2 ^ k

-- The recursion behind `bit_xor`, with a count of digits to go.
abbrev xor_within : ℕ → ℕ → ℕ → ℕ
xor_within count = digits (λ rest. rest) differ count

within-zero : (count b : ℕ) → xor_within count 0 b ≡ b
within-zero zero b = refl
within-zero (suc count) b = refl

-- Any two counts that reach the first number give the same.
within_any : {i j : ℕ} (a b : ℕ) → a ≤ i → a ≤ j → xor_within i a b ≡ xor_within j a b
within_any {i = i} {j = j} zero b reach reach' = within-zero i b ∙ sym (within-zero j b)
within_any {i = zero} (suc a) b reach reach' = absurd (omega arith)
within_any {j = zero} (suc a) b reach reach' = absurd (omega arith)
within_any {i = suc i} {j = suc j} (suc a) b reach reach' =
    let halves =
      within_any {i = i} {j = j} (suc a / 2) (b / 2) (omega (arith, reach))
        (omega (arith, reach')) in
    ap (λ high. high * 2 + differ (suc a % 2) (b % 2)) halves

differ-mod : (a b : ℕ) → differ (a % 2) (b % 2) ≡ (a + b) % 2
differ-mod a b = cases (a % 2) (b % 2) (omega arith) (omega arith) (omega arith)
  where
    cases : (x y : ℕ) → x < 2 → y < 2 → (a + b) % 2 ≡ (x + y) % 2 → differ x y ≡ (a + b) % 2
    cases zero zero p q h = sym h
    cases zero (suc zero) p q h = sym h
    cases (suc zero) zero p q h = sym h
    cases (suc zero) (suc zero) p q h = sym h
    cases (suc (suc x)) y p q h = absurd (omega arith)
    cases x (suc (suc y)) p q h = absurd (omega arith)

-- The lowest digit of an exclusive or, and the digits above it.
xor_step : (a b : ℕ) → a ⊕ b ≡ (a / 2 ⊕ b / 2) * 2 + (a + b) % 2
xor_step zero b = simp bit_xor-bitwise (omega arith)
xor_step (suc a) b = simp bit_xor-bitwise (
    omega (
      arith,
      within_any {i = a} {j = suc a / 2} (suc a / 2) (b / 2) (omega arith) (le_refl _),
      differ-mod (suc a) b,
    ))

-- The laws go from `a / 2` to `a`, on a bound of the numbers.
xor-zero_up_to : (n a : ℕ) → a ≤ n → a ⊕ 0 ≡ a
xor-zero_up_to n zero h = refl
xor-zero_up_to zero (suc a) h = absurd (omega arith)
xor-zero_up_to (suc n) (suc a) h =
    omega (arith, xor_step (suc a) 0, xor-zero_up_to n (suc a / 2) (omega arith))

pub xor-zero : (a : ℕ) → a ⊕ 0 ≡ a
xor-zero a = xor-zero_up_to a a (le_refl _)

pub zero-xor : (a : ℕ) → 0 ⊕ a ≡ a
zero-xor a = simp bit_xor-bitwise refl

xor_self_up_to : (n a : ℕ) → a ≤ n → a ⊕ a ≡ 0
xor_self_up_to n zero h = refl
xor_self_up_to zero (suc a) h = absurd (omega arith)
xor_self_up_to (suc n) (suc a) h =
    omega (arith, xor_step (suc a) (suc a), xor_self_up_to n (suc a / 2) (omega arith))

pub xor_self : (a : ℕ) → a ⊕ a ≡ 0
xor_self a = xor_self_up_to a a (le_refl _)

xor_half : (a b : ℕ) → (a ⊕ b) / 2 ≡ a / 2 ⊕ b / 2
xor_half a b = omega (arith, xor_step a b)

xor_parity : (a b : ℕ) → (a ⊕ b) % 2 ≡ (a + b) % 2
xor_parity a b = omega (arith, xor_step a b)

xor_assoc_up_to : (n a b c : ℕ) → a ≤ n → b ≤ n → c ≤ n → (a ⊕ b) ⊕ c ≡ a ⊕ (b ⊕ c)
xor_assoc_up_to zero zero b c p q r = rw (zero-xor b, zero-xor (b ⊕ c)) refl
xor_assoc_up_to zero (suc a) b c p q r = absurd (omega arith)
xor_assoc_up_to (suc n) a b c p q r = grind (
  arith,
  xor_step (a ⊕ b) c,
  xor_step a (b ⊕ c),
  xor_half a b,
  xor_half b c,
  xor_parity a b,
  xor_parity b c,
  xor_assoc_up_to n (a / 2) (b / 2) (c / 2) (omega arith) (omega arith) (omega arith),
)

pub xor_assoc : (a b c : ℕ) → (a ⊕ b) ⊕ c ≡ a ⊕ (b ⊕ c)
xor_assoc a b c = xor_assoc_up_to (a + b + c) a b c (omega arith) (omega arith) (omega arith)

shift-zero : (a : ℕ) → a >>> 0 ≡ a
shift-zero a = omega arith

shift_suc : (k a : ℕ) → a >>> suc k ≡ (a >>> k) / 2
shift_suc k a = rw (pow-suc 2 k) (sym (div-div-eq-div-mul a (2 ^ k) 2))

pub xor-shift : (k a b : ℕ) → (a ⊕ b) >>> k ≡ (a >>> k) ⊕ (b >>> k)
xor-shift zero a b = rw (shift-zero (a ⊕ b), shift-zero a, shift-zero b) refl
xor-shift (suc k) a b =
    rw (shift_suc k (a ⊕ b), shift_suc k a, shift_suc k b, xor-shift k a b)
      (xor_half (a >>> k) (b >>> k))

pub shift-le : (k a : ℕ) → a >>> k ≤ a
shift-le zero a = omega arith
shift-le (suc k) a = omega (arith, shift_suc k a, shift-le k a)

pub xor-lt : (k : ℕ) {a b : ℕ} → a < 2 ^ k → b < 2 ^ k → a ⊕ b < 2 ^ k
xor-lt zero {a = a} {b = b} p q =
    omega (arith, xor_step a b, zero_halves (a / 2) (b / 2) (omega arith) (omega arith))
  where
    zero_halves : (x y : ℕ) → x < 1 → y < 1 → x ⊕ y ≡ 0
    zero_halves zero zero h g = refl
    zero_halves (suc x) y h g = absurd (omega arith)
    zero_halves zero (suc y) h g = absurd (omega arith)
xor-lt (suc k) {a = a} {b = b} p q = omega (
  arith,
  xor_step a b,
  pow-suc 2 k,
  xor-lt k {a = a / 2} {b = b / 2} (omega (arith, pow-suc 2 k)) (omega (arith, pow-suc 2 k)),
)

-- `z ^ (z >> k)` is undone by two more shifts when three of them clear the number.
pub xorshift_undone :
    (k z : ℕ)
    → z >>> k >>> k >>> k ≡ 0
    → let x = z ⊕ (z >>> k) in x ⊕ ((x >>> k) ⊕ (x >>> k >>> k)) ≡ z
xorshift_undone k z clear =
    let u = z >>> k in
    let v = u >>> k in
    rw
      (
        xor-shift k z u,
        xor-shift k u v,
        clear,
        xor-zero v,
        xor_assoc u v v,
        xor_self v,
        xor-zero u,
        xor_assoc z u u,
        xor_self u,
      )
      (xor-zero z)
