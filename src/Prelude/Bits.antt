-- ===== src/Prelude/Bits.antt =====
-- Laws of `&` and `^` at variables, from the recursion on binary digits for which they stand.
use Prim.Native.Nat.{ℕ, zero, suc, ◌+◌, ◌*◌, ◌/◌, ◌%◌, ◌^◌, ◌≤◌, ◌<◌, min}
use Prim.Native.Nat.{digits, differ, bit_and, bit_xor, bit_and-bitwise, bit_xor-bitwise}
use mathlib.Core.Path.{◌≡◌, refl, sym, ap, ◌∙◌}
use native.Mathlib.Nat.{pow-suc}
use native.Mathlib.Omega.{arith}

-- More digits to go than the first number has make no difference.
module _ (z : ℕ → ℕ) (f : ℕ → ℕ → ℕ) where
  spare_digits : (a b n k : ℕ) → a ≤ n → a ≤ k → digits z f n a b ≡ digits z f k a b
  spare_digits zero b zero zero p q = refl
  spare_digits zero b zero (suc k) p q = refl
  spare_digits zero b (suc n) zero p q = refl
  spare_digits zero b (suc n) (suc k) p q = refl
  spare_digits (suc a) b zero k p q = absurd (omega arith)
  spare_digits (suc a) b (suc n) zero p q = absurd (omega arith)
  spare_digits (suc a) b (suc n) (suc k) p q =
      ap (λ (t : ℕ). t * 2 + f (suc a % 2) (b % 2))
        (spare_digits (suc a / 2) (b / 2) n k (omega arith) (omega arith))

differ_mod : (a b : ℕ) → differ (a % 2) (b % 2) ≡ (a + b) % 2
differ_mod a b = go (a % 2) (b % 2) (omega arith) (omega arith) ∙ omega arith
  where
    go : (x y : ℕ) → x < 2 → y < 2 → differ x y ≡ (x + y) % 2
    go zero y p q = omega arith
    go (suc zero) zero p q = refl
    go (suc zero) (suc zero) p q = refl
    go (suc zero) (suc (suc y)) p q = absurd (omega arith)
    go (suc (suc x)) y p q = absurd (omega arith)

pub zero-bit_xor : (b : ℕ) → bit_xor 0 b ≡ b
zero-bit_xor b = bit_xor-bitwise 0 b

pub bit_xor_step : (a b : ℕ) → bit_xor a b ≡ 2 * bit_xor (a / 2) (b / 2) + (a + b) % 2
bit_xor_step zero b = omega (arith, zero-bit_xor b, zero-bit_xor (b / 2))
bit_xor_step (suc a) b =
    let low = differ_mod (suc a) b in
    let high = bit_xor-bitwise (suc a / 2) (b / 2) in
    let fuel =
      spare_digits (λ t. t) differ (suc a / 2) (b / 2) a (suc a / 2) (omega arith) (omega arith) in
    omega (arith, low, high, fuel, bit_xor-bitwise (suc a) b)

pub bit_xor_half : (a b : ℕ) → bit_xor a b / 2 ≡ bit_xor (a / 2) (b / 2)
bit_xor_half a b = omega (arith, bit_xor_step a b)

pub bit_xor_parity : (a b : ℕ) → bit_xor a b % 2 ≡ (a + b) % 2
bit_xor_parity a b = omega (arith, bit_xor_step a b)

xor-zero_upto : (n a : ℕ) → a ≤ n → bit_xor a 0 ≡ a
xor-zero_upto n zero h = zero-bit_xor 0
xor-zero_upto zero (suc a) h = absurd (omega arith)
xor-zero_upto (suc n) (suc a) h =
    omega (arith, bit_xor_step (suc a) 0, xor-zero_upto n (suc a / 2) (omega arith))

pub bit_xor-zero : (a : ℕ) → bit_xor a 0 ≡ a
bit_xor-zero a = xor-zero_upto a a (omega arith)

xor_self_upto : (n a : ℕ) → a ≤ n → bit_xor a a ≡ 0
xor_self_upto n zero h = zero-bit_xor 0
xor_self_upto zero (suc a) h = absurd (omega arith)
xor_self_upto (suc n) (suc a) h =
    omega (arith, bit_xor_step (suc a) (suc a), xor_self_upto n (suc a / 2) (omega arith))

pub bit_xor_self : (a : ℕ) → bit_xor a a ≡ 0
bit_xor_self a = xor_self_upto a a (omega arith)

xor_comm_upto : (n a b : ℕ) → a ≤ n → bit_xor a b ≡ bit_xor b a
xor_comm_upto n zero b h = omega (arith, zero-bit_xor b, bit_xor-zero b)
xor_comm_upto zero (suc a) b h = absurd (omega arith)
xor_comm_upto (suc n) (suc a) b h = omega (
  arith,
  bit_xor_step (suc a) b,
  bit_xor_step b (suc a),
  xor_comm_upto n (suc a / 2) (b / 2) (omega arith),
)

pub bit_xor_comm : (a b : ℕ) → bit_xor a b ≡ bit_xor b a
bit_xor_comm a b = xor_comm_upto a a b (omega arith)

-- Two numbers with the same halves and parities are equal.
same_digits : (x y : ℕ) → x / 2 ≡ y / 2 → x % 2 ≡ y % 2 → x ≡ y
same_digits x y h p = omega arith

xor_assoc_upto : (n a b c : ℕ) → a ≤ n → bit_xor (bit_xor a b) c ≡ bit_xor a (bit_xor b c)
xor_assoc_upto n zero b c h = rw (zero-bit_xor b, zero-bit_xor (bit_xor b c))
xor_assoc_upto zero (suc a) b c h = absurd (omega arith)
xor_assoc_upto (suc n) (suc a) b c h =
    same_digits _ _
      (rw
        (
          bit_xor_half (bit_xor (suc a) b) c,
          bit_xor_half (suc a) b,
          bit_xor_half (suc a) (bit_xor b c),
          bit_xor_half b c,
        )
        (xor_assoc_upto n (suc a / 2) (b / 2) (c / 2) (omega arith)))
      (omega (
        arith,
        bit_xor_parity (bit_xor (suc a) b) c,
        bit_xor_parity (suc a) b,
        bit_xor_parity (suc a) (bit_xor b c),
        bit_xor_parity b c,
      ))

pub bit_xor_assoc : (a b c : ℕ) → bit_xor (bit_xor a b) c ≡ bit_xor a (bit_xor b c)
bit_xor_assoc a b c = xor_assoc_upto a a b c (omega arith)

pub bit_xor_cancel : (p x y : ℕ) → bit_xor p x ≡ bit_xor p y → x ≡ y
bit_xor_cancel p x y e = sym (undo x) ∙ ap (bit_xor p) e ∙ undo y
  where
    undo : (t : ℕ) → bit_xor p (bit_xor p t) ≡ t
    undo t = rw (← bit_xor_assoc p p t, bit_xor_self p, zero-bit_xor t)

pub bit_xor-lt : (k a b : ℕ) → a < 2 ^ k → b < 2 ^ k → bit_xor a b < 2 ^ k
bit_xor-lt zero a b p q =
    let e : a ≡ 0 = omega arith in let d : b ≡ 0 = omega arith in rw (e, d) (omega arith)
bit_xor-lt (suc k) a b p q = omega (
  arith,
  pow-suc 2 k,
  bit_xor_step a b,
  bit_xor-lt k (a / 2) (b / 2) (omega (arith, pow-suc 2 k)) (omega (arith, pow-suc 2 k)),
)

pub double_pow : (h k : ℕ) → h * 2 ^ suc k ≡ 2 * (h * 2 ^ k)
double_pow h k = omega (arith, ap (λ (t : ℕ). h * t) (pow-suc 2 k))

-- With no common digit `^` is a sum.
pub bit_xor_fields : (k h l : ℕ) → l < 2 ^ k → bit_xor (h * 2 ^ k) l ≡ h * 2 ^ k + l
bit_xor_fields zero h l p =
    let e : l ≡ 0 = omega arith in rw e (omega (arith, bit_xor-zero (h * 2 ^ 0)))
bit_xor_fields (suc k) h l p = ground (
  arith,
  bit_xor_step (h * 2 ^ suc k) l,
  double_pow h k,
  bit_xor_fields k h (l / 2) (omega (arith, pow-suc 2 k)),
)

zero-bit_and : (b : ℕ) → bit_and 0 b ≡ 0
zero-bit_and b = bit_and-bitwise 0 b

min_mod : (a b : ℕ) → min (a % 2) (b % 2) ≡ a % 2 * (b % 2)
min_mod a b = go (a % 2) (b % 2) (omega arith) (omega arith)
  where
    go : (x y : ℕ) → x < 2 → y < 2 → min x y ≡ x * y
    go zero y p q = omega arith
    go (suc zero) y p q = omega arith
    go (suc (suc x)) y p q = absurd (omega arith)

pub bit_and_step : (a b : ℕ) → bit_and a b ≡ 2 * bit_and (a / 2) (b / 2) + a % 2 * (b % 2)
bit_and_step zero b = let half = zero-bit_and (b / 2) in omega (arith, zero-bit_and b, half)
bit_and_step (suc a) b =
    let low = min_mod (suc a) b in
    let high = bit_and-bitwise (suc a / 2) (b / 2) in
    let fuel =
      spare_digits (λ _. 0) min (suc a / 2) (b / 2) a (suc a / 2) (omega arith) (omega arith) in
    omega (arith, low, high, fuel, bit_and-bitwise (suc a) b)

and-zero_upto : (n a : ℕ) → a ≤ n → bit_and a 0 ≡ 0
and-zero_upto n zero h = zero-bit_and 0
and-zero_upto zero (suc a) h = absurd (omega arith)
and-zero_upto (suc n) (suc a) h =
    omega (arith, bit_and_step (suc a) 0, and-zero_upto n (suc a / 2) (omega arith))

pub bit_and-zero : (a : ℕ) → bit_and a 0 ≡ 0
bit_and-zero a = and-zero_upto a a (omega arith)

-- The masks that the program uses, digit by digit.
pub bit_and_one : (a : ℕ) → bit_and a 1 ≡ a % 2
bit_and_one a = omega (arith, bit_and_step a 1, bit_and-zero (a / 2))

pub bit_and_two : (a : ℕ) → bit_and a 2 ≡ a / 2 % 2 * 2
bit_and_two a = omega (arith, bit_and_step a 2, bit_and_one (a / 2))

pub bit_and_nibble : (a : ℕ) → bit_and a 0x0f ≡ a % 16
bit_and_nibble a = omega (
  arith,
  bit_and_step a 15,
  bit_and_step (a / 2) 7,
  bit_and_step (a / 2 / 2) 3,
  bit_and_one (a / 2 / 2 / 2),
)

pub bit_and_byte : (a : ℕ) → bit_and a 0xff ≡ a % 256
bit_and_byte a = omega (
  arith,
  bit_and_step a 255,
  bit_and_step (a / 2) 127,
  bit_and_step (a / 2 / 2) 63,
  bit_and_step (a / 2 / 2 / 2) 31,
  bit_and_nibble (a / 2 / 2 / 2 / 2),
)
