-- ===== src/Base/Bits.antt =====
-- `&` and `|` split at a binary digit, so that masks of any shape are arithmetic.
use Prim.Native.Nat.{
  ℕ, zero, suc, ◌+◌, ◌-◌, ◌*◌, ◌/◌, ◌%◌, ◌^◌, ◌≤◌, ◌<◌, min, max, digits, bitwise, bit_and, bit_or,
  bit_and-bitwise, bit_or-bitwise,
}
use mathlib.Core.Path.{◌≡◌, refl, sym, ap, ◌∙◌}
use native.Mathlib.Decide.{dec_lt}
use native.Mathlib.Nat.{pow-suc, one-le-pow}
use native.Mathlib.Omega.{arith}

-- `bitwise` runs through the digits of its first argument on fuel; what is left of the second one is
-- given to `rest`. Once there is fuel for the argument, one unit more makes no difference.
module _ (rest : ℕ → ℕ) (op : ℕ → ℕ → ℕ) where
  digits-suc : (fuel x y : ℕ) → x ≤ fuel → digits rest op (suc fuel) x y ≡ digits rest op fuel x y
  digits-suc zero zero y le = refl
  digits-suc zero (suc x) y le = absurd (omega arith)
  digits-suc (suc fuel) zero y le = refl
  digits-suc (suc fuel) (suc x) y le =
      ap (λ (d : ℕ). d * 2 + op (suc x % 2) (y % 2))
        (digits-suc fuel (suc x / 2) (y / 2) (omega arith))

  digits-bitwise : (fuel x y : ℕ) → x ≤ fuel → digits rest op fuel x y ≡ bitwise rest op x y
  digits-bitwise zero zero y le = refl
  digits-bitwise zero (suc x) y le = absurd (omega arith)
  digits-bitwise (suc fuel) x y le = elim (dec_lt fuel x) [
    | yes exact ↦ let e : x ≡ suc fuel = omega arith in ap (λ (n : ℕ). digits rest op n x y) (sym e)
    | no more ↦ digits-suc fuel x y (omega arith) ∙ digits-bitwise fuel x y (omega arith)
  ]

  halves :
      (x y : ℕ)
      → 0 < x
      → bitwise rest op x y ≡ op (x % 2) (y % 2) + 2 * bitwise rest op (x / 2) (y / 2)
  halves zero y pos = absurd (omega arith)
  halves (suc x) y pos = omega (arith, digits-bitwise x (suc x / 2) (y / 2) (omega arith))

-- `|` and `&` digit by digit: the lowest digit is the larger or the smaller one.
pub bit_or_halves : (x y : ℕ) → bit_or x y ≡ max (x % 2) (y % 2) + 2 * bit_or (x / 2) (y / 2)
bit_or_halves x y = elim (dec_lt 0 x) [
  | yes pos ↦
      omega (arith, halves (λ b. b) max x y pos, bit_or-bitwise x y, bit_or-bitwise (x / 2) (y / 2))
  | no none_left ↦
      let e : x ≡ 0 = omega arith in
      rw e (omega (arith, bit_or-bitwise 0 y, bit_or-bitwise 0 (y / 2)))
]

pub bit_and_halves : (x y : ℕ) → bit_and x y ≡ min (x % 2) (y % 2) + 2 * bit_and (x / 2) (y / 2)
bit_and_halves x y = elim (dec_lt 0 x) [
  | yes pos ↦
      omega
        (arith, halves (λ b. 0) min x y pos, bit_and-bitwise x y, bit_and-bitwise (x / 2) (y / 2))
  | no none_left ↦
      let e : x ≡ 0 = omega arith in
      rw e (omega (arith, bit_and-bitwise 0 y, bit_and-bitwise 0 (y / 2)))
]

pub zero-bit_or : (y : ℕ) → bit_or 0 y ≡ y
zero-bit_or y = omega (arith, bit_or-bitwise 0 y)

pub zero-bit_and : (y : ℕ) → bit_and 0 y ≡ 0
zero-bit_and y = omega (arith, bit_and-bitwise 0 y)

-- Both operations with 0 on the right, by the number of digits.
right_zero : (n x : ℕ) → x < 2 ^ n → (bit_or x 0 ≡ x) × (bit_and x 0 ≡ 0)
right_zero zero x lt = let e : x ≡ 0 = omega arith in rw e (zero-bit_or 0, zero-bit_and 0)
right_zero (suc n) x lt =
    let (join, meet) = right_zero n (x / 2) (omega (arith, pow-suc 2 n)) in
    (omega (arith, bit_or_halves x 0, join), omega (arith, bit_and_halves x 0, meet))

lt-pow : (x : ℕ) → x < 2 ^ x
lt-pow zero = omega arith
lt-pow (suc x) = omega (arith, pow-suc 2 x, lt-pow x)

pub bit_or-zero : (x : ℕ) → bit_or x 0 ≡ x
bit_or-zero x = (right_zero x x (lt-pow x)).0

pub bit_and-zero : (x : ℕ) → bit_and x 0 ≡ 0
bit_and-zero x = (right_zero x x (lt-pow x)).1

-- One digit moved from the low part to the high part.
double : (q k : ℕ) → q * 2 ^ suc k ≡ 2 * (q * 2 ^ k)
double q k = omega (arith, ap (λ (t : ℕ). q * t) (pow-suc 2 k))

-- The two halves of a word are combined apart.
pub bit_or_split :
    (k a b x y : ℕ)
    → x < 2 ^ k
    → y < 2 ^ k
    → bit_or (a * 2 ^ k + x) (b * 2 ^ k + y) ≡ bit_or a b * 2 ^ k + bit_or x y
bit_or_split zero a b x y p q = ground (arith, bit_or-zero 0)
bit_or_split (suc k) a b x y p q = ground (
  arith,
  bit_or_halves (a * 2 ^ suc k + x) (b * 2 ^ suc k + y),
  bit_or_halves x y,
  double a k,
  double b k,
  double (bit_or a b) k,
  pow-suc 2 k,
  bit_or_split k a b (x / 2) (y / 2) (omega (arith, pow-suc 2 k)) (omega (arith, pow-suc 2 k)),
)

pub bit_and_split :
    (k a b x y : ℕ)
    → x < 2 ^ k
    → y < 2 ^ k
    → bit_and (a * 2 ^ k + x) (b * 2 ^ k + y) ≡ bit_and a b * 2 ^ k + bit_and x y
bit_and_split zero a b x y p q = ground (arith, bit_and-zero 0)
bit_and_split (suc k) a b x y p q = ground (
  arith,
  bit_and_halves (a * 2 ^ suc k + x) (b * 2 ^ suc k + y),
  bit_and_halves x y,
  double a k,
  double b k,
  double (bit_and a b) k,
  pow-suc 2 k,
  bit_and_split k a b (x / 2) (y / 2) (omega (arith, pow-suc 2 k)) (omega (arith, pow-suc 2 k)),
)

-- A mask of `k` ones keeps the value.
low_mask_fuel : (k x : ℕ) → x < 2 ^ k → bit_and x (2 ^ k - 1) ≡ x
low_mask_fuel zero x h = ground (arith, zero-bit_and 0)
low_mask_fuel (suc k) x h = ground (
  arith,
  bit_and_halves x (2 ^ suc k - 1),
  pow-suc 2 k,
  low_mask_fuel k (x / 2) (omega (arith, pow-suc 2 k)),
)

-- A mask of `k` ones is the remainder by `2 ^ k`.
pub bit_and_mask : (k x : ℕ) → bit_and x (2 ^ k - 1) ≡ x % 2 ^ k
bit_and_mask k x = ground (
  arith,
  one-le-pow k 2,
  bit_and_split k (x / 2 ^ k) 0 (x % 2 ^ k) (2 ^ k - 1),
  bit_and-zero (x / 2 ^ k),
  low_mask_fuel k (x % 2 ^ k),
)

-- A field of `n` bits at bit `k` is cleared by the mask that is zero there; `h` is what lies above.
pub bit_and_clear :
    (h n k a b x : ℕ)
    → a < 2 ^ h
    → b < 2 ^ n
    → x < 2 ^ k
    → bit_and ((a * 2 ^ n + b) * 2 ^ k + x) (((2 ^ h - 1) * 2 ^ n + 0) * 2 ^ k + (2 ^ k - 1))
      ≡ (a * 2 ^ n + 0) * 2 ^ k + x
bit_and_clear h n k a b x p q r =
    rw
      (
        bit_and_split k (a * 2 ^ n + b) ((2 ^ h - 1) * 2 ^ n + 0) x (2 ^ k - 1) r
            (omega (arith, one-le-pow k 2)),
        bit_and_split n a (2 ^ h - 1) b 0 q (omega (arith, one-le-pow n 2)),
        low_mask_fuel h a p,
        low_mask_fuel k x r,
        bit_and-zero b,
      )
      refl

-- A field whose place is clear is put there by `|`.
pub bit_or_field :
    (n k a b x : ℕ)
    → b < 2 ^ n
    → x < 2 ^ k
    → bit_or ((a * 2 ^ n + 0) * 2 ^ k + x) ((0 * 2 ^ n + b) * 2 ^ k + 0)
      ≡ (a * 2 ^ n + b) * 2 ^ k + x
bit_or_field n k a b x q r =
    rw
      (
        bit_or_split k (a * 2 ^ n + 0) (0 * 2 ^ n + b) x 0 r (omega (arith, one-le-pow k 2)),
        bit_or_split n a 0 0 b (omega (arith, one-le-pow n 2)) q,
        bit_or-zero a,
        bit_or-zero x,
        zero-bit_or b,
      )
      refl

-- The three halves of a read-modify-write: the field at bit `k` is replaced.
pub replace_field :
    (h n k a b x v : ℕ)
    → a < 2 ^ h
    → b < 2 ^ n
    → x < 2 ^ k
    → v < 2 ^ n
    → bit_or
        (bit_and ((a * 2 ^ n + b) * 2 ^ k + x) (((2 ^ h - 1) * 2 ^ n + 0) * 2 ^ k + (2 ^ k - 1)))
        ((0 * 2 ^ n + v) * 2 ^ k + 0)
      ≡ (a * 2 ^ n + v) * 2 ^ k + x
replace_field h n k a b x v p q r s =
    rw (bit_and_clear h n k a b x p q r) (bit_or_field n k a v x s r)

ones_bit_or : (n b : ℕ) → b < 2 ^ n → bit_or b (2 ^ n - 1) ≡ 2 ^ n - 1
ones_bit_or zero b h = ground (arith, zero-bit_or 0)
ones_bit_or (suc n) b h = ground (
  arith,
  bit_or_halves b (2 ^ suc n - 1),
  pow-suc 2 n,
  one-le-pow n 2,
  ones_bit_or n (b / 2) (omega (arith, pow-suc 2 n)),
)

-- `|` with a field of ones fills that field.
pub fill_field :
    (n k a b x : ℕ)
    → b < 2 ^ n
    → x < 2 ^ k
    → bit_or ((a * 2 ^ n + b) * 2 ^ k + x) ((0 * 2 ^ n + (2 ^ n - 1)) * 2 ^ k + 0)
      ≡ (a * 2 ^ n + (2 ^ n - 1)) * 2 ^ k + x
fill_field n k a b x q r =
    rw
      (
        bit_or_split k (a * 2 ^ n + b) (0 * 2 ^ n + (2 ^ n - 1)) x 0 r
            (omega (arith, one-le-pow k 2)),
        bit_or_split n a 0 b (2 ^ n - 1) q (omega (arith, one-le-pow n 2)),
        bit_or-zero a,
        bit_or-zero x,
        ones_bit_or n b q,
      )
      refl

-- `&` with a field of ones keeps that field alone.
pub select_field :
    (n k a b x : ℕ)
    → b < 2 ^ n
    → x < 2 ^ k
    → bit_and ((a * 2 ^ n + b) * 2 ^ k + x) ((0 * 2 ^ n + (2 ^ n - 1)) * 2 ^ k + 0)
      ≡ (0 * 2 ^ n + b) * 2 ^ k + 0
select_field n k a b x q r =
    rw
      (
        bit_and_split k (a * 2 ^ n + b) (0 * 2 ^ n + (2 ^ n - 1)) x 0 r
            (omega (arith, one-le-pow k 2)),
        bit_and_split n a 0 b (2 ^ n - 1) q (omega (arith, one-le-pow n 2)),
        bit_and-zero a,
        bit_and-zero x,
        low_mask_fuel n b q,
      )
      refl
