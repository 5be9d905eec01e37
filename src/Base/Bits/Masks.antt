-- ===== src/Base/Bits/Masks.antt =====
-- Masks: runs of ones, complements, and the alignment that they compute.
use native.Mathlib.Nat.{
  pow-suc, pow-succ', one-le-pow, div-div-eq-div-mul, mod-eq-sub-mul-div, mul-div-le,
}
use nek_os.Base.{
  ℕ, zero, suc, ◌+◌, ◌-◌, ◌*◌, ◌/◌, ◌%◌, ◌^◌, ◌<◌, min, bit_and, ◌≡◌, refl, ap, arith,
}
use nek_os.Base.Words.{not_usize}
use nek_os.Base.Bits.{bit, bit_and_step, bit_and-zero}

pub two_pow_pos : (i : ℕ) → 0 < 2 ^ i
two_pow_pos i = one-le-pow i 2 (omega arith)

mod_double : (n x : ℕ) → x % 2 ^ suc n ≡ x / 2 % 2 ^ n * 2 + x % 2
mod_double n x =
    let q : x / 2 ^ suc n ≡ x / 2 / 2 ^ n =
      rw (pow-succ' 2 n, div-div-eq-div-mul x 2 (2 ^ n)) refl in
    let h : x % 2 ^ suc n ≡ x - 2 ^ suc n * (x / 2 / 2 ^ n) =
      rw (← q) (mod-eq-sub-mul-div x (2 ^ suc n)) in
    omega (
      arith,
      h,
      mod-eq-sub-mul-div (x / 2) (2 ^ n),
      mul-div-le (x / 2) (2 ^ n),
      ap (λ (t : ℕ). t * (x / 2 / 2 ^ n)) (pow-suc 2 n),
    )

-- `x & (2 ^ n - 1)`
pub bit_and-ones : (n x : ℕ) → bit_and x (2 ^ n - 1) ≡ x % 2 ^ n
bit_and-ones zero x = omega (arith, bit_and-zero x)
bit_and-ones (suc n) x =
    let half : (2 ^ suc n - 1) / 2 ≡ 2 ^ n - 1 = omega (arith, pow-suc 2 n, two_pow_pos n) in
    let step : bit_and x (2 ^ suc n - 1)
        ≡ bit_and (x / 2) (2 ^ n - 1) * 2 + min (x % 2) ((2 ^ suc n - 1) % 2) =
      rw (bit_and_step x (2 ^ suc n - 1), half) (omega arith) in
    omega (arith, step, bit_and-ones n (x / 2), pow-suc 2 n, two_pow_pos n, mod_double n x)

-- `x & (m << k)`
pub bit_and-mul_pow : (k x m : ℕ) → bit_and x (m * 2 ^ k) ≡ bit_and (x / 2 ^ k) m * 2 ^ k
bit_and-mul_pow zero x m =
    let one : m * 2 ^ 0 ≡ m = omega arith in
    let same : x / 2 ^ 0 ≡ x = omega arith in rw (one, same) (omega arith)
bit_and-mul_pow (suc k) x m =
    let dbl : m * 2 ^ suc k ≡ m * 2 ^ k * 2 = omega (arith, ap (λ (t : ℕ). m * t) (pow-suc 2 k)) in
    let half : m * 2 ^ suc k / 2 ≡ m * 2 ^ k = omega arith in
    let q : x / 2 ^ suc k ≡ x / 2 / 2 ^ k =
      rw (pow-succ' 2 k, div-div-eq-div-mul x 2 (2 ^ k)) refl in
    let step : bit_and x (m * 2 ^ suc k)
        ≡ bit_and (x / 2) (m * 2 ^ k) * 2 + min (x % 2) (m * 2 ^ suc k % 2) =
      rw (bit_and_step x (m * 2 ^ suc k), half) (omega arith) in
    rw q (
      omega (
        arith,
        step,
        bit_and-mul_pow k (x / 2) m,
        ap (λ (t : ℕ). bit_and (x / 2 / 2 ^ k) m * t) (pow-suc 2 k),
      ))

-- `2 ^ n - 1 - m` has the digits that `m` has not.
pub bit-complement : (i n m : ℕ) → m < 2 ^ n → i < n → bit (2 ^ n - 1 - m) i + bit m i ≡ 1
unfolding bit
bit-complement i zero m h l = elim l [ ]
bit-complement zero (suc n) m h l = omega (arith, pow-suc 2 n)
bit-complement (suc i) (suc n) m h l =
    let half : (2 ^ suc n - 1 - m) / 2 ≡ 2 ^ n - 1 - m / 2 = omega (arith, pow-suc 2 n) in
    rw (half, bit) (bit-complement i n (m / 2) (omega (arith, pow-suc 2 n)) (omega arith))

-- `x & !(2 ^ 12 - 1)` rounds a `usize` down to a page.
pub bit_and-page_mask : (x : ℕ) → x < 2 ^ 64 → bit_and x (not_usize 4095) ≡ x / 4096 * 4096
bit_and-page_mask x h = omega (arith, bit_and-mul_pow 12 x (2 ^ 52 - 1), bit_and-ones 52 (x / 4096))
