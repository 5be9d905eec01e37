-- ===== src/Base/Bits.antt =====
-- Laws of `bit_and` and `bit_or` at variables, by recursion on the binary digits.
pub mod Masks
use native.Mathlib.Nat.{pow-suc}
use Prim.Native.Nat.{digits, bit_and-bitwise, bit_or-bitwise}
use nek_os.Base.{
  ℕ, zero, suc, ◌+◌, ◌-◌, ◌*◌, ◌/◌, ◌%◌, ◌^◌, ◌≤◌, ◌<◌, min, max, bit_and, bit_or, ◌≡◌, refl, ap,
  arith, ◌≢◌,
}

-- Fuel for a number of binary digits: more than the number itself changes nothing.
module _ (rest : ℕ → ℕ) (join : ℕ → ℕ → ℕ) where
  digits-agree : (x y n m : ℕ) → x ≤ n → x ≤ m → digits rest join n x y ≡ digits rest join m x y
  digits-agree zero y zero zero h k = refl
  digits-agree zero y zero (suc m) h k = refl
  digits-agree zero y (suc n) zero h k = refl
  digits-agree zero y (suc n) (suc m) h k = refl
  digits-agree (suc x) y zero m h k = absurd (omega arith)
  digits-agree (suc x) y (suc n) zero h k = absurd (omega arith)
  digits-agree (suc x) y (suc n) (suc m) h k =
      let tail = digits-agree (suc x / 2) (y / 2) n m (omega arith) (omega arith) in
      ap (λ (t : ℕ). t * 2 + join (suc x % 2) (y % 2)) tail

abbrev none_left : ℕ → ℕ
none_left y = zero

abbrev all_left : ℕ → ℕ
all_left y = y

-- `&` and `|`, digit by digit.
pub bit_and_step : (x y : ℕ) → bit_and x y ≡ min (x % 2) (y % 2) + bit_and (x / 2) (y / 2) * 2
bit_and_step zero y = omega (arith, bit_and-bitwise (0 / 2) (y / 2), bit_and-bitwise 0 y)
bit_and_step (suc x) y =
    let half = suc x / 2 in
    let fuel = digits-agree none_left min half (y / 2) x half (omega arith) (omega arith) in
    omega (arith, fuel, bit_and-bitwise half (y / 2), bit_and-bitwise (suc x) y)

pub bit_or_step : (x y : ℕ) → bit_or x y ≡ max (x % 2) (y % 2) + bit_or (x / 2) (y / 2) * 2
bit_or_step zero y = omega (arith, bit_or-bitwise (0 / 2) (y / 2), bit_or-bitwise 0 y)
bit_or_step (suc x) y =
    let half = suc x / 2 in
    let fuel = digits-agree all_left max half (y / 2) x half (omega arith) (omega arith) in
    omega (arith, fuel, bit_or-bitwise half (y / 2), bit_or-bitwise (suc x) y)

-- Zero on the right, up to a bound on the other number.
zero_right : (bound x : ℕ) → x ≤ bound → (bit_and x 0 ≡ 0) × (bit_or x 0 ≡ x)
zero_right bound zero h = (refl, refl)
zero_right zero (suc x) h = absurd (omega arith)
zero_right (suc bound) (suc x) h =
    let (conj, disj) = zero_right bound (suc x / 2) (omega arith) in
    (omega (arith, conj, bit_and_step (suc x) 0), omega (arith, disj, bit_or_step (suc x) 0))

pub bit_and-zero : (x : ℕ) → bit_and x 0 ≡ 0
bit_and-zero x = (zero_right x x (omega arith)).0

pub bit_or-zero : (x : ℕ) → bit_or x 0 ≡ x
bit_or-zero x = (zero_right x x (omega arith)).1

-- The binary digit of weight 2 ^ i.
unfoldable pub bit : ℕ → ℕ → ℕ
bit w zero = w % 2
bit w (suc i) = bit (w / 2) i

pub bit-le-one : (w i : ℕ) → bit w i ≤ 1
unfolding bit
bit-le-one w zero = omega arith
bit-le-one w (suc i) = bit-le-one (w / 2) i

pub bit-zero : (i : ℕ) → bit 0 i ≡ 0
unfolding bit
bit-zero zero = refl
bit-zero (suc i) = bit-zero i

pub bit-bit_or : (a b i : ℕ) → bit (bit_or a b) i ≡ max (bit a i) (bit b i)
unfolding bit
bit-bit_or a b zero = omega (arith, bit_or_step a b)
bit-bit_or a b (suc i) =
    let half : bit_or a b / 2 ≡ bit_or (a / 2) (b / 2) = omega (arith, bit_or_step a b) in
    rw half (bit-bit_or (a / 2) (b / 2) i)

pub bit-bit_and : (a b i : ℕ) → bit (bit_and a b) i ≡ min (bit a i) (bit b i)
unfolding bit
bit-bit_and a b zero = omega (arith, bit_and_step a b)
bit-bit_and a b (suc i) =
    let half : bit_and a b / 2 ≡ bit_and (a / 2) (b / 2) = omega (arith, bit_and_step a b) in
    rw half (bit-bit_and (a / 2) (b / 2) i)

pub bit-pow_self : (i : ℕ) → bit (2 ^ i) i ≡ 1
unfolding bit
bit-pow_self zero = refl
bit-pow_self (suc i) =
    let half : 2 ^ suc i / 2 ≡ 2 ^ i = omega (arith, pow-suc 2 i) in rw half (bit-pow_self i)

pub bit-pow_ne : (i j : ℕ) → i ≢ j → bit (2 ^ i) j ≡ 0
unfolding bit
bit-pow_ne zero zero h = absurd (h refl)
bit-pow_ne zero (suc j) h = bit-zero j
bit-pow_ne (suc i) zero h = omega (arith, pow-suc 2 i)
bit-pow_ne (suc i) (suc j) h =
    let half : 2 ^ suc i / 2 ≡ 2 ^ i = omega (arith, pow-suc 2 i) in
    rw half (bit-pow_ne i j (λ e. h (ap suc e)))

-- Masking with one bit reads that bit.
pub bit_and-pow : (w i : ℕ) → bit_and w (2 ^ i) ≡ bit w i * 2 ^ i
unfolding bit
bit_and-pow w zero = omega (arith, bit_and_step w 1, bit_and-zero (w / 2))
bit_and-pow w (suc i) =
    let half : 2 ^ suc i / 2 ≡ 2 ^ i = omega (arith, pow-suc 2 i) in
    let step : bit_and w (2 ^ suc i) ≡ bit_and (w / 2) (2 ^ i) * 2 =
      rw (bit_and_step w (2 ^ suc i), half) (omega (arith, pow-suc 2 i)) in
    omega (
      arith,
      step,
      bit_and-pow (w / 2) i,
      pow-suc 2 i,
      ap (λ (t : ℕ). bit (w / 2) i * t) (pow-suc 2 i),
    )

-- A number whose low digits are free takes them by `|`.
pub bit_or-pow_mul : (k x f : ℕ) → f < 2 ^ k → bit_or (x * 2 ^ k) f ≡ x * 2 ^ k + f
bit_or-pow_mul zero x f h =
    let f0 : f ≡ 0 = omega arith in rw f0 (omega (arith, bit_or-zero (x * 2 ^ 0)))
bit_or-pow_mul (suc k) x f h =
    let dbl : x * 2 ^ suc k ≡ x * 2 ^ k * 2 = omega (arith, ap (λ (t : ℕ). x * t) (pow-suc 2 k)) in
    let half : x * 2 ^ suc k / 2 ≡ x * 2 ^ k = omega arith in
    let lt : f / 2 < 2 ^ k = omega (arith, pow-suc 2 k) in
    let s : bit_or (x * 2 ^ suc k) f
        ≡ bit_or (x * 2 ^ k) (f / 2) * 2 + max (x * 2 ^ suc k % 2) (f % 2) =
      rw (bit_or_step (x * 2 ^ suc k) f, half) (omega arith) in
    omega (arith, s, bit_or-pow_mul k x (f / 2) lt)
