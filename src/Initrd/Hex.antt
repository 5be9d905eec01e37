-- ===== src/Initrd/Hex.antt =====
-- Hexadecimal numbers of an archive, `hex` of src/kernel/initrd.rs, against a printer of them.
use native.Mathlib.Nat.{
  pow-suc, div-div-eq-div-mul, mod-eq-sub-mul-div, mod-lt, mul-le-mul_right, mul-le-mul_left,
  one-le-pow, pow-le-pow_right, mod-add-div', mod-eq_of_lt,
}
use nek_os.Base.{
  ℕ, zero, suc, ◌+◌, ◌-◌, ◌*◌, ◌/◌, ◌%◌, ◌^◌, ◌≤◌, ◌<◌, Bool, true, false, some, List, [], ◌∷◌, ltb,
  if◌then◌else◌, ◌≡◌, refl, ap, arith, ◌∙◌,
}
use nek_os.Initrd.{hex_digit, hex_step, hex_from, hex}

-- The digit of a number below 16, with a capital or a small letter.
unfoldable digit : Bool → ℕ → ℕ
digit capital d =
    if ltb d 10 then b'0' + d else if capital then b'A' + (d - 10) else b'a' + (d - 10)

-- The last `w` hexadecimal digits of `n`, the highest first; `capital` says which letters are capitals.
unfoldable pub print : (ℕ → Bool) → ℕ → ℕ → List ℕ
unfolding digit
print capital zero n = []
print capital (suc w) n = digit (capital w) (n / 16 ^ w % 16) ∷ print capital w n

hex_digit-digit : (b : Bool) (d : ℕ) → d < 16 → hex_digit (digit b d) ≡ some d
unfolding hex_digit digit
hex_digit-digit true d h = ground arith
hex_digit-digit false d h = ground arith

hex_step-digit :
    (b : Bool) (v d : ℕ) → d < 16 → v * 16 + d < 2 ^ 64 → hex_step v (digit b d) ≡ some (v * 16 + d)
unfolding hex_step
hex_step-digit b v d h l = ground (arith, hex_digit-digit b d h)

mod_step : (w n : ℕ) → n % 16 ^ suc w ≡ n / 16 ^ w % 16 * 16 ^ w + n % 16 ^ w
mod_step w n =
    let p = 16 ^ w in
    let q = n / p in
    let deep : n / 16 ^ suc w ≡ q / 16 = rw (pow-suc 16 w, div-div-eq-div-mul n p 16) refl in
    let low : n % 16 ^ suc w ≡ n - 16 ^ suc w * (q / 16) =
      rw (← deep) (mod-eq-sub-mul-div n (16 ^ suc w)) in
    omega (
      arith,
      low,
      mod-add-div' n p,
      ap (λ (x : ℕ). x * p) (mod-add-div' q 16),
      ap (λ (x : ℕ). x * (q / 16)) (pow-suc 16 w),
    )

hex_from-print :
    (capital : ℕ → Bool) (w v n : ℕ)
    → (v + 1) * 16 ^ w ≤ 2 ^ 64
    → hex_from v (print capital w n) ≡ some (v * 16 ^ w + n % 16 ^ w)
unfolding hex_from print
hex_from-print capital zero v n h = ap some (omega arith)
hex_from-print capital (suc w) v n h =
    let d = n / 16 ^ w % 16 in
    let small : d < 16 = mod-lt (n / 16 ^ w) (omega arith) in
    let fits : (v * 16 + d + 1) * 16 ^ w ≤ 2 ^ 64 = omega (
      arith,
      h,
      mul-le-mul_right (16 ^ w) (up v small),
      ap (λ (x : ℕ). (v + 1) * x) (pow-suc 16 w),
    ) in
    let room : v * 16 + d < 2 ^ 64 =
      omega (arith, fits, mul-le-mul_left (v * 16 + d + 1) (one-le-pow w 16 (omega arith))) in
    rw (hex_from, hex_step-digit (capital w) v d small room)
      (hex_from-print capital w (v * 16 + d) n fits
        ∙ ap some (omega (arith, mod_step w n, ap (λ (x : ℕ). v * x) (pow-suc 16 w))))
  where
    up : (v : ℕ) {d : ℕ} → d < 16 → v * 16 + d + 1 ≤ v * 16 + 16
    up v l = omega arith

-- A printed number is read back, whatever its width up to 16 digits and whichever of its letters are
-- capitals: `hex` neither overflows nor loses a digit.
pub hex-print :
    (capital : ℕ → Bool) (w n : ℕ) → w ≤ 16 → n < 16 ^ w → hex (print capital w n) ≡ some n
unfolding hex
hex-print capital w n h l =
    hex_from-print capital w 0 n (omega (arith, pow-le-pow_right {n = 16} (omega arith) h))
    ∙ ap some (omega (arith, mod-eq_of_lt l))
