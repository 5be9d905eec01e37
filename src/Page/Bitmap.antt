-- ===== src/Page/Bitmap.antt =====
-- The bitmap of src/kernel/page.rs as a set of pages: what setting and clearing one bit does to each
-- page, and the count of the free ones.
use nek_os.Base.{
  ℕ, zero, suc, ◌+◌, ◌-◌, ◌*◌, ◌/◌, ◌%◌, ◌^◌, ◌≤◌, ◌<◌, bit_and, bit_or, List, get_or, set, length,
  ◌==◌, ◌≡◌, refl, ◌≢◌, arith, get_or-set_self, get_or-set_ne,
}
use nek_os.Base.Words.{not_usize}
use nek_os.Base.Bits.{
  bit, bit-le-one, bit_and-pow, bit-bit_or, bit-bit_and, bit-pow_self, bit-pow_ne,
}
use nek_os.Base.Bits.Masks.{bit-complement, two_pow_pos}
use native.Mathlib.Nat.{pow-le-pow_right}
use native.Mathlib.Decide.{ℕ_discrete}

-- 1 if page `i` is taken, 0 if it is free.
unfoldable pub used : List ℕ → ℕ → ℕ
used m i = bit (get_or m (i / 64) 0) (i % 64)

pub used-le-one : (m : List ℕ) (i : ℕ) → used m i ≤ 1
unfolding used
used-le-one m i = bit-le-one _ (i % 64)

mul_pow_test : (b p : ℕ) → b ≤ 1 → 0 < p → (b * p == 0) ≡ (b == 0)
mul_pow_test zero p h k = let e : 0 * p ≡ 0 = omega arith in rw e
mul_pow_test (suc b) p h k = let e : b ≡ 0 = omega arith in rw e (ground arith)

-- The code's test reads `used`.
pub masked-used :
    (m : List ℕ) (i : ℕ) → (bit_and (get_or m (i / 64) 0) (2 ^ (i % 64)) == 0) ≡ (used m i == 0)
unfolding used
masked-used m i =
    let w : ℕ = get_or m (i / 64) 0 in
    rw (bit_and-pow w (i % 64))
      (mul_pow_test (bit w (i % 64)) (2 ^ (i % 64)) (bit-le-one w (i % 64)) (two_pow_pos (i % 64)))

-- The bitmap with page `i` taken, as `alloc` computes it.
abbrev pub taken : List ℕ → ℕ → List ℕ
taken m i = set m (i / 64) (bit_or (get_or m (i / 64) 0) (2 ^ (i % 64)))

-- The bitmap with page `i` free, as `free` computes it.
abbrev pub cleared : List ℕ → ℕ → List ℕ
cleared m i = set m (i / 64) (bit_and (get_or m (i / 64) 0) (not_usize (2 ^ (i % 64))))

pub used-taken_self : (m : List ℕ) (i : ℕ) → i / 64 < length m → used (taken m i) i ≡ 1
unfolding used
used-taken_self m i h =
    let w : ℕ = get_or m (i / 64) 0 in
    rw (get_or-set_self m (i / 64) (bit_or w (2 ^ (i % 64))) 0 h) (
      omega
        (arith, bit-bit_or w (2 ^ (i % 64)) (i % 64), bit-pow_self (i % 64), bit-le-one w (i % 64)))

one_bit_small : (k : ℕ) → k < 64 → 2 ^ k < 2 ^ 64
one_bit_small k h =
    omega (arith, pow-le-pow_right {n = 2} (omega arith) {i = k} {j = 63} (omega arith))

bit-not : (k j : ℕ) → k < 64 → j < 64 → bit (not_usize (2 ^ k)) j + bit (2 ^ k) j ≡ 1
bit-not k j h l = bit-complement j 64 (2 ^ k) (one_bit_small k h) l

pub used-cleared_self : (m : List ℕ) (i : ℕ) → i / 64 < length m → used (cleared m i) i ≡ 0
unfolding used
used-cleared_self m i h =
    let w : ℕ = get_or m (i / 64) 0 in
    let k : ℕ = i % 64 in
    rw (get_or-set_self m (i / 64) (bit_and w (not_usize (2 ^ k))) 0 h) (
      omega (
        arith,
        bit-bit_and w (not_usize (2 ^ k)) k,
        bit-pow_self k,
        bit-not k k (omega arith) (omega arith),
      ))

-- Writing word `i / 64` so that it keeps its other bits changes no other page.
used-set_ne :
    (m : List ℕ) (i j v : ℕ)
    → i ≢ j
    → ((k : ℕ) → k < 64 → i % 64 ≢ k → bit v k ≡ bit (get_or m (i / 64) 0) k)
    → i / 64 < length m
    → used (set m (i / 64) v) j ≡ used m j
unfolding used
used-set_ne m i j v ne keep h = elim (ℕ_discrete (i / 64) (j / 64)) [
  | yes e ↦
      rw (← e, get_or-set_self m (i / 64) v 0 h)
        (keep (j % 64) (omega arith) (λ (q : i % 64 ≡ j % 64). ne (omega arith)))
  | no n ↦ rw (get_or-set_ne m (i / 64) (j / 64) v 0 n)
]

pub used-taken_ne :
    (m : List ℕ) (i j : ℕ) → i ≢ j → i / 64 < length m → used (taken m i) j ≡ used m j
used-taken_ne m i j ne h =
    used-set_ne m i j _ ne
      (λ k l q.
        omega (arith, bit-bit_or (get_or m (i / 64) 0) (2 ^ (i % 64)) k, bit-pow_ne (i % 64) k q))
      h

pub used-cleared_ne :
    (m : List ℕ) (i j : ℕ) → i ≢ j → i / 64 < length m → used (cleared m i) j ≡ used m j
used-cleared_ne m i j ne h =
    used-set_ne m i j _ ne
      (λ k l q. omega (
        arith,
        bit-bit_and (get_or m (i / 64) 0) (not_usize (2 ^ (i % 64))) k,
        bit-pow_ne (i % 64) k q,
        bit-not (i % 64) k (omega arith) l,
        bit-le-one (get_or m (i / 64) 0) k,
      ))
      h

-- How many of the first `n` pages are free.
unfoldable pub count_free : List ℕ → ℕ → ℕ
count_free m zero = 0
count_free m (suc n) = (1 - used m n) + count_free m n

pub count_free-agree :
    (m m' : List ℕ) (n : ℕ)
    → ((j : ℕ) → j < n → used m' j ≡ used m j)
    → count_free m' n ≡ count_free m n
unfolding count_free
count_free-agree m m' zero h = refl
count_free-agree m m' (suc n) h =
    omega (arith, h n (omega arith), count_free-agree m m' n (λ j l. h j (omega arith)))

-- Two bitmaps that differ at page `i` alone, which the second has taken.
pub count_free-taken :
    (m m' : List ℕ) (i n : ℕ)
    → i < n
    → used m i ≡ 0
    → used m' i ≡ 1
    → ((j : ℕ) → i ≢ j → used m' j ≡ used m j)
    → count_free m n ≡ suc (count_free m' n)
unfolding count_free
count_free-taken m m' i zero l u v h = elim l [ ]
count_free-taken m m' i (suc n) l u v h = elim (ℕ_discrete i n) [
  | yes e ↦
      let here : used m n ≡ 0 = rw e at u in
      let there : used m' n ≡ 1 = rw e at v in
      omega (arith, count_free-agree m m' n (λ j k. h j (λ (q : i ≡ j). omega arith)))
  | no ne ↦ omega (arith, h n ne, count_free-taken m m' i n (omega arith) u v h)
]

-- If none of the first `n` pages is free, each of them is taken.
pub count_free-zero : (m : List ℕ) (n j : ℕ) → count_free m n ≡ 0 → j < n → used m j ≡ 1
unfolding count_free
count_free-zero m zero j e h = elim h [ ]
count_free-zero m (suc n) j e h = elim (ℕ_discrete n j) [
  | yes q ↦ rw (← q) (omega (arith, used-le-one m n))
  | no ne ↦ count_free-zero m n j (omega arith) (omega arith)
]

pub count_free-all_used :
    (m : List ℕ) (n : ℕ) → ((j : ℕ) → j < n → used m j ≡ 1) → count_free m n ≡ 0
unfolding count_free
count_free-all_used m zero h = refl
count_free-all_used m (suc n) h =
    omega (arith, h n (omega arith), count_free-all_used m n (λ j l. h j (omega arith)))
