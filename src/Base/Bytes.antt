-- ===== src/Base/Bytes.antt =====
-- Bytes of a buffer: little-endian numbers and copies into a part of it.
use native.Mathlib.Nat.{pow-suc}
use nek_os.Base.{
  ℕ, zero, suc, ◌+◌, ◌*◌, ◌/◌, ◌%◌, ◌^◌, ◌≤◌, ◌<◌, List, [], ◌∷◌, length, get_or, ◌≡◌, refl, ap,
  arith,
}

-- The little-endian number in `n` bytes at `offset`.
unfoldable pub le_at : ℕ → ℕ → List ℕ → ℕ
le_at zero offset bytes = 0
le_at (suc n) offset bytes = get_or bytes offset 0 + 256 * le_at n (offset + 1) bytes

-- `to_le_bytes` of a number of `n` bytes
unfoldable pub to_le_bytes : ℕ → ℕ → List ℕ
to_le_bytes zero v = []
to_le_bytes (suc n) v = v % 256 ∷ to_le_bytes n (v / 256)

-- `xs[i..i + vs.len()].copy_from_slice(vs)`, where that range lies in `xs`.
unfoldable pub splice : List ℕ → ℕ → List ℕ → List ℕ
splice [] i vs = []
splice (x ∷ xs) zero [] = x ∷ xs
splice (x ∷ xs) zero (v ∷ vs) = v ∷ splice xs 0 vs
splice (x ∷ xs) (suc i) vs = x ∷ splice xs i vs

pub length-splice : (xs : List ℕ) (i : ℕ) (vs : List ℕ) → length (splice xs i vs) ≡ length xs
unfolding splice
length-splice [] i vs = refl
length-splice (x ∷ xs) zero [] = refl
length-splice (x ∷ xs) zero (v ∷ vs) = ap suc (length-splice xs 0 vs)
length-splice (x ∷ xs) (suc i) vs = ap suc (length-splice xs i vs)

pub length-to_le_bytes : (n v : ℕ) → length (to_le_bytes n v) ≡ n
unfolding to_le_bytes
length-to_le_bytes zero v = refl
length-to_le_bytes (suc n) v = ap suc (length-to_le_bytes n (v / 256))

pub get_or-splice_in :
    (xs : List ℕ) (i : ℕ) (vs : List ℕ) (k j : ℕ)
    → k ≡ i + j
    → i + length vs ≤ length xs
    → j < length vs
    → get_or (splice xs i vs) k 0 ≡ get_or vs j 0
unfolding splice
get_or-splice_in [] i vs k j e h l = absurd (omega arith)
get_or-splice_in (x ∷ xs) zero [] k j e h l = absurd (omega arith)
get_or-splice_in (x ∷ xs) zero (v ∷ vs) zero zero e h l = refl
get_or-splice_in (x ∷ xs) zero (v ∷ vs) zero (suc j) e h l = absurd (omega arith)
get_or-splice_in (x ∷ xs) zero (v ∷ vs) (suc k) zero e h l = absurd (omega arith)
get_or-splice_in (x ∷ xs) zero (v ∷ vs) (suc k) (suc j) e h l =
    get_or-splice_in xs 0 vs k j (omega arith) (omega arith) (omega arith)
get_or-splice_in (x ∷ xs) (suc i) vs zero j e h l = absurd (omega arith)
get_or-splice_in (x ∷ xs) (suc i) vs (suc k) j e h l =
    get_or-splice_in xs i vs k j (omega arith) (omega arith) l

pub get_or-splice_before :
    (xs : List ℕ) (i : ℕ) (vs : List ℕ) (j : ℕ)
    → j < i
    → get_or (splice xs i vs) j 0 ≡ get_or xs j 0
unfolding splice
get_or-splice_before [] i vs j h = refl
get_or-splice_before (x ∷ xs) zero vs j h = absurd (omega arith)
get_or-splice_before (x ∷ xs) (suc i) vs zero h = refl
get_or-splice_before (x ∷ xs) (suc i) vs (suc j) h = get_or-splice_before xs i vs j (omega arith)

pub get_or-splice_behind :
    (xs : List ℕ) (i : ℕ) (vs : List ℕ) (j : ℕ)
    → i + length vs ≤ j
    → get_or (splice xs i vs) j 0 ≡ get_or xs j 0
unfolding splice
get_or-splice_behind [] i vs j h = refl
get_or-splice_behind (x ∷ xs) zero [] j h = refl
get_or-splice_behind (x ∷ xs) zero (v ∷ vs) zero h = absurd (omega arith)
get_or-splice_behind (x ∷ xs) zero (v ∷ vs) (suc j) h = get_or-splice_behind xs 0 vs j (omega arith)
get_or-splice_behind (x ∷ xs) (suc i) vs zero h = absurd (omega arith)
get_or-splice_behind (x ∷ xs) (suc i) vs (suc j) h = get_or-splice_behind xs i vs j (omega arith)

-- Numbers read from bytes that agree.
pub le_at-ext :
    (n o p : ℕ) (xs ys : List ℕ)
    → ((j : ℕ) → j < n → get_or xs (o + j) 0 ≡ get_or ys (p + j) 0)
    → le_at n o xs ≡ le_at n p ys
unfolding le_at
le_at-ext zero o p xs ys same = refl
le_at-ext (suc n) o p xs ys same =
    let here : get_or xs o 0 ≡ get_or ys p 0 =
      let e : o ≡ o + 0 = omega arith in
      let f : p ≡ p + 0 = omega arith in rw (e, f) (same 0 (omega arith)) in
    let tail = le_at-ext n (o + 1) (p + 1) xs ys λ j h.
      let e : o + 1 + j ≡ o + suc j = omega arith in
      let f : p + 1 + j ≡ p + suc j = omega arith in rw (e, f) (same (suc j) (omega arith)) in
    rw (here, tail) refl

-- A number is read back from its bytes.
pub le_at-to_le_bytes : (n v : ℕ) → v < 256 ^ n → le_at n 0 (to_le_bytes n v) ≡ v
unfolding le_at to_le_bytes
le_at-to_le_bytes zero v h = omega arith
le_at-to_le_bytes (suc n) v h =
    let tail : le_at n 1 (v % 256 ∷ to_le_bytes n (v / 256)) ≡ le_at n 0 (to_le_bytes n (v / 256)) =
      le_at-ext n 1 0 _ _ λ j k. shifted (v % 256) (to_le_bytes n (v / 256)) j in
    rw (tail, le_at-to_le_bytes n (v / 256) (omega (arith, pow-suc 256 n))) (omega arith)
  where
    shifted : (x : ℕ) (xs : List ℕ) (j : ℕ) → get_or (x ∷ xs) (1 + j) 0 ≡ get_or xs (0 + j) 0
    shifted x xs j =
        let e : 1 + j ≡ suc j = omega arith in let f : 0 + j ≡ j = omega arith in rw (e, f) refl
