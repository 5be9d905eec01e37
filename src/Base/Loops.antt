-- ===== src/Base/Loops.antt =====
-- Counted loops that leave early, and the monad of operations that change a state and may fail.
use Prim.Native.Nat.{ℕ, zero, suc, ◌+◌}
use mathlib.Core.Option.{Option, none, some}
use mathlib.Core.Path.{◌≡◌, refl}

-- An operation on the state `S` that answers `none` for Rust's `None` or `Err(())`; what it did to
-- the state before it failed stays.
abbrev pub M : Type 0 → Type 0 → Type 0
M S A = S → Option A × S

abbrev pub pure : {S A : Type 0} → A → M S A
pure a s = (some a, s)

abbrev pub fail : {S A : Type 0} → M S A
fail s = (none, s)

abbrev after : {S A B : Type 0} → Option A × S → (A → M S B) → Option B × S
after (none, s) f = (none, s)
after (some a, s) f = f a s

infixl 5 ◌>>=◌ ◌>>◌
abbrev pub ◌>>=◌ : {S A B : Type 0} → M S A → (A → M S B) → M S B
◌>>=◌ m f s = after (m s) f

abbrev pub ◌>>◌ : {S B : Type 0} → M S (Unit {0}) → M S B → M S B
m >> k = m >>= λ _. k

-- `for i in start..start + n { body(i)?; }`
unfoldable pub each : {S : Type 0} → ℕ → ℕ → (ℕ → M S (Unit {0})) → M S (Unit {0})
each zero i body = pure tt
each (suc n) i body = body i >> each n (i + 1) body

after-some :
    {S A B : Type 0} (r : Option A × S) (f : A → M S B) {b : B} {t : S}
    → after r f ≡ (some b, t)
    → (a : A) × (u : S) × (r ≡ (some a, u)) × (f a u ≡ (some b, t))
after-some (none, s) f e = cc
after-some (some a, s) f e = (a, s, refl, e)

-- A sequence succeeds only if its parts do.
pub >>=-some :
    {S A B : Type 0} (m : M S A) (f : A → M S B) (s : S) {b : B} {t : S}
    → (m >>= f) s ≡ (some b, t)
    → (a : A) × (u : S) × (m s ≡ (some a, u)) × (f a u ≡ (some b, t))
>>=-some m f s e = after-some (m s) f e
