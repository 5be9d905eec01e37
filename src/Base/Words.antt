-- ===== src/Base/Words.antt =====
-- `usize` arithmetic of 64 bits.
use Prim.Native.Nat.{ℕ, ◌+◌, ◌-◌, ◌%◌, ◌^◌}

abbrev pub usize_max : ℕ
usize_max = 2 ^ 64 - 1

abbrev pub add_usize : ℕ → ℕ → ℕ
add_usize a b = (a + b) % 2 ^ 64

-- `!x`
abbrev pub not_usize : ℕ → ℕ
not_usize x = 2 ^ 64 - 1 - x
