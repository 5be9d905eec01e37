-- ===== src/Plic/Mask.antt =====
-- Masking of interrupts in src/drivers/plic.rs.
use nek_os.Base.{
  ℕ, ◌+◌, ◌-◌, ◌/◌, ◌%◌, ◌^◌, ◌<◌, bit_and, bit_or, ◌≡◌, refl, ◌≢◌, arith, ==_refl, ◌==◌, false,
}
use native.Mathlib.Nat.{pow-le-pow_right}
use native.Mathlib.Decide.{ℕ_discrete}
use nek_os.Base.Bits.{bit, bit-le-one, bit-bit_or, bit-bit_and, bit-pow_self, bit-pow_ne}
use nek_os.Base.Bits.Masks.{bit-complement}
use nek_os.Plic.{enable, disable, enable_register, irq_bit, write32}

-- 1 if interrupt `irq` is enabled.
pub enabled : (ℕ → ℕ) → ℕ → ℕ
enabled regs irq = bit (regs (enable_register irq)) (irq % 32)

irq_bit_small : (irq : ℕ) → irq_bit irq < 2 ^ 32
irq_bit_small irq =
    omega (arith, pow-le-pow_right {n = 2} (omega arith) {i = irq % 32} {j = 31} (omega arith))

-- A change of one bit of the enable register of `irq` leaves the other interrupts alone.
other_irq :
    (regs : ℕ → ℕ) (irq other v : ℕ)
    → irq ≢ other
    → ((j : ℕ) → j < 32 → irq % 32 ≢ j → bit v j ≡ bit (regs (enable_register irq)) j)
    → enabled (write32 (enable_register irq) v regs) other ≡ enabled regs other
unfolding enabled
other_irq regs irq other v ne keep = elim (ℕ_discrete (irq / 32) (other / 32)) [
  | yes e ↦
      let same : enable_register irq ≡ enable_register other = omega arith in
      rw (← same, ==_refl (enable_register irq))
        (keep (other % 32) (omega arith) (λ (q : irq % 32 ≡ other % 32). ne (omega arith)))
  | no n ↦
      let apart : (enable_register irq == enable_register other) ≡ false = ground arith in
      rw apart refl
]

-- `enable` enables its interrupt, `disable` disables it, and neither changes any other interrupt.
pub enable-disable_lem :
    (regs : ℕ → ℕ) (irq other : ℕ)
    → irq ≢ other
    → (enabled (enable irq regs) irq ≡ 1)
      × (enabled (disable irq regs) irq ≡ 0)
      × (enabled (enable irq regs) other ≡ enabled regs other)
      × (enabled (disable irq regs) other ≡ enabled regs other)
unfolding enable disable
enable-disable_lem regs irq other ne = (on, off, on_other, off_other)
  where
    r : ℕ
    r = regs (enable_register irq)

    i : ℕ
    i = irq % 32

    negated : (j : ℕ) → j < 32 → bit (2 ^ 32 - 1 - irq_bit irq) j + bit (irq_bit irq) j ≡ 1
    negated j l = bit-complement j 32 (irq_bit irq) (irq_bit_small irq) l

    on : enabled (write32 (enable_register irq) (bit_or r (irq_bit irq)) regs) irq ≡ 1
    on =
        unfold enabled in
        rw (==_refl (enable_register irq))
          (omega (arith, bit-bit_or r (irq_bit irq) i, bit-pow_self i, bit-le-one r i))

    off :
        enabled (write32 (enable_register irq) (bit_and r (2 ^ 32 - 1 - irq_bit irq)) regs) irq ≡ 0
    off =
        unfold enabled in
        rw (==_refl (enable_register irq)) (
          omega (
            arith,
            bit-bit_and r (2 ^ 32 - 1 - irq_bit irq) i,
            bit-pow_self i,
            negated i (omega arith),
          ))

    on_other :
        enabled (write32 (enable_register irq) (bit_or r (irq_bit irq)) regs) other
        ≡ enabled regs other
    on_other =
        other_irq regs irq other _ ne
          (λ j l q. omega (arith, bit-bit_or r (irq_bit irq) j, bit-pow_ne i j q))

    off_other :
        enabled (write32 (enable_register irq) (bit_and r (2 ^ 32 - 1 - irq_bit irq)) regs) other
        ≡ enabled regs other
    off_other = other_irq regs irq other _ ne (λ j l q. omega (
      arith,
      bit-bit_and r (2 ^ 32 - 1 - irq_bit irq) j,
      bit-pow_ne i j q,
      negated j l,
      bit-le-one r j,
    ))
