-- ===== src/Plic.antt =====
-- The interrupt controller's registers, src/drivers/plic.rs, as a function from addresses to 32-bit
-- values. What a read of the claim register returns is the device's.
use nek_os.Base.{ℕ, ◌+◌, ◌-◌, ◌*◌, ◌/◌, ◌%◌, ◌^◌, bit_and, bit_or, ◌==◌, if◌then◌else◌}
pub mod Mask

abbrev pub plic_base : ℕ
plic_base = 0x0c00_0000

abbrev pub senable_base : ℕ
senable_base = plic_base + 0x2080

abbrev pub scontext_base : ℕ
scontext_base = plic_base + 0x20_1000

abbrev pub uart0_irq : ℕ
uart0_irq = 10

abbrev pub write32 : ℕ → ℕ → (ℕ → ℕ) → ℕ → ℕ
write32 address value regs a = if address == a then value else regs a

-- The enable register of an interrupt, and its bit in it.
abbrev pub enable_register : ℕ → ℕ
enable_register irq = senable_base + irq / 32 * 4

abbrev pub irq_bit : ℕ → ℕ
irq_bit irq = 2 ^ (irq % 32)

unfoldable pub init : (ℕ → ℕ) → ℕ → ℕ
init regs =
    write32 scontext_base 0 (write32 senable_base 0 (write32 (plic_base + uart0_irq * 4) 1 regs))

unfoldable pub enable : ℕ → (ℕ → ℕ) → ℕ → ℕ
enable irq regs =
    write32 (enable_register irq) (bit_or (regs (enable_register irq)) (irq_bit irq)) regs

-- `!bit` on a `u32`
unfoldable pub disable : ℕ → (ℕ → ℕ) → ℕ → ℕ
disable irq regs =
    write32 (enable_register irq) (bit_and (regs (enable_register irq)) (2 ^ 32 - 1 - irq_bit irq))
      regs

unfoldable pub complete : ℕ → (ℕ → ℕ) → ℕ → ℕ
complete irq regs = write32 (scontext_base + 4) irq regs
