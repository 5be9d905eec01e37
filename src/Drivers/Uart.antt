-- ===== src/Drivers/Uart.antt =====
-- The UART driver of the kernel, src/drivers/uart.rs. The device is a parameter: `D` is its state, and
-- its registers are read and written by their offsets.
use nek_os.Base.{
  ℕ, zero, suc, bit_and, Bool, none, some, List, [], ◌∷◌, ◌==◌, if◌then◌else◌, not, M, pure, ◌>>◌,
}

abbrev pub rbr : ℕ
rbr = 0

abbrev pub thr : ℕ
thr = 0

abbrev ier : ℕ
ier = 1

abbrev fcr : ℕ
fcr = 2

abbrev lcr : ℕ
lcr = 3

abbrev mcr : ℕ
mcr = 4

abbrev pub lsr : ℕ
lsr = 5

module _ {D : Type 0} (read_reg : ℕ → D → ℕ × D) (write_reg : ℕ → ℕ → D → D) where
  -- `Uart::init`
  unfoldable pub init : D → D
  init d =
      let d1 = write_reg fcr 0x01 (write_reg ier 0x00 d) in
      let d2 = write_reg 1 0x00 (write_reg 0 0x0c (write_reg lcr 0x80 d1)) in
      write_reg ier 0x01 (write_reg mcr 0x03 (write_reg lcr 0x03 d2))

  -- `Uart::putc`, with the number of times that it asks at most; `none` where it still waits then.
  unfoldable pub putc : ℕ → ℕ → M D (Unit {0})
  putc zero c d = (none, d)
  putc (suc polls) c d =
      let (status, d1) = read_reg lsr d in
      let rest = putc polls c d1 in
      if bit_and status 0x20 == 0 then rest else (some tt, write_reg thr c d1)

  -- `Uart::has_data`
  unfoldable pub has_data : D → Bool × D
  has_data d = let (status, d1) = read_reg lsr d in (not (bit_and status 0x01 == 0), d1)

  -- `Uart::getc`
  unfoldable pub getc : M D ℕ
  unfolding has_data
  getc d =
      let (ready, d1) = has_data d in
      if ready then (let (byte, d2) = read_reg rbr d1 in (some byte, d2)) else (none, d1)

  -- A byte of `puts`: a line feed goes out behind a carriage return.
  unfoldable pub put_byte : ℕ → ℕ → M D (Unit {0})
  unfolding putc
  put_byte polls c = if c == b'\n' then putc polls b'\r' >> putc polls c else putc polls c

  unfoldable pub puts : ℕ → List ℕ → M D (Unit {0})
  unfolding put_byte
  puts polls [] = pure tt
  puts polls (c ∷ s) = put_byte polls c >> puts polls s
