-- ===== src/User/Console.antt =====
-- The console server, user/programs/console/src/main.rs. The UART is a parameter: `D` is its state, with
-- the bytes read and written at a register's offset, and `irq_wait` the system call, which waits for
-- its interrupt.
use nek_os.Base.{ℕ, zero, suc, ◌%◌, bit_and, none, some, ◌==◌, if◌then◌else◌, M, pure, ◌>>=◌, ◌>>◌}
use nek_os.Base.Words.{usize_max}
use nek_os.Ipc.{Words}
use nek_os.User.Io.{console_write, console_read}

abbrev console_rbr : ℕ
console_rbr = 0

abbrev console_thr : ℕ
console_thr = 0

abbrev console_lsr : ℕ
console_lsr = 5

abbrev pub word : ℕ → Words
word a = record { w0 = a; w1 = 0; w2 = 0; w3 = 0 }

module _ {D : Type 0} (read_reg : ℕ → D → ℕ × D) (write_reg : ℕ → ℕ → D → D)
    (irq_wait : M D (Unit {0})) where
  -- `putc`, with the number of times that it asks at most; `none` where it still waits then.
  unfoldable pub console_putc : ℕ → ℕ → M D (Unit {0})
  console_putc zero byte d = (none, d)
  console_putc (suc polls) byte d =
      let (status, d1) = read_reg console_lsr d in
      let rest = console_putc polls byte d1 in
      if bit_and status 0x20 == 0 then rest else (some tt, write_reg console_thr byte d1)

  -- `getc`, with the number of times that it asks at most; `none` also where `irq_wait` fails.
  unfoldable pub console_getc : ℕ → M D ℕ
  console_getc zero d = (none, d)
  console_getc (suc polls) d =
      let (status, d1) = read_reg console_lsr d in
      let rest = console_getc polls in
      if bit_and status 0x01 == 0
      then (irq_wait >> rest) d1
      else (let (byte, d2) = read_reg console_rbr d1 in (some byte, d2))

  -- The answer to the words of a request: a turn of the loop of `main`.
  unfoldable pub serve_console : ℕ → Words → M D Words
  unfolding console_putc console_getc
  serve_console polls words =
      if words.w0 == console_write
      then (let byte = words.w1 % 256 in
          (if byte == b'\n' then console_putc polls b'\r' else pure tt)
          >> (console_putc polls byte >> pure (word 1)))
      else if words.w0 == console_read
      then (do byte ← console_getc polls; pure (word (if byte == b'\r' then b'\n' else byte)))
      else pure (word usize_max)
