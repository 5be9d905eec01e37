-- ===== src/User/Ipc.antt =====
-- The calls of user/userlib/src/ipc.rs: the registers that each wrapper has at its `ecall`, and what it
-- makes of them when the kernel returns. `none` is `Err(())`; a buffer is an address and a length.
use nek_os.Base.{ℕ, ◌%◌, ◌^◌, Option, none, some, ◌==◌, if◌then◌else◌}
use nek_os.Base.Words.{usize_max}
use nek_os.Trap.{TrapFrame}
use nek_os.Ipc.{Words}

-- The words that `call` and `call_buf` return.
abbrev first_words : TrapFrame → Words
first_words f = record { w0 = f.a0; w1 = f.a1; w2 = f.a2; w3 = f.a3 }

-- The words that `recv` and `recv_buf` return.
abbrev next_words : TrapFrame → Words
next_words f = record { w0 = f.a1; w1 = f.a2; w2 = f.a3; w3 = f.a4 }

-- The client or the endpoint in `a0`, with the words behind it.
abbrev with_words : ℕ → Words → TrapFrame → TrapFrame
with_words a0 words f = record f {
  a0 = a0;
  a1 = words.w0;
  a2 = words.w1;
  a3 = words.w2;
  a4 = words.w3;
}

unfoldable pub call_registers : ℕ → Words → TrapFrame → TrapFrame
call_registers endpoint words f = record (with_words endpoint words f) { a7 = 10 }

unfoldable pub call_result : TrapFrame → Option Words
call_result f = if f.a0 == usize_max then none else some (first_words f)

unfoldable pub recv_registers : ℕ → TrapFrame → TrapFrame
recv_registers endpoint f = record f { a0 = endpoint; a7 = 11 }

unfoldable pub recv_result : TrapFrame → Option (ℕ × Words)
recv_result f = if f.a0 == usize_max then none else some (f.a0 % 2 ^ 32, next_words f)

unfoldable pub reply_registers : ℕ → Words → TrapFrame → TrapFrame
reply_registers client words f = record (with_words client words f) { a7 = 12 }

unfoldable pub reply_result : TrapFrame → Option (Unit {0})
reply_result f = if f.a0 == 0 then some tt else none

unfoldable pub recv_buf_registers : ℕ → ℕ → ℕ → TrapFrame → TrapFrame
recv_buf_registers endpoint buf len f = record f { a0 = endpoint; a1 = buf; a2 = len; a7 = 16 }

unfoldable pub recv_buf_result : TrapFrame → Option (ℕ × Words × ℕ)
recv_buf_result f = if f.a0 == usize_max then none else some (f.a0 % 2 ^ 32, next_words f, f.a5)

unfoldable pub call_buf_registers : ℕ → Words → ℕ → ℕ → TrapFrame → TrapFrame
call_buf_registers endpoint words buf len f = record (with_words endpoint words f) {
  a5 = buf;
  a6 = len;
  a7 = 15;
}

unfoldable pub call_buf_result : TrapFrame → Option Words
call_buf_result f = if f.a0 == usize_max then none else some (first_words f)

unfoldable pub reply_buf_registers : ℕ → Words → ℕ → ℕ → TrapFrame → TrapFrame
reply_buf_registers client words buf len f = record (with_words client words f) {
  a5 = buf;
  a6 = len;
  a7 = 17;
}

unfoldable pub reply_buf_result : TrapFrame → Option (Unit {0})
reply_buf_result f = if f.a0 == 0 then some tt else none
