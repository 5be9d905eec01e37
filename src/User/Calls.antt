-- ===== src/User/Calls.antt =====
-- The calls of user/userlib/src/syscall.rs: the registers that each wrapper has at its `ecall`, and what
-- it makes of them when the kernel returns. An `isize` is its bit pattern, as is an `i32`.
use nek_os.Base.{ℕ, ◌%◌, ◌^◌, Option, none, some, ◌==◌, if◌then◌else◌}
use nek_os.Base.Words.{usize_max}
use nek_os.Trap.{TrapFrame}
use nek_os.Ipc.{Words}
use nek_os.Task.{sign_extend}

-- `pub const ERROR: isize = -1`
abbrev pub error_code : ℕ
error_code = usize_max

-- A result in `a0`, where `usize::MAX` is an error.
abbrev checked_result : TrapFrame → Option ℕ
checked_result f = if f.a0 == usize_max then none else some f.a0

unfoldable pub exit_registers : ℕ → TrapFrame → TrapFrame
exit_registers code f = record f { a0 = sign_extend code; a7 = 2 }

unfoldable pub yield_now_registers : TrapFrame → TrapFrame
yield_now_registers f = record f { a7 = 4 }

unfoldable pub getpid_registers : TrapFrame → TrapFrame
getpid_registers f = record f { a0 = 0; a7 = 5 }

unfoldable pub getpid_result : TrapFrame → ℕ
getpid_result f = f.a0 % 2 ^ 32

unfoldable pub fork_registers : TrapFrame → TrapFrame
fork_registers f = record f { a0 = 0; a7 = 6 }

unfoldable pub fork_result : TrapFrame → ℕ
fork_result f = f.a0

unfoldable pub ps_registers : TrapFrame → TrapFrame
ps_registers f = record f { a0 = 0; a7 = 7 }

-- The name is an address and a length.
unfoldable pub exec_registers : ℕ → ℕ → TrapFrame → TrapFrame
exec_registers name len f = record f { a0 = name; a1 = len; a7 = 8 }

unfoldable pub exec_result : TrapFrame → ℕ
exec_result f = f.a0

unfoldable pub waitpid_registers : ℕ → TrapFrame → TrapFrame
waitpid_registers pid f = record f { a0 = pid; a7 = 9 }

unfoldable pub waitpid_result : TrapFrame → ℕ
waitpid_result f = f.a0

unfoldable pub irq_wait_registers : ℕ → TrapFrame → TrapFrame
irq_wait_registers irq f = record f { a0 = irq; a7 = 13 }

unfoldable pub irq_wait_result : TrapFrame → Option (Unit {0})
irq_wait_result f = if f.a0 == usize_max then none else some tt

unfoldable pub sbrk_registers : ℕ → TrapFrame → TrapFrame
sbrk_registers increment f = record f { a0 = increment; a7 = 14 }

unfoldable pub sbrk_result : TrapFrame → Option ℕ
sbrk_result f = checked_result f

unfoldable pub ipc_call_buf_registers : ℕ → Words → ℕ → ℕ → TrapFrame → TrapFrame
ipc_call_buf_registers endpoint words buf buf_len f = record f {
  a0 = endpoint;
  a1 = words.w0;
  a2 = words.w1;
  a3 = words.w2;
  a4 = words.w3;
  a5 = buf;
  a6 = buf_len;
  a7 = 15;
}

unfoldable pub ipc_call_buf_result : TrapFrame → ℕ
ipc_call_buf_result f = f.a0

unfoldable pub ipc_recv_buf_registers : ℕ → ℕ → ℕ → TrapFrame → TrapFrame
ipc_recv_buf_registers endpoint buf capacity f = record f {
  a0 = endpoint;
  a1 = buf;
  a2 = capacity;
  a7 = 16;
}

-- The status and the length of the bytes received.
unfoldable pub ipc_recv_buf_result : TrapFrame → ℕ × ℕ
ipc_recv_buf_result f = (f.a0, f.a5)
