-- ===== src/Syscall.antt =====
-- System calls, src/kernel/syscall.rs, and the trap handler of src/kernel/trap.rs.
use nek_os.Base.{
  ℕ, zero, suc, ◌+◌, ◌%◌, ◌^◌, min, Bool, Option, none, some, List, [], ◌∷◌, ◌==◌, if◌then◌else◌,
  and_then,
}
use nek_os.Base.Words.{add_usize, usize_max}
use nek_os.PageTable.{virt_to_phys}
use nek_os.Plic.{uart0_irq, disable, complete}
use nek_os.Trap.{
  TrapFrame, TrapCause, user_ecall, timer, external, instruction_page_fault, load_page_fault,
  store_page_fault, unknown, parse_cause,
}
use nek_os.Ipc.{Words, IpcResult, resume, error, panicked, blocked}
use nek_os.Initrd.{Entry}
use nek_os.Task.{Kernel, WaitResult, reaped, write_frame, current, position, sign_extend}
use nek_os.Task.Sched.{schedule, waitpid}
use nek_os.Task.Exit.{exit_current}
use nek_os.Task.Fork.{fork, sbrk}
use nek_os.Task.Message.{send, receive, reply}
use nek_os.Task.Buffer.{send_buf, receive_buf, reply_buf, read_byte}
use nek_os.Task.Uart.{wait_uart_irq, wake_uart}
use nek_os.Exec.{exec}
pub mod Settled
pub mod Traces

-- How a trap ends: in the frame at an address, by shutting the machine down, or in a panic.
pub data Outcome : Type 0 where
  return_to : ℕ → Outcome
  shut_down panic : Outcome

-- `tf.a0 = value`
abbrev pub set_a0 : ℕ → ℕ → Kernel → Kernel
set_a0 tf value k = record k {
  frames = write_frame k.frames tf (record (k.frames tf) { a0 = value });
}

abbrev pub or_max : Option ℕ → ℕ
or_max none = usize_max
or_max (some v) = v

-- `if result.is_ok() { 0 } else { usize::MAX }`
abbrev pub zero_or_max : Option (Unit {0}) → ℕ
zero_or_max none = usize_max
zero_or_max (some u) = 0

-- A call that may block.
abbrev pub finish_ipc : ℕ → IpcResult × Kernel → Outcome × Kernel
finish_ipc tf (resume, k) = (return_to tf, k)
finish_ipc tf (blocked next, k) = (return_to next, k)
finish_ipc tf (error, k) = (return_to tf, set_a0 tf usize_max k)
finish_ipc tf (panicked, k) = (panic, k)

-- A reply, whose success is 0.
abbrev pub finish_reply : ℕ → IpcResult × Kernel → Outcome × Kernel
finish_reply tf (resume, k) = (return_to tf, set_a0 tf 0 k)
finish_reply tf (blocked next, k) = (return_to tf, set_a0 tf 0 k)
finish_reply tf (error, k) = (return_to tf, set_a0 tf usize_max k)
finish_reply tf (panicked, k) = (panic, k)

abbrev pub finish_wait : ℕ → WaitResult × Kernel → Outcome × Kernel
finish_wait tf (reaped code, k) = (return_to tf, set_a0 tf (sign_extend code) k)
finish_wait tf (WaitResult.blocked next, k) = (return_to next, k)
finish_wait tf (WaitResult.error, k) = (return_to tf, set_a0 tf usize_max k)

-- `exit_current` of the module: with no task left the machine shuts down.
abbrev pub finish_exit : Option ℕ × Kernel → Outcome × Kernel
finish_exit (some next, k) = (return_to next, k)
finish_exit (none, k) = (shut_down, k)

abbrev pub finish_irq : ℕ → Option ℕ × Kernel → Outcome × Kernel
finish_irq tf (some next, k) = (return_to next, k)
finish_irq tf (none, k) = (return_to tf, set_a0 tf usize_max k)

-- The words of a message, in `a1` to `a4`.
abbrev pub words_of : TrapFrame → Words
words_of f = record { w0 = f.a1; w1 = f.a2; w2 = f.a3; w3 = f.a4 }

-- `translate_user`
unfoldable pub translate_user : ℕ → Kernel → Option ℕ
unfolding position
translate_user va k = and_then (current k) (λ t. (virt_to_phys t.pagetable va k.phys).0)

-- The bytes of a name in user memory, from byte `i` on.
unfoldable pub read_name : ℕ → ℕ → ℕ → Kernel → Option (List ℕ)
unfolding translate_user read_byte
read_name zero i va k = some []
read_name (suc n) i va k =
    let rest = read_name n (i + 1) va k in
    and_then (translate_user (add_usize va i) k)
      (λ pa. and_then rest (λ bytes. some (read_byte k.phys.mem pa ∷ bytes)))

-- `sys_getpid`: 0 where there is no current task.
unfoldable pub sys_getpid : Kernel → ℕ
unfolding position
sys_getpid k = elim (current k) [ none ↦ 0 | some t ↦ t.pid ]

module _ (is_utf8 : List ℕ → Bool) (files : List Entry) where
  -- `sys_exec`: at most 63 bytes of the name are read.
  unfoldable pub sys_exec : ℕ → ℕ → ℕ → Kernel → ℕ × Kernel
  unfolding read_name exec
  sys_exec va requested_len tf k = elim (read_name (min requested_len 63) 0 va k) [
    | none ↦ (usize_max, k)
    | some name ↦
        if is_utf8 name
        then (let (r, k') = exec files name tf k in (zero_or_max r, k'))
        else (usize_max, k)
  ]

  -- The `match` on the system call's number, after `sepc` has moved on; `f` is the frame at `tf`.
  unfoldable pub dispatch : ℕ → TrapFrame → ℕ → Kernel → Outcome × Kernel
  unfolding sys_exec sys_getpid schedule exit_current fork waitpid send receive reply wait_uart_irq
      sbrk send_buf receive_buf reply_buf
  dispatch number f tf k =
      if number == 2
      then finish_exit (exit_current (f.a0 % 2 ^ 32) k)
      else if number == 4
      then (let (next, k') = schedule tf (set_a0 tf 0 k) in (return_to next, k'))
      else if number == 5
      then (return_to tf, set_a0 tf (sys_getpid k) k)
      else if number == 6
      then (let (r, k') = fork tf k in (return_to tf, set_a0 tf (or_max r) k'))
      else if number == 7
      then (return_to tf, set_a0 tf 0 k)
      else if number == 8
      then (let (r, k') = sys_exec f.a0 f.a1 tf k in (return_to tf, set_a0 tf r k'))
      else if number == 9
      then finish_wait tf (waitpid (f.a0 % 2 ^ 32) tf k)
      else if number == 10
      then finish_ipc tf (send f.a0 (words_of f) tf k)
      else if number == 11
      then finish_ipc tf (receive f.a0 tf k)
      else if number == 12
      then (let (r, k') = reply (f.a0 % 2 ^ 32) (words_of f) k in
          (return_to tf, set_a0 tf (zero_or_max r) k'))
      else if number == 13
      then (if f.a0 == uart0_irq
          then finish_irq tf (wait_uart_irq tf k)
          else (return_to tf, set_a0 tf usize_max k))
      else if number == 14
      then (let (r, k') = sbrk f.a0 k in (return_to tf, set_a0 tf (or_max r) k'))
      else if number == 15
      then finish_ipc tf (send_buf f.a0 (words_of f) f.a5 f.a6 tf k)
      else if number == 16
      then finish_ipc tf (receive_buf f.a0 f.a1 f.a2 tf k)
      else if number == 17
      then finish_reply tf (reply_buf (f.a0 % 2 ^ 32) (words_of f) f.a5 f.a6 k)
      else if number == 18
      then (shut_down, k)
      else (panic, k)

  -- `handle`
  unfoldable pub handle : ℕ → Kernel → Outcome × Kernel
  unfolding dispatch
  handle tf k =
      let f : TrapFrame = record (k.frames tf) { sepc = add_usize (k.frames tf).sepc 4 } in
      dispatch f.a7 f tf (record k { frames = write_frame k.frames tf f })

  -- An external interrupt: `irq` is what the PLIC's claim register returned.
  unfoldable pub handle_external : ℕ → ℕ → Kernel → Outcome × Kernel
  unfolding disable complete wake_uart schedule
  handle_external irq tf k =
      let k1 =
        if irq == uart0_irq then (wake_uart (record k { plic = disable irq k.plic })).1 else k in
      let k2 : Kernel = if irq == 0 then k1 else record k1 { plic = complete irq k1.plic } in
      let (next, k') = schedule tf k2 in (return_to next, k')

  -- `trap_handler`, with the cause as parsed. The next timer interrupt is set by the machine.
  unfoldable pub on_trap : TrapCause → ℕ → ℕ → Kernel → Outcome × Kernel
  unfolding handle handle_external schedule
  on_trap user_ecall irq tf k = handle tf k
  on_trap timer irq tf k = let (next, k') = schedule tf k in (return_to next, k')
  on_trap external irq tf k = handle_external irq tf k
  on_trap instruction_page_fault irq tf k = (panic, k)
  on_trap load_page_fault irq tf k = (panic, k)
  on_trap store_page_fault irq tf k = (panic, k)
  on_trap (unknown cause) irq tf k = (panic, k)

  unfoldable pub trap_handler : ℕ → ℕ → ℕ → Kernel → Outcome × Kernel
  unfolding parse_cause on_trap
  trap_handler scause irq tf k = on_trap (parse_cause scause) irq tf k
