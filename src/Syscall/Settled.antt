-- ===== src/Syscall/Settled.antt =====
-- Every trap, src/kernel/trap.rs and src/kernel/syscall.rs, keeps the invariant of the task manager and
-- its endpoints, and the calls and interrupts that the kernel knows end in a frame.
use nek_os.Base.{
  ℕ, ◌+◌, ◌<◌, ◌%◌, ◌^◌, Bool, true, false, ◌||◌, Option, none, some, List, ◌==◌, if◌then◌else◌,
  min, ◌≡◌, refl, ◌≢◌, inl, inr, Bool-cases, Option-cases,
}
use nek_os.Base.Words.{add_usize, usize_max}
use nek_os.Plic.{uart0_irq, disable, complete}
use nek_os.Trap.{
  TrapFrame, TrapCause, user_ecall, timer, external, instruction_page_fault, load_page_fault,
  store_page_fault, unknown, parse_cause,
}
use nek_os.Ipc.{IpcResult, resume, error, panicked, blocked}
use nek_os.Initrd.{Entry}
use nek_os.Task.{Kernel, WaitResult, reaped, write_frame, idle_pid}
use nek_os.Task.Sched.{schedule}
use nek_os.Task.Exit.{exit_current}
use nek_os.Task.Fork.{fork, sbrk}
use nek_os.Task.Message.{reply}
use nek_os.Task.Uart.{wait_uart_irq, wake_uart}
use nek_os.Task.Leave.{exit_current-IsSound}
use nek_os.Task.Settled.{
  IsSettled, EndsSettled, settled-IsSteady, same-IsSettled, schedule-IsSettled,
}
use nek_os.Task.Settled.Messages.{send-IsSettled, receive-IsSettled}
use nek_os.Task.Settled.Reply.{reply-IsSettled, reply_buf-IsSettled}
use nek_os.Task.Settled.Buffers.{send_buf-IsSettled, receive_buf-IsSettled}
use nek_os.Task.Settled.Leaving.{waitpid-IsSettled, wait_uart_irq-IsSettled, exit_current-IsSettled}
use nek_os.Task.Settled.Waking.{wake_uart-IsSettled}
use nek_os.Task.Settled.Creation.{sbrk-IsSettled, exec-IsSettled}
use nek_os.Task.Settled.Forking.{fork-IsSettled}
use nek_os.Syscall.{
  Outcome, return_to, shut_down, panic, set_a0, finish_ipc, finish_reply, finish_wait, finish_exit,
  finish_irq, sys_exec, dispatch, handle, handle_external, on_trap, trap_handler, words_of,
  read_name,
}

-- The numbers of the system calls that return to a task, all but the one that shuts down.
pub is_call : ℕ → Bool
is_call n =
    n == 2
    || (n == 4
        || (n == 5
            || (n == 6
                || (n == 7
                    || (n == 8
                        || (n == 9
                            || (n == 10
                                || (n == 11
                                    || (n == 12
                                        || (n == 13
                                            || (n == 14
                                                || (n == 15 || (n == 16 || n == 17)))))))))))))

abbrev pub Returns : Outcome → Type 0
Returns o = (frame : ℕ) × (o ≡ return_to frame)

abbrev EndsWell : Outcome × Kernel → Type 0
EndsWell r = IsSettled r.1 × Returns r.0

set_a0-IsSettled : (tf value : ℕ) (k : Kernel) → IsSettled k → IsSettled (set_a0 tf value k)
set_a0-IsSettled tf value k v = same-IsSettled k _ refl refl refl refl refl v

finish_ipc-EndsWell : (tf : ℕ) (r : IpcResult × Kernel) → EndsSettled r → EndsWell (finish_ipc tf r)
finish_ipc-EndsWell tf (resume, k) (v, h) = (v, (tf, refl))
finish_ipc-EndsWell tf (blocked next, k) (v, h) = (v, (next, refl))
finish_ipc-EndsWell tf (error, k) (v, h) = (set_a0-IsSettled tf _ k v, (tf, refl))
finish_ipc-EndsWell tf (panicked, k) (v, h) = absurd (h refl)

finish_reply-EndsWell :
    (tf : ℕ) (r : IpcResult × Kernel) → EndsSettled r → EndsWell (finish_reply tf r)
finish_reply-EndsWell tf (resume, k) (v, h) = (set_a0-IsSettled tf _ k v, (tf, refl))
finish_reply-EndsWell tf (blocked next, k) (v, h) = (set_a0-IsSettled tf _ k v, (tf, refl))
finish_reply-EndsWell tf (error, k) (v, h) = (set_a0-IsSettled tf _ k v, (tf, refl))
finish_reply-EndsWell tf (panicked, k) (v, h) = absurd (h refl)

finish_wait-EndsWell :
    (tf : ℕ) (r : WaitResult × Kernel) → IsSettled r.1 → EndsWell (finish_wait tf r)
finish_wait-EndsWell tf (reaped code, k) v = (set_a0-IsSettled tf _ k v, (tf, refl))
finish_wait-EndsWell tf (WaitResult.blocked next, k) v = (v, (next, refl))
finish_wait-EndsWell tf (WaitResult.error, k) v = (set_a0-IsSettled tf _ k v, (tf, refl))

finish_irq-EndsWell : (tf : ℕ) (r : Option ℕ × Kernel) → IsSettled r.1 → EndsWell (finish_irq tf r)
finish_irq-EndsWell tf (some next, k) v = (v, (next, refl))
finish_irq-EndsWell tf (none, k) v = (set_a0-IsSettled tf _ k v, (tf, refl))

finish_exit-EndsWell :
    (r : Option ℕ × Kernel)
    → IsSettled r.1
    → (frame : ℕ) × (r.0 ≡ some frame)
    → EndsWell (finish_exit r)
finish_exit-EndsWell (some next, k) v h = (v, (next, refl))
finish_exit-EndsWell (none, k) v (frame, h) = cc

scheduled-EndsWell :
    (tf : ℕ) (k : Kernel) → IsSettled k → EndsWell (return_to (schedule tf k).0, (schedule tf k).1)
scheduled-EndsWell tf k v = (schedule-IsSettled tf k (settled-IsSteady k v), (_, refl))

-- A call ends well; any other number keeps the invariant.
abbrev Ends : ℕ → Outcome × Kernel → Type 0
Ends number r = IsSettled r.1 × (is_call number ≡ true → Returns r.0)

call : (number : ℕ) (r : Outcome × Kernel) → EndsWell r → Ends number r
call number r (v, h) = (v, λ c. h)

by_test :
    (number : ℕ) (b : Bool) (x y : Outcome × Kernel)
    → (b ≡ true → Ends number x)
    → (b ≡ false → Ends number y)
    → Ends number (if b then x else y)
by_test number true x y f g = f refl
by_test number false x y f g = g refl

-- The traps that the kernel has an answer to: system calls with a number that it knows, the timer and
-- the devices.
abbrev pub Answers : TrapCause → ℕ → Type 0
Answers user_ecall number = is_call number ≡ true
Answers timer number = Unit
Answers external number = Unit
Answers instruction_page_fault number = ⊥
Answers load_page_fault number = ⊥
Answers store_page_fault number = ⊥
Answers (unknown cause) number = ⊥

woken-IsSettled :
    (irq : ℕ) (k : Kernel)
    → IsSettled k
    → IsSettled
        (if irq == uart0_irq then (wake_uart (record k { plic = disable irq k.plic })).1 else k)
woken-IsSettled irq k v = elim (Bool-cases (irq == uart0_irq)) [
  | inl h ↦ rw h (
      wake_uart-IsSettled (record k { plic = disable irq k.plic })
        (same-IsSettled k _ refl refl refl refl refl v))
  | inr h ↦ rw h v
]

completed-IsSettled :
    (irq : ℕ) (k : Kernel)
    → IsSettled k
    → IsSettled (if irq == 0 then k else record k { plic = complete irq k.plic })
completed-IsSettled irq k v = elim (Bool-cases (irq == 0)) [
  | inl h ↦ rw h v
  | inr h ↦ rw h (same-IsSettled k _ refl refl refl refl refl v)
]

module _ (is_utf8 : List ℕ → Bool) (files : List Entry) where
  sys_exec-IsSettled :
      (va requested_len tf : ℕ) (k : Kernel)
      → IsSettled k
      → IsSettled (sys_exec is_utf8 files va requested_len tf k).1
  unfolding sys_exec
  sys_exec-IsSettled va requested_len tf k v =
      elim (Option-cases (read_name (min requested_len 63) 0 va k)) [
        | inl q ↦ rw (q, sys_exec) v
        | inr (name, q) ↦ elim (Bool-cases (is_utf8 name)) [
          | inl h ↦ rw (q, sys_exec, h) (exec-IsSettled files name tf k v)
          | inr h ↦ rw (q, sys_exec, h) v
        ]
      ]

  irq_wait-EndsWell :
      (irq tf : ℕ) (k : Kernel)
      → IsSettled k
      → EndsWell (
          if irq == uart0_irq
          then finish_irq tf (wait_uart_irq tf k)
          else (return_to tf, set_a0 tf usize_max k))
  irq_wait-EndsWell irq tf k v = elim (Bool-cases (irq == uart0_irq)) [
    | inl h ↦ rw h (finish_irq-EndsWell tf (wait_uart_irq tf k) (wait_uart_irq-IsSettled tf k v))
    | inr h ↦ rw h (set_a0-IsSettled tf _ k v, (tf, refl))
  ]

  dispatch-Ends :
      (number : ℕ) (f : TrapFrame) (tf : ℕ) (k : Kernel)
      → k.current_pid ≢ some idle_pid
      → k.next_pid + 1 < 2 ^ 32
      → IsSettled k
      → Ends number (dispatch is_utf8 files number f tf k)
  unfolding dispatch is_call
  dispatch-Ends n f tf k busy small v =
      by_test n (n == 2) _ _
        (λ h. call n _ (
          finish_exit-EndsWell (exit_current (f.a0 % 2 ^ 32) k) (exit_current-IsSettled _ k v)
            (exit_current-IsSound (f.a0 % 2 ^ 32) k v.sound).1))
        (λ h2.
          by_test n (n == 4) _ _
            (λ h. call n _ (scheduled-EndsWell tf (set_a0 tf 0 k) (set_a0-IsSettled tf 0 k v)))
            (λ h4.
              by_test n (n == 5) _ _ (λ h. call n _ (sets _ k v))
                (λ h5.
                  by_test n (n == 6) _ _
                    (λ h. call n _ (sets _ (fork tf k).1 (fork-IsSettled tf k small v)))
                    (λ h6.
                      by_test n (n == 7) _ _ (λ h. call n _ (sets _ k v))
                        (λ h7.
                          by_test n (n == 8) _ _
                            (λ h. call n _ (
                              sets _ (sys_exec is_utf8 files f.a0 f.a1 tf k).1
                                (sys_exec-IsSettled f.a0 f.a1 tf k v)))
                            (λ h8.
                              by_test n (n == 9) _ _
                                (λ h.
                                  call n _ (finish_wait-EndsWell tf _ (waitpid-IsSettled _ tf k v)))
                                (λ h9.
                                  by_test n (n == 10) _ _
                                    (λ h. call n _ (
                                      finish_ipc-EndsWell tf _ (send-IsSettled f.a0 _ tf k busy v)))
                                    (λ h10.
                                      by_test n (n == 11) _ _
                                        (λ h. call n _ (
                                          finish_ipc-EndsWell tf _
                                            (receive-IsSettled f.a0 tf k busy v)))
                                        (λ h11.
                                          by_test n (n == 12) _ _
                                            (λ h. call n _ (
                                              sets _ (reply (f.a0 % 2 ^ 32) (words_of f) k).1
                                                (reply-IsSettled _ _ k v)))
                                            (λ h12.
                                              by_test n (n == 13) _ _
                                                (λ h. call n _ (irq_wait-EndsWell f.a0 tf k v))
                                                (λ h13.
                                                  by_test n (n == 14) _ _
                                                    (λ h. call n _ (
                                                      sets _ (sbrk f.a0 k).1
                                                        (sbrk-IsSettled f.a0 k v)))
                                                    (λ h14.
                                                      by_test n (n == 15) _ _
                                                        (λ h. call n _ (
                                                          finish_ipc-EndsWell tf _ (
                                                            send_buf-IsSettled f.a0 _ f.a5 f.a6 tf k
                                                            busy v)))
                                                        (λ h15.
                                                          by_test n (n == 16) _ _
                                                            (λ h. call n _ (
                                                            finish_ipc-EndsWell tf _ (
                                                            receive_buf-IsSettled f.a0 f.a1 f.a2 tf
                                                            k busy v)))
                                                            (λ h16.
                                                            by_test n (n == 17) _ _
                                                            (λ h. call n _ (
                                                            finish_reply-EndsWell tf _ (
                                                            reply_buf-IsSettled _ _ f.a5 f.a6 k v)))
                                                            (λ h17.
                                                            by_test n (n == 18) (shut_down, k)
                                                            (panic, k)
                                                            (λ h. (
                                                            v,
                                                            λ c. cc (
                                                            rw
                                                            (
                                                            h2, h4, h5, h6, h7, h8, h9, h10, h11,
                                                            h12, h13, h14, h15, h16, h17,
                                                            )
                                                            at c),
                                                            ))
                                                            (λ h. (
                                                            v,
                                                            λ c. cc (
                                                            rw
                                                            (
                                                            h2, h4, h5, h6, h7, h8, h9, h10, h11,
                                                            h12, h13, h14, h15, h16, h17,
                                                            )
                                                            at c),
                                                            )))))))))))))))))
    where
      sets : (value : ℕ) (k' : Kernel) → IsSettled k' → EndsWell (return_to tf, set_a0 tf value k')
      sets value k' w = (set_a0-IsSettled tf value k' w, (tf, refl))

  handle-Ends :
      (tf : ℕ) (k : Kernel)
      → k.current_pid ≢ some idle_pid
      → k.next_pid + 1 < 2 ^ 32
      → IsSettled k
      → Ends (k.frames tf).a7 (handle is_utf8 files tf k)
  unfolding handle
  handle-Ends tf k busy small v =
      let f : TrapFrame = record (k.frames tf) { sepc = add_usize (k.frames tf).sepc 4 } in
      dispatch-Ends f.a7 f tf (record k { frames = write_frame k.frames tf f }) busy small
        (same-IsSettled k _ refl refl refl refl refl v)

  handle_external-EndsWell :
      (irq tf : ℕ) (k : Kernel) → IsSettled k → EndsWell (handle_external is_utf8 files irq tf k)
  unfolding handle_external
  handle_external-EndsWell irq tf k v =
      scheduled-EndsWell tf _ (completed-IsSettled irq _ (woken-IsSettled irq k v))

  on_trap-IsSettled :
      (cause : TrapCause) (irq tf : ℕ) (k : Kernel)
      → (cause ≡ user_ecall → k.current_pid ≢ some idle_pid)
      → k.next_pid + 1 < 2 ^ 32
      → IsSettled k
      → IsSettled (on_trap is_utf8 files cause irq tf k).1
        × (Answers cause (k.frames tf).a7 → Returns (on_trap is_utf8 files cause irq tf k).0)
  unfolding on_trap
  on_trap-IsSettled user_ecall irq tf k busy small v = handle-Ends tf k (busy refl) small v
  on_trap-IsSettled timer irq tf k busy small v =
      let (w, r) = scheduled-EndsWell tf k v in (w, λ a. r)
  on_trap-IsSettled external irq tf k busy small v =
      let (w, r) = handle_external-EndsWell irq tf k v in (w, λ a. r)
  on_trap-IsSettled instruction_page_fault irq tf k busy small v = (v, λ a. absurd a)
  on_trap-IsSettled load_page_fault irq tf k busy small v = (v, λ a. absurd a)
  on_trap-IsSettled store_page_fault irq tf k busy small v = (v, λ a. absurd a)
  on_trap-IsSettled (unknown cause) irq tf k busy small v = (v, λ a. absurd a)

  -- Every trap, whatever its cause, the interrupt and the registers are, keeps the invariant, where no
  -- system call comes from the idle task and pids are left: pids are distinct and below the next one,
  -- runnable_count is right, the current task is the one that runs, the idle task is awake, and each
  -- receiver that an endpoint says is waiting sleeps in ipc_recv at this endpoint. A system call from
  -- 2 to 17 other than 3, a timer interrupt and a device's interrupt end in a frame to return to,
  -- neither in a panic nor in a shutdown.
  pub trap_handler-IsSettled :
      (scause irq tf : ℕ) (k : Kernel)
      → (parse_cause scause ≡ user_ecall → k.current_pid ≢ some idle_pid)
      → k.next_pid + 1 < 2 ^ 32
      → IsSettled k
      → IsSettled (trap_handler is_utf8 files scause irq tf k).1
        × (Answers (parse_cause scause) (k.frames tf).a7
            → Returns (trap_handler is_utf8 files scause irq tf k).0)
  unfolding trap_handler
  trap_handler-IsSettled scause irq tf k busy small v =
      on_trap-IsSettled (parse_cause scause) irq tf k busy small v
