-- ===== src/Task/Uart.antt =====
-- The UART interrupt and its owner, src/kernel/task.rs: `grant_uart`, `wait_uart_irq`, `wake_uart`.
-- The static `TASK_MANAGER` is set.
use nek_os.Base.{
  ℕ, Bool, true, false, ◌||◌, ◌&&◌, Option, none, some, [], ◌∷◌, if◌then◌else◌, opt_eq, and_then,
  is_some, bit_or, not,
}
use nek_os.Page.{page_size}
use nek_os.PageTable.{set_flags, pte_r, pte_w, pte_u}
use nek_os.Trap.{TrapFrame}
use nek_os.Plic.{enable, uart0_irq}
use nek_os.Task.{
  Kernel, Table, WaitChannel, child, uart_rx, ipc_call, ipc_recv, position, task_at, write_frame,
  has_pid, current_index, idle_pid, is_sleeping, one_more,
}
use nek_os.Task.Sched.{schedule, sleep_at}
use nek_os.Task.Exit.{awaken}

unfoldable pub grant_uart : ℕ → Kernel → Option (Unit {0}) × Kernel
unfolding position set_flags
grant_uart pid k =
    if is_some k.uart_owner
    then (none, k)
    else elim (and_then (position (has_pid pid) k.tasks) (λ i. task_at i k.tasks)) [
      | none ↦ (none, k)
      | some t ↦
          let (r, s) =
            set_flags t.pagetable 0x1000_0000 page_size (bit_or (bit_or pte_r pte_w) pte_u)
              k.phys in
          elim r [
            | none ↦ (none, record k { phys = s })
            | some u ↦ (some tt, record k { phys = s; uart_owner = some pid })
          ]
    ]

-- The frame to go on with, if the caller may wait for the UART.
unfoldable pub wait_uart_irq : ℕ → Kernel → Option ℕ × Kernel
unfolding sleep_at schedule position enable
wait_uart_irq tf k =
    if opt_eq k.current_pid (some idle_pid) || not (opt_eq k.current_pid k.uart_owner)
    then (none, k)
    else elim (current_index k) [
      | none ↦ (none, k)
      | some i ↦
          let k1 = sleep_at i uart_rx tf k in
          let (next, k') = schedule tf (record k1 { plic = enable uart0_irq k1.plic }) in
          (some next, k')
    ]

abbrev pub waits_for_uart : Option WaitChannel → Bool
waits_for_uart (some uart_rx) = true
waits_for_uart (some (child p)) = false
waits_for_uart (some (ipc_call e)) = false
waits_for_uart (some (ipc_recv e)) = false
waits_for_uart none = false

-- What the loop of `wake_uart` changes: tasks, frames, the count, and whether it woke any.
pub record Woken : Type 0 where
  pub tasks : Table
  pub frames : ℕ → TrapFrame
  pub runnable_count : ℕ
  pub woke : Bool

unfoldable pub wake_all : Table → (ℕ → TrapFrame) → ℕ → Bool → Woken
wake_all [] frames n woke = record { tasks = []; frames = frames; runnable_count = n; woke = woke }
wake_all (none ∷ ts) frames n woke =
    let w = wake_all ts frames n woke in record w { tasks = none ∷ w.tasks }
wake_all (some t ∷ ts) frames n woke =
    let wakes = is_sleeping t.state && waits_for_uart t.waiting_for in
    let w =
      wake_all ts
        (if wakes
          then write_frame frames t.trap_frame (record (frames t.trap_frame) { a0 = 0 })
          else frames)
        (if wakes then one_more n else n) (if wakes then true else woke) in
    record w { tasks = some (if wakes then awaken t else t) ∷ w.tasks }

unfoldable pub wake_uart : Kernel → Bool × Kernel
unfolding wake_all
wake_uart k =
    let w = wake_all k.tasks k.frames k.runnable_count false in
    (w.woke, record k { tasks = w.tasks; frames = w.frames; runnable_count = w.runnable_count })
