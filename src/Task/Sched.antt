-- ===== src/Task/Sched.antt =====
-- The scheduler, src/kernel/task.rs: `schedule`, `enter_task` and `waitpid`.
use nek_os.Base.{
  ℕ, zero, suc, ◌+◌, ◌%◌, Bool, false, ◌&&◌, Option, none, some, ◌==◌, if◌then◌else◌, opt_eq, not,
  set,
}
use nek_os.Task.{
  Task, Kernel, Table, WaitResult, reaped, blocked, error, running, ready, sleeping, WaitChannel,
  child, position, task_at, update_at, write_frame, has_pid, current_index, idle_pid, max_tasks,
  is_ready, is_running, is_zombie, one_less,
}
use nek_os.Task.Space.{reap_detached_zombies, free_task}

-- `task.pid != IDLE_PID && task.state == Ready`
abbrev pub is_candidate : Task → Bool
is_candidate t = not (t.pid == idle_pid) && is_ready t.state

abbrev pub slot_holds : (Task → Bool) → Option Task → Bool
slot_holds p none = false
slot_holds p (some t) = p t

-- `for offset in offset..offset + n`
unfoldable pub find_ready : ℕ → ℕ → ℕ → Table → Option ℕ
find_ready zero offset start ts = none
find_ready (suc n) offset start ts =
    let index = (start + offset) % max_tasks in
    let rest = find_ready n (offset + 1) start ts in
    if slot_holds is_candidate (task_at index ts) then some index else rest

-- A running task becomes ready.
abbrev pub to_ready : Task → Task
to_ready t = if is_running t.state then record t { state = ready } else t

-- The frame of the interrupted task is saved at `trap_frame`.
unfoldable pub save_current : Option ℕ → ℕ → Kernel → Kernel
save_current none tf k = k
save_current (some i) tf k = elim (task_at i k.tasks) [
  | none ↦ k
  | some t ↦ record k {
    frames = write_frame k.frames t.trap_frame (k.frames tf);
    tasks = update_at i to_ready k.tasks;
  }
]

abbrev pub set_running : Task → Task
set_running t = record t { state = running }

-- The task in slot `i` becomes the current one; its frame is returned to.
unfoldable pub switch_to : ℕ → ℕ → Kernel → ℕ × Kernel
switch_to i tf k = elim (task_at i k.tasks) [
  | none ↦ (tf, k)
  | some t ↦
      (t.trap_frame, record k { tasks = update_at i set_running k.tasks; current_pid = some t.pid })
]

-- Where no task is ready, the idle task runs.
unfoldable pub switch_to_idle : ℕ → Kernel → ℕ × Kernel
unfolding switch_to
switch_to_idle tf k = elim (position (has_pid idle_pid) k.tasks) [
  | none ↦ (tf, k)
  | some i ↦ switch_to i tf k
]

abbrev pub start_of : Option ℕ → ℕ
start_of none = 0
start_of (some i) = (i + 1) % max_tasks

-- The second half of `schedule`, from the slot to start at.
unfoldable pub pick : ℕ → ℕ → Kernel → ℕ × Kernel
unfolding find_ready switch_to switch_to_idle
pick start tf k = elim (find_ready max_tasks 0 start k.tasks) [
  | none ↦ switch_to_idle tf k
  | some i ↦ switch_to i tf k
]

-- `schedule(tf)`; frames are addresses.
unfoldable pub schedule : ℕ → Kernel → ℕ × Kernel
unfolding reap_detached_zombies save_current pick position
schedule tf k0 =
    let k = reap_detached_zombies k0 in
    let index = current_index k in pick (start_of index) tf (save_current index tf k)

abbrev pub is_child : ℕ → ℕ → Task → Bool
is_child pid parent_pid t = t.pid == pid && opt_eq t.parent_pid (some parent_pid)

-- The task in slot `i` goes to sleep on `channel`, with the frame at `tf` saved.
unfoldable pub sleep_at : ℕ → WaitChannel → ℕ → Kernel → Kernel
sleep_at i channel tf k = elim (task_at i k.tasks) [
  | none ↦ k
  | some t ↦ record k {
    frames = write_frame k.frames t.trap_frame (k.frames tf);
    tasks = update_at i (λ u. record u { state = sleeping; waiting_for = some channel }) k.tasks;
    runnable_count = one_less k.runnable_count;
  }
]

-- A zombie child is taken out of the table and freed.
unfoldable pub reap_child : ℕ → Task → Kernel → WaitResult × Kernel
unfolding free_task
reap_child i t k =
    (reaped t.exit_code, record k { tasks = set k.tasks i none; phys = free_task t k.phys })

-- The parent blocks until the child exits.
unfoldable pub block_on_child : ℕ → ℕ → Kernel → WaitResult × Kernel
unfolding sleep_at schedule
block_on_child pid tf k = elim (current_index k) [
  | none ↦ (error, k)
  | some i ↦ let (next, k') = schedule tf (sleep_at i (child pid) tf k) in (blocked next, k')
]

unfoldable pub waitpid : ℕ → ℕ → Kernel → WaitResult × Kernel
unfolding reap_child block_on_child position
waitpid pid tf k = if opt_eq k.current_pid (some idle_pid) then (error, k) else elim k.current_pid [
  | none ↦ (error, k)
  | some parent_pid ↦ elim (position (is_child pid parent_pid) k.tasks) [
    | none ↦ (error, k)
    | some i ↦ elim (task_at i k.tasks) [
      | none ↦ (error, k)
      | some t ↦ if is_zombie t.state then reap_child i t k else block_on_child pid tf k
    ]
  ]
]

-- `enter_task`: the state that the first task starts in. The registers are set by the assembly.
unfoldable pub enter_task : ℕ → Kernel → Option Task × Kernel
unfolding position
enter_task pid k = elim (position (has_pid pid) k.tasks) [
  | none ↦ (none, k)
  | some i ↦ (
    task_at i k.tasks,
    record k { tasks = update_at i set_running k.tasks; current_pid = some pid },
  )
]
