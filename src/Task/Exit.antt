-- ===== src/Task/Exit.antt =====
-- `exit_current`, src/kernel/task.rs.
use nek_os.Base.{
  ℕ, ◌+◌, ◌-◌, ◌%◌, ◌^◌, Bool, ◌&&◌, Option, none, some, ◌==◌, if◌then◌else◌, opt_eq, map_option,
}
use nek_os.Task.{
  Task, Kernel, Table, WaitChannel, child, uart_rx, ipc_call, ipc_recv, ready, zombie, position,
  task_at, update_at, update_all, write_frame, has_pid, current, current_index, idle_pid,
  is_sleeping, one_more, sign_extend,
}
use nek_os.Task.Sched.{is_candidate, set_running}

abbrev pub waits_for_child : ℕ → Option WaitChannel → Bool
waits_for_child pid (some (child p)) = p == pid
waits_for_child pid (some uart_rx) = Bool.false
waits_for_child pid (some (ipc_call e)) = Bool.false
waits_for_child pid (some (ipc_recv e)) = Bool.false
waits_for_child pid none = Bool.false

-- The children of a task that exits become orphans.
abbrev pub orphan : ℕ → Task → Task
orphan pid t = if opt_eq t.parent_pid (some pid) then record t { parent_pid = none } else t

-- The task in slot `i` becomes a zombie.
unfoldable pub make_zombie : ℕ → ℕ → ℕ → Kernel → Kernel
make_zombie i pid code k = record k {
  tasks =
      update_all (orphan pid)
        (update_at i (λ u. record u { state = zombie; exit_code = code }) k.tasks);
  runnable_count = (k.runnable_count + (2 ^ 32 - 1)) % 2 ^ 32;
}

abbrev pub awaken : Task → Task
awaken t = record t { state = ready; waiting_for = none }

abbrev pub detach : Task → Task
detach t = record t { parent_pid = none }

-- The child that its parent has been told of has no parent any more.
unfoldable pub detach_child : ℕ → Table → Table
unfolding position
detach_child pid ts = elim (position (has_pid pid) ts) [
  | none ↦ ts
  | some i ↦ update_at i detach ts
]

-- A parent that waits for the task gets its exit code and becomes ready.
unfoldable pub wake_parent : ℕ → ℕ → ℕ → Kernel → Kernel
unfolding detach_child position
wake_parent child_pid parent_pid code k = elim (position (has_pid parent_pid) k.tasks) [
  | none ↦ k
  | some i ↦ elim (task_at i k.tasks) [
    | none ↦ k
    | some p ↦
        if is_sleeping p.state && waits_for_child child_pid p.waiting_for
        then record k {
          tasks = detach_child child_pid (update_at i awaken k.tasks);
          frames =
              write_frame k.frames p.trap_frame
                (record (k.frames p.trap_frame) { a0 = sign_extend code });
          runnable_count = one_more k.runnable_count;
        }
        else k
  ]
]

-- The task in slot `i` runs next.
unfoldable pub run_slot : ℕ → Kernel → Option ℕ × Kernel
run_slot i k = elim (task_at i k.tasks) [
  | none ↦ (none, k)
  | some t ↦ (
    some t.trap_frame,
    record k { tasks = update_at i set_running k.tasks; current_pid = some t.pid },
  )
]

-- The first ready task of the table runs next, or else the idle task.
unfoldable pub run_first : Kernel → Option ℕ × Kernel
unfolding run_slot position
run_first k = elim (position is_candidate k.tasks) [
  | some i ↦ run_slot i k
  | none ↦ elim (position (has_pid idle_pid) k.tasks) [ none ↦ (none, k) | some i ↦ run_slot i k ]
]

-- What becomes of the current task and of its parent.
unfoldable pub leave : ℕ → Kernel → Kernel
unfolding make_zombie wake_parent position
leave code k = elim (current_index k) [
  | none ↦ k
  | some i ↦ elim (task_at i k.tasks) [
    | none ↦ k
    | some t ↦
        let k1 = make_zombie i t.pid code k in
        elim t.parent_pid [ none ↦ k1 | some parent_pid ↦ wake_parent t.pid parent_pid code k1 ]
  ]
]

-- `exit_current`: the frame to return to, if any task is left. The idle task does not exit.
unfoldable pub exit_current : ℕ → Kernel → Option ℕ × Kernel
unfolding leave run_first position
exit_current code k =
    if opt_eq k.current_pid (some idle_pid)
    then (map_option (λ (t : Task). t.trap_frame) (current k), k)
    else run_first (record (leave code k) { current_pid = none })
