-- ===== src/Task/Leave.antt =====
-- `exit_current` of src/kernel/task.rs keeps the invariant of the task manager.
use nek_os.Base.{
  ℕ, ◌+◌, ◌-◌, ◌%◌, ◌^◌, Bool, true, false, ◌&&◌, Option, none, some, ◌≡◌, refl, sym, ap, ◌∙◌, ◌≢◌,
  ◌⊎◌, inl, inr, arith, Bool-cases, Option-cases, opt_eq, map_option, and_then,
}
use nek_os.Task.{
  Task, Kernel, TaskState, running, ready, sleeping, zombie, position, task_at, update_at, idle_pid,
  has_pid, current, current_index, is_sleeping, one_more,
}
use nek_os.Task.Sched.{is_candidate, set_running, slot_holds}
use nek_os.Task.Exit.{
  orphan, make_zombie, awaken, detach, detach_child, wake_parent, run_slot, run_first, leave,
  exit_current, waits_for_child,
}
use nek_os.Task.Table.{
  runnable, count_runnable-le, count_runnable-update_at, position-Found, position-none,
  task_at-update_at,
}
use nek_os.Task.Runnable.{IsConsistent, IsSound, idle_awake}
use nek_os.Task.Sound.{update-IsConsistent, NoneRunning, set_running-runnable, candidate-ready}
use nek_os.Task.Keep.{current_task, awaken-IsConsistent}
use nek_os.Task.Everyone.{alike, same-IsConsistent, all-IsConsistent, orphan-keeps}

-- A machine without a current task.
abbrev pub idle_hart : Kernel → Kernel
idle_hart k = record k { current_pid = none }

zombie-runnable :
    (t : Task) (code : ℕ)
    → t.state ≡ running
    → t.pid ≢ idle_pid
    → (runnable t ≡ 1) × (runnable (record t { state = zombie; exit_code = code }) ≡ 0)
unfolding runnable
zombie-runnable t code r z = ground arith

-- The current task becomes a zombie; `runnable_count -= 1` does not underflow.
make_zombie-IsConsistent :
    (k : Kernel) (i code : ℕ) (t : Task)
    → IsSound k
    → k.current_pid ≢ some idle_pid
    → current_index k ≡ some i
    → task_at i k.tasks ≡ some t
    → IsConsistent (idle_hart (make_zombie i t.pid code k))
unfolding make_zombie
make_zombie-IsConsistent k i code t v busy e p0 =
    let (u, p, d, r0) = current_task k i v e in
    let tu : u ≡ t = cc in
    let r : t.state ≡ running = rw (← tu) r0 in
    let z : t.pid ≢ idle_pid = λ q. busy (d ∙ ap (λ (x : Task). some x.pid) tu ∙ ap some q) in
    let dead : Task → Task = λ x. record x { state = zombie; exit_code = code } in
    let (one, none_left) = zombie-runnable t code r z in
    let count = count_runnable-update_at i dead k.tasks t p0 in
    let small = count_runnable-le k.tasks in
    let k1 : Kernel = record (idle_hart k) {
      tasks = update_at i dead k.tasks;
      runnable_count = (k.runnable_count + (2 ^ 32 - 1)) % 2 ^ 32;
    } in
    all-IsConsistent k1 _ (orphan t.pid)
      (update-IsConsistent k k1 i dead t v.consistent p0 (λ x. refl) (λ q. absurd (z q)) refl
        (omega
          (arith, v.consistent.counted, one, none_left, count, small, v.consistent.table.slots))
        (λ q. cc) (λ j w ne q s. absurd (alone j w ne q s)))
      (orphan-keeps t.pid) refl refl refl
  where
    alone : (j : ℕ) (w : Task) → i ≢ j → task_at j k.tasks ≡ some w → w.state ≡ running → ⊥
    alone j w ne q s =
        let (u, p, d, r0) = current_task k i v e in
        let same : u.pid ≡ w.pid = cc (v.consistent.only_current j w q s) in
        ne (v.consistent.table.distinct i j u w p q same)

detach_child-IsConsistent :
    (k k' : Kernel) (pid : ℕ)
    → IsConsistent k
    → k'.tasks ≡ detach_child pid k.tasks
    → k'.current_pid ≡ k.current_pid
    → k'.runnable_count ≡ k.runnable_count
    → IsConsistent k'
unfolding detach_child
detach_child-IsConsistent k k' pid v a b c = elim (Option-cases (position (has_pid pid) k.tasks)) [
  | inl q ↦ same-IsConsistent k k' (rw (q, detach_child) at a) b c v
  | inr (i, q) ↦
      let f = position-Found (has_pid pid) k.tasks i q in
      update-IsConsistent k k' i detach f.task v f.here (λ u. refl)
        (λ z. idle_awake k.tasks i f.task v.table f.here z) (rw (q, detach_child) at a)
        (ap (λ (n : ℕ). n + runnable f.task) c
          ∙ ap (λ (n : ℕ). k.runnable_count + n) (sym (alike f.task (detach f.task) refl refl)))
        (λ r. b ∙ v.only_current i f.task f.here r) (λ j u ne p r. b ∙ v.only_current j u p r)
]

-- A parent is woken at most once, and the child it is told of has no parent then.
wake_parent-IsConsistent :
    (child_pid parent_pid code : ℕ) (k : Kernel)
    → IsConsistent (idle_hart k)
    → IsConsistent (idle_hart (wake_parent child_pid parent_pid code k))
unfolding wake_parent
wake_parent-IsConsistent child_pid parent_pid code k v =
    elim (Option-cases (position (has_pid parent_pid) k.tasks)) [
      | inl q ↦ rw (q, wake_parent) v
      | inr (i, q) ↦ elim (Option-cases (task_at i k.tasks)) [
        | inl p ↦ rw (q, wake_parent, p) v
        | inr (t, p) ↦
            elim (Bool-cases (is_sleeping t.state && waits_for_child child_pid t.waiting_for)) [
              | inr h ↦ rw (q, wake_parent, p, h) v
              | inl h ↦
                  let k1 : Kernel = record (idle_hart k) {
                    tasks = update_at i awaken k.tasks;
                    runnable_count = one_more k.runnable_count;
                  } in
                  rw (q, wake_parent, p, h)
                    (detach_child-IsConsistent k1 _ child_pid
                      (awaken-IsConsistent (idle_hart k) k1 i t v p (asleep t.state _ h) refl refl
                        refl)
                      refl refl refl)
            ]
      ]
    ]
  where
    asleep : (s : TaskState) (b : Bool) → (is_sleeping s && b) ≡ true → s ≡ sleeping
    asleep s b h = ground arith

-- Without a current task none runs.
none_runs : (k : Kernel) → IsConsistent (idle_hart k) → NoneRunning k
none_runs k v i t p r = cc (v.only_current i t p r)

run_slot-IsSound :
    (i : ℕ) (t : Task) (k : Kernel)
    → IsConsistent (idle_hart k)
    → task_at i k.tasks ≡ some t
    → (t.state ≡ ready) ⊎ (t.pid ≡ idle_pid)
    → IsSound (run_slot i k).1 × ((run_slot i k).0 ≡ some t.trap_frame)
unfolding run_slot
run_slot-IsSound i t k v p h =
    let k' : Kernel = record k {
      tasks = update_at i set_running k.tasks;
      current_pid = some t.pid;
    } in
    let c : IsConsistent k' =
      update-IsConsistent (idle_hart k) k' i set_running t v p (λ u. refl) (λ z. inr refl) refl
        (omega (arith, set_running-runnable t h)) (λ q. refl)
        (λ j u ne q r. absurd (none_runs k v j u q r)) in
    rw (p, run_slot)
      (
        record {
          consistent = c;
          current_runs = (
            i,
            set_running t,
            ground (arith, task_at-update_at i i set_running k.tasks),
            refl,
            refl,
          );
        },
        refl,
      )

-- A task is left to run: the idle task at the least.
run_first-IsSound :
    (k : Kernel)
    → IsConsistent (idle_hart k)
    → IsSound (run_first k).1 × ((frame : ℕ) × ((run_first k).0 ≡ some frame))
unfolding run_first
run_first-IsSound k v = elim (Option-cases (position is_candidate k.tasks)) [
  | inr (i, q) ↦
      let f = position-Found is_candidate k.tasks i q in
      let (s, o) = run_slot-IsSound i f.task k v f.here (inl (candidate-ready f.task f.holds)) in
      rw (q, run_first) (s, (f.task.trap_frame, o))
  | inl q ↦ elim (Option-cases (position (has_pid idle_pid) k.tasks)) [
    | inr (i, p) ↦
        let f = position-Found (has_pid idle_pid) k.tasks i p in
        let (s, o) = run_slot-IsSound i f.task k v f.here (inr (pid_is f.task f.holds)) in
        rw (q, run_first, p) (s, (f.task.trap_frame, o))
    | inl p ↦ absurd (
        let (i, t, e, z, w) = v.table.idle in
        missing t z (
          ap (slot_holds (has_pid idle_pid)) (sym e)
          ∙ position-none (has_pid idle_pid) k.tasks i p))
  ]
]
  where
    pid_is : (t : Task) → has_pid idle_pid t ≡ true → t.pid ≡ idle_pid
    pid_is t h = ground arith

    missing : (t : Task) → t.pid ≡ idle_pid → has_pid idle_pid t ≡ false → ⊥
    missing t z h = ground arith

-- The slot of the current task is found.
pub current_index-found : (k : Kernel) → IsSound k → (i : ℕ) × (current_index k ≡ some i)
current_index-found k v = elim (Option-cases (current_index k)) [
  | inr found ↦ found
  | inl q ↦
      let (i, t, p, c, r) = v.current_runs in
      let h = position-none (has_pid t.pid) k.tasks i (rw c at q) in
      absurd (mismatch t (ap (slot_holds (has_pid t.pid)) (sym p) ∙ h))
]
  where
    mismatch : (t : Task) → has_pid t.pid t ≡ false → ⊥
    mismatch t h = ground arith

current-current_index :
    (k : Kernel) → current k ≡ and_then (current_index k) (λ i. task_at i k.tasks)
current-current_index k = elim (Option-cases k.current_pid) [
  | inl q ↦ rw q refl
  | inr (pid, q) ↦ rw q refl
]

pub leave-IsConsistent :
    (code : ℕ) (k : Kernel)
    → IsSound k
    → k.current_pid ≢ some idle_pid
    → IsConsistent (idle_hart (leave code k))
unfolding leave
leave-IsConsistent code k v busy =
    let (i, q) = current_index-found k v in
    let (t, p, d, r) = current_task k i v q in
    let made = make_zombie-IsConsistent k i code t v busy q p in
    elim (Option-cases t.parent_pid) [
      | inl e ↦ rw (q, leave, p, e) made
      | inr (parent, e) ↦
          rw (q, leave, p, e)
            (wake_parent-IsConsistent t.pid parent code (make_zombie i t.pid code k) made)
    ]

-- `exit_current` keeps the invariant of the task manager, whatever the exit code is, and it always has
-- a frame to return to: `runnable_count` counts the zombie and a woken parent right, and another task
-- runs, the idle task if no other is ready. The idle task itself goes on.
pub exit_current-IsSound :
    (code : ℕ) (k : Kernel)
    → IsSound k
    → IsSound (exit_current code k).1 × ((frame : ℕ) × ((exit_current code k).0 ≡ some frame))
unfolding exit_current
exit_current-IsSound code k v = elim (Bool-cases (opt_eq k.current_pid (some idle_pid))) [
  | inl h ↦ rw (h, exit_current) (v, stays)
  | inr h ↦
      rw (h, exit_current)
        (run_first-IsSound (idle_hart (leave code k))
          (leave-IsConsistent code k v (busy k.current_pid h)))
]
  where
    busy : (o : Option ℕ) → opt_eq o (some idle_pid) ≡ false → o ≢ some idle_pid
    busy o h q = ground arith

    stays : (frame : ℕ) × (map_option (λ (t : Task). t.trap_frame) (current k) ≡ some frame)
    stays =
        let (i, q) = current_index-found k v in
        let (t, p, d, r) = current_task k i v q in
        (
          t.trap_frame,
          ap (map_option (λ (x : Task). x.trap_frame)) (
              current-current_index k
              ∙ ap (λ (o : Option ℕ). and_then o (λ j. task_at j k.tasks)) q
              ∙ p),
        )
