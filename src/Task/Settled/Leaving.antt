-- ===== src/Task/Settled/Leaving.antt =====
-- `waitpid`, `exit_current` and `wait_uart_irq` of src/kernel/task.rs keep the invariant of every trap.
use nek_os.Base.{
  ℕ, Bool, true, false, ◌||◌, ◌&&◌, not, Option, some, opt_eq, ◌≡◌, refl, sym, ◌≢◌, inl, inr, arith,
  Bool-cases, Option-cases, subst, ==_iff,
}
use nek_os.Plic.{enable, uart0_irq}
use nek_os.Task.{
  Task, Kernel, TaskState, child, uart_rx, running, sleeping, zombie, position, task_at, update_at,
  idle_pid, has_pid, is_sleeping, is_zombie,
}
use nek_os.Task.Sched.{sleep_at, waitpid, reap_child, block_on_child, is_child, is_candidate}
use nek_os.Task.Exit.{
  orphan, make_zombie, awaken, detach, detach_child, wake_parent, run_slot, run_first, leave,
  exit_current, waits_for_child,
}
use nek_os.Task.Uart.{wait_uart_irq}
use nek_os.Task.Table.{position-Found}
use nek_os.Task.Runnable.{IsSound, IsConsistent, IsAwake, idle_awake}
use nek_os.Task.Sound.{candidate-ready}
use nek_os.Task.Everyone.{orphan-keeps}
use nek_os.Task.Keep.{current_task}
use nek_os.Task.Waitpid.{reap_child-IsSound}
use nek_os.Task.Leave.{idle_hart, leave-IsConsistent, current_index-found, exit_current-IsSound}
use nek_os.Task.Quiet.{
  IsReceiving, Quiet, Quiet-trans, same-Quiet, update-Quiet, all-Quiet, not_receiving,
}
use nek_os.Task.Calm.{reap_child-Quiet, run-Quiet}
use nek_os.Task.Settled.{
  IsSettled, same-IsSteady, schedule-IsSettled, sleep_at-IsSteady, Quiet-IsSettled,
}

block_on_child-IsSettled :
    (pid tf : ℕ) (k : Kernel)
    → k.current_pid ≢ some idle_pid
    → IsSettled k
    → IsSettled (block_on_child pid tf k).1
unfolding block_on_child
block_on_child-IsSettled pid tf k busy v =
    let (i, q) = current_index-found k v.sound in
    rw (q, block_on_child)
      (schedule-IsSettled tf (sleep_at i (child pid) tf k)
        (sleep_at-IsSteady k i tf (child pid) v busy q))

not_idle : (o : Option ℕ) (b : Bool) → (opt_eq o (some idle_pid) || b) ≡ false → o ≢ some idle_pid
not_idle o b h q = ground arith

not_idle_alone : (o : Option ℕ) → opt_eq o (some idle_pid) ≡ false → o ≢ some idle_pid
not_idle_alone o h q = ground arith

dead : (s : TaskState) → is_zombie s ≡ true → s ≡ zombie
dead s h = ground arith

pub waitpid-IsSettled : (pid tf : ℕ) (k : Kernel) → IsSettled k → IsSettled (waitpid pid tf k).1
unfolding waitpid
waitpid-IsSettled pid tf k v = elim (Bool-cases (opt_eq k.current_pid (some idle_pid))) [
  | inl h ↦ rw (h, waitpid) v
  | inr h ↦ elim (Option-cases k.current_pid) [
    | inl c ↦ rw (h, waitpid, c) v
    | inr (parent, c) ↦ elim (Option-cases (position (is_child pid parent) k.tasks)) [
      | inl q ↦ rw (h, waitpid, c, q) v
      | inr (i, q) ↦ elim (Option-cases (task_at i k.tasks)) [
        | inl p ↦ rw (h, waitpid, c, q, p) v
        | inr (t, p) ↦ elim (Bool-cases (is_zombie t.state)) [
          | inl z ↦
              rw (h, waitpid, c, q, p, z)
                (Quiet-IsSettled k (reap_child i t k).1 (reap_child-Quiet i t k p (dead t.state z))
                  (reap_child-IsSound i t k p (dead t.state z) v.sound) v)
          | inr z ↦
              rw (h, waitpid, c, q, p, z)
                (block_on_child-IsSettled pid tf k (not_idle_alone k.current_pid h) v)
        ]
      ]
    ]
  ]
]

pub wait_uart_irq-IsSettled : (tf : ℕ) (k : Kernel) → IsSettled k → IsSettled (wait_uart_irq tf k).1
unfolding wait_uart_irq
wait_uart_irq-IsSettled tf k v =
    elim (Bool-cases
      (opt_eq k.current_pid (some idle_pid) || not (opt_eq k.current_pid k.uart_owner))) [
        | inl h ↦ rw (h, wait_uart_irq) v
        | inr h ↦
            let (i, q) = current_index-found k v.sound in
            let k1 = sleep_at i uart_rx tf k in
            let k2 : Kernel = record k1 { plic = enable uart0_irq k1.plic } in
            rw (h, wait_uart_irq, q)
              (schedule-IsSettled tf k2 (
                same-IsSteady k1 k2 refl refl refl refl refl
                  (sleep_at-IsSteady k i tf uart_rx v (not_idle k.current_pid _ h) q)))
      ]

orphan-waits : (pid : ℕ) (t : Task) → (orphan pid t).waiting_for ≡ t.waiting_for
orphan-waits pid t = ground arith

-- A task that runs, and then does not, receives at no time.
make_zombie-Quiet :
    (i pid code : ℕ) (t : Task) (k : Kernel)
    → task_at i k.tasks ≡ some t
    → t.state ≡ running
    → Quiet k (make_zombie i pid code k)
unfolding make_zombie
make_zombie-Quiet i pid code t k p r =
    let gone : Task → Task = λ u. record u { state = zombie; exit_code = code } in
    let k1 : Kernel = record k { tasks = update_at i gone k.tasks } in
    Quiet-trans k k1 _
      (update-Quiet k k1 i gone (λ u. refl)
        (λ e u q s. absurd (not_receiving i e k.tasks t u p (awake r) q s)) refl refl refl)
      (all-Quiet k1 _ (orphan pid) (orphan-keeps pid) (orphan-waits pid) refl refl refl)
  where
    awake : t.state ≡ running → t.state ≢ sleeping
    awake a b = cc

detach_child-Quiet :
    (pid : ℕ) (k k' : Kernel)
    → k'.tasks ≡ detach_child pid k.tasks
    → k'.endpoints ≡ k.endpoints
    → k'.next_pid ≡ k.next_pid
    → Quiet k k'
unfolding detach_child
detach_child-Quiet pid k k' a b c = elim (Option-cases (position (has_pid pid) k.tasks)) [
  | inl q ↦ same-Quiet k k' (rw (q, detach_child) at a) b c
  | inr (i, q) ↦
      update-Quiet k k' i detach (λ u. refl) (λ e u p r. r) (rw (q, detach_child) at a) b c
]

waiting_child-not_receiving :
    (pid : ℕ) (t : Task)
    → (is_sleeping t.state && waits_for_child pid t.waiting_for) ≡ true
    → (e : ℕ) → IsReceiving e t
    → ⊥
waiting_child-not_receiving pid t h e (s, w) = cc (rw (s, w) at h)

wake_parent-Quiet :
    (child_pid parent_pid code : ℕ) (k : Kernel) → Quiet k (wake_parent child_pid parent_pid code k)
unfolding wake_parent
wake_parent-Quiet child_pid parent_pid code k =
    elim (Option-cases (position (has_pid parent_pid) k.tasks)) [
      | inl q ↦ rw (q, wake_parent) (same-Quiet k k refl refl refl)
      | inr (i, q) ↦ elim (Option-cases (task_at i k.tasks)) [
        | inl p ↦ rw (q, wake_parent, p) (same-Quiet k k refl refl refl)
        | inr (t, p) ↦
            elim (Bool-cases (is_sleeping t.state && waits_for_child child_pid t.waiting_for)) [
              | inr h ↦ rw (q, wake_parent, p, h) (same-Quiet k k refl refl refl)
              | inl h ↦
                  let k1 : Kernel = record k { tasks = update_at i awaken k.tasks } in
                  rw (q, wake_parent, p, h)
                    (Quiet-trans k k1 _
                      (update-Quiet k k1 i awaken (λ u. refl)
                        (λ e u a r.
                          (let tu : t ≡ u = cc in
                            absurd (
                              waiting_child-not_receiving child_pid t h e
                                (subst (IsReceiving e) (sym tu) r))))
                        refl refl refl)
                      (detach_child-Quiet child_pid k1 _ refl refl refl))
            ]
      ]
    ]

leave-Quiet : (code : ℕ) (k : Kernel) → IsSound k → Quiet k (leave code k)
unfolding leave
leave-Quiet code k v =
    let (i, q) = current_index-found k v in
    let (t, p, d, r) = current_task k i v q in
    let made = make_zombie-Quiet i t.pid code t k p r in
    elim (Option-cases t.parent_pid) [
      | inl e ↦ rw (q, leave, p, e) made
      | inr (parent, e) ↦
          rw (q, leave, p, e)
            (Quiet-trans k (make_zombie i t.pid code k) _ made
              (wake_parent-Quiet t.pid parent code (make_zombie i t.pid code k)))
    ]

run_slot-Quiet :
    (i : ℕ) (t : Task) (k : Kernel)
    → task_at i k.tasks ≡ some t
    → IsAwake t.state
    → Quiet k (run_slot i k).1
unfolding run_slot
run_slot-Quiet i t k p w = rw (p, run_slot) (run-Quiet k _ i t p w refl refl refl)

run_first-Quiet : (k : Kernel) → IsConsistent (idle_hart k) → Quiet k (run_first k).1
unfolding run_first
run_first-Quiet k v = elim (Option-cases (position is_candidate k.tasks)) [
  | inr (i, q) ↦
      let f = position-Found is_candidate k.tasks i q in
      rw (q, run_first) (run_slot-Quiet i f.task k f.here (inl (candidate-ready f.task f.holds)))
  | inl q ↦ elim (Option-cases (position (has_pid idle_pid) k.tasks)) [
    | inr (i, p) ↦
        let f = position-Found (has_pid idle_pid) k.tasks i p in
        rw (q, run_first, p)
          (run_slot-Quiet i f.task k f.here
            (idle_awake k.tasks i f.task v.table f.here ((==_iff f.task.pid idle_pid).0 f.holds)))
    | inl p ↦ rw (q, run_first, p) (same-Quiet k k refl refl refl)
  ]
]

pub exit_current-IsSettled :
    (code : ℕ) (k : Kernel) → IsSettled k → IsSettled (exit_current code k).1
exit_current-IsSettled code k v =
    Quiet-IsSettled k (exit_current code k).1 quiet (exit_current-IsSound code k v.sound).0 v
  where
    quiet : Quiet k (exit_current code k).1
    quiet = elim (Bool-cases (opt_eq k.current_pid (some idle_pid))) [
      | inl h ↦ unfold exit_current in rw h (same-Quiet k k refl refl refl)
      | inr h ↦
          let k1 : Kernel = idle_hart (leave code k) in
          unfold exit_current in
          rw h (
            Quiet-trans k k1 _
              (Quiet-trans k (leave code k) k1 (leave-Quiet code k v.sound)
                (same-Quiet (leave code k) k1 refl refl refl))
              (run_first-Quiet k1
                (leave-IsConsistent code k v.sound (not_idle_alone k.current_pid h))))
    ]
