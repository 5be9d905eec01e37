-- ===== src/Task/Calm.antt =====
-- The scheduler of src/kernel/task.rs, and the operations that put the current task to sleep or wake
-- tasks that do not receive, are quiet steps.
use nek_os.Base.{
  ℕ, false, Option, none, some, ◌≡◌, refl, sym, ap, ◌∙◌, ◌≢◌, inl, inr, arith, Option-cases,
}
use native.Mathlib.Decide.{ℕ_discrete}
use nek_os.Task.{
  Task, Kernel, TaskState, WaitChannel, zombie, sleeping, running, task_at, update_at,
  current_index,
}
use nek_os.Task.Space.{reap_detached_zombies, is_detached}
use nek_os.Task.Sched.{
  to_ready, set_running, is_candidate, slot_holds, save_current, start_of, pick, schedule, sleep_at,
  reap_child,
}
use nek_os.Task.Runnable.{
  IsAwake, IsTable, IsConsistent, IsSound, task_at-reap, idle_awake,
  reap_detached_zombies-IsConsistent,
}
use nek_os.Task.RoundRobin.{Switched, pick_lem}
use nek_os.Task.Sound.{candidate-ready, save_current-IsConsistent}
use nek_os.Task.Keep.{current_task}
use nek_os.Task.Waitpid.{task_at-set-none}
use nek_os.Task.Quiet.{IsReceiving, Quiet, Quiet-trans, same-Quiet, update-Quiet, not_receiving}

receiving-attached : (c : Option ℕ) (e : ℕ) (t : Task) → IsReceiving e t → is_detached c t ≡ false
receiving-attached c e t (s, w) = rw s refl

pub reap-Quiet : (k : Kernel) → Quiet k (reap_detached_zombies k)
unfolding reap_detached_zombies
reap-Quiet k =
    let c = k.current_pid in
    record {
      pids = λ x u e. (u, ground (arith, task_at-reap c k.tasks k.phys x), refl);
      sleep_on = λ e i t n p r.
          (t, task_at-reap c k.tasks k.phys i ∙ rw (p, receiving-attached c e t r) refl, refl, r);
      endpoints = refl;
      next_pid = refl;
    }

to_ready-IsReceiving : (e : ℕ) (t : Task) → IsReceiving e t → IsReceiving e (to_ready t)
to_ready-IsReceiving e t (s, w) = ground arith

save_current-Quiet : (o : Option ℕ) (tf : ℕ) (k : Kernel) → Quiet k (save_current o tf k)
unfolding save_current
save_current-Quiet none tf k = same-Quiet k k refl refl refl
save_current-Quiet (some i) tf k = elim (Option-cases (task_at i k.tasks)) [
  | inl p ↦ rw (p, save_current) (same-Quiet k k refl refl refl)
  | inr (t, p) ↦
      rw (p, save_current)
        (update-Quiet k _ i to_ready (λ u. ground arith) (λ e u q r. to_ready-IsReceiving e u r)
          refl refl refl)
]

awake-not_sleeping : (s : TaskState) → IsAwake s → s ≢ sleeping
awake-not_sleeping s (inl e) q = cc
awake-not_sleeping s (inr e) q = cc

-- An awake task is made to run.
pub run-Quiet :
    (k k' : Kernel) (i : ℕ) (t : Task)
    → task_at i k.tasks ≡ some t
    → IsAwake t.state
    → k'.tasks ≡ update_at i set_running k.tasks
    → k'.endpoints ≡ k.endpoints
    → k'.next_pid ≡ k.next_pid
    → Quiet k k'
run-Quiet k k' i t p w a b c =
    update-Quiet k k' i set_running (λ u. refl)
      (λ e u q r. absurd (not_receiving i e k.tasks t u p (awake-not_sleeping t.state w) q r)) a b c

Switched-Quiet :
    (k : Kernel) (r : ℕ × Kernel) (i : ℕ) (t : Task)
    → IsAwake t.state
    → Switched i t k r
    → Quiet k r.1
Switched-Quiet k r i t w s = rw s.machine (run-Quiet k _ i t s.was w refl refl refl)

pick-Quiet : (start tf : ℕ) (k : Kernel) → IsTable k.tasks → Quiet k (pick start tf k).1
pick-Quiet start tf k v = elim (pick_lem start tf k) [
  | inl (i, t, m, s) ↦
      Switched-Quiet k (pick start tf k) i t
        (inl (candidate-ready t (ap (slot_holds is_candidate) (sym s.was) ∙ m.candidate))) s
  | inr (inl (i, t, busy, z, s)) ↦
      Switched-Quiet k (pick start tf k) i t (idle_awake k.tasks i t v s.was z) s
  | inr (inr (busy, missing, same)) ↦
      same-Quiet k (pick start tf k).1 (ap (λ (r : ℕ × Kernel). r.1.tasks) same)
        (ap (λ (r : ℕ × Kernel). r.1.endpoints) same) (ap (λ (r : ℕ × Kernel). r.1.next_pid) same)
]

pub schedule-Quiet : (tf : ℕ) (k : Kernel) → IsConsistent k → Quiet k (schedule tf k).1
unfolding schedule
schedule-Quiet tf k v =
    let k1 = reap_detached_zombies k in
    let k2 = save_current (current_index k1) tf k1 in
    let (c, quiet) =
      save_current-IsConsistent k1 tf (current_index k1) refl
        (reap_detached_zombies-IsConsistent k v) in
    Quiet-trans k k1 _ (reap-Quiet k) (
      Quiet-trans k1 k2 _ (save_current-Quiet (current_index k1) tf k1)
        (pick-Quiet (start_of (current_index k1)) tf k2 c.table))

running-not_sleeping : (t : Task) → t.state ≡ running → t.state ≢ sleeping
running-not_sleeping t r s = cc

-- The current task goes to sleep.
pub sleep_at-Quiet :
    (k : Kernel) (i tf : ℕ) (c : WaitChannel)
    → IsSound k
    → current_index k ≡ some i
    → Quiet k (sleep_at i c tf k)
unfolding sleep_at
sleep_at-Quiet k i tf c v e =
    let (t, p, d, r) = current_task k i v e in
    rw (p, sleep_at)
      (update-Quiet k _ i (λ u. record u { state = sleeping; waiting_for = some c }) (λ u. refl)
        (λ x u q s. absurd (not_receiving i x k.tasks t u p (running-not_sleeping t r) q s)) refl
        refl refl)

-- A zombie leaves the table.
pub reap_child-Quiet :
    (i : ℕ) (t : Task) (k : Kernel)
    → task_at i k.tasks ≡ some t
    → t.state ≡ zombie
    → Quiet k (reap_child i t k).1
unfolding reap_child
reap_child-Quiet i t k p z = record {
  pids = λ x u e. (u, ground (arith, task_at-set-none i x k.tasks), refl);
  sleep_on = λ e j u n q r. elim (ℕ_discrete i j) [
    | no ne ↦ (u, ground (arith, task_at-set-none i j k.tasks), refl, r)
    | yes same ↦
        let q' : task_at i k.tasks ≡ some u = ap (λ (x : ℕ). task_at x k.tasks) same ∙ q in
        absurd (not_receiving i e k.tasks t u p (dead z) q' r)
  ];
  endpoints = refl;
  next_pid = refl;
}
  where
    dead : t.state ≡ zombie → t.state ≢ sleeping
    dead a b = cc
