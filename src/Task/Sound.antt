-- ===== src/Task/Sound.antt =====
-- `schedule` of src/kernel/task.rs establishes the invariant of the task manager.
use nek_os.Base.{
  ℕ, ◌+◌, true, false, Option, none, some, ◌≡◌, refl, sym, ap, ◌∙◌, ◌≢◌, ◌⊎◌, inl, inr, arith,
  Option-cases, ==_iff,
}
use native.Mathlib.Decide.{ℕ_discrete}
use nek_os.Task.{
  Task, Kernel, ready, running, task_at, update_at, idle_pid, has_pid, current_index, write_frame,
}
use nek_os.Task.Space.{reap_detached_zombies}
use nek_os.Task.Sched.{
  schedule, pick, save_current, to_ready, set_running, is_candidate, start_of, slot_holds,
}
use nek_os.Task.Table.{runnable, count_runnable-update_at, position-Found, position-none}
use nek_os.Task.Runnable.{
  IsAwake, IsConsistent, IsSound, update_at-origin, update_at-IsTable,
  reap_detached_zombies-IsConsistent, idle_awake,
}
use nek_os.Task.RoundRobin.{Switched, pick_lem}

-- One task changes.
pub update-IsConsistent :
    (k k' : Kernel) (i : ℕ) (f : Task → Task) (t : Task)
    → IsConsistent k
    → task_at i k.tasks ≡ some t
    → ((u : Task) → (f u).pid ≡ u.pid)
    → (t.pid ≡ idle_pid → IsAwake (f t).state)
    → k'.tasks ≡ update_at i f k.tasks
    → k'.runnable_count + runnable t ≡ k.runnable_count + runnable (f t)
    → ((f t).state ≡ running → k'.current_pid ≡ some t.pid)
    → ((j : ℕ) (u : Task)
        → i ≢ j
        → task_at j k.tasks ≡ some u
        → u.state ≡ running
        → k'.current_pid ≡ some u.pid)
    → IsConsistent k'
update-IsConsistent k k' i f t v e keeps awake q c run others = record {
  table = rw q (update_at-IsTable i f t k.tasks e keeps awake v.table);
  counted = rw q (omega (arith, v.counted, count_runnable-update_at i f k.tasks t e));
  only_current = λ j u p r.
      let (w, pw, ew) = update_at-origin i j f k.tasks u (rw q at p) in
      elim (ℕ_discrete i j) [
        | yes same ↦
            let wt : w ≡ t = cc in
            let eu : u ≡ f t = ground arith in
            run (ap (λ (x : Task). x.state) (sym eu) ∙ r)
            ∙ ap some (sym (keeps t) ∙ ap (λ (x : Task). x.pid) (sym eu))
        | no ne ↦
            let eu : u ≡ w = ground arith in
            others j w ne pw (ap (λ (x : Task). x.state) (sym eu) ∙ r)
            ∙ ap some (ap (λ (x : Task). x.pid) (sym eu))
      ];
}

abbrev pub NoneRunning : Kernel → Type 0
NoneRunning k = (i : ℕ) (t : Task) → task_at i k.tasks ≡ some t → t.state ≢ running

to_ready-runnable : (t : Task) → runnable (to_ready t) ≡ runnable t
unfolding runnable
to_ready-runnable t = ground arith

to_ready-not_running : (t : Task) → (to_ready t).state ≢ running
to_ready-not_running t = ground arith

to_ready-IsAwake : (t : Task) → IsAwake t.state → IsAwake (to_ready t).state
to_ready-IsAwake t h = ground arith

pub set_running-runnable :
    (t : Task) → (t.state ≡ ready) ⊎ (t.pid ≡ idle_pid) → runnable (set_running t) ≡ runnable t
unfolding runnable
set_running-runnable t h = ground arith

-- The slot of the current task.
pub current_slot :
    (k : Kernel) (i : ℕ)
    → current_index k ≡ some i
    → (t : Task) × (task_at i k.tasks ≡ some t) × (k.current_pid ≡ some t.pid)
current_slot k i e = elim (Option-cases k.current_pid) [
  | inl q ↦ cc (rw q at e)
  | inr (pid, q) ↦
      let f = position-Found (has_pid pid) k.tasks i (rw q at e) in
      (f.task, f.here, q ∙ ap some (sym ((==_iff f.task.pid pid).0 f.holds)))
]

-- Without a current slot no task runs.
no_slot : (k : Kernel) → IsConsistent k → current_index k ≡ none → NoneRunning k
no_slot k v e i t p r =
    let q : k.current_pid ≡ some t.pid = v.only_current i t p r in
    let h = position-none (has_pid t.pid) k.tasks i (rw q at e) in ground (arith, h)

pub save_current-IsConsistent :
    (k : Kernel) (tf : ℕ) (o : Option ℕ)
    → current_index k ≡ o
    → IsConsistent k
    → IsConsistent (save_current o tf k) × NoneRunning (save_current o tf k)
unfolding save_current
save_current-IsConsistent k tf none e v = (v, no_slot k v e)
save_current-IsConsistent k tf (some i) e v =
    let (t, p, c) = current_slot k i e in
    let k' : Kernel = record k {
      frames = write_frame k.frames t.trap_frame (k.frames tf);
      tasks = update_at i to_ready k.tasks;
    } in
    rw (p, save_current)
      (
        update-IsConsistent k k' i to_ready t v p (λ u. ground arith)
            (λ z. to_ready-IsAwake t (idle_awake k.tasks i t v.table p z)) refl
            (omega (arith, to_ready-runnable t)) (λ r. absurd (to_ready-not_running t r))
            (λ j u ne q r. v.only_current j u q r),
        λ j u q r. quiet t p c j u q r,
      )
  where
    quiet :
        (t : Task)
        → task_at i k.tasks ≡ some t
        → k.current_pid ≡ some t.pid
        → (j : ℕ) (u : Task) → task_at j (update_at i to_ready k.tasks) ≡ some u
        → u.state ≢ running
    quiet t p c j u q r =
        let (w, pw, ew) = update_at-origin i j to_ready k.tasks u q in
        elim (ℕ_discrete i j) [
          | yes same ↦
              let eu : u ≡ to_ready w = ground arith in
              to_ready-not_running w (ap (λ (x : Task). x.state) (sym eu) ∙ r)
          | no ne ↦
              let eu : u ≡ w = ground arith in
              let rw' : w.state ≡ running = ap (λ (x : Task). x.state) (sym eu) ∙ r in
              let same_pid : t.pid ≡ w.pid = cc (v.only_current j w pw rw') in
              ne (v.table.distinct i j t w p pw same_pid)
        ]

Switched-IsSound :
    (k : Kernel) (r : ℕ × Kernel) (i : ℕ) (t : Task)
    → IsConsistent k
    → NoneRunning k
    → (t.state ≡ ready) ⊎ (t.pid ≡ idle_pid)
    → Switched i t k r
    → IsSound r.1
Switched-IsSound k r i t v quiet h s =
    let k' : Kernel = record k {
      tasks = update_at i set_running k.tasks;
      current_pid = some t.pid;
    } in
    let c =
      update-IsConsistent k k' i set_running t v s.was (λ u. refl) (λ z. inr refl) refl
        (omega (arith, set_running-runnable t h)) (λ q. refl)
        (λ j u ne p q. absurd (quiet j u p q)) in
    record {
      consistent = rw s.machine c;
      current_runs = (i, set_running t, s.runs, ap (λ (x : Kernel). x.current_pid) s.machine, refl);
    }

pub candidate-ready : (t : Task) → is_candidate t ≡ true → t.state ≡ ready
candidate-ready t h = ground arith

pick-IsSound :
    (start tf : ℕ) (k : Kernel) → IsConsistent k → NoneRunning k → IsSound (pick start tf k).1
pick-IsSound start tf k v quiet = elim (pick_lem start tf k) [
  | inl (i, t, m, s) ↦
      Switched-IsSound k _ i t v quiet
        (inl (candidate-ready t (ap (slot_holds is_candidate) (sym s.was) ∙ m.candidate))) s
  | inr (inl (i, t, busy, z, s)) ↦ Switched-IsSound k _ i t v quiet (inr z) s
  | inr (inr (busy, missing, same)) ↦
      let (j, d, p, z, w) = v.table.idle in absurd (no_idle j d p z (missing j))
]
  where
    no_idle :
        (j : ℕ) (d : Task)
        → task_at j k.tasks ≡ some d
        → d.pid ≡ idle_pid
        → slot_holds (has_pid idle_pid) (task_at j k.tasks) ≡ false
        → ⊥
    no_idle j d p z h = ground (arith, ap (slot_holds (has_pid idle_pid)) p)

-- `schedule` establishes the invariant: `runnable_count` is right, pids are distinct, and the current
-- task is the one task that runs, even where the interrupted task has gone to sleep or exited.
pub schedule-IsSound : (tf : ℕ) (k : Kernel) → IsConsistent k → IsSound (schedule tf k).1
unfolding schedule
schedule-IsSound tf k v =
    let k1 = reap_detached_zombies k in
    let (c, quiet) =
      save_current-IsConsistent k1 tf (current_index k1) refl
        (reap_detached_zombies-IsConsistent k v) in
    pick-IsSound (start_of (current_index k1)) tf (save_current (current_index k1) tf k1) c quiet
