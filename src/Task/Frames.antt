-- ===== src/Task/Frames.antt =====
-- What `schedule` of src/kernel/task.rs and the exit of a task leave of the trap frames.
use nek_os.Base.{
  ℕ, Option, none, some, ◌==◌, and_then, ◌≡◌, refl, sym, ap, ◌∙◌, ◌≢◌, inl, inr, arith, Bool-cases,
  Option-cases, ==_iff,
}
use nek_os.Trap.{TrapFrame}
use nek_os.Task.{
  Task, Table, Kernel, position, task_at, update_at, has_pid, current_index, idle_pid,
}
use nek_os.Task.Space.{reap_detached_zombies}
use nek_os.Task.Sched.{is_candidate, save_current, start_of, pick, schedule}
use nek_os.Task.Exit.{run_slot, run_first}
use nek_os.Task.Table.{position-Found}
use nek_os.Task.Runnable.{IsTable, update_at-origin, task_at-reap}
use nek_os.Task.RoundRobin.{pick_lem}
use nek_os.Task.Messages.{write_frame-other}

-- The tasks with a pid, of which there is one, have their frame at `a`.
abbrev pub FrameOf : ℕ → ℕ → Table → Type 0
FrameOf pid a ts = (i : ℕ) (t : Task) → task_at i ts ≡ some t → t.pid ≡ pid → t.trap_frame ≡ a

pub FrameOf-here :
    (ts : Table) (i : ℕ) (t : Task)
    → IsTable ts
    → task_at i ts ≡ some t
    → FrameOf t.pid t.trap_frame ts
FrameOf-here ts i t v p j u q z =
    let same : j ≡ i = v.distinct j i u t q p z in
    let ut : u ≡ t = cc in ap (λ (x : Task). x.trap_frame) ut

pub FrameOf-update_at :
    (pid a i : ℕ) (f : Task → Task) (ts : Table)
    → ((u : Task) → ((f u).pid ≡ u.pid) × ((f u).trap_frame ≡ u.trap_frame))
    → FrameOf pid a ts
    → FrameOf pid a (update_at i f ts)
FrameOf-update_at pid a i f ts keeps h j u e z =
    let (v, p, q) = update_at-origin i j f ts u e in
    elim (Bool-cases (i == j)) [
      | inl s ↦
          let q' : u ≡ f v = rw s at q in
          ap (λ (x : Task). x.trap_frame) q'
          ∙ (keeps v).1
          ∙ h j v p (sym (keeps v).0 ∙ ap (λ (x : Task). x.pid) (sym q') ∙ z)
      | inr s ↦
          let q' : u ≡ v = rw s at q in
          ap (λ (x : Task). x.trap_frame) q' ∙ h j v p (ap (λ (x : Task). x.pid) (sym q') ∙ z)
    ]

FrameOf-reap :
    (pid a : ℕ) (k : Kernel) → FrameOf pid a k.tasks → FrameOf pid a (reap_detached_zombies k).tasks
unfolding reap_detached_zombies
FrameOf-reap pid a k h i t p z =
    h i t (ground (arith, task_at-reap k.current_pid k.tasks k.phys i)) z

save_current-frame :
    (o : Option ℕ) (tf a : ℕ) (k : Kernel)
    → ((i : ℕ) (t : Task) → o ≡ some i → task_at i k.tasks ≡ some t → t.trap_frame ≢ a)
    → (save_current o tf k).frames a ≡ k.frames a
unfolding save_current
save_current-frame none tf a k h = refl
save_current-frame (some i) tf a k h = elim (Option-cases (task_at i k.tasks)) [
  | inl p ↦ rw (p, save_current) refl
  | inr (t, p) ↦
      rw (p, save_current) (write_frame-other k.frames t.trap_frame a (k.frames tf) (h i t refl p))
]

pick-frames : (start tf : ℕ) (k : Kernel) → (pick start tf k).1.frames ≡ k.frames
pick-frames start tf k = elim (pick_lem start tf k) [
  | inl (i, t, m, s) ↦ ap (λ (x : Kernel). x.frames) s.machine
  | inr (inl (i, t, busy, z, s)) ↦ ap (λ (x : Kernel). x.frames) s.machine
  | inr (inr (busy, missing, same)) ↦ ap (λ (r : ℕ × Kernel). r.1.frames) same
]

searched :
    (k : Kernel) (pid i : ℕ)
    → k.current_pid ≡ some pid
    → current_index k ≡ some i
    → position (has_pid pid) k.tasks ≡ some i
searched k pid i c o =
    sym (ap (λ (x : Option ℕ). and_then x (λ y. position (has_pid y) k.tasks)) c) ∙ o

-- `schedule` saves the frame of the current task and changes no other.
pub schedule-frame :
    (tf a b pid : ℕ) (k : Kernel)
    → k.current_pid ≡ some pid
    → FrameOf pid b k.tasks
    → b ≢ a
    → (schedule tf k).1.frames a ≡ k.frames a
unfolding schedule
schedule-frame tf a b pid k c h n =
    let k1 = reap_detached_zombies k in
    let index = current_index k1 in
    let k2 = save_current index tf k1 in
    ap (λ (m : ℕ → TrapFrame). m a) (pick-frames (start_of index) tf k2)
    ∙ save_current-frame index tf a k1 (λ i t o p q. n (sym (mine i t o p) ∙ q))
    ∙ unfold reap_detached_zombies in refl
  where
    mine :
        (i : ℕ) (t : Task)
        → current_index (reap_detached_zombies k) ≡ some i
        → task_at i (reap_detached_zombies k).tasks ≡ some t
        → t.trap_frame ≡ b
    mine i t o p =
        let k1 = reap_detached_zombies k in
        let o' : position (has_pid pid) k1.tasks ≡ some i =
          searched k1 pid i (unfold reap_detached_zombies in c) o in
        let f = position-Found (has_pid pid) k1.tasks i o' in
        let ft : f.task ≡ t = cc (sym f.here ∙ p) in
        FrameOf-reap pid b k h i t p
          (ap (λ (x : Task). x.pid) (sym ft) ∙ (==_iff f.task.pid pid).0 f.holds)

run_slot-frames : (i : ℕ) (k : Kernel) → (run_slot i k).1.frames ≡ k.frames
unfolding run_slot
run_slot-frames i k = elim (Option-cases (task_at i k.tasks)) [
  | inl p ↦ rw (p, run_slot) refl
  | inr (t, p) ↦ rw (p, run_slot) refl
]

-- The choice of the next task after an exit changes no frame.
pub run_first-frames : (k : Kernel) → (run_first k).1.frames ≡ k.frames
unfolding run_first
run_first-frames k = elim (Option-cases (position is_candidate k.tasks)) [
  | inr (i, q) ↦ rw (q, run_first) (run_slot-frames i k)
  | inl q ↦ elim (Option-cases (position (has_pid idle_pid) k.tasks)) [
    | inr (i, p) ↦ rw (q, run_first, p) (run_slot-frames i k)
    | inl p ↦ rw (q, run_first, p) refl
  ]
]
