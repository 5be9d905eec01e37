-- ===== src/Task/Awake.antt =====
-- A task that has been woken stays awake in its slot when src/kernel/task.rs chooses the next task.
use nek_os.Base.{ℕ, Option, none, some, ◌≡◌, refl, ap, ◌∙◌, inl, inr, Option-cases}
use native.Mathlib.Decide.{ℕ_discrete}
use nek_os.Task.{
  Task, Table, Kernel, position, task_at, update_at, has_pid, current_index, idle_pid,
}
use nek_os.Task.Space.{reap_detached_zombies}
use nek_os.Task.Sched.{to_ready, set_running, is_candidate, save_current, start_of, pick, schedule}
use nek_os.Task.Exit.{awaken, run_slot, run_first}
use nek_os.Task.Runnable.{IsAwake, awake-stays, task_at-reap}
use nek_os.Task.RoundRobin.{pick_lem}
use nek_os.Task.Slots.{at_self, at_other}

-- The task `t` of slot `j` is ready or runs, and waits for nothing.
pub record Woken (ts : Table) (j : ℕ) (t : Task) : Type 0 where
  pub now : Task
  pub there : task_at j ts ≡ some now
  pub same_pid : now.pid ≡ t.pid
  pub same_frame : now.trap_frame ≡ t.trap_frame
  pub awake : IsAwake now.state
  pub waits_no_more : now.waiting_for ≡ none

-- The task goes on as another one.
moved :
    (ts us : Table) (j : ℕ) (t : Task) (w : Woken ts j t) (u : Task)
    → task_at j us ≡ some u
    → u.pid ≡ w.now.pid
    → u.trap_frame ≡ w.now.trap_frame
    → IsAwake u.state
    → u.waiting_for ≡ w.now.waiting_for
    → Woken us j t
moved ts us j t w u p a b c d = record {
  now = u;
  there = p;
  same_pid = a ∙ w.same_pid;
  same_frame = b ∙ w.same_frame;
  awake = c;
  waits_no_more = d ∙ w.waits_no_more;
}

pub awaken-Woken : (ts : Table) (j : ℕ) (t : Task) → task_at j ts ≡ some (awaken t) → Woken ts j t
awaken-Woken ts j t p = record {
  now = awaken t;
  there = p;
  same_pid = refl;
  same_frame = refl;
  awake = inl refl;
  waits_no_more = refl;
}

run-Woken :
    (i j : ℕ) (ts : Table) (t : Task) → Woken ts j t → Woken (update_at i set_running ts) j t
run-Woken i j ts t w = elim (ℕ_discrete i j) [
  | no ne ↦
      moved ts _ j t w (w.now) (at_other i j set_running ts ne ∙ w.there) refl refl (w.awake) refl
  | yes same ↦
      moved ts _ j t w (set_running (w.now))
        (ap (λ (x : ℕ). task_at j (update_at x set_running ts)) same
          ∙ at_self j set_running ts (w.now) (w.there))
        refl refl (inr refl) refl
]

to_ready-awake :
    (t : Task)
    → IsAwake t.state
    → ((to_ready t).pid ≡ t.pid)
      × ((to_ready t).trap_frame ≡ t.trap_frame)
      × IsAwake (to_ready t).state
      × ((to_ready t).waiting_for ≡ t.waiting_for)
to_ready-awake t (inl e) = rw e (refl, refl, inl refl, refl)
to_ready-awake t (inr e) = rw e (refl, refl, inl refl, refl)

saved-Woken : (i j : ℕ) (ts : Table) (t : Task) → Woken ts j t → Woken (update_at i to_ready ts) j t
saved-Woken i j ts t w = elim (ℕ_discrete i j) [
  | no ne ↦
      moved ts _ j t w (w.now) (at_other i j to_ready ts ne ∙ w.there) refl refl (w.awake) refl
  | yes same ↦
      let (a, b, c, d) = to_ready-awake (w.now) (w.awake) in
      moved ts _ j t w (to_ready (w.now))
        (ap (λ (x : ℕ). task_at j (update_at x to_ready ts)) same
          ∙ at_self j to_ready ts (w.now) (w.there))
        a b c d
]

reap-Woken :
    (k : Kernel) (j : ℕ) (t : Task) → Woken k.tasks j t → Woken (reap_detached_zombies k).tasks j t
unfolding reap_detached_zombies
reap-Woken k j t w =
    moved k.tasks _ j t w (w.now)
      (task_at-reap k.current_pid k.tasks k.phys j
        ∙ rw (w.there, awake-stays k.current_pid (w.now) (w.awake)) refl)
      refl refl (w.awake) refl

save_current-Woken :
    (o : Option ℕ) (tf : ℕ) (k : Kernel) (j : ℕ) (t : Task)
    → Woken k.tasks j t
    → Woken (save_current o tf k).tasks j t
unfolding save_current
save_current-Woken none tf k j t w = w
save_current-Woken (some i) tf k j t w = elim (Option-cases (task_at i k.tasks)) [
  | inl p ↦ rw (p, save_current) w
  | inr (u, p) ↦ rw (p, save_current) (saved-Woken i j k.tasks t w)
]

pick-Woken :
    (start tf : ℕ) (k : Kernel) (j : ℕ) (t : Task)
    → Woken k.tasks j t
    → Woken (pick start tf k).1.tasks j t
pick-Woken start tf k j t w = elim (pick_lem start tf k) [
  | inl (i, u, m, s) ↦ rw (s.machine) (run-Woken i j k.tasks t w)
  | inr (inl (i, u, busy, z, s)) ↦ rw (s.machine) (run-Woken i j k.tasks t w)
  | inr (inr (busy, missing, same)) ↦ rw same w
]

pub schedule-Woken :
    (tf : ℕ) (k : Kernel) (j : ℕ) (t : Task) → Woken k.tasks j t → Woken (schedule tf k).1.tasks j t
unfolding schedule
schedule-Woken tf k j t w =
    let k1 = reap_detached_zombies k in
    let o = current_index k1 in
    pick-Woken (start_of o) tf (save_current o tf k1) j t
      (save_current-Woken o tf k1 j t (reap-Woken k j t w))

run_slot-Woken :
    (i : ℕ) (k : Kernel) (j : ℕ) (t : Task) → Woken k.tasks j t → Woken (run_slot i k).1.tasks j t
unfolding run_slot
run_slot-Woken i k j t w = elim (Option-cases (task_at i k.tasks)) [
  | inl p ↦ rw (p, run_slot) w
  | inr (u, p) ↦ rw (p, run_slot) (run-Woken i j k.tasks t w)
]

pub run_first-Woken :
    (k : Kernel) (j : ℕ) (t : Task) → Woken k.tasks j t → Woken (run_first k).1.tasks j t
unfolding run_first
run_first-Woken k j t w = elim (Option-cases (position is_candidate k.tasks)) [
  | inr (i, q) ↦ rw (q, run_first) (run_slot-Woken i k j t w)
  | inl q ↦ elim (Option-cases (position (has_pid idle_pid) k.tasks)) [
    | inr (i, p) ↦ rw (q, run_first, p) (run_slot-Woken i k j t w)
    | inl p ↦ rw (q, run_first, p) w
  ]
]
