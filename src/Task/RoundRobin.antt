-- ===== src/Task/RoundRobin.antt =====
-- Which task `schedule` of src/kernel/task.rs picks.
use nek_os.Base.{
  ℕ, zero, suc, ◌+◌, ◌%◌, ◌≤◌, ◌<◌, Bool, true, false, Option, none, some, ◌==◌, ◌≡◌, refl, ◌≢◌,
  ◌⊎◌, inl, inr, arith, Bool-cases, Option-cases, ==_refl,
}
use native.Mathlib.Decide.{ℕ_discrete}
use nek_os.Task.{Task, Table, Kernel, position, task_at, update_at, idle_pid, has_pid, max_tasks}
use nek_os.Task.Sched.{
  slot_holds, pick, switch_to, switch_to_idle, find_ready, is_candidate, set_running,
}
use nek_os.Task.Table.{position-Found, position-none, task_at-update_at}

-- The slot reached after `d` steps round the table from `start` on.
abbrev pub slot_from : ℕ → ℕ → ℕ
slot_from start d = (start + d) % max_tasks

abbrev pub candidate_at : ℕ → Table → Bool
candidate_at i ts = slot_holds is_candidate (task_at i ts)

-- What the search finds: the nearest slot that holds a candidate.
pub record Nearest (start from : ℕ) (ts : Table) (i : ℕ) : Type 0 where
  pub distance : ℕ
  pub at_least : from ≤ distance
  pub within : distance < max_tasks
  pub slot : i ≡ slot_from start distance
  pub candidate : candidate_at i ts ≡ true
  pub nearer : (d : ℕ) → from ≤ d → d < distance → candidate_at (slot_from start d) ts ≡ false

farther :
    (start from : ℕ) (ts : Table) (i : ℕ)
    → candidate_at (slot_from start from) ts ≡ false
    → Nearest start (from + 1) ts i
    → Nearest start from ts i
farther start from ts i h m = record {
  distance = m.distance;
  at_least = omega arith;
  within = m.within;
  slot = m.slot;
  candidate = m.candidate;
  nearer = λ d lo hi. elim (ℕ_discrete from d) [
    | yes e ↦ rw (← e) h
    | no ne ↦ m.nearer d (omega arith) hi
  ];
}

find_ready-Nearest :
    (n from start i : ℕ) (ts : Table)
    → from + n ≡ max_tasks
    → find_ready n from start ts ≡ some i
    → Nearest start from ts i
unfolding find_ready
find_ready-Nearest zero from start i ts s e = cc
find_ready-Nearest (suc n) from start i ts s e =
    elim (Bool-cases (candidate_at (slot_from start from) ts)) [
      | inl h ↦
          let q : i ≡ slot_from start from = ground arith in
          rw q (record {
            distance = from;
            at_least = omega arith;
            within = omega arith;
            slot = refl;
            candidate = h;
            nearer = λ d lo hi. absurd (omega arith);
          })
      | inr h ↦
          farther start from ts i h
            (find_ready-Nearest n (from + 1) start i ts (omega arith) (rw h at e))
    ]

find_ready-none :
    (n from start : ℕ) (ts : Table)
    → from + n ≡ max_tasks
    → find_ready n from start ts ≡ none
    → (d : ℕ) → from ≤ d
    → d < max_tasks
    → candidate_at (slot_from start d) ts ≡ false
unfolding find_ready
find_ready-none zero from start ts s e d lo hi = absurd (omega arith)
find_ready-none (suc n) from start ts s e d lo hi =
    elim (Bool-cases (candidate_at (slot_from start from) ts)) [
      | inl h ↦ cc (rw h at e)
      | inr h ↦ elim (ℕ_discrete from d) [
        | yes q ↦ rw (← q) h
        | no ne ↦ find_ready-none n (from + 1) start ts (omega arith) (rw h at e) d (omega arith) hi
      ]
    ]

-- The task in slot `i` runs after the switch, and nothing but its state and the current pid changed.
pub record Switched (i : ℕ) (t : Task) (k : Kernel) (r : ℕ × Kernel) : Type 0 where
  pub was : task_at i k.tasks ≡ some t
  pub frame : r.0 ≡ t.trap_frame
  pub machine : r.1 ≡ record k { tasks = update_at i set_running k.tasks; current_pid = some t.pid }
  pub runs : task_at i r.1.tasks ≡ some (set_running t)
  pub others : (j : ℕ) → i ≢ j → task_at j r.1.tasks ≡ task_at j k.tasks

switch_to-Switched :
    (i tf : ℕ) (t : Task) (k : Kernel)
    → task_at i k.tasks ≡ some t
    → Switched i t k (switch_to i tf k)
unfolding switch_to
switch_to-Switched i tf t k e =
    rw (e, switch_to)
      (record {
        was = e;
        frame = refl;
        machine = refl;
        runs = rw (task_at-update_at i i set_running k.tasks, ==_refl i, e) refl;
        others = λ j ne.
            let h : (i == j) ≡ false = ground arith in
            rw (task_at-update_at i j set_running k.tasks, h) refl;
      })

slot-some :
    (p : Task → Bool) (o : Option Task)
    → slot_holds p o ≡ true
    → (t : Task) × (o ≡ some t) × (p t ≡ true)
slot-some p none h = cc
slot-some p (some t) h = (t, refl, h)

-- The choice of `schedule`, once the interrupted task is saved: it runs the first ready task other
-- than the idle task in slots `start`, `start` + 1, and so on round the table; only if there is none it
-- runs the idle task, and only if that is missing too it goes on with the interrupted frame.
pub pick_lem :
    (start tf : ℕ) (k : Kernel)
    → ((i : ℕ) × (t : Task) × Nearest start 0 k.tasks i × Switched i t k (pick start tf k))
      ⊎ ((i : ℕ) × (t : Task) × ((d : ℕ)
            → d < max_tasks
            → candidate_at (slot_from start d) k.tasks ≡ false)
          × (t.pid ≡ idle_pid)
          × Switched i t k (pick start tf k))
      ⊎ (((d : ℕ) → d < max_tasks → candidate_at (slot_from start d) k.tasks ≡ false)
          × ((j : ℕ) → slot_holds (has_pid idle_pid) (task_at j k.tasks) ≡ false)
          × (pick start tf k ≡ (tf, k)))
unfolding pick
pick_lem start tf k = elim (Option-cases (find_ready max_tasks 0 start k.tasks)) [
  | inr (i, e) ↦
      let m = find_ready-Nearest max_tasks 0 start i k.tasks refl e in
      let (t, q, h) = slot-some is_candidate (task_at i k.tasks) m.candidate in
      inl (i, t, m, rw (e, pick) (switch_to-Switched i tf t k q))
  | inl e ↦
      let busy = find_ready-none max_tasks 0 start k.tasks refl e in
      elim (Option-cases (position (has_pid idle_pid) k.tasks)) [
        | inr (i, q) ↦
            let f = position-Found (has_pid idle_pid) k.tasks i q in
            inr (
              inl (
                i,
                f.task,
                λ d l. busy d (omega arith) l,
                ground (arith, f.holds),
                rw (e, pick, q, switch_to_idle) (switch_to-Switched i tf f.task k f.here),
              ))
        | inl q ↦ inr (
            inr (
              λ d l. busy d (omega arith) l,
              λ j. position-none (has_pid idle_pid) k.tasks j q,
              rw (e, pick, q, switch_to_idle) refl,
            ))
      ]
]
