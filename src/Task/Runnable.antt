-- ===== src/Task/Runnable.antt =====
-- What the operations of the task manager of src/kernel/task.rs rely on: distinct pids, an idle task
-- that is awake, `runnable_count` right, and no task running but the current one.
use nek_os.Base.{
  ℕ, zero, suc, ◌≤◌, false, Option, none, some, [], ◌∷◌, ◌==◌, if◌then◌else◌, and_then, length, ◌≡◌,
  refl, sym, ◌∙◌, ◌⊎◌, inl, inr, arith, Option-cases,
}
use native.Mathlib.Decide.{ℕ_discrete}
use nek_os.PageTable.{Phys}
use nek_os.Task.{Task, Table, Kernel, TaskState, ready, running, task_at, update_at, idle_pid}
use nek_os.Task.Space.{reap, reap_detached_zombies, is_detached, free_task}
use nek_os.Task.Table.{count_runnable, length-update_at, task_at-update_at}

abbrev pub IsAwake : TaskState → Type 0
IsAwake s = (s ≡ ready) ⊎ (s ≡ running)

pub record IsTable (ts : Table) : Type 0 where
  pub slots : length ts ≤ 16
  pub distinct :
      (i j : ℕ) (t u : Task) → task_at i ts ≡ some t → task_at j ts ≡ some u → t.pid ≡ u.pid → i ≡ j
  pub idle : (i : ℕ) × (t : Task) × (task_at i ts ≡ some t) × (t.pid ≡ idle_pid) × IsAwake t.state

-- The invariant between the steps of an operation, where the current task may have gone to sleep.
pub record IsConsistent (k : Kernel) : Type 0 where
  pub table : IsTable k.tasks
  pub counted : k.runnable_count ≡ count_runnable k.tasks
  pub only_current :
      (i : ℕ) (t : Task)
      → task_at i k.tasks ≡ some t
      → t.state ≡ running
      → k.current_pid ≡ some t.pid

-- The invariant between operations: the current task is there and runs.
pub record IsSound (k : Kernel) : Type 0 where
  pub consistent : IsConsistent k
  pub current_runs :
      (i : ℕ) × (t : Task) × (task_at i k.tasks ≡ some t)
      × (k.current_pid ≡ some t.pid)
      × (t.state ≡ running)

-- A task after a change of slot `i` is a task of before, changed if it is in slot `i`.
pub update_at-origin :
    (i j : ℕ) (f : Task → Task) (ts : Table) (u : Task)
    → task_at j (update_at i f ts) ≡ some u
    → (v : Task) × (task_at j ts ≡ some v) × (u ≡ (if i == j then f v else v))
update_at-origin i j f ts u e = elim (Option-cases (task_at j ts)) [
  | inl q ↦ ground (arith, task_at-update_at i j f ts)
  | inr (v, q) ↦ (v, q, ground (arith, task_at-update_at i j f ts))
]

-- A change of the task in slot `i` that keeps its pid and does not put the idle task to sleep.
pub update_at-IsTable :
    (i : ℕ) (f : Task → Task) (t : Task) (ts : Table)
    → task_at i ts ≡ some t
    → ((u : Task) → (f u).pid ≡ u.pid)
    → (t.pid ≡ idle_pid → IsAwake (f t).state)
    → IsTable ts
    → IsTable (update_at i f ts)
update_at-IsTable i f t ts e keeps awake v = record {
  slots = omega (arith, v.slots, length-update_at i f ts);
  distinct = λ a b x y p q h.
      let (x0, p0, ex) = update_at-origin i a f ts x p in
      let (y0, q0, ey) = update_at-origin i b f ts y q in
      v.distinct a b x0 y0 p0 q0 (ground (arith, keeps x0, keeps y0));
  idle = let (a, d, p, z, w) = v.idle in still a d p z w;
}
  where
    still :
        (a : ℕ) (d : Task)
        → task_at a ts ≡ some d
        → d.pid ≡ idle_pid
        → IsAwake d.state
        → (b : ℕ) × (u : Task) × (task_at b (update_at i f ts) ≡ some u)
          × (u.pid ≡ idle_pid)
          × IsAwake u.state
    still a d p z w = elim (ℕ_discrete i a) [
      | yes same ↦
          let q : d ≡ t = cc in
          (
            a,
            f t,
            ground (arith, task_at-update_at i a f ts),
            ground (arith, keeps t),
            awake (ground arith),
          )
      | no ne ↦ (a, d, ground (arith, task_at-update_at i a f ts), z, w)
    ]

reap-count :
    (c : Option ℕ) (ts : Table) (s : Phys)
    → (count_runnable (reap c ts s).0 ≡ count_runnable ts) × (length (reap c ts s).0 ≡ length ts)
unfolding reap count_runnable
reap-count c [] s = (refl, refl)
reap-count c (none ∷ ts) s = omega (arith, reap-count c ts s)
reap-count c (some t ∷ ts) s =
    ground (arith, reap-count c ts (if is_detached c t then free_task t s else s))

-- `reap` empties exactly the slots of detached zombies.
pub task_at-reap :
    (c : Option ℕ) (ts : Table) (s : Phys) (j : ℕ)
    → task_at j (reap c ts s).0
      ≡ and_then (task_at j ts) (λ t. if is_detached c t then none else some t)
unfolding reap task_at
task_at-reap c [] s j = refl
task_at-reap c (none ∷ ts) s zero = refl
task_at-reap c (none ∷ ts) s (suc j) = task_at-reap c ts s j
task_at-reap c (some t ∷ ts) s zero = refl
task_at-reap c (some t ∷ ts) s (suc j) =
    task_at-reap c ts (if is_detached c t then free_task t s else s) j

pub awake-stays : (c : Option ℕ) (t : Task) → IsAwake t.state → is_detached c t ≡ false
awake-stays c t (inl e) = rw e refl
awake-stays c t (inr e) = rw e refl

reap-origin :
    (c : Option ℕ) (ts : Table) (s : Phys) (j : ℕ) (t : Task)
    → task_at j (reap c ts s).0 ≡ some t
    → task_at j ts ≡ some t
reap-origin c ts s j t e = ground (arith, task_at-reap c ts s j)

pub reap_detached_zombies-IsConsistent :
    (k : Kernel) → IsConsistent k → IsConsistent (reap_detached_zombies k)
unfolding reap_detached_zombies
reap_detached_zombies-IsConsistent k v =
    let c = k.current_pid in
    let from = reap-origin c k.tasks k.phys in
    record {
      table = record {
        slots = omega (arith, reap-count c k.tasks k.phys, v.table.slots);
        distinct = λ i j t u p q h. v.table.distinct i j t u (from i t p) (from j u q) h;
        idle =
            let (i, t, p, z, w) = v.table.idle in
            (i, t, task_at-reap c k.tasks k.phys i ∙ rw (p, awake-stays c t w) refl, z, w);
      };
      counted = omega (arith, reap-count c k.tasks k.phys, v.counted);
      only_current = λ i t p. v.only_current i t (from i t p);
    }

-- The idle task, wherever it is found, is awake.
pub idle_awake :
    (ts : Table) (i : ℕ) (t : Task)
    → IsTable ts
    → task_at i ts ≡ some t
    → t.pid ≡ idle_pid
    → IsAwake t.state
idle_awake ts i t v e z =
    let (j, d, p, y, w) = v.idle in
    let same : i ≡ j = v.distinct i j t d e p (z ∙ sym y) in let q : d ≡ t = cc in rw (← q) w
