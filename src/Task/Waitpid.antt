-- ===== src/Task/Waitpid.antt =====
-- `waitpid` of src/kernel/task.rs keeps the invariant of the task manager.
use nek_os.Base.{
  ℕ, zero, suc, true, false, Option, none, some, [], ◌∷◌, ◌==◌, if◌then◌else◌, set, ◌≡◌, refl, sym,
  ◌∙◌, ◌≢◌, inl, inr, arith, Bool-cases, Option-cases, opt_eq, length-set,
}
use nek_os.Task.{
  Task, Table, Kernel, TaskState, child, zombie, position, task_at, idle_pid, current_index,
  is_zombie,
}
use nek_os.Task.Sched.{waitpid, reap_child, block_on_child, sleep_at, is_child}
use nek_os.Task.Table.{runnable, count_runnable}
use nek_os.Task.Runnable.{IsAwake, IsSound}
use nek_os.Task.Sound.{schedule-IsSound}
use nek_os.Task.Keep.{sleep_at-IsConsistent}

pub task_at-set-none :
    (i j : ℕ) (ts : Table) → task_at j (set ts i none) ≡ (if i == j then none else task_at j ts)
unfolding task_at
task_at-set-none i j [] = ground arith
task_at-set-none zero zero (s ∷ ts) = refl
task_at-set-none zero (suc j) (s ∷ ts) = ground arith
task_at-set-none (suc i) zero (s ∷ ts) = ground arith
task_at-set-none (suc i) (suc j) (s ∷ ts) = ground (arith, task_at-set-none i j ts)

count_runnable-set-none :
    (i : ℕ) (ts : Table) (t : Task)
    → task_at i ts ≡ some t
    → runnable t ≡ 0
    → count_runnable (set ts i none) ≡ count_runnable ts
unfolding task_at count_runnable
count_runnable-set-none i [] t e h = refl
count_runnable-set-none zero (none ∷ ts) t e h = refl
count_runnable-set-none zero (some u ∷ ts) t e h = let q : u ≡ t = cc in rw q (omega arith)
count_runnable-set-none (suc i) (none ∷ ts) t e h = count_runnable-set-none i ts t e h
count_runnable-set-none (suc i) (some u ∷ ts) t e h =
    omega (arith, count_runnable-set-none i ts t e h)

kept :
    (i j : ℕ) (ts : Table) (t : Task) → task_at j (set ts i none) ≡ some t → task_at j ts ≡ some t
kept i j ts t e = ground (arith, task_at-set-none i j ts)

stays :
    (i j : ℕ) (ts : Table) (t : Task)
    → i ≢ j
    → task_at j ts ≡ some t
    → task_at j (set ts i none) ≡ some t
stays i j ts t n e = ground (arith, task_at-set-none i j ts)

zombie-not_awake : (t : Task) → t.state ≡ zombie → IsAwake t.state → ⊥
zombie-not_awake t z h = ground arith

zombie-not_runnable : (t : Task) → t.state ≡ zombie → runnable t ≡ 0
unfolding runnable
zombie-not_runnable t z = ground arith

pub reap_child-IsSound :
    (i : ℕ) (t : Task) (k : Kernel)
    → task_at i k.tasks ≡ some t
    → t.state ≡ zombie
    → IsSound k
    → IsSound (reap_child i t k).1
unfolding reap_child
reap_child-IsSound i t k p z v =
    let w = v.consistent in
    record {
      consistent = record {
        table = record {
          slots = omega (arith, length-set k.tasks i none, w.table.slots);
          distinct = λ a b x y q r h.
              w.table.distinct a b x y (kept i a k.tasks x q) (kept i b k.tasks y r) h;
          idle =
              let (a, d, q, y, h) = w.table.idle in
              (a, d, stays i a k.tasks d (λ e. zombie-not_awake t z (same e d q h)) q, y, h);
        };
        counted = w.counted ∙ sym (count_runnable-set-none i k.tasks t p (zombie-not_runnable t z));
        only_current = λ a x q r. w.only_current a x (kept i a k.tasks x q) r;
      };
      current_runs =
          let (a, d, q, c, r) = v.current_runs in
          (a, d, stays i a k.tasks d (λ e. zombie-not_awake t z (same e d q (inr r))) q, c, r);
    }
  where
    same :
        {a : ℕ}
        → i ≡ a
        → (d : Task) → task_at a k.tasks ≡ some d
        → IsAwake d.state
        → IsAwake t.state
    same e d q h = let du : d ≡ t = cc in rw (← du) h

block_on_child-IsSound :
    (pid tf : ℕ) (k : Kernel)
    → k.current_pid ≢ some idle_pid
    → IsSound k
    → IsSound (block_on_child pid tf k).1
unfolding block_on_child
block_on_child-IsSound pid tf k busy v = elim (Option-cases (current_index k)) [
  | inl q ↦ rw (q, block_on_child) v
  | inr (i, q) ↦
      rw (q, block_on_child)
        (schedule-IsSound tf (sleep_at i (child pid) tf k)
          (sleep_at-IsConsistent k i tf (child pid) v busy q))
]

-- `waitpid` keeps the invariant of the task manager, whatever pid it is called with: a zombie child
-- leaves the table, a parent whose child still lives sleeps and another task runs, and the idle task
-- is refused.
pub waitpid-IsSound : (pid tf : ℕ) (k : Kernel) → IsSound k → IsSound (waitpid pid tf k).1
unfolding waitpid
waitpid-IsSound pid tf k v = elim (Bool-cases (opt_eq k.current_pid (some idle_pid))) [
  | inl h ↦ rw (h, waitpid) v
  | inr h ↦ elim (Option-cases k.current_pid) [
    | inl c ↦ rw (h, waitpid, c) v
    | inr (parent, c) ↦ elim (Option-cases (position (is_child pid parent) k.tasks)) [
      | inl q ↦ rw (h, waitpid, c, q) v
      | inr (i, q) ↦ elim (Option-cases (task_at i k.tasks)) [
        | inl p ↦ rw (h, waitpid, c, q, p) v
        | inr (t, p) ↦ elim (Bool-cases (is_zombie t.state)) [
          | inl z ↦ rw (h, waitpid, c, q, p, z) (reap_child-IsSound i t k p (dead t.state z) v)
          | inr z ↦
              rw (h, waitpid, c, q, p, z) (block_on_child-IsSound pid tf k (busy k.current_pid h) v)
        ]
      ]
    ]
  ]
]
  where
    dead : (s : TaskState) → is_zombie s ≡ true → s ≡ zombie
    dead s h = ground arith

    busy : (o : Option ℕ) → opt_eq o (some idle_pid) ≡ false → o ≢ some idle_pid
    busy o h q = ground arith
