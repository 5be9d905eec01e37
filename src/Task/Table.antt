-- ===== src/Task/Table.antt =====
-- The task table of src/kernel/task.rs: what the searches find, and what a change of one slot does.
use nek_os.Base.{
  ℕ, zero, suc, ◌+◌, ◌≤◌, ◌<◌, Bool, true, false, Option, none, some, [], ◌∷◌, ◌==◌, if◌then◌else◌,
  map_option, length, ◌≡◌, refl, ap, inl, inr, arith, Bool-cases,
}
use nek_os.Task.{
  Task, Table, TaskState, unused, ready, running, sleeping, zombie, position, task_at, update_at,
  update_all, idle_pid,
}
use nek_os.Task.Sched.{slot_holds}

map_option-some :
    (o : Option ℕ) (i : ℕ) → map_option suc o ≡ some i → (j : ℕ) × (o ≡ some j) × (i ≡ suc j)
map_option-some none i e = cc
map_option-some (some j) i e = (j, refl, cc)

-- What `position` finds: the first slot whose task satisfies `p`.
pub record Found (p : Task → Bool) (ts : Table) (i : ℕ) : Type 0 where
  pub task : Task
  pub here : task_at i ts ≡ some task
  pub holds : p task ≡ true
  pub first : (j : ℕ) → j < i → slot_holds p (task_at j ts) ≡ false

shift :
    (p : Task → Bool) (s : Option Task) (ts : Table) (i : ℕ)
    → slot_holds p s ≡ false
    → Found p ts i
    → Found p (s ∷ ts) (suc i)
shift p s ts i h f = record {
  task = f.task;
  here = unfold task_at in f.here;
  holds = f.holds;
  first = before;
}
  where
    before : (j : ℕ) → j < suc i → slot_holds p (task_at j (s ∷ ts)) ≡ false
    before zero l = unfold task_at in h
    before (suc j) l = unfold task_at in f.first j (omega arith)

pub position-Found : (p : Task → Bool) (ts : Table) (i : ℕ) → position p ts ≡ some i → Found p ts i
unfolding position
position-Found p [] i e = cc
position-Found p (none ∷ ts) i e =
    let (j, q, r) = map_option-some (position p ts) i e in
    rw r (shift p none ts j refl (position-Found p ts j q))
position-Found p (some t ∷ ts) i e = elim (Bool-cases (p t)) [
  | inl h ↦
      let z : i ≡ 0 = ground arith in
      rw z (record {
        task = t;
        here = unfold task_at in refl;
        holds = h;
        first = λ j l. absurd (omega arith);
      })
  | inr h ↦
      let (j, q, r) = map_option-some (position p ts) i (rw h at e) in
      rw r (shift p (some t) ts j h (position-Found p ts j q))
]

pub position-none :
    (p : Task → Bool) (ts : Table) (j : ℕ)
    → position p ts ≡ none
    → slot_holds p (task_at j ts) ≡ false
unfolding position task_at
position-none p [] j e = refl
position-none p (none ∷ ts) zero e = refl
position-none p (none ∷ ts) (suc j) e = position-none p ts j (ground arith)
position-none p (some t ∷ ts) zero e = ground arith
position-none p (some t ∷ ts) (suc j) e = position-none p ts j (ground arith)

-- A change of slot `i` is seen at slot `i` alone.
pub task_at-update_at :
    (i j : ℕ) (f : Task → Task) (ts : Table)
    → task_at j (update_at i f ts) ≡ (if i == j then map_option f (task_at j ts) else task_at j ts)
unfolding task_at update_at
task_at-update_at i j f [] = ground arith
task_at-update_at zero zero f (none ∷ ts) = refl
task_at-update_at zero zero f (some t ∷ ts) = refl
task_at-update_at zero (suc j) f (none ∷ ts) = ground arith
task_at-update_at zero (suc j) f (some t ∷ ts) = ground arith
task_at-update_at (suc i) zero f (t ∷ ts) = ground arith
task_at-update_at (suc i) (suc j) f (t ∷ ts) = ground (arith, task_at-update_at i j f ts)

pub task_at-update_all :
    (j : ℕ) (f : Task → Task) (ts : Table)
    → task_at j (update_all f ts) ≡ map_option f (task_at j ts)
unfolding task_at update_all
task_at-update_all j f [] = refl
task_at-update_all zero f (none ∷ ts) = refl
task_at-update_all zero f (some t ∷ ts) = refl
task_at-update_all (suc j) f (none ∷ ts) = task_at-update_all j f ts
task_at-update_all (suc j) f (some t ∷ ts) = task_at-update_all j f ts

-- 1 for a task other than the idle task that is ready or running.
unfoldable pub runnable : Task → ℕ
runnable t = if t.pid == idle_pid then 0 else awake t.state
  where
    awake : TaskState → ℕ
    awake unused = 0
    awake ready = 1
    awake running = 1
    awake sleeping = 0
    awake zombie = 0

-- How many tasks of the table are so.
unfoldable pub count_runnable : Table → ℕ
unfolding runnable
count_runnable [] = 0
count_runnable (none ∷ ts) = count_runnable ts
count_runnable (some t ∷ ts) = runnable t + count_runnable ts

pub count_runnable-le : (ts : Table) → count_runnable ts ≤ length ts
unfolding count_runnable
count_runnable-le [] = omega arith
count_runnable-le (none ∷ ts) = omega (arith, count_runnable-le ts)
count_runnable-le (some t ∷ ts) = ground (arith, count_runnable-le ts)

pub count_runnable-update_at :
    (i : ℕ) (f : Task → Task) (ts : Table) (t : Task)
    → task_at i ts ≡ some t
    → count_runnable (update_at i f ts) + runnable t ≡ count_runnable ts + runnable (f t)
unfolding task_at update_at count_runnable
count_runnable-update_at i f [] t e = cc
count_runnable-update_at zero f (none ∷ ts) t e = cc
count_runnable-update_at zero f (some u ∷ ts) t e = let q : u ≡ t = cc in rw q (omega arith)
count_runnable-update_at (suc i) f (none ∷ ts) t e = count_runnable-update_at i f ts t e
count_runnable-update_at (suc i) f (some u ∷ ts) t e =
    omega (arith, count_runnable-update_at i f ts t e)

count_runnable-some :
    (t : Task) (ts : Table) → count_runnable (some t ∷ ts) ≡ runnable t + count_runnable ts
unfolding count_runnable
count_runnable-some t ts = refl

count_runnable-none : (ts : Table) → count_runnable (none ∷ ts) ≡ count_runnable ts
unfolding count_runnable
count_runnable-none ts = refl

pub count_runnable-update_all :
    (f : Task → Task) (ts : Table)
    → ((t : Task) → runnable (f t) ≡ runnable t)
    → count_runnable (update_all f ts) ≡ count_runnable ts
unfolding update_all
count_runnable-update_all f [] h = refl
count_runnable-update_all f (none ∷ ts) h = omega (
  arith,
  count_runnable-none (update_all f ts),
  count_runnable-none ts,
  count_runnable-update_all f ts h,
)
count_runnable-update_all f (some t ∷ ts) h = omega (
  arith,
  count_runnable-some (f t) (update_all f ts),
  count_runnable-some t ts,
  h t,
  count_runnable-update_all f ts h,
)

pub length-update_at :
    (i : ℕ) (f : Task → Task) (ts : Table) → length (update_at i f ts) ≡ length ts
unfolding update_at
length-update_at i f [] = refl
length-update_at zero f (none ∷ ts) = refl
length-update_at zero f (some t ∷ ts) = refl
length-update_at (suc i) f (t ∷ ts) = ap suc (length-update_at i f ts)

pub length-update_all : (f : Task → Task) (ts : Table) → length (update_all f ts) ≡ length ts
unfolding update_all
length-update_all f [] = refl
length-update_all f (none ∷ ts) = ap suc (length-update_all f ts)
length-update_all f (some t ∷ ts) = ap suc (length-update_all f ts)
