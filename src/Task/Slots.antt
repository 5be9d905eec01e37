-- ===== src/Task/Slots.antt =====
-- Slots of the task table of src/kernel/task.rs after changes that keep every pid.
use nek_os.Base.{
  ℕ, false, some, ◌==◌, if◌then◌else◌, map_option, ◌≡◌, sym, ap, ◌∙◌, ◌≢◌, inl, inr, arith,
  Bool-cases, Option-cases, ==_iff,
}
use nek_os.Task.{Task, Table, position, task_at, update_at, update_all, has_pid}
use nek_os.Task.Sched.{slot_holds}
use nek_os.Task.Table.{position-Found, position-none, task_at-update_at, task_at-update_all}
use nek_os.Task.Runnable.{IsTable, update_at-origin}
use nek_os.Task.Everyone.{Keeps, update_all-origin}

-- Every task of `us` is in the slot of a task of `ts` with its pid.
abbrev pub SamePids : Table → Table → Type 0
SamePids ts us =
    (x : ℕ) (u : Task)
    → task_at x us ≡ some u
    → (w : Task) × (task_at x ts ≡ some w) × (w.pid ≡ u.pid)

pub SamePids-update_at :
    (i : ℕ) (f : Task → Task) (ts us : Table)
    → ((u : Task) → (f u).pid ≡ u.pid)
    → SamePids ts us
    → SamePids ts (update_at i f us)
SamePids-update_at i f ts us keeps h x u e =
    let (v, p, q) = update_at-origin i x f us u e in
    let (w, r, z) = h x v p in (w, r, z ∙ either v u q)
  where
    either : (v u : Task) → u ≡ (if i == x then f v else v) → v.pid ≡ u.pid
    either v u q = elim (Bool-cases (i == x)) [
      | inl c ↦ sym (ap (λ (y : Task). y.pid) (rw c at q) ∙ keeps v)
      | inr c ↦ sym (ap (λ (y : Task). y.pid) (rw c at q))
    ]

pub SamePids-update_all :
    (f : Task → Task) (ts us : Table) → Keeps f → SamePids ts us → SamePids ts (update_all f us)
SamePids-update_all f ts us keeps h x u e =
    let (v, p, q, _) = update_all-origin x f us u e keeps in
    let (w, r, z) = h x v p in (w, r, z ∙ q)

-- A slot is found by the pid of its task.
pub found_by_pid :
    (ts us : Table) (i pid : ℕ) (t : Task)
    → IsTable ts
    → SamePids ts us
    → task_at i us ≡ some t
    → t.pid ≡ pid
    → position (has_pid pid) us ≡ some i
found_by_pid ts us i pid t v h p z = elim (Option-cases (position (has_pid pid) us)) [
  | inl q ↦
      absurd (missing (ap (slot_holds (has_pid pid)) (sym p) ∙ position-none (has_pid pid) us i q))
  | inr (j, q) ↦
      let f = position-Found (has_pid pid) us j q in
      let (w, a, c) = h j f.task f.here in
      let (x, b, d) = h i t p in
      q ∙ ap some (v.distinct j i w x a b (c ∙ (==_iff f.task.pid pid).0 f.holds ∙ sym z ∙ sym d))
]
  where
    missing : has_pid pid t ≡ false → ⊥
    missing h = ground arith

pub at_self :
    (i : ℕ) (f : Task → Task) (ts : Table) (t : Task)
    → task_at i ts ≡ some t
    → task_at i (update_at i f ts) ≡ some (f t)
at_self i f ts t p = ground (arith, task_at-update_at i i f ts)

pub at_other :
    (i j : ℕ) (f : Task → Task) (ts : Table) → i ≢ j → task_at j (update_at i f ts) ≡ task_at j ts
at_other i j f ts n = ground (arith, task_at-update_at i j f ts)

pub at_all :
    (i : ℕ) (f : Task → Task) (ts : Table) (t : Task)
    → task_at i ts ≡ some t
    → task_at i (update_all f ts) ≡ some (f t)
at_all i f ts t p = task_at-update_all i f ts ∙ ap (map_option f) p
