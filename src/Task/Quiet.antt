-- ===== src/Task/Quiet.antt =====
-- Steps of src/kernel/task.rs that make no new pid and leave the endpoints and the tasks asleep in
-- `ipc_recv` alone.
use nek_os.Base.{ℕ, Option, none, some, ◌≡◌, refl, sym, ap, ◌∙◌, ◌≢◌}
use native.Mathlib.Decide.{ℕ_discrete}
use nek_os.Task.{Task, Table, Kernel, ipc_recv, sleeping, task_at, update_at, update_all}
use nek_os.Task.Everyone.{Keeps}
use nek_os.Task.Slots.{SamePids, SamePids-update_at, SamePids-update_all, at_self, at_other, at_all}

-- A task asleep in `ipc_recv` at endpoint `e`.
abbrev pub IsReceiving : ℕ → Task → Type 0
IsReceiving e t = (t.state ≡ sleeping) × (t.waiting_for ≡ some (ipc_recv e))

-- The tasks that receive at an endpoint other than `but` stay in their slots and sleep on.
abbrev pub SleepOn : Option ℕ → Table → Table → Type 0
SleepOn but ts us =
    (e i : ℕ) (t : Task)
    → but ≢ some e
    → task_at i ts ≡ some t
    → IsReceiving e t
    → (u : Task) × (task_at i us ≡ some u) × (u.pid ≡ t.pid) × IsReceiving e u

pub SleepOn-trans :
    (but : Option ℕ) (ts us vs : Table) → SleepOn but ts us → SleepOn but us vs → SleepOn but ts vs
SleepOn-trans but ts us vs f g e i t n p r =
    let (u, q, z, s) = f e i t n p r in let (v, q', z', s') = g e i u n q s in (v, q', z' ∙ z, s')

-- A change of one task, which does not wake it from an endpoint other than `but`.
pub SleepOn-update_at :
    (but : Option ℕ) (i : ℕ) (f : Task → Task) (ts : Table)
    → ((u : Task) → (f u).pid ≡ u.pid)
    → ((e : ℕ) (t : Task)
        → but ≢ some e
        → task_at i ts ≡ some t
        → IsReceiving e t
        → IsReceiving e (f t))
    → SleepOn but ts (update_at i f ts)
SleepOn-update_at but i f ts keeps stays e j t n p r = elim (ℕ_discrete i j) [
  | no ne ↦ (t, at_other i j f ts ne ∙ p, refl, r)
  | yes same ↦
      let q : task_at i ts ≡ some t = ap (λ (x : ℕ). task_at x ts) same ∙ p in
      (
        f t,
        ap (λ (x : ℕ). task_at x (update_at i f ts)) (sym same) ∙ at_self i f ts t q,
        keeps t,
        stays e t n q r,
      )
]

pub SleepOn-update_all :
    (but : Option ℕ) (f : Task → Task) (ts : Table)
    → Keeps f
    → ((t : Task) → (f t).waiting_for ≡ t.waiting_for)
    → SleepOn but ts (update_all f ts)
SleepOn-update_all but f ts keeps same e i t n p r =
    (f t, at_all i f ts t p, (keeps t).0, ((keeps t).1 ∙ r.0, same t ∙ r.1))

-- What a step keeps.
pub record Quiet (k k' : Kernel) : Type 0 where
  pub pids : SamePids k.tasks k'.tasks
  pub sleep_on : SleepOn none k.tasks k'.tasks
  pub endpoints : k'.endpoints ≡ k.endpoints
  pub next_pid : k'.next_pid ≡ k.next_pid

pub SamePids-refl : (ts : Table) → SamePids ts ts
SamePids-refl ts x u e = (u, e, refl)

pub SleepOn-refl : (but : Option ℕ) (ts : Table) → SleepOn but ts ts
SleepOn-refl but ts e i t n p r = (t, p, refl, r)

-- A change of the machine alone.
pub same-Quiet :
    (k k' : Kernel)
    → k'.tasks ≡ k.tasks
    → k'.endpoints ≡ k.endpoints
    → k'.next_pid ≡ k.next_pid
    → Quiet k k'
same-Quiet k k' a b c = record {
  pids = rw a (SamePids-refl k.tasks);
  sleep_on = rw a (SleepOn-refl none k.tasks);
  endpoints = b;
  next_pid = c;
}

pub Quiet-trans : (k l m : Kernel) → Quiet k l → Quiet l m → Quiet k m
Quiet-trans k l m f g = record {
  pids = λ x u e. let (v, p, z) = g.pids x u e in let (w, q, y) = f.pids x v p in (w, q, y ∙ z);
  sleep_on = SleepOn-trans none k.tasks l.tasks m.tasks f.sleep_on g.sleep_on;
  endpoints = g.endpoints ∙ f.endpoints;
  next_pid = g.next_pid ∙ f.next_pid;
}

-- One task changes, and is not asleep in `ipc_recv`, or stays so.
pub update-Quiet :
    (k k' : Kernel) (i : ℕ) (f : Task → Task)
    → ((u : Task) → (f u).pid ≡ u.pid)
    → ((e : ℕ) (t : Task) → task_at i k.tasks ≡ some t → IsReceiving e t → IsReceiving e (f t))
    → k'.tasks ≡ update_at i f k.tasks
    → k'.endpoints ≡ k.endpoints
    → k'.next_pid ≡ k.next_pid
    → Quiet k k'
update-Quiet k k' i f keeps stays a b c = record {
  pids = rw a (SamePids-update_at i f k.tasks k.tasks keeps (SamePids-refl k.tasks));
  sleep_on = rw a (SleepOn-update_at none i f k.tasks keeps (λ e t n. stays e t));
  endpoints = b;
  next_pid = c;
}

pub all-Quiet :
    (k k' : Kernel) (f : Task → Task)
    → Keeps f
    → ((t : Task) → (f t).waiting_for ≡ t.waiting_for)
    → k'.tasks ≡ update_all f k.tasks
    → k'.endpoints ≡ k.endpoints
    → k'.next_pid ≡ k.next_pid
    → Quiet k k'
all-Quiet k k' f keeps same a b c = record {
  pids = rw a (SamePids-update_all f k.tasks k.tasks keeps (SamePids-refl k.tasks));
  sleep_on = rw a (SleepOn-update_all none f k.tasks keeps same);
  endpoints = b;
  next_pid = c;
}

-- A task in a state other than sleeping does not receive.
pub not_receiving :
    (i e : ℕ) (ts : Table) (t u : Task)
    → task_at i ts ≡ some t
    → t.state ≢ sleeping
    → task_at i ts ≡ some u
    → IsReceiving e u
    → ⊥
not_receiving i e ts t u p n q r = let tu : t ≡ u = cc in n (ap (λ (x : Task). x.state) tu ∙ r.0)
