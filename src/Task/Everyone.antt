-- ===== src/Task/Everyone.antt =====
-- Changes of every task of the table of src/kernel/task.rs that keep pids and states.
use nek_os.Base.{ℕ, zero, suc, none, some, [], ◌∷◌, ◌≡◌, refl, sym, ap, ◌∙◌, arith, map_option}
use nek_os.Task.{Task, Table, Kernel, task_at, update_all}
use nek_os.Task.Exit.{orphan}
use nek_os.Task.Table.{
  runnable, count_runnable, count_runnable-update_all, task_at-update_all, length-update_all,
}
use nek_os.Task.Runnable.{IsTable, IsConsistent}

pub alike : (t u : Task) → u.pid ≡ t.pid → u.state ≡ t.state → runnable u ≡ runnable t
unfolding runnable
alike t u p s = rw (p, s) refl

pub same-IsConsistent :
    (k k' : Kernel)
    → k'.tasks ≡ k.tasks
    → k'.current_pid ≡ k.current_pid
    → k'.runnable_count ≡ k.runnable_count
    → IsConsistent k
    → IsConsistent k'
same-IsConsistent k k' a b c v = record {
  table = rw a v.table;
  counted = rw (a, c) v.counted;
  only_current = λ i t p r. b ∙ v.only_current i t (rw a at p) r;
}

-- `f` keeps the pid and the state of every task.
abbrev pub Keeps : (Task → Task) → Type 0
Keeps f = (t : Task) → ((f t).pid ≡ t.pid) × ((f t).state ≡ t.state)

pub update_all-origin :
    (i : ℕ) (f : Task → Task) (ts : Table) (t : Task)
    → task_at i (update_all f ts) ≡ some t
    → Keeps f
    → (u : Task) × (task_at i ts ≡ some u) × (u.pid ≡ t.pid) × (u.state ≡ t.state)
unfolding task_at update_all
update_all-origin i f [] t e h = cc
update_all-origin zero f (none ∷ ts) t e h = cc
update_all-origin zero f (some u ∷ ts) t e h =
    let q : f u ≡ t = cc in
    (
      u,
      refl,
      sym ((h u).0) ∙ ap (λ (x : Task). x.pid) q,
      sym ((h u).1) ∙ ap (λ (x : Task). x.state) q,
    )
update_all-origin (suc i) f (none ∷ ts) t e h = update_all-origin i f ts t e h
update_all-origin (suc i) f (some u ∷ ts) t e h = update_all-origin i f ts t e h

all-IsTable : (f : Task → Task) (ts : Table) → Keeps f → IsTable ts → IsTable (update_all f ts)
all-IsTable f ts keeps v = record {
  slots = omega (arith, v.slots, length-update_all f ts);
  distinct = λ i j t u p q h.
      let (t0, p0, et, _) = update_all-origin i f ts t p keeps in
      let (u0, q0, eu, _) = update_all-origin j f ts u q keeps in
      v.distinct i j t0 u0 p0 q0 (et ∙ h ∙ sym eu);
  idle =
      let (i, t, p, z, w) = v.idle in
      (
        i,
        f t,
        task_at-update_all i f ts ∙ ap (map_option f) p,
        (keeps t).0 ∙ z,
        rw ((keeps t).1) w,
      );
}

all-count :
    (f : Task → Task) (ts : Table) → Keeps f → count_runnable (update_all f ts) ≡ count_runnable ts
all-count f ts keeps = count_runnable-update_all f ts (λ t. alike t (f t) (keeps t).0 (keeps t).1)

-- Nothing but parents changes in every task.
pub all-IsConsistent :
    (k k' : Kernel) (f : Task → Task)
    → IsConsistent k
    → Keeps f
    → k'.tasks ≡ update_all f k.tasks
    → k'.current_pid ≡ k.current_pid
    → k'.runnable_count ≡ k.runnable_count
    → IsConsistent k'
all-IsConsistent k k' f v keeps a b c = record {
  table = rw a (all-IsTable f k.tasks keeps v.table);
  counted = c ∙ v.counted ∙ sym (all-count f k.tasks keeps) ∙ ap count_runnable (sym a);
  only_current = λ i t p r.
      let (u, q, e, s) = update_all-origin i f k.tasks t (ap (task_at i) (sym a) ∙ p) keeps in
      b ∙ v.only_current i u q (s ∙ r) ∙ ap some e;
}

pub orphan-keeps :
    (pid : ℕ) (t : Task) → ((orphan pid t).pid ≡ t.pid) × ((orphan pid t).state ≡ t.state)
orphan-keeps pid t = ground arith
