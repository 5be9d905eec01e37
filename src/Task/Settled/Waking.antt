-- ===== src/Task/Settled/Waking.antt =====
-- `wake_uart` of src/kernel/task.rs keeps the invariant of every trap.
use nek_os.Base.{
  ℕ, suc, ◌+◌, ◌<◌, ◌^◌, Bool, false, ◌&&◌, Option, none, some, [], ◌∷◌, if◌then◌else◌, length, ◌≡◌,
  refl, sym, ap, ◌∙◌, ◌≢◌, inl, inr, arith, Option-cases,
}
use nek_os.Task.{
  Task, Table, Kernel, running, sleeping, task_at, update_all, idle_pid, is_sleeping, one_more,
}
use nek_os.Trap.{TrapFrame}
use nek_os.Task.Exit.{awaken}
use nek_os.Task.Uart.{wake_uart, wake_all, waits_for_uart}
use nek_os.Task.Table.{
  runnable, count_runnable, count_runnable-le, task_at-update_all, length-update_all,
}
use nek_os.Task.Runnable.{IsTable, IsSound, IsAwake, idle_awake}
use nek_os.Task.Slots.{SamePids, at_all}
use nek_os.Task.Quiet.{IsReceiving, Quiet}
use nek_os.Task.Settled.{IsSettled, Quiet-IsSettled}

-- What the loop of `wake_uart` does to a task.
abbrev wake_one : Task → Task
wake_one t = if is_sleeping t.state && waits_for_uart t.waiting_for then awaken t else t

wake_all-tasks :
    (ts : Table) (frames : ℕ → TrapFrame) (n : ℕ) (woke : Bool)
    → (wake_all ts frames n woke).tasks ≡ update_all wake_one ts
unfolding wake_all update_all
wake_all-tasks [] frames n woke = refl
wake_all-tasks (none ∷ ts) frames n woke = ap (λ us. none ∷ us) (wake_all-tasks ts frames n woke)
wake_all-tasks (some t ∷ ts) frames n woke =
    ap (λ us. some (wake_one t) ∷ us) (wake_all-tasks ts _ _ _)

-- No task that sleeps is the idle task.
abbrev IdleIsUp : Table → Type 0
IdleIsUp ts = (i : ℕ) (t : Task) → task_at i ts ≡ some t → t.state ≡ sleeping → t.pid ≢ idle_pid

wake_one-runnable :
    (t : Task) (n : ℕ)
    → (t.state ≡ sleeping → t.pid ≢ idle_pid)
    → n + 1 < 2 ^ 32
    → (if is_sleeping t.state && waits_for_uart t.waiting_for then one_more n else n) + runnable t
      ≡ n + runnable (wake_one t)
unfolding runnable
wake_one-runnable t n up small = ground arith

tail_up : (s : Option Task) (ts : Table) → IdleIsUp (s ∷ ts) → IdleIsUp ts
unfolding task_at
tail_up s ts h i t e = h (suc i) t e

head_up : (t : Task) (ts : Table) → IdleIsUp (some t ∷ ts) → t.state ≡ sleeping → t.pid ≢ idle_pid
unfolding task_at
head_up t ts h = h 0 t refl

wake_small :
    (t : Task) (n m : ℕ)
    → n + suc m < 2 ^ 32
    → (if is_sleeping t.state && waits_for_uart t.waiting_for then one_more n else n) + m < 2 ^ 32
wake_small t n m h = ground arith

wake_all-count :
    (ts : Table) (frames : ℕ → TrapFrame) (n : ℕ) (woke : Bool)
    → n + length ts < 2 ^ 32
    → IdleIsUp ts
    → (wake_all ts frames n woke).runnable_count + count_runnable ts
      ≡ n + count_runnable (update_all wake_one ts)
unfolding wake_all update_all count_runnable
wake_all-count [] frames n woke small up = omega arith
wake_all-count (none ∷ ts) frames n woke small up =
    wake_all-count ts frames n woke (omega arith) (tail_up none ts up)
wake_all-count (some t ∷ ts) frames n woke small up =
    let n' = if is_sleeping t.state && waits_for_uart t.waiting_for then one_more n else n in
    sums (wake_all ts _ n' _).runnable_count (count_runnable ts)
      (count_runnable (update_all wake_one ts)) (runnable t) (runnable (wake_one t)) n' n
      (wake_one-runnable t n (head_up t ts up) (omega arith))
      (wake_all-count ts _ n' _ (wake_small t n (length ts) small) (tail_up (some t) ts up))
  where
    sums : (a b c x y m n : ℕ) → m + x ≡ n + y → a + b ≡ m + c → a + (x + b) ≡ n + (y + c)
    sums a b c x y m n p q = omega arith

woken_from :
    (i : ℕ) (ts : Table) (u : Task)
    → task_at i (update_all wake_one ts) ≡ some u
    → (t : Task) × (task_at i ts ≡ some t) × (u ≡ wake_one t)
woken_from i ts u e = elim (Option-cases (task_at i ts)) [
  | inl q ↦ ground (arith, task_at-update_all i wake_one ts)
  | inr (t, q) ↦ (t, q, ground (arith, task_at-update_all i wake_one ts))
]

wake_one-pid : (t : Task) → (wake_one t).pid ≡ t.pid
wake_one-pid t = ground arith

wake_one-running : (t : Task) → (wake_one t).state ≡ running → t.state ≡ running
wake_one-running t h = ground arith

wake_one-runs : (t : Task) → t.state ≡ running → wake_one t ≡ t
wake_one-runs t h = rw h refl

wake_one-IsAwake : (t : Task) → IsAwake t.state → IsAwake (wake_one t).state
wake_one-IsAwake t h = ground arith

wake_one-receives : (e : ℕ) (t : Task) → IsReceiving e t → wake_one t ≡ t
wake_one-receives e t (s, w) = rw (s, w) refl

up_of : (ts : Table) → IsTable ts → IdleIsUp ts
up_of ts v i t e s z = asleep (idle_awake ts i t v e z)
  where
    asleep : IsAwake t.state → ⊥
    asleep h = ground arith

woken_pids : (ts : Table) → SamePids ts (update_all wake_one ts)
woken_pids ts x u e =
    let (t, p, q) = woken_from x ts u e in
    (t, p, sym (wake_one-pid t) ∙ ap (λ (y : Task). y.pid) (sym q))

wake_uart-Quiet : (k : Kernel) → Quiet k (wake_uart k).1
unfolding wake_uart
wake_uart-Quiet k =
    let same = wake_all-tasks k.tasks k.frames k.runnable_count false in
    record {
      pids = rw same (woken_pids k.tasks);
      sleep_on = λ e i t n p r. (
        wake_one t,
        rw same (at_all i wake_one k.tasks t p),
        wake_one-pid t,
        rw (wake_one-receives e t r) r,
      );
      endpoints = refl;
      next_pid = refl;
    }

woken-IsTable : (ts : Table) → IsTable ts → IsTable (update_all wake_one ts)
woken-IsTable ts v = record {
  slots = omega (arith, v.slots, length-update_all wake_one ts);
  distinct = λ i j t u p q h.
      let (t0, p0, et) = woken_pids ts i t p in
      let (u0, q0, eu) = woken_pids ts j u q in v.distinct i j t0 u0 p0 q0 (et ∙ h ∙ sym eu);
  idle =
      let (i, t, p, z, w) = v.idle in
      (i, wake_one t, at_all i wake_one ts t p, wake_one-pid t ∙ z, wake_one-IsAwake t w);
}

wake_uart-IsSound : (k : Kernel) → IsSound k → IsSound (wake_uart k).1
unfolding wake_uart
wake_uart-IsSound k v =
    let same = wake_all-tasks k.tasks k.frames k.runnable_count false in
    let c = v.consistent in
    let small = count_runnable-le k.tasks in
    let counts =
      wake_all-count k.tasks k.frames k.runnable_count false
        (omega (arith, c.counted, small, c.table.slots)) (up_of k.tasks c.table) in
    record {
      consistent = record {
        table = rw same (woken-IsTable k.tasks c.table);
        counted = rw same (total c.counted counts);
        only_current = λ i u p r.
            let (t, q, e) = woken_from i k.tasks u (rw same at p) in
            c.only_current i t q (wake_one-running t (ap (λ (x : Task). x.state) (sym e) ∙ r))
            ∙ ap some (sym (wake_one-pid t) ∙ ap (λ (x : Task). x.pid) (sym e));
      };
      current_runs =
          let (i, t, p, d, r) = v.current_runs in
          (i, t, rw same (at_all i wake_one k.tasks t p ∙ ap some (wake_one-runs t r)), d, r);
    }
  where
    total : {a b n m : ℕ} → n ≡ b → m + b ≡ n + a → m ≡ a
    total p q = omega arith

pub wake_uart-IsSettled : (k : Kernel) → IsSettled k → IsSettled (wake_uart k).1
wake_uart-IsSettled k v =
    Quiet-IsSettled k (wake_uart k).1 (wake_uart-Quiet k) (wake_uart-IsSound k v.sound) v
