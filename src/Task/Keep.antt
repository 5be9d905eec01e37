-- ===== src/Task/Keep.antt =====
-- The operations of src/kernel/task.rs that block or wake a task keep the invariant of the task
-- manager: `waitpid`, `ipc_recv`, `ipc_reply` and `wait_uart_irq`.
use nek_os.Base.{
  ℕ, ◌+◌, ◌≤◌, ◌<◌, Bool, true, ◌&&◌, some, ◌==◌, ◌≡◌, refl, sym, ap, ◌∙◌, ◌≢◌, inl, inr, arith,
  Bool-cases, Option-cases,
}
use nek_os.Ipc.{Words, Endpoint, pop}
use nek_os.Task.{
  Task, Table, Kernel, TaskState, WaitChannel, ipc_recv, running, sleeping, position, task_at,
  update_at, idle_pid, has_pid, current_index, is_sleeping, one_more, one_less,
}
use nek_os.Task.Sched.{sleep_at}
use nek_os.Task.Exit.{awaken}
use nek_os.Task.Message.{
  receive, wait_for_message, set_endpoint, reply, endpoint_at, owned_by, calls_endpoint,
}
use nek_os.Task.Table.{
  runnable, count_runnable, count_runnable-le, count_runnable-update_at, task_at-update_at,
}
use nek_os.Task.Runnable.{IsAwake, IsConsistent, IsSound, idle_awake}
use nek_os.Task.Sound.{update-IsConsistent, schedule-IsSound, current_slot}

-- The current task and its slot.
pub current_task :
    (k : Kernel) (i : ℕ)
    → IsSound k
    → current_index k ≡ some i
    → (t : Task) × (task_at i k.tasks ≡ some t) × (k.current_pid ≡ some t.pid) × (t.state ≡ running)
current_task k i v e =
    let (t, p, c) = current_slot k i e in
    let (j, u, q, d, r) = v.current_runs in
    let same : t.pid ≡ u.pid = cc in
    let eq : i ≡ j = v.consistent.table.distinct i j t u p q same in
    let tu : t ≡ u = cc in (t, p, c, ap (λ (x : Task). x.state) tu ∙ r)

sleep-runnable :
    (c : WaitChannel) (t : Task)
    → t.state ≡ running
    → t.pid ≢ idle_pid
    → (runnable t ≡ 1) × (runnable (record t { state = sleeping; waiting_for = some c }) ≡ 0)
unfolding runnable
sleep-runnable c t r z = ground arith

enough :
    (ts : Table) (i : ℕ) (f : Task → Task) (t : Task) {n : ℕ}
    → task_at i ts ≡ some t
    → runnable t ≡ 1
    → runnable (f t) ≡ 0
    → n ≡ count_runnable ts
    → 0 < n
enough ts i f t p a b e = omega (arith, count_runnable-update_at i f ts t p)

-- The current task, if it is not the idle task, may go to sleep.
pub sleep_at-IsConsistent :
    (k : Kernel) (i tf : ℕ) (c : WaitChannel)
    → IsSound k
    → k.current_pid ≢ some idle_pid
    → current_index k ≡ some i
    → IsConsistent (sleep_at i c tf k)
unfolding sleep_at
sleep_at-IsConsistent k i tf c v busy e =
    let (t, p, d, r) = current_task k i v e in
    let z : t.pid ≢ idle_pid = λ q. busy (d ∙ ap some q) in
    let (one, none_left) = sleep-runnable c t r z in
    let awake : 0 < k.runnable_count =
      enough k.tasks i (λ u. record u { state = sleeping; waiting_for = some c }) t p one none_left
        v.consistent.counted in
    rw (p, sleep_at)
      (update-IsConsistent k _ i (λ u. record u { state = sleeping; waiting_for = some c }) t
        v.consistent p (λ u. refl) (λ q. absurd (z q)) refl (less one none_left awake) (λ q. cc)
        (λ j u ne q s. v.consistent.only_current j u q s))
  where
    less : {a b n : ℕ} → a ≡ 1 → b ≡ 0 → 0 < n → one_less n + a ≡ n + b
    less p q h = ground arith

-- A change that leaves the table, the current pid and the count alone.
pub same-IsSound :
    (k k' : Kernel)
    → k'.tasks ≡ k.tasks
    → k'.current_pid ≡ k.current_pid
    → k'.runnable_count ≡ k.runnable_count
    → IsSound k
    → IsSound k'
same-IsSound k k' a b c v = record {
  consistent = record {
    table = rw a v.consistent.table;
    counted = rw (a, c) v.consistent.counted;
    only_current = λ i t p r. b ∙ v.consistent.only_current i t (rw a at p) r;
  };
  current_runs = let (i, t, p, q, r) = v.current_runs in (i, t, rw a p, b ∙ q, r);
}

waking :
    (t : Task)
    → t.state ≡ sleeping
    → t.pid ≢ idle_pid
    → (runnable t ≡ 0) × (runnable (awaken t) ≡ 1)
unfolding runnable
waking t r z = ground arith

-- A sleeping task becomes ready; the count does not wrap, as there are 16 slots.
pub awaken-IsConsistent :
    (k k' : Kernel) (i : ℕ) (t : Task)
    → IsConsistent k
    → task_at i k.tasks ≡ some t
    → t.state ≡ sleeping
    → k'.tasks ≡ update_at i awaken k.tasks
    → k'.current_pid ≡ k.current_pid
    → k'.runnable_count ≡ one_more k.runnable_count
    → IsConsistent k'
awaken-IsConsistent k k' i t v p r a b c =
    let z : t.pid ≢ idle_pid = λ q. dozing (idle_awake k.tasks i t v.table p q) in
    let (zero_now, one_then) = waking t r z in
    let small : k.runnable_count ≤ 16 =
      omega (arith, v.counted, count_runnable-le k.tasks, v.table.slots) in
    update-IsConsistent k k' i awaken t v p (λ u. refl) (λ q. absurd (z q)) a
      (more zero_now one_then small c) (λ q. cc) (λ j u ne q s. b ∙ v.only_current j u q s)
  where
    dozing : IsAwake t.state → ⊥
    dozing h = ground arith

    more : {x y n m : ℕ} → x ≡ 0 → y ≡ 1 → n ≤ 16 → m ≡ one_more n → m + x ≡ n + y
    more e f l g = omega arith

pub awaken-IsSound :
    (k k' : Kernel) (i : ℕ) (t : Task)
    → IsSound k
    → task_at i k.tasks ≡ some t
    → t.state ≡ sleeping
    → k'.tasks ≡ update_at i awaken k.tasks
    → k'.current_pid ≡ k.current_pid
    → k'.runnable_count ≡ one_more k.runnable_count
    → IsSound k'
awaken-IsSound k k' i t v p r a b c =
    let (j, u, q, d, s) = v.current_runs in
    let other : i ≢ j =
      λ e. (let tu : t ≡ u = cc in clash (sym r ∙ ap (λ (x : Task). x.state) tu ∙ s)) in
    record {
      consistent = awaken-IsConsistent k k' i t v.consistent p r a b c;
      current_runs =
          (j, u, ap (task_at j) a ∙ ground (arith, task_at-update_at i j awaken k.tasks), b ∙ d, s);
    }
  where
    clash : sleeping ≡ running → ⊥
    clash h = cc

-- `ipc_reply` keeps the invariant, whatever pid and words it is called with.
pub reply-IsSound :
    (client : ℕ) (words : Words) (k : Kernel) → IsSound k → IsSound (reply client words k).1
unfolding reply
reply-IsSound client words k v = elim (Option-cases k.current_pid) [
  | inl e ↦ rw (e, reply) v
  | inr (replier, e) ↦ elim (Option-cases (position (has_pid client) k.tasks)) [
    | inl q ↦ rw (e, reply, q) v
    | inr (i, q) ↦ elim (Option-cases (task_at i k.tasks)) [
      | inl p ↦ rw (e, reply, q, p) v
      | inr (t, p) ↦ elim (Option-cases (calls_endpoint t.waiting_for)) [
        | inl c ↦ rw (e, reply, q, p, c) v
        | inr (ep, c) ↦
            elim (Bool-cases
              (owned_by replier (endpoint_at ep k.endpoints) && is_sleeping t.state)) [
                | inl h ↦
                    rw (e, reply, q, p, c, h)
                      (awaken-IsSound k _ i t v p (asleep (owned_by replier _) t.state h) refl refl
                        refl)
                | inr h ↦ rw (e, reply, q, p, c, h) v
              ]
      ]
    ]
  ]
]
  where
    asleep : (b : Bool) (s : TaskState) → (b && is_sleeping s) ≡ true → s ≡ sleeping
    asleep b s h = ground arith

wait_for_message-IsSound :
    (e : ℕ) (ep : Endpoint) (r tf : ℕ) (k : Kernel)
    → k.current_pid ≢ some idle_pid
    → IsSound k
    → IsSound (wait_for_message e ep r tf k).1
unfolding wait_for_message
wait_for_message-IsSound e ep r tf k busy v =
    let k1 : Kernel = set_endpoint e (record ep { waiting_receiver = some r }) k in
    let v1 : IsSound k1 = same-IsSound k k1 refl refl refl v in
    elim (Option-cases (current_index k1)) [
      | inl q ↦ rw (q, wait_for_message) v1
      | inr (i, q) ↦
          rw (q, wait_for_message)
            (schedule-IsSound tf (sleep_at i (ipc_recv e) tf k1)
              (sleep_at-IsConsistent k1 i tf (ipc_recv e) v1 busy q))
    ]

-- `ipc_recv` keeps the invariant where the idle task does not call it.
pub receive-IsSound :
    (e tf : ℕ) (k : Kernel) → k.current_pid ≢ some idle_pid → IsSound k → IsSound (receive e tf k).1
unfolding receive
receive-IsSound e tf k busy v = elim (Option-cases k.current_pid) [
  | inl c ↦ rw (c, receive) v
  | inr (r, c) ↦ elim (Option-cases (endpoint_at e k.endpoints)) [
    | inl p ↦ rw (c, receive, p) v
    | inr (ep, p) ↦ elim (Bool-cases (r == ep.owner)) [
      | inr h ↦ rw (c, receive, p, h) v
      | inl h ↦ elim (Option-cases (pop ep.pending).0) [
        | inr (m, q) ↦ rw (c, receive, p, h, q) (same-IsSound k _ refl refl refl v)
        | inl q ↦ rw (c, receive, p, h, q) (wait_for_message-IsSound e ep r tf k busy v)
      ]
    ]
  ]
]
