-- ===== src/Task/Blocking.antt =====
-- `wait_uart_irq` and `ipc_call` of src/kernel/task.rs, which put the caller to sleep, keep the
-- invariant of the task manager.
use nek_os.Base.{
  ℕ, Bool, true, false, ◌||◌, Option, none, some, ◌==◌, opt_eq, not, and_then, ◌≡◌, refl, sym, ap,
  ◌∙◌, ◌≢◌, inl, inr, arith, Bool-cases, Option-cases, ==_iff,
}
use native.Mathlib.Decide.{ℕ_discrete}
use nek_os.Ipc.{Words, Endpoint, panicked, is_full}
use nek_os.Plic.{enable, uart0_irq}
use nek_os.Task.{
  Task, Kernel, WaitChannel, ipc_call, uart_rx, sleeping, position, task_at, idle_pid, has_pid,
  current_index,
}
use nek_os.Task.Sched.{sleep_at, slot_holds}
use nek_os.Task.Message.{send, hand_on, deliver, enqueue, endpoint_at}
use nek_os.Task.Uart.{wait_uart_irq}
use nek_os.Task.Table.{position-Found, position-none, task_at-update_at}
use nek_os.Task.Runnable.{IsConsistent, IsSound}
use nek_os.Task.Sound.{schedule-IsSound}
use nek_os.Task.Keep.{sleep_at-IsConsistent, awaken-IsConsistent}
use nek_os.Task.Everyone.{same-IsConsistent}

-- `wait_uart_irq` keeps the invariant of the task manager: only the UART's owner sleeps, and the idle
-- task never does.
pub wait_uart_irq-IsSound : (tf : ℕ) (k : Kernel) → IsSound k → IsSound (wait_uart_irq tf k).1
unfolding wait_uart_irq
wait_uart_irq-IsSound tf k v =
    elim (Bool-cases
      (opt_eq k.current_pid (some idle_pid) || not (opt_eq k.current_pid k.uart_owner))) [
        | inl h ↦ rw (h, wait_uart_irq) v
        | inr h ↦ elim (Option-cases (current_index k)) [
          | inl q ↦ rw (h, wait_uart_irq, q) v
          | inr (i, q) ↦
              let k1 = sleep_at i uart_rx tf k in
              let k2 : Kernel = record k1 { plic = enable uart0_irq k1.plic } in
              rw (h, wait_uart_irq, q)
                (schedule-IsSound tf k2 (
                  same-IsConsistent k1 k2 refl refl refl
                    (sleep_at-IsConsistent k i tf uart_rx v (busy k.current_pid _ h) q)))
        ]
      ]
  where
    busy : (o : Option ℕ) (b : Bool) → (opt_eq o (some idle_pid) || b) ≡ false → o ≢ some idle_pid
    busy o b h q = ground arith

-- The receiver that an endpoint says is waiting is there, asleep.
abbrev pub HasReceiver : Endpoint → Kernel → Type 0
HasReceiver ep k =
    ep.waiting_receiver ≡ some ep.owner
    → (j : ℕ) × (t : Task) × (task_at j k.tasks ≡ some t)
      × (t.pid ≡ ep.owner)
      × (t.state ≡ sleeping)

-- A task that sleeps still does so when another task goes to sleep.
sleeps_on :
    (k : Kernel) (i tf : ℕ) (c : WaitChannel) (j : ℕ) (t : Task)
    → task_at j k.tasks ≡ some t
    → t.state ≡ sleeping
    → (u : Task) × (task_at j (sleep_at i c tf k).tasks ≡ some u)
      × (u.pid ≡ t.pid)
      × (u.state ≡ sleeping)
unfolding sleep_at
sleeps_on k i tf c j t p s = elim (Option-cases (task_at i k.tasks)) [
  | inl q ↦ rw (q, sleep_at) (t, p, refl, s)
  | inr (w, q) ↦ elim (ℕ_discrete i j) [
    | yes e ↦
        rw (q, sleep_at)
          (
            record t { state = sleeping; waiting_for = some c },
            ground (
              arith,
              task_at-update_at i j (λ u. record u { state = sleeping; waiting_for = some c })
                  k.tasks,
            ),
            refl,
            refl,
          )
    | no ne ↦
        rw (q, sleep_at)
          (
            t,
            ground (
              arith,
              task_at-update_at i j (λ u. record u { state = sleeping; waiting_for = some c })
                  k.tasks,
            ),
            refl,
            s,
          )
  ]
]

deliver-IsConsistent :
    (r e : ℕ) (ep : Endpoint) (sender : ℕ) (words : Words) (k : Kernel)
    → IsConsistent k
    → (u : Task) × (task_at r k.tasks ≡ some u) × (u.state ≡ sleeping)
    → IsConsistent (deliver r e ep sender words k)
unfolding deliver
deliver-IsConsistent r e ep sender words k v (u, p, s) =
    rw (p, deliver) (awaken-IsConsistent k _ r u v p s refl refl refl)

hand_on-IsSound :
    (e : ℕ) (ep : Endpoint) (sender : ℕ) (words : Words) (tf : ℕ) (k : Kernel)
    → IsConsistent k
    → HasReceiver ep k
    → IsSound (hand_on e ep sender words tf k).1 × ((hand_on e ep sender words tf k).0 ≢ panicked)
unfolding hand_on
hand_on-IsSound e ep sender words tf k v there =
    elim (Bool-cases (opt_eq ep.waiting_receiver (some ep.owner))) [
      | inr h ↦
          rw (h, hand_on)
            (
              schedule-IsSound tf (enqueue e ep sender words k)
                  (same-IsConsistent k (enqueue e ep sender words k) refl refl refl v),
              λ x. cc,
            )
      | inl h ↦
          let (j, t, p, z, s) = there (waiting ep.waiting_receiver ep.owner h) in
          elim (Option-cases (position (has_pid ep.owner) k.tasks)) [
            | inl q ↦ absurd (
                missing t ep.owner z (
                  ap (slot_holds (has_pid ep.owner)) (sym p)
                  ∙ position-none (has_pid ep.owner) k.tasks j q))
            | inr (r, q) ↦
                rw (h, hand_on, q)
                  (
                    schedule-IsSound tf (deliver r e ep sender words k)
                        (deliver-IsConsistent r e ep sender words k v (found r j t q p z s)),
                    λ x. cc,
                  )
          ]
    ]
  where
    waiting : (o : Option ℕ) (a : ℕ) → opt_eq o (some a) ≡ true → o ≡ some a
    waiting none a h = cc
    waiting (some b) a h = ap some ((==_iff b a).0 h)

    missing : (t : Task) (a : ℕ) → t.pid ≡ a → has_pid a t ≡ false → ⊥
    missing t a z h = ground arith

    found :
        (r j : ℕ) (t : Task)
        → position (has_pid ep.owner) k.tasks ≡ some r
        → task_at j k.tasks ≡ some t
        → t.pid ≡ ep.owner
        → t.state ≡ sleeping
        → (u : Task) × (task_at r k.tasks ≡ some u) × (u.state ≡ sleeping)
    found r j t q p z s =
        let f = position-Found (has_pid ep.owner) k.tasks r q in
        let same =
          v.table.distinct r j f.task t f.here p ((==_iff f.task.pid ep.owner).0 f.holds ∙ sym z) in
        (t, ap (λ (x : ℕ). task_at x k.tasks) same ∙ p, s)

-- `ipc_call` keeps the invariant of the task manager and does not panic, where a task other than the
-- idle task calls it and the receiver that the endpoint says is waiting is there, asleep.
pub send-IsSound :
    (e : ℕ) (words : Words) (tf : ℕ) (k : Kernel)
    → k.current_pid ≢ some idle_pid
    → ((ep : Endpoint) → endpoint_at e k.endpoints ≡ some ep → HasReceiver ep k)
    → IsSound k
    → IsSound (send e words tf k).1 × ((send e words tf k).0 ≢ panicked)
unfolding send
send-IsSound e words tf k busy there v = elim (Option-cases k.current_pid) [
  | inl c ↦ rw (c, send) (v, λ x. cc)
  | inr (sender, c) ↦ elim (Option-cases (endpoint_at e k.endpoints)) [
    | inl p ↦ rw (c, send, p) (v, λ x. cc)
    | inr (ep, p) ↦ elim (Bool-cases (sender == ep.owner || is_full ep.pending)) [
      | inl h ↦ rw (c, send, p, h) (v, λ x. cc)
      | inr h ↦ elim (Option-cases (position (has_pid sender) k.tasks)) [
        | inl q ↦ rw (c, send, p, h, q) (v, λ x. cc)
        | inr (i, q) ↦
            let index =
              ap (λ (o : Option ℕ). and_then o (λ pid. position (has_pid pid) k.tasks)) c ∙ q in
            rw (c, send, p, h, q)
              (hand_on-IsSound e ep sender words tf (sleep_at i (ipc_call e) tf k)
                (sleep_at-IsConsistent k i tf (ipc_call e) v busy index)
                (λ w.
                  (let (j, t, a, z, s) = there ep p w in
                    let (u, b, y, r) = sleeps_on k i tf (ipc_call e) j t a s in
                    (j, u, b, y ∙ z, r))))
      ]
    ]
  ]
]
